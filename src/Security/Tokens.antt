-- ===== src/Security/Tokens.antt =====
-- The signed tokens of app/core/security.py.
use super_wallet.Base.{
  ℕ, String, str_eq, ◌+◌, ◌*◌, ◌/◌, ltb, Bool, true, false, Option, none, some, List, [], ◌∷◌,
  if◌then◌else◌,
}
use super_wallet.Base.Int.{pos, negsuc}
use super_wallet.Db.{pure, raise, Action, Json, Value, num}
use super_wallet.Security.{Platform}
use Prim.Native.String.{◌++◌ as append}
use super_wallet.Errors.{value_error, type_error}

abbrev pub microseconds : ℕ
microseconds = 1000000

-- `payload.get(key)`
unfoldable pub get : Json → String → Option Value
get [] key = none
get ((k, v) ∷ rest) key = let later = get rest key in if str_eq k key then some v else later

-- `{**payload, key: value}`
unfoldable pub put : Json → String → Value → Json
put [] key value = (key, value) ∷ []
put ((k, v) ∷ rest) key value =
    let later = put rest key value in if str_eq k key then (k, value) ∷ rest else (k, v) ∷ later

-- `urlsafe_b64encode` leaves out the padding here, and `urlsafe_b64decode` adds it again.
unfoldable pub sign_token : Platform → Json → ℕ → String
sign_token p payload expires_in_seconds =
    let body = put payload "exp" (num (pos (p.utc_now / microseconds + expires_in_seconds))) in
    let body_b64 = p.urlsafe_b64encode (p.json_dumps body) in
    let sig_b64 = p.urlsafe_b64encode (p.hmac_sha256 p.signing_key body_b64) in
    append body_b64 (append "." sig_b64)

-- `body.get("exp", 0) < time.time()`, where a text or a list cannot be compared.
abbrev pub is_expired : ℕ → Option Value → Option Bool
is_expired now none = some (ltb 0 now)
is_expired now (some (num (pos exp))) = some (ltb (exp * microseconds) now)
is_expired now (some (num (negsuc _))) = some true
is_expired now (some _) = none

abbrev pub unexpired : Option Bool → Json → Action (Option Json)
unexpired none body = raise type_error
unexpired (some true) body = pure none
unexpired (some false) body = pure (some body)

abbrev pub check_loaded : Platform → Option Json → Action (Option Json)
check_loaded p none = pure none
check_loaded p (some body) = unexpired (is_expired p.utc_now (get body "exp")) body

abbrev pub check_body : Platform → Option String → Action (Option Json)
check_body p none = pure none
check_body p (some body_json) = check_loaded p (p.json_loads body_json)

abbrev pub check_signature : Platform → String → Option String → Action (Option Json)
check_signature p body_b64 none = raise value_error
check_signature p body_b64 (some actual_sig) =
    if str_eq (p.hmac_sha256 p.signing_key body_b64) actual_sig
    then check_body p (p.urlsafe_b64decode body_b64)
    else pure none

-- `body_b64, sig_b64 = token.split(".")`
abbrev pub check_parts : Platform → List String → Action (Option Json)
check_parts p (body_b64 ∷ sig_b64 ∷ []) = check_signature p body_b64 (p.urlsafe_b64decode sig_b64)
check_parts p _ = pure none

-- The signature is decoded outside of every `try`, so what is no base64 raises.
unfoldable pub verify_token : Platform → String → Action (Option Json)
verify_token p token = check_parts p (p.split_dots token)
