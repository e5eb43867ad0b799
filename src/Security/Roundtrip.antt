-- ===== src/Security/Roundtrip.antt =====
-- Signing a token and verifying it.
use super_wallet.Base.{
  ◌≡◌, refl, ap, ◌∙◌, ℕ, String, str_eq, ◌+◌, ◌*◌, ◌/◌, ltb, Bool, true, false, none, some, [], ◌∷◌,
  if◌then◌else◌, eq_refl,
}
use super_wallet.Base.Int.{pos}
use super_wallet.Db.{pure, Timestamp, Db, Json, Value, num, ok}
use super_wallet.Security.{Platform}
use super_wallet.Security.Tokens.{
  check_loaded, get, put, microseconds, sign_token, verify_token, check_parts, check_signature,
  check_body, unexpired, is_expired,
}

if_both : {A : Type 0} (b : Bool) (x : A) → (if b then x else x) ≡ x
if_both true x = refl
if_both false x = refl

module _ (key : String) (value : Value) where
  get-if :
      (b : Bool) (k : String) (v : Value) (rest later : Json)
      → str_eq k key ≡ b
      → get later key ≡ some value
      → get (if b then (k, value) ∷ rest else (k, v) ∷ later) key ≡ some value
  unfolding get
  get-if true k v rest later e h = ap (λ c. if c then some value else get rest key) e
  get-if false k v rest later e h = ap (λ c. if c then some v else get later key) e ∙ h

  -- A key that was put has the value that it was given.
  pub get-put : (payload : Json) → get (put payload key value) key ≡ some value
  unfolding put get
  get-put [] = ap (λ b. if b then some value else none) (eq_refl key)
  get-put ((k, v) ∷ rest) = get-if (str_eq k key) k v rest (put rest key value) refl (get-put rest)

-- The process that meets the token later.
abbrev pub at_time : Platform → Timestamp → Platform
at_time p now = record p { utc_now = now }

abbrev pub expiry : Platform → ℕ → ℕ
expiry p seconds = p.utc_now / microseconds + seconds

abbrev pub signed_body : Platform → Json → ℕ → Json
signed_body p payload seconds = put payload "exp" (num (pos (expiry p seconds)))

abbrev pub body_part : Platform → Json → ℕ → String
body_part p payload seconds = p.urlsafe_b64encode (p.json_dumps (signed_body p payload seconds))

abbrev pub signature_part : Platform → Json → ℕ → String
signature_part p payload seconds =
    p.urlsafe_b64encode (p.hmac_sha256 p.signing_key (body_part p payload seconds))

unexpired-if :
    (b : Bool) (body : Json) (db : Db)
    → unexpired (some b) body db ≡ (ok (if b then none else some body), db)
unexpired-if true body db = refl
unexpired-if false body db = refl

unexpired_lem :
    (p : Platform) (payload : Json) (seconds now : ℕ) (db : Db)
    → check_loaded (at_time p now) (some (signed_body p payload seconds)) db ≡ (
      ok (
          if ltb (expiry p seconds * microseconds) now
          then none
          else some (signed_body p payload seconds)),
      db,
    )
unfolding get
unexpired_lem p payload seconds now db =
    let body = signed_body p payload seconds in
    ap (λ o. unexpired (is_expired now o) body db)
      (get-put "exp" (num (pos (expiry p seconds))) payload)
    ∙ unexpired-if (ltb (expiry p seconds * microseconds) now) body db

-- A token that was signed is verified, with the payload and the time of its expiry, by a process
-- that has the same key, up to that time; after it, it is refused. What is assumed of the packages:
-- base64 and JSON decode what they encoded, and the token splits at the one dot that was put there.
pub verify_token-sign_token :
    (p : Platform) (payload : Json) (seconds now : ℕ) (db : Db)
    → ((bytes : String) → p.urlsafe_b64decode (p.urlsafe_b64encode bytes) ≡ some bytes)
    → p.json_loads (p.json_dumps (signed_body p payload seconds))
      ≡ some (signed_body p payload seconds)
    → p.split_dots (sign_token p payload seconds)
      ≡ body_part p payload seconds ∷ signature_part p payload seconds ∷ []
    → verify_token (at_time p now) (sign_token p payload seconds) db ≡ (
      ok (
          if ltb (expiry p seconds * microseconds) now
          then none
          else some (signed_body p payload seconds)),
      db,
    )
unfolding verify_token
verify_token-sign_token p payload seconds now db b64 json split =
    let q = at_time p now in
    let body_b64 = body_part p payload seconds in
    let signature = p.hmac_sha256 p.signing_key body_b64 in
    let body_json = p.json_dumps (signed_body p payload seconds) in
    ap (λ l. check_parts q l db) split
    ∙ ap (λ o. check_signature q body_b64 o db) (b64 signature)
    ∙ ap (λ b. (if b then check_body q (p.urlsafe_b64decode body_b64) else pure none) db)
        (eq_refl signature)
    ∙ ap (λ o. check_body q o db) (b64 body_json)
    ∙ ap (λ o. check_loaded q o db) json
    ∙ unexpired_lem p payload seconds now db
