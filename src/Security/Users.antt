-- ===== src/Security/Users.antt =====
-- app/users/security.py: passwords, purposes, lifetimes and the lockout.
use super_wallet.Security.Encryption.{encrypt_value, decrypt_value}
use super_wallet.Base.{
  zero, suc, map, ℕ, String, str_eq, ◌+◌, ◌*◌, leb, Bool, true, false, Option, none, some, List, [],
  ◌∷◌, if◌then◌else◌,
}
use super_wallet.Db.{Json, Value, text, uuid, Uuid, Timestamp, Action, pure, raise, ◌>>=◌}
use super_wallet.Errors.{value_error}
use super_wallet.Security.{Platform, Verification}
use super_wallet.Security.Tokens.{get, microseconds, sign_token, verify_token}

unfoldable pub hash_password : Platform → String → String
hash_password p plain_password = p.argon2_hash plain_password

abbrev pub verified : Verification → Action Bool
verified Verification.matches = pure true
verified Verification.mismatch = pure false
verified Verification.invalid_hash = raise value_error

unfoldable pub verify_password : Platform → String → String → Action Bool
verify_password p plain_password hashed_password =
    verified (p.argon2_verify hashed_password plain_password)

unfoldable pub needs_rehash : Platform → String → Bool
needs_rehash p hashed_password = p.argon2_check_needs_rehash hashed_password

abbrev pub access_token_ttl_seconds : ℕ
access_token_ttl_seconds = 15 * 60

abbrev pub email_verification_ttl_seconds : ℕ
email_verification_ttl_seconds = 24 * 60 * 60

abbrev pub password_reset_ttl_seconds : ℕ
password_reset_ttl_seconds = 30 * 60

unfoldable pub create_access_token : Platform → Uuid → String
create_access_token p user_id =
    sign_token p (("sub", uuid user_id) ∷ ("type", text "access") ∷ []) access_token_ttl_seconds

abbrev pub is_text : String → Option Value → Bool
is_text expected (some (text t)) = str_eq t expected
is_text expected _ = false

abbrev pub subject : Platform → Option Value → Option Uuid
subject p none = none
subject p (some value) = p.uuid_of value

abbrev pub claimed : Platform → String → String → Option Json → Option Uuid
claimed p claim expected none = none
claimed p claim expected (some payload) =
    if is_text expected (get payload claim) then subject p (get payload "sub") else none

unfoldable pub decode_access_token : Platform → String → Action (Option Uuid)
decode_access_token p token =
    verify_token p token >>= λ payload. pure (claimed p "type" "access" payload)

unfoldable pub password_reset_token_expiry : Platform → Timestamp
password_reset_token_expiry p = p.utc_now + password_reset_ttl_seconds * microseconds

unfoldable pub create_email_verification_token : Platform → Uuid → String
create_email_verification_token p user_id =
    sign_token p (("sub", uuid user_id) ∷ ("purpose", text "verify_email") ∷ [])
      email_verification_ttl_seconds

unfoldable pub create_password_reset_token : Platform → Uuid → String
create_password_reset_token p user_id =
    sign_token p (("sub", uuid user_id) ∷ ("purpose", text "reset_password") ∷ [])
      password_reset_ttl_seconds

unfoldable pub decode_purpose_token : Platform → String → String → Action (Option Uuid)
decode_purpose_token p token expected_purpose =
    verify_token p token >>= λ payload. pure (claimed p "purpose" expected_purpose payload)

unfoldable pub generate_refresh_token : Platform → String
generate_refresh_token p = p.token_urlsafe

unfoldable pub refresh_token_expiry : Platform → Timestamp
refresh_token_expiry p = p.utc_now + 30 * 24 * 3600 * microseconds

-- `hash_refresh_token` is `hash_opaque_token` of app/core/security.py.
unfoldable pub hash_opaque_token : Platform → String → String
hash_opaque_token p raw_token = p.sha256_hexdigest raw_token

unfoldable pub generate_totp_secret : Platform → String
generate_totp_secret p = p.random_base32

unfoldable pub encrypt_totp_secret : Platform → String → String
encrypt_totp_secret p raw_secret = encrypt_value p raw_secret

unfoldable pub decrypt_totp_secret : Platform → String → Option String
decrypt_totp_secret p encrypted_secret = decrypt_value p encrypted_secret

unfoldable pub verify_totp_code : Platform → String → String → Bool
verify_totp_code p raw_secret code = p.totp_verify raw_secret code

unfoldable pub generate_provisioning_uri : Platform → String → String → String
generate_provisioning_uri p raw_secret user_email =
    p.provisioning_uri raw_secret user_email "SuperWallet"

-- The codes of the draws from the `i`-th on.
abbrev pub backup_codes_from : Platform → ℕ → ℕ → List String
backup_codes_from p i zero = []
backup_codes_from p i (suc count) = p.token_hex i ∷ backup_codes_from p (i + 1) count

unfoldable pub generate_backup_codes : Platform → ℕ → List String
generate_backup_codes p count = backup_codes_from p 0 count

unfoldable pub hash_backup_codes : Platform → List String → List String
hash_backup_codes p codes = map p.argon2_hash codes

unfoldable pub verify_backup_code : Platform → String → ℕ → List String → Action (Option ℕ)
verify_backup_code p code i [] = pure none
verify_backup_code p code i (hashed ∷ hashed_codes) =
    let later = verify_backup_code p code (i + 1) hashed_codes in
    elim (p.argon2_verify hashed code) [
      | Verification.matches ↦ pure (some i)
      | Verification.mismatch ↦ later
      | Verification.invalid_hash ↦ raise value_error
    ]

-- `_LOCKOUT_THRESHOLDS`, in seconds.
abbrev pub lockout_thresholds : List (ℕ × ℕ)
lockout_thresholds = (6, 15 * 60) ∷ (10, 3600) ∷ []

abbrev pub applicable : ℕ → List (ℕ × ℕ) → List ℕ
applicable failed_count [] = []
applicable failed_count ((threshold, d) ∷ rest) =
    let later = applicable failed_count rest in
    if leb threshold failed_count then d ∷ later else later

abbrev pub longest : List ℕ → Option ℕ
longest [] = none
longest (d ∷ rest) = elim (longest rest) [
  | none ↦ some d
  | some m ↦ some (if leb d m then m else d)
]

unfoldable pub compute_lockout : Platform → ℕ → Option Timestamp
compute_lockout p failed_count = elim (longest (applicable failed_count lockout_thresholds)) [
  | none ↦ none
  | some d ↦ some (p.utc_now + d * microseconds)
]
