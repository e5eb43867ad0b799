-- ===== src/Users/Schemas/Profile.antt =====
-- app/users/schemas/profile.py.
use super_wallet.Base.{
  ℕ, String, str_eq, ◌==◌, leb, Bool, true, false, not, ◌&&◌, ◌||◌, Option, none, some, List, [],
  ◌∷◌,
}
use super_wallet.Base.Text.{codes, strip}
use super_wallet.Db.{Uuid}
use super_wallet.Http.{Validators, check, count, ◌>>=◌}
use super_wallet.Users.UserRepository.{UserRecord}
use super_wallet.Users.ProfileService.{ProfileUpdateFields}
use super_wallet.Users.Schemas.Auth.{all, is_word, is_digit, sized}

pub record UserProfileResponse : Type 0 where
  pub id : Uuid
  pub username : String
  pub email : String
  pub totp_enabled : Bool
  pub email_verified : Bool

-- `UserProfileResponse.model_validate(user)`
unfoldable pub profile_response : UserRecord → UserProfileResponse
profile_response user = record {
  id = user.id;
  username = user.username;
  email = user.email;
  totp_enabled = user.totp_enabled;
  email_verified = user.email_verified;
}

-- `[a-zA-Z0-9_.]`
abbrev pub is_name_char : ℕ → Bool
is_name_char n = is_word n || n == b'.'

-- `in "._"`
abbrev pub is_mark : ℕ → Bool
is_mark n = n == b'.' || n == b'_'

abbrev pub starts_marked : List ℕ → Bool
starts_marked [] = false
starts_marked (n ∷ ns) = is_mark n

abbrev pub ends_marked : List ℕ → Bool
ends_marked [] = false
ends_marked (n ∷ []) = is_mark n
ends_marked (n ∷ m ∷ ns) = ends_marked (m ∷ ns)

-- The field `username` and its validator.
unfoldable pub username_charset : Option String → Option (Option String)
username_charset none = some none
username_charset (some raw) = do
  username ← sized 3 32 (strip raw)
  named ← check (all is_name_char (codes username)) username
  check (not (starts_marked (codes named) || ends_marked (codes named))) (some named)

unfoldable pub optional_email : Validators → Option String → Option (Option String)
optional_email v none = some none
optional_email v (some raw) = do email ← v.validate_email (strip raw); some (some email)

abbrev pub is_given : Option String → Bool
is_given none = false
is_given (some _) = true

-- `UserProfileUpdate(…)`, with `exclude_unset`: a field that is not sent and one that is sent as
-- null are both `None` in `ProfileUpdateFields`.
unfoldable pub profile_update :
    Validators → Option String → Option String → Option ProfileUpdateFields
profile_update v raw_username raw_email = do
  username ← username_charset raw_username
  email ← optional_email v raw_email
  check (is_given username || is_given email) (record { username = username; email = email })

pub record PasswordChangeRequest : Type 0 where
  pub current_password : String
  pub new_password : String

-- `re.search` of a class of characters.
abbrev pub any : (ℕ → Bool) → List ℕ → Bool
any p [] = false
any p (x ∷ xs) = p x || any p xs

abbrev pub is_upper : ℕ → Bool
is_upper n = leb b'A' n && leb n b'Z'

abbrev pub is_lower : ℕ → Bool
is_lower n = leb b'a' n && leb n b'z'

unfoldable pub password_strength : Validators → String → Option String
password_strength v raw = do
  long ← check (leb 12 (count raw)) raw
  with_upper ← check (any is_upper (codes long)) long
  with_lower ← check (any is_lower (codes with_upper)) with_upper
  check (any (is_digit v) (codes with_lower)) with_lower

-- `PasswordChangeRequest(…)`
unfoldable pub password_change : Validators → String → String → Option PasswordChangeRequest
password_change v current_password raw = do
  new_password ← password_strength v raw
  check (not (str_eq current_password new_password))
      (record { current_password = current_password; new_password = new_password })
