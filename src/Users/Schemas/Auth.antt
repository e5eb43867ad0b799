-- ===== src/Users/Schemas/Auth.antt =====
-- app/users/schemas/auth.py.
use super_wallet.Base.{
  ℕ, String, str_eq, ◌==◌, leb, Bool, true, not, ◌&&◌, ◌||◌, Option, none, some, List, [], ◌∷◌,
  length, if◌then◌else◌,
}
use super_wallet.Base.Text.{codes, lower, strip}
use super_wallet.Http.{Validators, check, count, ◌>>=◌}

abbrev pub all : (ℕ → Bool) → List ℕ → Bool
all p [] = true
all p (x ∷ xs) = p x && all p xs

abbrev pub is_letter : ℕ → Bool
is_letter n = (leb b'a' n && leb n b'z') || (leb b'A' n && leb n b'Z')

abbrev pub is_ascii_digit : ℕ → Bool
is_ascii_digit n = leb b'0' n && leb n b'9'

-- `[a-zA-Z0-9_]`
abbrev pub is_word : ℕ → Bool
is_word n = is_letter n || is_ascii_digit n || n == b'_'

abbrev pub is_username : List ℕ → Bool
is_username ns = all is_word ns && leb 3 (length ns) && leb (length ns) 32

-- The text up to a line feed at its end, where `$` matches too.
abbrev pub before_last_newline : List ℕ → List ℕ
before_last_newline [] = []
before_last_newline (n ∷ []) = if n == 10 then [] else n ∷ []
before_last_newline (n ∷ m ∷ ns) = n ∷ before_last_newline (m ∷ ns)

-- `_USERNAME_PATTERN.match(value)`
unfoldable pub matches_username : String → Bool
matches_username value =
    is_username (codes value) || is_username (before_last_newline (codes value))

abbrev pub min_password_length : ℕ
min_password_length = 8

abbrev pub max_password_length : ℕ
max_password_length = 128

-- `_COMMON_WEAK_PASSWORDS`
unfoldable pub is_common : String → Bool
is_common value =
    str_eq value "password123"
    || str_eq value "12345678910"
    || str_eq value "qwertyuiop12"
    || str_eq value "letmein12345"

-- `_validate_password_strength`
unfoldable pub validate_password_strength : String → Option String
validate_password_strength value = do
  short ← check (leb min_password_length (count value)) value
  long ← check (leb (count short) max_password_length) short
  check (not (is_common (lower long))) long

-- `Field(min_length=…, max_length=…)`
abbrev pub sized : ℕ → ℕ → String → Option String
sized shortest longest value = check (leb shortest (count value) && leb (count value) longest) value

-- `EmailStr`, after the text was stripped, and `normalize_email`.
unfoldable pub normalized_email : Validators → String → Option String
normalized_email v raw = do email ← v.validate_email (strip raw); some (lower email)

pub record RegisterRequest : Type 0 where
  pub email : String
  pub username : String
  pub password : String

unfoldable pub validate_username : String → Option String
validate_username raw = do
  username ← sized 3 32 (strip raw)
  check (matches_username username) username

unfoldable pub validate_password : String → Option String
validate_password raw = do
  password ← sized min_password_length max_password_length (strip raw)
  validate_password_strength password

-- `RegisterRequest(email=…, username=…, password=…)`
unfoldable pub register_request : Validators → String → String → String → Option RegisterRequest
register_request v raw_email raw_username raw_password = do
  email ← normalized_email v raw_email
  username ← validate_username raw_username
  password ← validate_password raw_password
  some (record { email = email; username = username; password = password })

pub record LoginRequest : Type 0 where
  pub email : String
  pub password : String
  pub totp_code : Option String

-- `\d`
abbrev pub is_digit : Validators → ℕ → Bool
is_digit v n = is_ascii_digit n || (leb 128 n && v.is_decimal n)

-- `str | None` with six characters that match `^\d{6}$`
unfoldable pub validate_code : Validators → Option String → Option (Option String)
validate_code v none = some none
validate_code v (some raw) = do
  code ← sized 6 6 (strip raw)
  check (all (is_digit v) (codes code)) (some code)

-- `LoginRequest(email=…, password=…, totp_code=…)`
unfoldable pub login_request : Validators → String → String → Option String → Option LoginRequest
login_request v raw_email raw_password raw_code = do
  email ← normalized_email v raw_email
  password ← sized 1 max_password_length (strip raw_password)
  code ← validate_code v raw_code
  some (record { email = email; password = password; totp_code = code })
