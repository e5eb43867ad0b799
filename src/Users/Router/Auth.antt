-- ===== src/Users/Router/Auth.antt =====
-- app/users/router/auth.py.
use super_wallet.Base.{
  ◌&&◌, leb, ◌||◌, ◌==◌, ℕ, String, ◌*◌, Bool, true, Option, none, some, if◌then◌else◌,
}
use super_wallet.Base.Text.{is_empty, trim_left, trim_right, is_space}
use super_wallet.Errors.{app, AppError, RefreshTokenInvalidReason}
use super_wallet.Db.{Uuid, Action, pure, raise, ◌>>=◌, ◌>>◌}
use super_wallet.Security.{Platform}
use super_wallet.Http.{Request, Cookie, set_cookie, deleted, Response}
use super_wallet.Users.UserRepository.{UserRecord}
use super_wallet.Users.AuthService
use super_wallet.Users.AuthService.{Client}
use super_wallet.Users.RefreshService
use super_wallet.Users.Schemas.Auth.{RegisterRequest, LoginRequest}
use Prim.Native.Char.{code}

-- `forwarded.split(",")[0]`
unfoldable pub before_comma : String → String
before_comma String.[] = String.[]
before_comma (String.◌∷◌ c s) = if code c == b',' then String.[] else String.◌∷◌ c (before_comma s)

-- `str.strip`, which takes four separators more than pydantic.
abbrev pub is_python_space : ℕ → Bool
is_python_space n = is_space n || (leb 28 n && leb n 31)

abbrev pub host_or_unknown : Option String → String
host_or_unknown none = "unknown"
host_or_unknown (some host) = host

abbrev pub peer_or_first : Option String → Option String → String
peer_or_first none host = host_or_unknown host
peer_or_first (some forwarded) host =
    if is_empty forwarded
    then host_or_unknown host
    else trim_right is_python_space (trim_left is_python_space (before_comma forwarded))

unfoldable pub get_client_ip : Request → String
get_client_ip request = peer_or_first request.forwarded_for request.client_host

abbrev pub client_of : Request → Client
client_of request = record { ip_address = get_client_ip request; user_agent = request.user_agent }

abbrev pub refresh_cookie_name : String
refresh_cookie_name = "refresh_token"

abbrev pub refresh_cookie_max_age : ℕ
refresh_cookie_max_age = 30 * 24 * 60 * 60

-- `_set_refresh_cookie`
unfoldable pub set_refresh_cookie : String → Cookie
set_refresh_cookie refresh_token = record {
  key = refresh_cookie_name;
  value = refresh_token;
  httponly = true;
  secure = true;
  samesite = "strict";
  max_age = refresh_cookie_max_age;
  path = "/auth";
}

pub record RegisterResponse : Type 0 where
  pub user_id : Uuid
  pub email : String
  pub message : String

unfoldable pub register : Platform → Request → RegisterRequest → Action RegisterResponse
register p request payload = do
  result ←
      AuthService.register p (client_of request) payload.email payload.username payload.password
  pure (record {
    user_id = result.user_id;
    email = result.email;
    message = "Hasabyňyzy tassyklamak üçin e-poçtaňyzy barlaň";
  })

pub record TokenResponse : Type 0 where
  pub access_token : String
  pub token_type : String
  pub expires_in : ℕ

abbrev pub token_response : String → String → Response TokenResponse
token_response access_token refresh_token = record {
  body = record { access_token = access_token; token_type = "bearer"; expires_in = 900 };
  cookie = set_cookie (set_refresh_cookie refresh_token);
}

unfoldable pub login : Platform → Request → LoginRequest → Action (Response TokenResponse)
login p request payload = do
  result ← AuthService.login p (client_of request) payload.email payload.password payload.totp_code
  pure (token_response result.access_token result.refresh_token)

-- `if refresh_token:`
abbrev pub logout_with : Platform → Request → UserRecord → Option String → Action Unit
logout_with p request current_user none = pure tt
logout_with p request current_user (some refresh_token) =
    if is_empty refresh_token
    then pure tt
    else RefreshService.logout p (client_of request) current_user.id refresh_token

unfoldable pub logout : Platform → Request → UserRecord → Action (Response Unit)
logout p request current_user = do
  logout_with p request current_user request.refresh_token
  pure (record { body = tt; cookie = deleted refresh_cookie_name "/auth" })

-- `if not refresh_token: raise …`
abbrev pub present : Option String → Action String
present none =
    raise (app (AppError.invalid_refresh_token RefreshTokenInvalidReason.missing none none))
present (some refresh_token) =
    if is_empty refresh_token
    then raise (app (AppError.invalid_refresh_token RefreshTokenInvalidReason.missing none none))
    else pure refresh_token

unfoldable pub refresh : Platform → Request → Action (Response TokenResponse)
refresh p request = do
  refresh_token ← present request.refresh_token
  result ← RefreshService.refresh p (client_of request) refresh_token
  pure (token_response result.access_token result.refresh_token)
