-- ===== src/Users/Router/SessionAuth.antt =====
-- app/users/router/session_auth.py.
use super_wallet.Base.{String, Option, none, some, map}
use super_wallet.Errors.{Error, app, AppError}
use super_wallet.Db.{Uuid, Action, pure, ◌>>=◌, ◌>>◌}
use super_wallet.Security.{Platform}
use super_wallet.Http.{Request}
use super_wallet.Users.AuthService.{Client}
use super_wallet.Users.SessionAuthService
use super_wallet.Users.SessionAuthService.{SessionSummary}
use super_wallet.Users.Schemas.SessionAuth.{
  ResetPasswordRequest, SessionOut, SessionListResponse, MessageResponse,
}
use super_wallet.Users.UserRepository.{UserArgument, encode_uuid}
use super_wallet.Users.Router.{catch}
use super_wallet.Users.Router.Auth.{host_or_unknown}

-- `_client_meta`
abbrev pub client_meta : Request → Client
client_meta request = record {
  ip_address = host_or_unknown request.client_host;
  user_agent = request.user_agent;
}

abbrev pub says : String → MessageResponse
says message = record { message = message }

abbrev pub if_invalid_token : Error → Option MessageResponse
if_invalid_token (app (AppError.invalid_verification_token _)) =
    some (says "Token nädogry ýa-da möhleti geçen. Täzeden ibermegi soraň.")
if_invalid_token _ = none

unfoldable pub verify_email : Platform → Request → String → Action MessageResponse
verify_email p request token =
    catch
      (SessionAuthService.verify_email p (client_meta request) token
        >> pure (says "Email tassyklandy."))
      if_invalid_token

unfoldable pub resend_verification : Platform → Request → String → Action MessageResponse
resend_verification p request email = do
  SessionAuthService.resend_verification p (client_meta request) email
  pure (says "Eger bu email registered we tassyklanmadyk bolsa, link iberildi.")

unfoldable pub forgot_password : Platform → Request → String → Action MessageResponse
forgot_password p request email = do
  SessionAuthService.forgot_password p (client_meta request) email
  pure (says "Eger bu email registered bolsa, parol täzelemek üçin link iberildi.")

abbrev pub if_invalid_reset : Error → Option MessageResponse
if_invalid_reset (app (AppError.password_reset_token_invalid _)) =
    some (says "Token nädogry, möhleti geçen ýa-da eýýäm ulanylan.")
if_invalid_reset _ = none

unfoldable pub reset_password : Platform → Request → ResetPasswordRequest → Action MessageResponse
reset_password p request body =
    catch
      (SessionAuthService.reset_password p (client_meta request) body.token body.new_password
        >> pure (says "Parol täzelendi. Ähli enjamlardan çykaryldyňyz."))
      if_invalid_reset

-- `SessionOut(**s.__dict__)`
abbrev pub session_out : SessionSummary → SessionOut
session_out s = record {
  id = s.id;
  device_info = s.device_info;
  ip_address = s.ip_address;
  created_at = s.created_at;
  expires_at = s.expires_at;
}

unfoldable pub list_sessions : Platform → UserArgument → Action SessionListResponse
list_sessions p argument = do
  user_id ← encode_uuid argument
  sessions ← SessionAuthService.list_sessions p user_id
  pure (record { sessions = map session_out sessions })

unfoldable pub revoke_session : Platform → Request → UserArgument → Uuid → Action Unit
revoke_session p request argument session_id =
    SessionAuthService.revoke_session p (client_meta request) argument session_id
