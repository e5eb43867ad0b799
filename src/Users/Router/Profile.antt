-- ===== src/Users/Router/Profile.antt =====
-- app/users/router/profile.py. The services use the user's id only as an argument of statements.
use super_wallet.Db.{Action, pure, ◌>>=◌, ◌>>◌}
use super_wallet.Security.{Platform}
use super_wallet.Http.{Request}
use super_wallet.Users.ProfileService
use super_wallet.Users.ProfileService.{ProfileUpdateFields, RequestContext}
use super_wallet.Users.Schemas.Profile.{
  UserProfileResponse, profile_response, PasswordChangeRequest,
}
use super_wallet.Users.UserRepository.{UserArgument, encode_uuid}

unfoldable pub get_request_context : Request → RequestContext
get_request_context request = record {
  ip_address = request.client_host;
  user_agent = request.user_agent;
}

unfoldable pub get_profile : UserArgument → Action UserProfileResponse
get_profile argument = do
  user_id ← encode_uuid argument
  user ← ProfileService.get_profile user_id
  pure (profile_response user)

unfoldable pub update_profile :
    Platform → Request → UserArgument → ProfileUpdateFields → Action UserProfileResponse
update_profile p request argument fields = do
  user_id ← encode_uuid argument
  ProfileService.update_profile p (get_request_context request) user_id fields
  updated_user ← ProfileService.get_profile user_id
  pure (profile_response updated_user)

unfoldable pub change_password :
    Platform → Request → UserArgument → PasswordChangeRequest → Action Unit
change_password p request argument payload = do
  user_id ← encode_uuid argument
  ProfileService.change_password p (get_request_context request) user_id payload.current_password
      payload.new_password

unfoldable pub delete_account : Platform → Request → UserArgument → Action Unit
delete_account p request argument = do
  user_id ← encode_uuid argument
  ProfileService.deactivate_account p (get_request_context request) user_id
