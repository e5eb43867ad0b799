-- ===== src/Http/Dependencies.antt =====
-- app/core/dependencies.py: the user of a bearer token.
use super_wallet.Base.{String, Option, none, some}
use super_wallet.Errors.{http_unauthorized}
use super_wallet.Db.{Uuid, Action, pure, raise, ◌>>=◌}
use super_wallet.Security.{Platform}
use super_wallet.Security.Users.{decode_access_token}
use super_wallet.Users.UserRepository
use super_wallet.Users.UserRepository.{UserRecord}

abbrev pub user_or_401 : Option UserRecord → Action UserRecord
user_or_401 none = raise http_unauthorized
user_or_401 (some user) = pure user

abbrev pub user_of : Option Uuid → Action UserRecord
user_of none = raise http_unauthorized
user_of (some user_id) = do user ← UserRepository.get_by_id user_id; user_or_401 user

-- `OAuth2PasswordBearer` already answers 401 to a request without a token, as `none` does here.
unfoldable pub get_current_user : Platform → Option String → Action UserRecord
get_current_user p none = raise http_unauthorized
get_current_user p (some token) = do user_id ← decode_access_token p token; user_of user_id
