-- ===== src/Http/Routes.antt =====
-- The routes that app/main.py includes, by their paths.
use super_wallet.Base.{String, List, [], ◌∷◌, ◌++◌, map}
use Prim.Native.String.{◌++◌ as append}

abbrev pub v1_prefix : String
v1_prefix = "/api/v1"

-- `include_router(router, prefix=…)`, inside the router of version 1.
abbrev pub included : String → List String → List String
included prefix paths = map (λ path. append v1_prefix (append prefix path)) paths

abbrev pub auth_prefix : String
auth_prefix = "/auth"

abbrev pub user_auth_paths : List String
user_auth_paths = "/register" ∷ "/login" ∷ "/logout" ∷ "/refresh" ∷ []

abbrev pub session_auth_paths : List String
session_auth_paths =
    "/verify-email" ∷ "/resend-verification" ∷ "/forgot-password" ∷ "/reset-password" ∷ []

abbrev pub profile_paths : List String
profile_paths = "/me" ∷ "/me/password" ∷ []

abbrev pub fiat_paths : List String
fiat_paths = "/wallets" ∷ "/transfers" ∷ []

-- Every path of the application, or for a path with an id in it the part before the id.
unfoldable pub routes : List String
routes =
    "/"
    ∷ (included auth_prefix user_auth_paths
        ++ included "/auth/session" session_auth_paths
        ++ included "/sessions" ("" ∷ [])
        ++ included "/users/me" profile_paths
        ++ included "" fiat_paths)

-- `POST /api/v1/auth/refresh`
abbrev pub refresh_route : String
refresh_route = append v1_prefix (append auth_prefix "/refresh")
