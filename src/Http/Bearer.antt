-- ===== src/Http/Bearer.antt =====
-- The access token that a login or a refresh gives, at the requests that bring it back.
use super_wallet.Base.{
  ◌≡◌, refl, ap, ◌∙◌, String, Bool, true, false, ltb, ◌*◌, Option, none, some, [], ◌∷◌,
  if◌then◌else◌,
}
use super_wallet.Base.Table.{find_row}
use super_wallet.Errors.{Error, type_error, http_unauthorized}
use super_wallet.Db.{Db, Json, Timestamp, Uuid, UserRow, uuid, text, err, continue, pure}
use super_wallet.Security.{Platform}
use super_wallet.Security.Tokens.{get, put, microseconds}
use super_wallet.Security.Users.{
  claimed, decode_access_token, create_access_token, access_token_ttl_seconds,
}
use super_wallet.Security.Roundtrip.{
  at_time, expiry, signed_body, body_part, signature_part, verify_token-sign_token,
}
use super_wallet.Users.UserRepository
use super_wallet.Users.UserRepository.{UserRecord, to_record_or_none}
use super_wallet.Users.Lookups.{is_active_id}
use super_wallet.Http.Dependencies.{get_current_user, user_of}

-- What an access token says.
abbrev pub access_claims : Uuid → Json
access_claims user_id = ("sub", uuid user_id) ∷ ("type", text "access") ∷ []

-- Whether the token of `p` has expired at a time.
abbrev pub too_late : Platform → Timestamp → Bool
too_late p now = ltb (expiry p access_token_ttl_seconds * microseconds) now

-- What a request with a token of the user gets: 401 when the token is old or no active user has the
-- id, and a `TypeError` for an active user.
abbrev pub current : Bool → Option UserRow → Error
current true o = http_unauthorized
current false none = http_unauthorized
current false (some row) = type_error

module _ (p : Platform) (user_id : Uuid) where
  abbrev body : Json
  body = signed_body p (access_claims user_id) access_token_ttl_seconds

  claimed_if :
      (q : Platform) (late : Bool)
      → q.uuid_of (uuid user_id) ≡ some user_id
      → claimed q "type" "access" (if late then none else some body)
        ≡ (if late then none else some user_id)
  unfolding get put
  claimed_if q true h = refl
  claimed_if q false h = h

  user_of-if :
      (late : Bool) (o : Option UserRow) (db : Db)
      → find_row (is_active_id user_id) db.users ≡ o
      → user_of (if late then none else some user_id) db ≡ (err (current late o), db)
  unfolding UserRepository.get_by_id UserRepository.to_record
  user_of-if true o db h = refl
  user_of-if false none db h = rw h refl
  user_of-if false (some row) db h = rw h refl

  -- No request gets through with the token that a user was given. The token names the user up to its
  -- expiry, 15 minutes later, and the lookup finds the user; as it does not select `is_active`, the
  -- request of an active user ends in a `TypeError`. After the expiry, and for a user that was
  -- deactivated, the answer is 401. What is assumed of the packages: base64 and JSON decode what they
  -- encoded, the token splits at the one dot that was put there, and a UUID reads back what was
  -- printed.
  pub get_current_user-create_access_token :
      (now : Timestamp) (db : Db)
      → ((bytes : String) → p.urlsafe_b64decode (p.urlsafe_b64encode bytes) ≡ some bytes)
      → p.json_loads (p.json_dumps (signed_body p (access_claims user_id) access_token_ttl_seconds))
        ≡ some (signed_body p (access_claims user_id) access_token_ttl_seconds)
      → p.split_dots (create_access_token p user_id)
        ≡ body_part p (access_claims user_id) access_token_ttl_seconds
          ∷ signature_part p (access_claims user_id) access_token_ttl_seconds
          ∷ []
      → p.uuid_of (uuid user_id) ≡ some user_id
      → get_current_user (at_time p now) (some (create_access_token p user_id)) db
        ≡ (err (current (too_late p now) (find_row (is_active_id user_id) db.users)), db)
  unfolding get_current_user decode_access_token create_access_token
  get_current_user-create_access_token now db b64 json split uuid_reads =
      let q = at_time p now in
      let late = too_late p now in
      ap
        (λ r.
          let (o, db₁) = continue r.0 (λ payload. pure (claimed q "type" "access" payload)) r.1 in
          continue o (user_of) db₁)
        (verify_token-sign_token p (access_claims user_id) access_token_ttl_seconds now db b64 json
          split)
      ∙ ap (λ o. user_of o db) (claimed_if q late uuid_reads)
      ∙ user_of-if late (find_row (is_active_id user_id) db.users) db refl
