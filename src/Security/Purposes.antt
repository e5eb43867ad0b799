-- ===== src/Security/Purposes.antt =====
-- Tokens of one purpose are refused for another.
use super_wallet.Base.{
  ◌≡◌, refl, ap, ◌∙◌, String, Bool, true, false, ltb, ◌*◌, none, some, [], ◌∷◌, if◌then◌else◌,
}
use super_wallet.Db.{Db, Json, Timestamp, Uuid, uuid, ok, continue, pure, Value}
use super_wallet.Security.{Platform}
use super_wallet.Security.Tokens.{get, put, microseconds}
use super_wallet.Security.Users.{
  claimed, decode_access_token, create_email_verification_token, email_verification_ttl_seconds,
}
use super_wallet.Security.Roundtrip.{
  at_time, expiry, signed_body, body_part, signature_part, verify_token-sign_token,
}

-- What an email verification token says.
abbrev pub verification_claims : Uuid → Json
verification_claims user_id = ("sub", uuid user_id) ∷ ("purpose", Value.text "verify_email") ∷ []

module _ (p : Platform) (user_id : Uuid) where
  abbrev claims : Json
  claims = verification_claims user_id

  abbrev body : Json
  body = signed_body p claims email_verification_ttl_seconds

  no_access :
      (q : Platform) (late : Bool)
      → claimed q "type" "access" (if late then none else some body) ≡ none
  unfolding get put
  no_access q true = refl
  no_access q false = refl

  -- An email verification token is never accepted as an access token, at whatever time. What is
  -- assumed of the packages: base64 and JSON decode what they encoded, and the token splits at the
  -- one dot that was put there.
  pub decode_access_token-create_email_verification_token :
      (now : Timestamp) (db : Db)
      → ((bytes : String) → p.urlsafe_b64decode (p.urlsafe_b64encode bytes) ≡ some bytes)
      → p.json_loads (
          p.json_dumps (signed_body p (verification_claims user_id) email_verification_ttl_seconds))
        ≡ some (signed_body p (verification_claims user_id) email_verification_ttl_seconds)
      → p.split_dots (create_email_verification_token p user_id)
        ≡ body_part p (verification_claims user_id) email_verification_ttl_seconds
          ∷ signature_part p (verification_claims user_id) email_verification_ttl_seconds
          ∷ []
      → decode_access_token (at_time p now) (create_email_verification_token p user_id) db
        ≡ (ok none, db)
  unfolding decode_access_token create_email_verification_token
  decode_access_token-create_email_verification_token now db b64 json split =
      let q = at_time p now in
      ap (λ r. continue r.0 (λ payload. pure (claimed q "type" "access" payload)) r.1)
        (verify_token-sign_token p claims email_verification_ttl_seconds now db b64 json split)
      ∙ ap (λ o. (ok o, db))
          (no_access q (ltb (expiry p email_verification_ttl_seconds * microseconds) now))
