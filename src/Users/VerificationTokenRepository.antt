-- ===== src/Users/VerificationTokenRepository.antt =====
-- class VerificationTokenRepository of app/users/repository.py, over `verification_tokens`.
use super_wallet.Base.{
  map_option, String, str_eq, ◌==◌, Bool, not, ltb, ◌&&◌, Option, none, some, [], ◌∷◌, ◌++◌,
}
use super_wallet.Base.Table.{find_row, has_row, update_rows}
use super_wallet.Errors.{unique_violation, foreign_key_violation}
use super_wallet.Db.{
  VerificationTokenRow, Uuid, Timestamp, Action, pure, gets, modify, raise_if, ◌>>◌,
}
use super_wallet.Users.SessionRepository.{is_null}

-- `class VerificationTokenRecord`
pub record VerificationTokenRecord : Type 0 where
  pub id : Uuid
  pub user_id : Uuid
  pub token_hash : String
  pub type : String
  pub expires_at : Timestamp
  pub used_at : Option Timestamp

-- The columns of the statement are the fields of the data class.
unfoldable pub to_record : VerificationTokenRow → VerificationTokenRecord
to_record r = record {
  id = r.id;
  user_id = r.user_id;
  token_hash = r.token_hash;
  type = r.type;
  expires_at = r.expires_at;
  used_at = r.used_at;
}

abbrev pub has_id : Uuid → VerificationTokenRow → Bool
has_id token_id t = t.id == token_id

abbrev pub new_token :
    Timestamp → Uuid → Uuid → String → String → Timestamp → Option String → VerificationTokenRow
new_token now id user_id token_hash type expires_at ip_address = record {
  id = id;
  user_id = user_id;
  token_hash = token_hash;
  type = type;
  ip_address = ip_address;
  expires_at = expires_at;
  used_at = none;
  created_at = now;
}

unfoldable pub create :
    Timestamp → Uuid → Uuid → String → String → Timestamp → Option String → Action Uuid
create now id user_id token_hash type expires_at ip_address = do
  λ db.
      raise_if (has_row (has_id id) db.verification_tokens)
        (unique_violation "verification_tokens_pkey") db
  λ db.
      raise_if (has_row (λ t. str_eq t.token_hash token_hash) db.verification_tokens)
        (unique_violation "verification_tokens_token_hash_key") db
  λ db.
      raise_if (not (has_row (λ u. u.id == user_id) db.users))
        (foreign_key_violation "verification_tokens_user_id_fkey") db
  modify (λ db. record db {
    verification_tokens =
        db.verification_tokens
        ++ new_token now id user_id token_hash type expires_at ip_address ∷ [];
  })
  pure id

abbrev pub is_valid : Timestamp → String → String → VerificationTokenRow → Bool
is_valid now token_hash type t =
    str_eq t.token_hash token_hash
    && str_eq t.type type
    && is_null t.used_at
    && ltb now t.expires_at

unfoldable pub get_valid_by_hash :
    Timestamp → String → String → Action (Option VerificationTokenRecord)
get_valid_by_hash now token_hash type =
    gets
      (λ db. map_option to_record (find_row (is_valid now token_hash type) db.verification_tokens))

abbrev pub update_tokens :
    (VerificationTokenRow → Bool) → (VerificationTokenRow → VerificationTokenRow) → Action Unit
update_tokens p f =
    modify (λ db. record db { verification_tokens = update_rows p f db.verification_tokens })

abbrev pub used : Timestamp → VerificationTokenRow → VerificationTokenRow
used now t = record t { used_at = some now }

unfoldable pub mark_used : Timestamp → Uuid → Action Unit
mark_used now token_id = update_tokens (has_id token_id) (used now)

unfoldable pub invalidate_all_for_user : Timestamp → Uuid → String → Action Unit
invalidate_all_for_user now user_id type =
    update_tokens (λ t. t.user_id == user_id && str_eq t.type type && is_null t.used_at) (used now)
