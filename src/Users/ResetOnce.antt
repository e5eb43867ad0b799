-- ===== src/Users/ResetOnce.antt =====
-- A password reset token works once.
use super_wallet.Base.{
  inr, arith, inl, ◌≡◌, refl, ap, ◌∙◌, String, str_eq, true, false, none, some, List, [], ◌∷◌, All,
  All-map, map_option, if◌then◌else◌, Bool-cases,
}
use super_wallet.Base.Table.{find_row, update_rows, find_row-holds, All-find_row}
use super_wallet.Db.{Db, Uuid, Timestamp, VerificationTokenRow, ok, err, settle}
use super_wallet.Security.{Platform}
use super_wallet.Security.Users.{hash_opaque_token}
use super_wallet.Users.VerificationTokenRepository
use super_wallet.Users.VerificationTokenRepository.{is_valid, used, to_record, get_valid_by_hash}
use super_wallet.Users.AuthService.{Client}
use super_wallet.Users.SessionAuthService.{
  reset_password, reset_body, reset_to, invalid_reset_token,
}
use super_wallet.Users.Reset.{reset_password_lem}

abbrev HasHash : String → VerificationTokenRow → Type 0
HasHash hash t = str_eq t.token_hash hash ≡ true

-- `token_hash UNIQUE`, at one hash: the rows that have it are one row.
abbrev pub IsUnique : String → List VerificationTokenRow → Type 0
IsUnique hash rows = All (λ t. All (λ u. HasHash hash t → HasHash hash u → u.id ≡ t.id) rows) rows

module _ (hash type : String) (id : Uuid) (now later : Timestamp) where
  used_invalid :
      (t : VerificationTokenRow)
      → (HasHash hash t → t.id ≡ id)
      → is_valid later hash type (if VerificationTokenRepository.has_id id t then used now t else t)
        ≡ false
  used_invalid t h = elim (Bool-cases (str_eq t.token_hash hash)) [
    | inl same ↦ ground (arith, h same)
    | inr differs ↦ ground arith
  ]

  -- Once its row is used, no row is valid for the hash.
  find_row-used :
      (rows : List VerificationTokenRow)
      → All (λ u. HasHash hash u → u.id ≡ id) rows
      → find_row
          (is_valid later hash type)
          (update_rows (VerificationTokenRepository.has_id id) (used now) rows)
        ≡ none
  find_row-used [] all = refl
  find_row-used (t ∷ rows) all =
      ap
        (λ b.
          if b
          then some (if VerificationTokenRepository.has_id id t then used now t else t)
          else find_row (is_valid later hash type)
              (update_rows (VerificationTokenRepository.has_id id) (used now) rows))
        (used_invalid t all.0)
      ∙ find_row-used rows all.1

valid_hash :
    (now : Timestamp) (hash type : String) (t : VerificationTokenRow)
    → is_valid now hash type t ≡ true
    → HasHash hash t
valid_hash now hash type t h = ground arith

abbrev pub at_server_time : Platform → Timestamp → Platform
at_server_time p later = record p { server = record p.server { now = later } }

-- A second reset with the token of one that returned is refused at any later time, with any new
-- password, and changes nothing. It is assumed that hashes are unique, as the table demands.
pub reset_password_once :
    (p : Platform) (client client' : Client) (raw_token new_password new_password' : String)
    (db db' : Db) (later : Timestamp)
    → IsUnique (hash_opaque_token p raw_token) db.verification_tokens
    → reset_password p client raw_token new_password db ≡ (ok tt, db')
    → reset_password
        (record p { server = record p.server { now = later } })
        client'
        raw_token
        new_password'
        db'
      ≡ (err invalid_reset_token, db')
unfolding reset_password reset_body get_valid_by_hash hash_opaque_token to_record
reset_password_once p client client' raw_token new_password new_password' db db' later unique h =
    let (row, e, reset) = reset_password_lem p client raw_token new_password db db' h in
    let q = at_server_time p later in
    let hash = hash_opaque_token p raw_token in
    let rows = db.verification_tokens in
    let valid = is_valid p.server.now hash "password_reset" in
    let own = valid_hash p.server.now hash "password_reset" row (find_row-holds valid rows row e) in
    let one =
      All-find_row (λ t. All (λ u. HasHash hash t → HasHash hash u → u.id ≡ t.id) rows) valid rows
        row unique e in
    let refused =
      ap (find_row (is_valid later hash "password_reset")) reset.2
      ∙ find_row-used hash "password_reset" row.id p.server.now later rows (
          All-map (λ u. HasHash hash row → HasHash hash u → u.id ≡ row.id)
            (λ u. HasHash hash u → u.id ≡ row.id) rows (λ u f. f own) one) in
    ap
      (λ o.
        let (r, d) = reset_to q client' new_password' (map_option to_record o) db' in
        settle db' r d)
      refused
