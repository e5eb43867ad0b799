-- ===== src/Fiat/WalletService/Outcome.antt =====
-- What `create_wallet` has done when it returns.
use super_wallet.Base.{
  ◌≡◌, refl, String, none, some, [], ◌∷◌, ◌++◌, false, true, ◌==◌, Bool-cases, inl, inr,
}
use super_wallet.Base.Table.{has_row}
use super_wallet.Db.{Db, Server, Uuid, uuid, text, WalletRecord, AuditLog}
use super_wallet.Db.Post.{Post}
use super_wallet.Audit.{audit_row, add_audit}
use super_wallet.Fiat.Posting.{Post-audit}
use super_wallet.Base.Text.{fits_varchar}
use super_wallet.Fiat.WalletRepository
use super_wallet.Fiat.WalletRepository.{new_wallet}
use super_wallet.Fiat.WalletService.{create_body}

abbrev pub add_wallet : WalletRecord → Db → Db
add_wallet w db = record db { wallets = db.wallets ++ w ∷ [] }

module _ (server : Server) (user_id : Uuid) (currency : String) where
  abbrev pub created_wallet : WalletRecord
  created_wallet = new_wallet server.now (server.gen_random_uuid 0) user_id currency

  abbrev pub created_audit : AuditLog
  created_audit =
      audit_row server.now (some user_id) "wallet_created" none none
        (some (("wallet_id", uuid created_wallet.id) ∷ ("currency", text currency) ∷ []))

  pub record WalletCreated (db : Db) (r : WalletRecord) (db' : Db) : Type 0 where
    pub new_id : has_row (WalletRepository.has_id created_wallet.id) db.wallets ≡ false
    pub new_currency : has_row (WalletRepository.owns_currency user_id currency) db.wallets ≡ false
    pub of_user : has_row (λ u. u.id == user_id) db.users ≡ true
    pub result : r ≡ created_wallet
    pub after : db' ≡ add_audit created_audit (add_wallet created_wallet db)

  pub create_body-outcome :
      (db : Db) → Post (WalletCreated db) (create_body server user_id currency db)
  unfolding create_body WalletRepository.create
  create_body-outcome db = elim (Bool-cases (fits_varchar 3 currency)) [
    | inr long ↦ rw long tt
    | inl fits ↦
        elim (Bool-cases (has_row (WalletRepository.has_id created_wallet.id) db.wallets)) [
          | inl taken ↦ rw (fits, taken) tt
          | inr new ↦
              elim (Bool-cases
                (has_row (WalletRepository.owns_currency user_id currency) db.wallets)) [
                  | inl taken ↦ rw (fits, new, taken) tt
                  | inr free ↦ elim (Bool-cases (has_row (λ u. u.id == user_id) db.users)) [
                    | inr nobody ↦ rw (fits, new, free, nobody) tt
                    | inl user ↦
                        rw (fits, new, free, user)
                          (Post-audit (WalletCreated db) _ server (some user_id) "wallet_created"
                            none none _ _
                            (record {
                              new_id = new;
                              new_currency = free;
                              of_user = user;
                              result = refl;
                              after = refl;
                            }))
                  ]
                ]
        ]
  ]
