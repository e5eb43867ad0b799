-- ===== src/Fiat/TransferService/Outcome.antt =====
-- What `transfer` has done when it returns.
use super_wallet.Base.{
  sym, ◌∙◌, ◌≡◌, ◌⊎◌, inl, inr, String, Option, none, some, refl, false, str_eq, eq_iff, ◌==◌, not,
  List, [], ◌∷◌, arith,
}
use super_wallet.Base.Int.{ℤ, pos, ◌+ℤ◌, ◌-ℤ◌, ltb_ℤ}
use super_wallet.Base.Table.{find_row, order_by, select_rows}
use super_wallet.Errors.{
  fiat, same_wallet_transfer, wallet_not_found, currency_mismatch, insufficient_funds,
}
use super_wallet.Db.{
  Db, Server, Uuid, uuid, num, text, Action, WalletRecord, TransactionRecord, LedgerEntryRecord,
  AuditLog, ◌>>=◌, transaction,
}
use super_wallet.Db.Post.{Post-weaken, Post, Post-transaction, Post-raise_if}
use super_wallet.Audit.{audit_row, add_audit}
use super_wallet.Fiat.Posting.{
  EntryPosted, Inserted, add_transaction, post_entry, Post-create, Post-entry, Post-audit,
}
use super_wallet.Fiat.Outcome.{Replayed, Post-unless_existing}
use super_wallet.Fiat.WalletRepository
use super_wallet.Fiat.Service.{wallet_map}
use super_wallet.Fiat.WalletRepository.Locked.{UniqueIds, wallet_map-locked}
use super_wallet.Fiat.TransactionRepository
use super_wallet.Fiat.TransactionRepository.{new_transaction}
use super_wallet.Fiat.LedgerEntryRepository.{new_entry}
use super_wallet.Fiat.TransferService.{transfer_posting, known, transfer_body, transfer}

Post-known :
    {B : Type 0} (R : B → Db → Type 0) (o : Option WalletRecord) (k : WalletRecord → Action B)
    (db : Db)
    → ((w : WalletRecord) → o ≡ some w → Post R (k w db))
    → Post R ((known o >>= k) db)
Post-known R none k db h = tt
Post-known R (some w) k db h = h w refl

module _ (server : Server) (from_wallet_id to_wallet_id user_id : Uuid) (amount_minor : ℤ)
    (key : String) where
  abbrev pub transfer_tx : WalletRecord → TransactionRecord
  transfer_tx s =
      new_transaction server.now (server.gen_random_uuid 0) key "transfer" amount_minor s.currency
        (some (("from_wallet_id", uuid from_wallet_id) ∷ ("to_wallet_id", uuid to_wallet_id) ∷ []))

  abbrev pub debit_entry : WalletRecord → LedgerEntryRecord
  debit_entry s =
      new_entry server.now (server.gen_random_uuid 1) (server.gen_random_uuid 0) from_wallet_id
        (pos 0 -ℤ amount_minor) "debit" (s.balance_minor -ℤ amount_minor)

  abbrev pub credit_entry : WalletRecord → LedgerEntryRecord
  credit_entry t =
      new_entry server.now (server.gen_random_uuid 2) (server.gen_random_uuid 0) to_wallet_id
        amount_minor "credit" (t.balance_minor +ℤ amount_minor)

  abbrev pub transfer_audit : WalletRecord → AuditLog
  transfer_audit s = audit_row server.now (some user_id) "wallet_transfer" none none (
      some (
        ("from_wallet_id", uuid from_wallet_id)
        ∷ ("to_wallet_id", uuid to_wallet_id)
        ∷ ("amount_minor", num amount_minor)
        ∷ ("currency", text s.currency)
        ∷ ("idempotency_key", text key)
        ∷ []))

  -- The tables after the sender's entry.
  abbrev pub debited : WalletRecord → Db → Db
  debited s db =
      post_entry server.now (s.balance_minor -ℤ amount_minor) (debit_entry s)
        (add_transaction (transfer_tx s) db)

  abbrev pub transferred : WalletRecord → WalletRecord → Db → Db
  transferred s t db =
      add_audit (transfer_audit s)
        (post_entry server.now (t.balance_minor +ℤ amount_minor) (credit_entry t) (debited s db))

  pub record TransferPosted (s t : WalletRecord) (r : Option TransactionRecord) (db db' : Db)
      : Type 0 where
    pub sender_found : find_row (WalletRepository.has_id from_wallet_id) db.wallets ≡ some s
    pub receiver_found : find_row (WalletRepository.has_id to_wallet_id) db.wallets ≡ some t
    pub mine : s.user_id ≡ user_id
    pub same_currency : s.currency ≡ t.currency
    pub enough : ltb_ℤ s.balance_minor amount_minor ≡ false
    pub inserted : Inserted (transfer_tx s) db
    pub debit :
        EntryPosted
          (s.balance_minor -ℤ amount_minor)
          (debit_entry s)
          (add_transaction (transfer_tx s) db)
    pub credit : EntryPosted (t.balance_minor +ℤ amount_minor) (credit_entry t) (debited s db)
    pub result : r ≡ some (transfer_tx s)
    pub after : db' ≡ transferred s t db

  abbrev pub Transferred : Db → Option TransactionRecord → Db → Type 0
  Transferred db r db' =
      Replayed key r db db'
      ⊎ ((s : WalletRecord) × (t : WalletRecord) × TransferPosted s t r db db')

  -- The rows that the transfer locks.
  abbrev locked : Db → List WalletRecord
  locked db =
      let ids = order_by (λ (i : Uuid). i) (from_wallet_id ∷ to_wallet_id ∷ []) in
      order_by (λ w. w.id) (select_rows (λ w. WalletRepository.contains ids w.id) db.wallets)

  -- What the writes do, once every test has passed.
  transfer_posts :
      (db : Db) (s t : WalletRecord)
      → find_row (WalletRepository.has_id from_wallet_id) db.wallets ≡ some s
      → find_row (WalletRepository.has_id to_wallet_id) db.wallets ≡ some t
      → s.user_id ≡ user_id
      → s.currency ≡ t.currency
      → ltb_ℤ s.balance_minor amount_minor ≡ false
      → Post
          (Transferred db)
          (transfer_posting server from_wallet_id to_wallet_id user_id amount_minor key s t db)
  unfolding transfer_posting TransactionRepository.get_by_idempotency_key
  transfer_posts db s t at_s at_t mine same enough =
      Post-create (Transferred db) _ server.now (server.gen_random_uuid 0) key "transfer"
        amount_minor s.currency
        (some (("from_wallet_id", uuid from_wallet_id) ∷ ("to_wallet_id", uuid to_wallet_id) ∷ []))
        db (λ known. inl (record { known = known; result = refl; after = refl }))
        λ inserted.
          Post-entry (Transferred db) _ server.now from_wallet_id (s.balance_minor -ℤ amount_minor)
            (server.gen_random_uuid 1) (server.gen_random_uuid 0) (pos 0 -ℤ amount_minor) "debit" _
            λ debit.
              Post-entry (Transferred db) _ server.now to_wallet_id
                (t.balance_minor +ℤ amount_minor) (server.gen_random_uuid 2)
                (server.gen_random_uuid 0) amount_minor "credit" _
                λ credit.
                  Post-audit (Transferred db) _ server (some user_id) "wallet_transfer" none none _
                    _
                    (inr (
                      s,
                      t,
                      record {
                        sender_found = at_s;
                        receiver_found = at_t;
                        mine = mine;
                        same_currency = same;
                        enough = enough;
                        inserted = inserted;
                        debit = debit;
                        credit = credit;
                        result = refl;
                        after = refl;
                      },
                    ))

  -- The block of the transaction, over a table in which the wallets' ids are unique.
  pub transfer_body-outcome :
      (db : Db)
      → UniqueIds db.wallets
      → Post
          (Transferred db)
          (transfer_body server from_wallet_id to_wallet_id user_id amount_minor key db)
  unfolding transfer_body WalletRepository.get_and_lock_multiple
  transfer_body-outcome db unique =
      Post-known (Transferred db) (wallet_map (locked db) from_wallet_id) _ db λ s at_s.
        Post-known (Transferred db) (wallet_map (locked db) to_wallet_id) _ db λ t at_t.
          Post-raise_if (Transferred db) (not (s.user_id == user_id)) (fiat wallet_not_found) _ db
            λ mine.
              Post-raise_if (Transferred db) (not (str_eq s.currency t.currency))
                (fiat (currency_mismatch s.currency t.currency)) _ db
                λ same.
                  Post-raise_if (Transferred db) (ltb_ℤ s.balance_minor amount_minor)
                    (fiat (insufficient_funds s.balance_minor amount_minor)) _ db
                    λ enough.
                      transfer_posts db s t
                        (sym (
                            wallet_map-locked from_wallet_id to_wallet_id db.wallets from_wallet_id
                              unique (ground arith))
                          ∙ at_s)
                        (sym (
                            wallet_map-locked from_wallet_id to_wallet_id db.wallets to_wallet_id
                              unique (ground arith))
                          ∙ at_t)
                        (ground arith) (ground (arith, eq_iff s.currency t.currency)) enough

  abbrev pub TransferredApart : Db → Option TransactionRecord → Db → Type 0
  TransferredApart db r db' = ¬ (from_wallet_id ≡ to_wallet_id) × Transferred db r db'

  pub transfer-outcome :
      (db : Db)
      → UniqueIds db.wallets
      → Post
          (TransferredApart db)
          (transfer server from_wallet_id to_wallet_id user_id amount_minor key db)
  unfolding transfer
  transfer-outcome db unique =
      let body = transfer_body server from_wallet_id to_wallet_id user_id amount_minor key in
      Post-raise_if (TransferredApart db) (from_wallet_id == to_wallet_id)
        (fiat same_wallet_transfer) _ db
        λ distinct.
          Post-unless_existing (TransferredApart db) key (transaction body) db
            (λ r x. (ground arith, inl x))
            (Post-transaction (TransferredApart db) body db (
              Post-weaken (Transferred db) (TransferredApart db) (body db)
                (transfer_body-outcome db unique) (λ r db' x. (ground arith, x))))
