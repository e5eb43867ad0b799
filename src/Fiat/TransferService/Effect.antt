-- ===== src/Fiat/TransferService/Effect.antt =====
-- What a transfer does to the tables.
use mathlib.Core.List.{append_assoc}
use super_wallet.Base.{
  ◌≡◌, ◌≢◌, refl, sym, ◌∙◌, ap, subst, String, false, Option, some, [], ◌∷◌, ◌++◌, inl, inr,
}
use super_wallet.Base.Int.{ℤ, ◌+ℤ◌, ◌-ℤ◌, ◌≤ℤ◌, int_laws, pos_part, neg_part}
use super_wallet.Db.{Timestamp, Db, Server, Uuid, WalletRecord, TransactionRecord, ok}
use super_wallet.Db.Post.{Post-result}
use super_wallet.Fiat.Posting.{has_key}
use super_wallet.Fiat.WalletRepository
use super_wallet.Fiat.WalletRepository.{with_balance}
use super_wallet.Fiat.Effect.{wallet_row, not-Replayed, wallet_row-set_balance_other}
use super_wallet.Fiat.Totals.{total_balance, total_balance-update_rows}
use super_wallet.Fiat.Invariant.Writes.{IsConsistent, update_rows-UniqueIds}
use super_wallet.Fiat.Invariant.Wallets.{find_row-set_balance_self, find_row-set_balance_ne}
use super_wallet.Fiat.TransferService.{transfer}
use super_wallet.Fiat.TransferService.Outcome.{
  TransferPosted, TransferredApart, transfer_tx, debit_entry, credit_entry, debited,
  transfer-outcome,
}
use super_wallet.Fiat.WithdrawalService.Effect.{covered_of_test}

module _ (server : Server) (from_wallet_id to_wallet_id user_id : Uuid) (amount_minor : ℤ)
    (key : String) where
  -- The sender `s` paid the receiver `t`: each balance moved by exactly the amount, the sender's was
  -- enough, no other wallet changed, the money in all wallets is what it was, and one transaction
  -- with its two entries was appended, whose amounts cancel.
  pub record Paid (s t : WalletRecord) (db db' : Db) : Type 0 where
    pub apart : from_wallet_id ≢ to_wallet_id
    pub mine : s.user_id ≡ user_id
    pub same_currency : s.currency ≡ t.currency
    pub enough : amount_minor ≤ℤ s.balance_minor
    pub sender_before : wallet_row from_wallet_id db ≡ some s
    pub receiver_before : wallet_row to_wallet_id db ≡ some t
    pub sender_after :
        wallet_row from_wallet_id db'
        ≡ some (with_balance server.now (s.balance_minor -ℤ amount_minor) s)
    pub receiver_after :
        wallet_row to_wallet_id db'
        ≡ some (with_balance server.now (t.balance_minor +ℤ amount_minor) t)
    pub others :
        (k : Uuid) → k ≢ from_wallet_id → k ≢ to_wallet_id → wallet_row k db' ≡ wallet_row k db
    pub conserved : total_balance db'.wallets ≡ total_balance db.wallets
    pub transactions :
        db'.transactions
        ≡ db.transactions
          ++ transfer_tx server from_wallet_id to_wallet_id user_id amount_minor key s ∷ []
    pub ledger :
        db'.ledger_entries
        ≡ db.ledger_entries
          ++ debit_entry server from_wallet_id to_wallet_id user_id amount_minor key s
            ∷ credit_entry server from_wallet_id to_wallet_id user_id amount_minor key t
            ∷ []

  -- Two updates that take from one wallet what they give to another.
  conserved_by_two : (a b x y z m : ℤ) → z +ℤ b ≡ y +ℤ (b +ℤ m) → y +ℤ a ≡ x +ℤ (a -ℤ m) → z ≡ x
  conserved_by_two a b x y z m h k =
      omega (int_laws, ap pos_part h, ap neg_part h, ap pos_part k, ap neg_part k)

  pub TransferPosted-Paid :
      {s t : WalletRecord} {r : Option TransactionRecord} {db db' : Db}
      → IsConsistent db
      → from_wallet_id ≢ to_wallet_id
      → TransferPosted server from_wallet_id to_wallet_id user_id amount_minor key s t r db db'
      → Paid s t db db'
  TransferPosted-Paid {s} {t} {r} {db} {db'} c apart p = subst (Paid s t db) (sym p.after) (record {
    apart = apart;
    mine = p.mine;
    same_currency = p.same_currency;
    enough = covered_of_test s.balance_minor amount_minor p.enough;
    sender_before = p.sender_found;
    receiver_before = p.receiver_found;
    sender_after =
        wallet_row-set_balance_other now b to_wallet_id from_wallet_id mid.wallets apart
        ∙ find_row-set_balance_self now from_wallet_id a db s p.sender_found;
    receiver_after = find_row-set_balance_self now to_wallet_id b mid t receiver_mid;
    others = λ k not_from not_to.
        wallet_row-set_balance_other now b to_wallet_id k mid.wallets not_to
        ∙ wallet_row-set_balance_other now a from_wallet_id k db.wallets not_from;
    conserved =
        conserved_by_two s.balance_minor t.balance_minor _ _ _ amount_minor
          (total_balance-update_rows now b to_wallet_id mid.wallets t
            (update_rows-UniqueIds now a (WalletRepository.has_id from_wallet_id) db.wallets
              c.unique_ids)
            receiver_mid)
          (total_balance-update_rows now a from_wallet_id db.wallets s c.unique_ids p.sender_found);
    transactions = refl;
    ledger = append_assoc db.ledger_entries _ _;
  })
    where
      now : Timestamp
      now = server.now

      a : ℤ
      a = s.balance_minor -ℤ amount_minor

      b : ℤ
      b = t.balance_minor +ℤ amount_minor

      mid : Db
      mid = debited server from_wallet_id to_wallet_id user_id amount_minor key s db

      receiver_mid : wallet_row to_wallet_id mid ≡ some t
      receiver_mid =
          find_row-set_balance_ne now from_wallet_id to_wallet_id a db t apart p.receiver_found

  -- A transfer under a new key that returns, from consistent tables, has paid: see `Paid`.
  pub transfer_effect :
      (db db' : Db) (r : Option TransactionRecord)
      → IsConsistent db
      → has_key key db ≡ false
      → transfer server from_wallet_id to_wallet_id user_id amount_minor key db ≡ (ok r, db')
      → (s : WalletRecord) × (t : WalletRecord) × (r
          ≡ some (transfer_tx server from_wallet_id to_wallet_id user_id amount_minor key s))
        × Paid s t db db'
  transfer_effect db db' r c new h =
      let (apart, o) =
        Post-result
          (TransferredApart server from_wallet_id to_wallet_id user_id amount_minor key db) _ h
          (transfer-outcome server from_wallet_id to_wallet_id user_id amount_minor key db
            c.unique_ids) in
      elim o [
        | inl replay ↦ absurd (not-Replayed new replay)
        | inr (s, t, p) ↦ (s, t, p.result, TransferPosted-Paid c apart p)
      ]
