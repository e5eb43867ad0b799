-- ===== src/Fiat/Service.antt =====
-- app/fiat/service.py: what the services share.
use super_wallet.Base.{if◌then◌else◌, List, String, ◌==◌, not, Option, none, some, [], ◌∷◌}
use super_wallet.Base.Int.{ℤ}
use super_wallet.Errors.{fiat, wallet_not_found}
use super_wallet.Db.{
  WalletRecord, TransactionRecord, Uuid, text, num, uuid, Json, Action, pure, raise, raise_if, ◌>>◌,
}
use super_wallet.Fiat.TransactionRepository

-- `if not wallet or wallet.user_id != user_id: raise WalletNotFoundError()`
abbrev pub owned_by : Uuid → Option WalletRecord → Action WalletRecord
owned_by user_id none = raise (fiat wallet_not_found)
owned_by user_id (some wallet) = do
  raise_if (not (wallet.user_id == user_id)) (fiat wallet_not_found)
  pure wallet

-- `if existing: return existing`, before the transaction.
abbrev pub unless_existing :
    Option TransactionRecord → Action (Option TransactionRecord) → Action (Option TransactionRecord)
unless_existing none body = body
unless_existing (some existing) body = pure (some existing)

-- `if tx is None:` fetch the transaction that won the race, and return it.
abbrev pub unless_conflict :
    String
    → Option TransactionRecord
    → (TransactionRecord → Action (Option TransactionRecord))
    → Action (Option TransactionRecord)
unless_conflict key none rest = TransactionRepository.get_by_idempotency_key key
unless_conflict key (some tx) rest = rest tx

abbrev pub metadata_of : Uuid → ℤ → String → String → Json
metadata_of wallet_id amount_minor currency key =
    ("wallet_id", uuid wallet_id)
    ∷ ("amount_minor", num amount_minor)
    ∷ ("currency", text currency)
    ∷ ("idempotency_key", text key)
    ∷ []

-- `{w.id: w for w in wallets}`: of two entries with one key the later stays.
abbrev pub wallet_map : List WalletRecord → Uuid → Option WalletRecord
wallet_map [] key = none
wallet_map (w ∷ ws) key =
    let later = wallet_map ws key in
    elim later [ none ↦ if w.id == key then some w else none | some w' ↦ some w' ]
