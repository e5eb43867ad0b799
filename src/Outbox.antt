-- ===== src/Outbox.antt =====
-- class OutboxRepository of app/core/outbox.py, over the table `outbox_events`.
use super_wallet.Db.Post.{Post}
use super_wallet.Base.{
  Bool-cases, inl, inr, ◌≡◌, refl, map, ℕ, String, str_eq, ◌==◌, Bool, none, some, List, [], ◌∷◌,
  ◌++◌, take,
}
use super_wallet.Base.Table.{has_row, select_rows, update_rows, order_by}
use super_wallet.Errors.{unique_violation}
use super_wallet.Db.{
  Db, OutboxEventRow, Uuid, Timestamp, Json, Action, pure, gets, modify, raise_if, ◌>>◌,
}

-- `class OutboxEventRecord`
pub record OutboxEventRecord : Type 0 where
  pub id : Uuid
  pub event_type : String
  pub payload : Json
  pub status : String
  pub attempts : ℕ

abbrev pub has_id : Uuid → OutboxEventRow → Bool
has_id id e = e.id == id

abbrev pub is_pending : OutboxEventRow → Bool
is_pending e = str_eq e.status "pending"

abbrev pub new_event : Timestamp → Uuid → String → Json → OutboxEventRow
new_event now id event_type payload = record {
  id = id;
  event_type = event_type;
  payload = payload;
  status = "pending";
  attempts = 0;
  last_error = none;
  created_at = now;
  processed_at = none;
}

unfoldable pub enqueue : Timestamp → Uuid → String → Json → Action Uuid
enqueue now id event_type payload = do
  λ db. raise_if (has_row (has_id id) db.outbox_events) (unique_violation "outbox_events_pkey") db
  modify (λ db. record db {
    outbox_events = db.outbox_events ++ new_event now id event_type payload ∷ [];
  })
  pure id

abbrev pub to_record : OutboxEventRow → OutboxEventRecord
to_record r = record {
  id = r.id;
  event_type = r.event_type;
  payload = r.payload;
  status = r.status;
  attempts = r.attempts;
}

-- No other worker holds a lock, so `SKIP LOCKED` skips nothing.
unfoldable pub fetch_pending : ℕ → Action (List OutboxEventRecord)
fetch_pending limit = gets (λ db.
    map to_record
      (take limit (order_by (λ e. e.created_at) (select_rows is_pending db.outbox_events))))

abbrev update_event : Uuid → (OutboxEventRow → OutboxEventRow) → Action Unit
update_event id f =
    modify (λ db. record db { outbox_events = update_rows (has_id id) f db.outbox_events })

abbrev pub done_row : Timestamp → OutboxEventRow → OutboxEventRow
done_row now e = record e { status = "done"; processed_at = some now }

abbrev pub failed_row : String → ℕ → OutboxEventRow → OutboxEventRow
failed_row error new_attempts e = record e {
  status = "failed";
  last_error = some error;
  attempts = new_attempts;
}

abbrev pub retried_row : ℕ → OutboxEventRow → OutboxEventRow
retried_row new_attempts e = record e { status = "pending"; attempts = new_attempts }

unfoldable pub mark_done : Timestamp → Uuid → Action Unit
mark_done now event_id = update_event event_id (done_row now)

unfoldable pub mark_failed : Uuid → String → ℕ → Action Unit
mark_failed event_id error new_attempts = update_event event_id (failed_row error new_attempts)

unfoldable pub reset_to_pending : Uuid → ℕ → Action Unit
reset_to_pending event_id new_attempts = update_event event_id (retried_row new_attempts)

-- An event that is enqueued is appended, and waits.
pub enqueue-Post :
    (now : Timestamp) (id : Uuid) (event_type : String) (payload : Json) (db : Db)
    → Post
        (λ _ db'. db' ≡ record db {
          outbox_events = db.outbox_events ++ new_event now id event_type payload ∷ [];
        })
        (enqueue now id event_type payload db)
unfolding enqueue
enqueue-Post now id event_type payload db =
    elim (Bool-cases (has_row (has_id id) db.outbox_events)) [
      | inl taken ↦ rw taken tt
      | inr new ↦ rw new refl
    ]
