-- ===== src/Worker/Attempts.antt =====
-- What a pass of the worker keeps: every table but its own, and the bound on attempts.
use super_wallet.Base.{
  String, ◌≡◌, refl, ap, ◌∙◌, arith, ℕ, ◌+◌, ◌≤◌, ◌<◌, leb, str_eq, Bool, true, false, List, [],
  ◌∷◌, All, map, take, if◌then◌else◌,
}
use super_wallet.Base.Queries.{All-update_rows, All-select_rows, All-order_by, All-take}
use mathlib.Core.Bool.{false≢true}
use super_wallet.Outbox.{
  done_row, failed_row, retried_row, OutboxEventRecord, is_pending, to_record, fetch_pending,
  has_id, mark_done, mark_failed, reset_to_pending,
}
use super_wallet.Base.Table.{select_rows, update_rows, order_by}
use super_wallet.Db.{Uuid, Db, ok, settle, continue, OutboxEventRow, Action, transaction, ◌>>◌}
use super_wallet.Worker.{
  Pass, Outcome, returned, raised, conclude, process_one, process_all, poll, run_worker,
  max_attempts, handle_email_event,
}

-- No event is tried more than `MAX_ATTEMPTS` times, and one that waits has a try left.
abbrev pub IsBounded : OutboxEventRow → Type 0
IsBounded r = (r.attempts ≤ max_attempts) × (is_pending r ≡ true → r.attempts < max_attempts)

abbrev pub HasTry : OutboxEventRecord → Type 0
HasTry e = e.attempts < max_attempts

abbrev with_events : Db → List OutboxEventRow → Db
with_events db rows = record db { outbox_events = rows }

-- A call that returns with the tables as they were, but for the events, which stay bounded.
abbrev pub KeepsBound : Action Unit → Type 0
KeepsBound m =
    (db : Db)
    → All IsBounded db.outbox_events
    → (rows : List OutboxEventRow) × (m db ≡ (ok tt, record db { outbox_events = rows }))
      × All IsBounded rows

KeepsBound-then : (m k : Action Unit) → KeepsBound m → KeepsBound k → KeepsBound (m >> k)
KeepsBound-then m k hm hk db bound =
    let (rows, e, bound') = hm db bound in
    let (rows', e', bound'') = hk (with_events db rows) bound' in
    (rows', ap (λ p. continue p.0 (λ _. k) p.1) e ∙ e', bound'')

KeepsBound-transaction : (m : Action Unit) → KeepsBound m → KeepsBound (transaction m)
KeepsBound-transaction m hm db bound =
    let (rows, e, bound') = hm db bound in (rows, ap (λ p. settle db p.0 p.1) e, bound')

KeepsBound-if :
    (b : Bool) (m k : Action Unit)
    → (b ≡ true → KeepsBound m)
    → (b ≡ false → KeepsBound k)
    → KeepsBound (if b then m else k)
KeepsBound-if true m k hm hk = hm refl
KeepsBound-if false m k hm hk = hk refl

KeepsBound-mark_failed :
    (id : Uuid) (error : String) (n : ℕ) → n ≤ max_attempts → KeepsBound (mark_failed id error n)
unfolding mark_failed
KeepsBound-mark_failed id error n h db bound = (
  update_rows (has_id id) (failed_row error n) db.outbox_events,
  refl,
  All-update_rows IsBounded (has_id id) (failed_row error n) db.outbox_events
      (λ r b. (h, λ waits. absurd (false≢true waits))) bound,
)

KeepsBound-reset_to_pending :
    (id : Uuid) (n : ℕ) → n < max_attempts → KeepsBound (reset_to_pending id n)
unfolding reset_to_pending
KeepsBound-reset_to_pending id n h db bound = (
  update_rows (has_id id) (retried_row n) db.outbox_events,
  refl,
  All-update_rows IsBounded (has_id id) (retried_row n) db.outbox_events
      (λ r b. (omega arith, λ waits. h)) bound,
)

too_many : (n : ℕ) → leb max_attempts n ≡ false → n < max_attempts
too_many n h = ground arith

KeepsBound-conclude :
    (pass : Pass) (event : OutboxEventRecord) (outcome : Outcome Unit)
    → HasTry event
    → KeepsBound (conclude pass.now event outcome)
unfolding conclude mark_done mark_failed reset_to_pending
KeepsBound-conclude pass event (returned _) h db bound = (
  update_rows (has_id event.id) (done_row pass.now) db.outbox_events,
  refl,
  All-update_rows IsBounded (has_id event.id) (done_row pass.now) db.outbox_events
      (λ r b. (b.0, λ waits. absurd (false≢true waits))) bound,
)
KeepsBound-conclude pass event (raised message) h db bound =
    KeepsBound-if (leb max_attempts (event.attempts + 1)) _ _
      (λ _. KeepsBound-mark_failed event.id message (event.attempts + 1) (omega arith))
      (λ few.
        KeepsBound-reset_to_pending event.id (event.attempts + 1)
          (too_many (event.attempts + 1) few))
      db bound

KeepsBound-process_one :
    (pass : Pass) (event : OutboxEventRecord) → HasTry event → KeepsBound (process_one pass event)
unfolding process_one mark_failed
KeepsBound-process_one pass event h =
    KeepsBound-if (str_eq event.event_type "email") _ _
      (λ _. KeepsBound-conclude pass event (handle_email_event pass event.id event.payload) h)
      (λ _. KeepsBound-mark_failed event.id "no_handler" (event.attempts + 1) (omega arith))

KeepsBound-process_all :
    (pass : Pass) (events : List OutboxEventRecord)
    → All HasTry events
    → KeepsBound (process_all pass events)
unfolding process_all
KeepsBound-process_all pass [] h db bound = (db.outbox_events, refl, bound)
KeepsBound-process_all pass (event ∷ events) h db bound =
    KeepsBound-then (process_one pass event) (process_all pass events)
      (KeepsBound-process_one pass event h.0) (KeepsBound-process_all pass events h.1) db bound

All-to_record :
    (rows : List OutboxEventRow)
    → All (λ r. r.attempts < max_attempts) rows
    → All HasTry (map to_record rows)
All-to_record [] all = tt
All-to_record (r ∷ rows) all = (all.0, All-to_record rows all.1)

abbrev Waits : OutboxEventRow → Type 0
Waits r = r.attempts < max_attempts

fetched_HasTry :
    (rows : List OutboxEventRow)
    → All IsBounded rows
    → All HasTry
        (map to_record (take 50 (order_by (λ e. e.created_at) (select_rows is_pending rows))))
fetched_HasTry rows bound =
    let created = λ (e : OutboxEventRow). e.created_at in
    let selected = select_rows is_pending rows in
    All-to_record (take 50 (order_by created selected)) (
      All-take Waits 50 (order_by created selected) (
        All-order_by Waits created selected
          (All-select_rows IsBounded Waits is_pending rows (λ r b waits. b.1 waits) bound)))

KeepsBound-poll : (pass : Pass) → KeepsBound (poll pass)
unfolding poll fetch_pending
KeepsBound-poll pass =
    KeepsBound-transaction _
      (λ db bound. KeepsBound-process_all pass _ (fetched_HasTry db.outbox_events bound) db bound)

run_worker-KeepsBound : (passes : List Pass) → KeepsBound (run_worker passes)
unfolding run_worker
run_worker-KeepsBound [] db bound = (db.outbox_events, refl, bound)
run_worker-KeepsBound (pass ∷ passes) db bound =
    KeepsBound-then (poll pass) (run_worker passes) (KeepsBound-poll pass)
      (run_worker-KeepsBound passes) db bound

-- However many passes the worker makes, and whatever sending an email raises, it returns. It writes
-- no table but the events. No event is then tried more than five times, and one that waits has been
-- tried less than five times, if this was so before.
pub run_worker_bounds :
    (passes : List Pass) (db : Db)
    → All IsBounded db.outbox_events
    → (rows : List OutboxEventRow) × (run_worker passes db
        ≡ (ok tt, record db { outbox_events = rows }))
      × All IsBounded rows
run_worker_bounds passes db bound = run_worker-KeepsBound passes db bound
