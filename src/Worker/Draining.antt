-- ===== src/Worker/Draining.antt =====
-- What a pass of the worker does to the events that it has fetched.
use mathlib.Core.Bool.{false≢true}
use super_wallet.Base.{
  leb, ap, str_eq, String, ◌+◌, ==_iff, subst, ◌≡◌, refl, sym, ◌∙◌, arith, ℕ, ◌≤◌, ◌==◌, Bool, true,
  false, List, [], ◌∷◌, All, if◌then◌else◌, inl, inr, Bool-cases, ◌&&◌, length,
}
use super_wallet.Base.Table.{has_row, select_rows, update_rows}
use super_wallet.Outbox.{
  done_row, failed_row, mark_done, retried_row, reset_to_pending, mark_failed, OutboxEventRecord,
  is_pending, has_id,
}
use super_wallet.Db.{continue, ok, Db, Action, Uuid, OutboxEventRow}
use super_wallet.Worker.{
  max_attempts, raised, handle_email_event, returned, Outcome, Pass, conclude, process_all,
  process_one,
}

-- No id names two events.
abbrev pub UniqueEvents : List OutboxEventRow → Type 0
UniqueEvents [] = Unit
UniqueEvents (r ∷ rs) = (has_row (has_id r.id) rs ≡ false) × UniqueEvents rs

abbrev pub count_pending : List OutboxEventRow → ℕ
count_pending rows = length (select_rows is_pending rows)

-- What a pass may do to one row: it keeps the id, and it makes no row wait that did not.
pub record RowAfter (r r' : OutboxEventRow) : Type 0 where
  pub same_id : r'.id ≡ r.id
  pub waited : is_pending r' ≡ true → is_pending r ≡ true

pub data RowsAfter : List OutboxEventRow → List OutboxEventRow → Type 0 where
  no_rows : RowsAfter [] []
  a_row :
      {r r' : OutboxEventRow} {rs rs' : List OutboxEventRow}
      → RowAfter r r'
      → RowsAfter rs rs'
      → RowsAfter (r ∷ rs) (r' ∷ rs')

pub RowsAfter-refl : (rows : List OutboxEventRow) → RowsAfter rows rows
RowsAfter-refl [] = no_rows
RowsAfter-refl (r ∷ rs) = a_row (record { same_id = refl; waited = λ w. w }) (RowsAfter-refl rs)

pub count_pending-le :
    {rows rows' : List OutboxEventRow}
    → RowsAfter rows rows'
    → count_pending rows' ≤ count_pending rows
count_pending-le no_rows = omega arith
count_pending-le (a_row h hs) = ground (arith, h.waited, count_pending-le hs)

same_ids :
    (i : Uuid) {rows rows' : List OutboxEventRow}
    → RowsAfter rows rows'
    → has_row (has_id i) rows' ≡ has_row (has_id i) rows
same_ids i no_rows = refl
same_ids i (a_row h hs) = ground (arith, h.same_id, same_ids i hs)

pub UniqueEvents-after :
    {rows rows' : List OutboxEventRow}
    → RowsAfter rows rows'
    → UniqueEvents rows
    → UniqueEvents rows'
UniqueEvents-after no_rows u = tt
UniqueEvents-after (a_row {r = r} {rs' = rest} h hs) u = (
  subst (λ i. has_row (has_id i) rest ≡ false) (sym h.same_id) (same_ids r.id hs ∙ u.0),
  UniqueEvents-after hs u.1,
)

-- Every row of this id waits.
abbrev pub WaitsAt : Uuid → OutboxEventRow → Type 0
WaitsAt i r = r.id ≡ i → is_pending r ≡ true

abbrev pub waits_at : Uuid → OutboxEventRow → Bool
waits_at i r = r.id == i && is_pending r

other_id :
    (i : Uuid) (rows : List OutboxEventRow) → has_row (has_id i) rows ≡ false → All (WaitsAt i) rows
other_id i [] h = tt
other_id i (r ∷ rs) h = (λ same. ground arith, other_id i rs (ground arith))

has_row-and :
    (i : Uuid) (rows : List OutboxEventRow)
    → has_row (waits_at i) rows ≡ true
    → has_row (has_id i) rows ≡ true
has_row-and i [] h = h
has_row-and i (r ∷ rs) h = ground (arith, has_row-and i rs)

pub unique_waits :
    (i : Uuid) (rows : List OutboxEventRow)
    → UniqueEvents rows
    → has_row (waits_at i) rows ≡ true
    → All (WaitsAt i) rows
unique_waits i [] u h = tt
unique_waits i (r ∷ rs) u h = elim (Bool-cases (r.id == i)) [
  | inl e ↦
      let same : r.id ≡ i = (==_iff r.id i).0 e in
      let apart : has_row (has_id i) rs ≡ false =
        subst (λ j. has_row (has_id j) rs ≡ false) same u.0 in
      (λ _. ground (arith, has_row-and i rs), other_id i rs apart)
  | inr e ↦ (λ same. ground arith, unique_waits i rs u.1 (ground arith))
]

update-RowsAfter :
    (i : Uuid) (f : OutboxEventRow → OutboxEventRow) {start rows : List OutboxEventRow}
    → ((r : OutboxEventRow) → (f r).id ≡ r.id)
    → All (WaitsAt i) start
    → RowsAfter start rows
    → RowsAfter start (update_rows (has_id i) f rows)
update-RowsAfter i f keeps at no_rows = no_rows
update-RowsAfter i f keeps at (a_row {r = s} {r' = r} h hs) =
    a_row
      (elim (Bool-cases (r.id == i)) [
        | inl e ↦ rw (e) (record {
          same_id = keeps r ∙ h.same_id;
          waited = λ _. at.0 (sym h.same_id ∙ (==_iff r.id i).0 e);
        })
        | inr e ↦ rw (e) h
      ])
      (update-RowsAfter i f keeps at.1 hs)

-- A row that waits was tried `k` times or more, or it is one of the events that are still to come.
abbrev pub contains_event : List OutboxEventRecord → Uuid → Bool
contains_event [] i = false
contains_event (e ∷ es) i = if e.id == i then true else contains_event es i

abbrev pub Tried : ℕ → List OutboxEventRecord → OutboxEventRow → Type 0
Tried k events r = is_pending r ≡ true → contains_event events r.id ≡ false → k ≤ r.attempts

update-Tried :
    (k : ℕ) (e : OutboxEventRecord) (events : List OutboxEventRecord)
    (f : OutboxEventRow → OutboxEventRow) (rows : List OutboxEventRow)
    → ((r : OutboxEventRow) → is_pending (f r) ≡ true → k ≤ (f r).attempts)
    → ((r : OutboxEventRow) → (f r).id ≡ r.id)
    → All (Tried k (e ∷ events)) rows
    → All (Tried k events) (update_rows (has_id e.id) f rows)
update-Tried k e events f [] tried keeps all = tt
update-Tried k e events f (r ∷ rows) tried keeps all = (
  elim (Bool-cases (r.id == e.id)) [
    | inl same ↦ rw (same) (λ waits _. tried r waits)
    | inr other ↦ rw (other) (λ waits apart. all.0 waits (ground (arith, all.0)))
  ],
  update-Tried k e events f rows tried keeps all.1,
)

-- An action that updates the rows of one event, so that those that wait were tried `k` times.
record Updates (id : Uuid) (k : ℕ) (m : Action Unit) : Type 0 where
  row : OutboxEventRow → OutboxEventRow
  keeps : (r : OutboxEventRow) → (row r).id ≡ r.id
  tried : (r : OutboxEventRow) → is_pending (row r) ≡ true → k ≤ (row r).attempts
  runs :
      (db : Db)
      → m db ≡ (ok tt, record db { outbox_events = update_rows (has_id id) row db.outbox_events })

Updates-if :
    (b : Bool) {id : Uuid} {k : ℕ} {m n : Action Unit}
    → Updates id k m
    → Updates id k n
    → Updates id k (if b then m else n)
Updates-if true hm hn = hm
Updates-if false hm hn = hn

Updates-mark_failed :
    (id : Uuid) (error : String) (n k : ℕ) → k ≤ n → Updates id k (mark_failed id error n)
unfolding mark_failed
Updates-mark_failed id error n k h = record {
  row = failed_row error n;
  keeps = λ r. refl;
  tried = λ r _. h;
  runs = λ db. refl;
}

Updates-reset_to_pending : (id : Uuid) (n k : ℕ) → k ≤ n → Updates id k (reset_to_pending id n)
unfolding reset_to_pending
Updates-reset_to_pending id n k h = record {
  row = retried_row n;
  keeps = λ r. refl;
  tried = λ r _. h;
  runs = λ db. refl;
}

Updates-conclude :
    (pass : Pass) (event : OutboxEventRecord) (k : ℕ) (outcome : Outcome Unit)
    → k ≤ event.attempts + 1
    → Updates event.id k (conclude pass.now event outcome)
unfolding conclude mark_done
Updates-conclude pass event k (returned _) h = record {
  row = done_row pass.now;
  keeps = λ r. refl;
  tried = λ r waits. absurd (false≢true waits);
  runs = λ db. refl;
}
Updates-conclude pass event k (raised message) h =
    Updates-if (leb max_attempts (event.attempts + 1))
      (Updates-mark_failed event.id message (event.attempts + 1) k h)
      (Updates-reset_to_pending event.id (event.attempts + 1) k h)

Updates-process_one :
    (pass : Pass) (event : OutboxEventRecord) (k : ℕ)
    → k ≤ event.attempts + 1
    → Updates event.id k (process_one pass event)
unfolding process_one
Updates-process_one pass event k h =
    Updates-if (str_eq event.event_type "email")
      (Updates-conclude pass event k (handle_email_event pass event.id event.payload) h)
      (Updates-mark_failed event.id "no_handler" (event.attempts + 1) k h)

-- How far a pass is: `events` are still to come.
pub record Progress (start : List OutboxEventRow) (k : ℕ) (events : List OutboxEventRecord)
    (rows : List OutboxEventRow) : Type 0 where
  pub after : RowsAfter start rows
  pub tried : All (Tried k events) rows

abbrev pub Fetched : List OutboxEventRow → ℕ → OutboxEventRecord → Type 0
Fetched start k e = (k ≤ e.attempts + 1) × All (WaitsAt e.id) start

pub process_all-Progress :
    (pass : Pass) (start : List OutboxEventRow) (k : ℕ) (events : List OutboxEventRecord) (db : Db)
    → All (Fetched start k) events
    → Progress start k events db.outbox_events
    → (rows : List OutboxEventRow) × (process_all pass events db
        ≡ (ok tt, record db { outbox_events = rows }))
      × Progress start k [] rows
unfolding process_all
process_all-Progress pass start k [] db h p = (db.outbox_events, refl, p)
process_all-Progress pass start k (e ∷ events) db h p =
    let u = Updates-process_one pass e k h.0.0 in
    let rows₁ = update_rows (has_id e.id) u.row db.outbox_events in
    let (rows, ran, q) =
      process_all-Progress pass start k events (record db { outbox_events = rows₁ }) h.1
        (record {
          after = update-RowsAfter e.id u.row u.keeps h.0.1 p.after;
          tried = update-Tried k e events u.row db.outbox_events u.tried u.keeps p.tried;
        }) in
    (rows, ap (λ r. continue r.0 (λ _. process_all pass events) r.1) (u.runs db) ∙ ran, q)
