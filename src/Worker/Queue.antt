-- ===== src/Worker/Queue.antt =====
-- How a queue of events empties.
use mathlib.Core.Bool.{false≢true}
use super_wallet.Worker.Attempts.{IsBounded, run_worker_bounds}
use super_wallet.Base.{
  All-both, subst, ◌≡◌, refl, ap, sym, ◌∙◌, arith, ℕ, zero, suc, ◌+◌, ◌≤◌, leb, ◌==◌, Bool, true,
  false, List, [], ◌∷◌, All, All-map, map, take, if◌then◌else◌, inl, inr, Bool-cases, length,
}
use super_wallet.Base.Queries.{All-select_rows, All-order_by}
use super_wallet.Base.Table.{has_row, select_rows, order_by, insert_by}
use super_wallet.Outbox.{OutboxEventRecord, is_pending, to_record, fetch_pending}
use super_wallet.Db.{Uuid, Db, ok, settle, continue, OutboxEventRow}
use super_wallet.Worker.{Pass, process_all, poll, run_worker, max_attempts}
use super_wallet.Worker.Draining.{
  count_pending-le, UniqueEvents-after, process_all-Progress, unique_waits, UniqueEvents,
  count_pending, waits_at, contains_event, Tried, Progress, Fetched, RowsAfter-refl,
}

abbrev created : OutboxEventRow → ℕ
created e = e.created_at

-- The rows that `fetch_pending 50` reads, when no more than 50 wait.
abbrev waiting : List OutboxEventRow → List OutboxEventRow
waiting rows = order_by created (select_rows is_pending rows)

if_length :
    (b : Bool) (xs ys : List OutboxEventRow) (n : ℕ)
    → length xs ≡ n
    → length ys ≡ n
    → length (if b then xs else ys) ≡ n
if_length true xs ys n hx hy = hx
if_length false xs ys n hx hy = hy

length-insert_by :
    (a : OutboxEventRow) (xs : List OutboxEventRow)
    → length (insert_by created a xs) ≡ suc (length xs)
length-insert_by a [] = refl
length-insert_by a (x ∷ xs) =
    if_length (leb (created a) (created x)) _ _ _ refl (ap suc (length-insert_by a xs))

length-order_by : (xs : List OutboxEventRow) → length (order_by created xs) ≡ length xs
length-order_by [] = refl
length-order_by (x ∷ xs) = length-insert_by x (order_by created xs) ∙ ap suc (length-order_by xs)

take_short : (n : ℕ) (xs : List OutboxEventRow) → length xs ≤ n → take n xs ≡ xs
take_short zero [] h = refl
take_short zero (x ∷ xs) h = absurd (omega (arith, h))
take_short (suc n) [] h = refl
take_short (suc n) (x ∷ xs) h = ap (◌∷◌ x) (take_short n xs (omega arith))

abbrev has_event : List OutboxEventRow → Uuid → Bool
has_event rows i = contains_event (map to_record rows) i

has_event-if :
    (b : Bool) (xs ys : List OutboxEventRow) (i : Uuid) (c : Bool)
    → has_event xs i ≡ c
    → has_event ys i ≡ c
    → has_event (if b then xs else ys) i ≡ c
has_event-if true xs ys i c hx hy = hx
has_event-if false xs ys i c hx hy = hy

swap_tests :
    (a b c : Bool)
    → (if a then true else (if b then true else c)) ≡ (if b then true else (if a then true else c))
swap_tests a b c = ground arith

has_event-insert_by :
    (i : Uuid) (a : OutboxEventRow) (xs : List OutboxEventRow)
    → has_event (insert_by created a xs) i ≡ (if a.id == i then true else has_event xs i)
has_event-insert_by i a [] = refl
has_event-insert_by i a (x ∷ xs) =
    has_event-if (leb (created a) (created x)) (a ∷ x ∷ xs) (x ∷ insert_by created a xs) i _ refl (
      ap (λ b. if x.id == i then true else b) (has_event-insert_by i a xs)
      ∙ swap_tests (x.id == i) (a.id == i) (has_event xs i))

has_event-order_by :
    (i : Uuid) (xs : List OutboxEventRow) → has_event (order_by created xs) i ≡ has_event xs i
has_event-order_by i [] = refl
has_event-order_by i (x ∷ xs) =
    has_event-insert_by i x (order_by created xs)
    ∙ ap (λ b. if x.id == i then true else b) (has_event-order_by i xs)

has_event-select_rows :
    (i : Uuid) (rows : List OutboxEventRow)
    → has_event (select_rows is_pending rows) i ≡ has_row (waits_at i) rows
has_event-select_rows i [] = refl
has_event-select_rows i (r ∷ rs) = ground (arith, has_event-select_rows i rs)

-- A row of the table that waits is found there.
waits_at_self :
    (rows : List OutboxEventRow)
    → All (λ r. is_pending r ≡ true → has_row (waits_at r.id) rows ≡ true) rows
waits_at_self [] = tt
waits_at_self (r ∷ rs) = (
  λ waits. ground arith,
  All-map (λ (x : OutboxEventRow). is_pending x ≡ true → has_row (waits_at x.id) rs ≡ true)
      (λ (x : OutboxEventRow). is_pending x ≡ true → has_row (waits_at x.id) (r ∷ rs) ≡ true) rs
      (λ x h waits. ground (arith, h waits)) (waits_at_self rs),
)

-- Every row that waits was tried `k` times or more.
abbrev AllTried : ℕ → List OutboxEventRow → Type 0
AllTried k rows = All (λ r. is_pending r ≡ true → k ≤ r.attempts) rows

abbrev Waits : List OutboxEventRow → ℕ → OutboxEventRow → Type 0
Waits rows k r = is_pending r ≡ true → (k ≤ r.attempts) × (has_row (waits_at r.id) rows ≡ true)

All-to_record :
    (P : OutboxEventRecord → Type 0) (rows : List OutboxEventRow)
    → All (λ r. P (to_record r)) rows
    → All P (map to_record rows)
All-to_record P [] all = tt
All-to_record P (r ∷ rs) all = (all.0, All-to_record P rs all.1)

module _ (rows : List OutboxEventRow) (k : ℕ) (unique : UniqueEvents rows)
    (tried : AllTried k rows) where
  waiting-Fetched : All (Fetched rows (suc k)) (map to_record (waiting rows))
  waiting-Fetched = All-to_record (Fetched rows (suc k)) (waiting rows) (
      All-order_by (λ r. Fetched rows (suc k) (to_record r)) created (select_rows is_pending rows)
        (All-select_rows (Waits rows k) (λ r. Fetched rows (suc k) (to_record r)) is_pending rows
          (λ r h waits. (omega (arith, (h waits).0), unique_waits r.id rows unique (h waits).1))
          (All-both rows (λ r h there waits. (h waits, there waits)) tried (waits_at_self rows))))

  waiting-Tried : All (Tried (suc k) (map to_record (waiting rows))) rows
  waiting-Tried =
      All-map (λ (r : OutboxEventRow). is_pending r ≡ true → has_row (waits_at r.id) rows ≡ true)
        (Tried (suc k) (map to_record (waiting rows))) rows
        (λ r there waits apart. absurd (
          false≢true (
            sym apart
            ∙ has_event-order_by r.id (select_rows is_pending rows)
            ∙ has_event-select_rows r.id rows
            ∙ there waits)))
        (waits_at_self rows)

poll-Progress :
    (pass : Pass) (k : ℕ) (db : Db)
    → UniqueEvents db.outbox_events
    → count_pending db.outbox_events ≤ 50
    → AllTried k db.outbox_events
    → (rows : List OutboxEventRow) × (poll pass db ≡ (ok tt, record db { outbox_events = rows }))
      × Progress db.outbox_events (suc k) [] rows
unfolding poll fetch_pending
poll-Progress pass k db unique short tried =
    let start = db.outbox_events in
    let fetched : take 50 (waiting start) ≡ waiting start =
      take_short 50 (waiting start)
        (omega (arith, length-order_by (select_rows is_pending start), short)) in
    let (rows, ran, p) =
      process_all-Progress pass start (suc k) (map to_record (waiting start)) db
        (waiting-Fetched start k unique tried)
        (record { after = RowsAfter-refl start; tried = waiting-Tried start k unique tried }) in
    (
      rows,
      ap (λ r. settle db r.0 r.1)
          (ap (λ events. process_all pass (map to_record events) db) fetched ∙ ran),
      p,
    )

run_worker-AllTried :
    (passes : List Pass) (k : ℕ) (db : Db)
    → UniqueEvents db.outbox_events
    → count_pending db.outbox_events ≤ 50
    → AllTried k db.outbox_events
    → (rows : List OutboxEventRow) × (run_worker passes db
        ≡ (ok tt, record db { outbox_events = rows }))
      × AllTried (length passes + k) rows
unfolding run_worker
run_worker-AllTried [] k db unique short tried = (
  db.outbox_events,
  refl,
  All-map (λ (r : OutboxEventRow). is_pending r ≡ true → k ≤ r.attempts) _ db.outbox_events
      (λ r h waits. omega (arith, h waits)) tried,
)
run_worker-AllTried (pass ∷ passes) k db unique short tried =
    let (rows₁, ran, p) = poll-Progress pass k db unique short tried in
    let (rows, ran', tried') =
      run_worker-AllTried passes (suc k) (record db { outbox_events = rows₁ })
        (UniqueEvents-after p.after unique) (omega (arith, count_pending-le p.after, short))
        (All-map (Tried (suc k) []) _ rows₁ (λ r h waits. h waits refl) p.tried) in
    (
      rows,
      ap (λ r. continue r.0 (λ _. run_worker passes) r.1) ran ∙ ran',
      All-map (λ (r : OutboxEventRow). is_pending r ≡ true → length passes + suc k ≤ r.attempts) _
          rows (λ r h waits. omega (arith, h waits)) tried',
    )

-- A queue in which at most 50 events wait is emptied by five passes: after them, and after any
-- further ones, no event waits, whatever sending the emails raises. Before them, no event may have
-- been tried more than five times, nor one that waits five times. No other process adds events.
pub run_worker_drains :
    (passes : List Pass) (db : Db)
    → UniqueEvents db.outbox_events
    → All IsBounded db.outbox_events
    → count_pending db.outbox_events ≤ 50
    → max_attempts ≤ length passes
    → (rows : List OutboxEventRow) × (run_worker passes db
        ≡ (ok tt, record db { outbox_events = rows }))
      × All (λ r. is_pending r ≡ false) rows
run_worker_drains passes db unique bound short enough =
    let (rows, ran, tried) =
      run_worker-AllTried passes 0 db unique short
        (All-map IsBounded _ db.outbox_events (λ r _ _. omega arith) bound) in
    let (rows', ran', bound') = run_worker_bounds passes db bound in
    let same : rows' ≡ rows = ap (λ r. r.1.outbox_events) (sym ran' ∙ ran) in
    (
      rows,
      ran,
      All-both rows
          (λ r h b. elim (Bool-cases (is_pending r)) [
            | inl waits ↦ absurd (omega (arith, h waits, b.1 waits, enough))
            | inr done ↦ done
          ])
          tried (subst (All IsBounded) same bound'),
    )
