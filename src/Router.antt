-- ===== src/Router.antt =====
-- scheduler/router.py: the durable task queue. The sqlite table `tasks` is a list of rows in order
-- of insertion; a statement `UPDATE … WHERE …` is a pass over it. Times are numbers; the time of
-- day and the new identifiers come in as arguments.
pub mod Rows
pub mod Steps
pub mod Invariant
pub mod Final
pub mod Submit
pub mod Expire
pub mod Stopped
mod Tests
pub mod Lost
pub mod Views
pub mod Owned
use clique.Prelude.{
  ℕ, String, ◌+◌, ◌-◌, Bool, true, false, not, ◌&&◌, ◌||◌, Option, none, some, List, [], ◌∷◌, ◌++◌,
  length, select, ltb, leb, if◌then◌else◌, ◌is◌, holds,
}
use clique.Types.{
  TaskState, queued, assigned, running, failed, cancelled, TaskRequest, TaskResult, is_terminal,
  in_flight, is_failed, is_queued, is_assigned,
}

pub record Row : Type 0 where
  pub task_id : String
  pub state : TaskState
  pub request : TaskRequest
  pub assigned_node : Option String
  pub attempt_id : Option String
  pub lease_expires_at : Option ℕ
  pub attempts : ℕ
  pub result : Option TaskResult
  pub created_seq : ℕ

pub record Config : Type 0 where
  pub lease_seconds : ℕ
  pub code_lease_seconds : ℕ
  pub max_attempts : ℕ
  pub queue_cap : ℕ

pub record Queue : Type 0 where
  pub rows : List Row
  pub seq : ℕ

pub data RouterError : Type 0 where
  queue_full integrity_error lease_expired : RouterError

pub data Result {ℓ} (A : Type ℓ) : Type ℓ where
  ok : A → Result A
  err : RouterError → Result A

-- `WHERE task_id=?` on the primary key
unfoldable pub find_row : String → List Row → Option Row
find_row tid [] = none
find_row tid (r ∷ rs) = if r.task_id is tid then some r else find_row tid rs

unfoldable pub find_key : String → List Row → Option Row
find_key key [] = none
find_key key (r ∷ rs) = if r.request.idempotency_key is key then some r else find_key key rs

-- `UPDATE tasks SET … WHERE …`
unfoldable pub update : (Row → Bool) → (Row → Row) → List Row → List Row
update p f [] = []
update p f (r ∷ rs) = (if p r then f r else r) ∷ update p f rs

-- `SET state='queued', assigned_node=NULL, attempt_id=NULL, lease_expires_at=NULL`
abbrev pub requeue : Row → Row
requeue r = record r {
  state = queued;
  assigned_node = none;
  attempt_id = none;
  lease_expires_at = none;
}

abbrev pub has_id : String → Row → Bool
has_id tid r = r.task_id is tid

-- The rows that `submit` counts against the cap.
abbrev pub is_open : Row → Bool
is_open r = is_queued r.state || in_flight r.state

-- `request.task_id or fresh`
abbrev pub or_fresh : String → String → String
or_fresh tid fresh = if tid is "" then fresh else tid

-- The row that `submit` inserts.
abbrev pub new_row : TaskRequest → ℕ → Row
new_row request seq = record {
  task_id = request.task_id;
  state = queued;
  request = request;
  assigned_node = none;
  attempt_id = none;
  lease_expires_at = none;
  attempts = 0;
  result = none;
  created_seq = seq;
}

-- The insertion, with the table's two constraints: the primary key and the unique key.
pub insert_row : TaskRequest → Queue → Result String × Queue
unfolding find_row find_key
insert_row request q = elim (find_row request.task_id q.rows) [
  | some _ ↦ (err integrity_error, record q { seq = q.seq + 1 })
  | none ↦ (
    ok request.task_id,
    record { rows = q.rows ++ new_row request (q.seq + 1) ∷ []; seq = q.seq + 1 },
  )
]

unfoldable pub submit : Config → String → TaskRequest → Queue → Result String × Queue
unfolding insert_row find_key
submit cfg fresh request q = elim (find_key request.idempotency_key q.rows) [
  | some r ↦ (ok r.task_id, q)
  | none ↦
      if leb cfg.queue_cap (length (select is_open q.rows))
      then (err queue_full, q)
      else insert_row (record request { task_id = or_fresh request.task_id fresh }) q
]

-- The assignment that `schedule_pending` writes for one task.
unfoldable pub assign : String → String → String → ℕ → Queue → Queue
unfolding update
assign tid node attempt lease q = record q {
  rows =
      update (has_id tid)
        (λ r. record r {
          state = assigned;
          assigned_node = some node;
          attempt_id = some attempt;
          lease_expires_at = some lease;
          attempts = r.attempts + 1;
        })
        q.rows;
}

unfoldable pub mark_running : String → String → Queue → Queue
unfolding update
mark_running tid attempt q = record q {
  rows =
      update (λ r. has_id tid r && holds r.attempt_id attempt && is_assigned r.state)
        (λ r. record r { state = running }) q.rows;
}

-- What `on_result` does with the row that it found.
pub settle : Config → TaskResult → Row → Queue → Result Bool × Queue
unfolding update
settle cfg result row q =
    if is_terminal row.state
    then (ok false, q)
    else if not (holds row.attempt_id result.attempt_id)
    then (err lease_expired, q)
    else if is_failed result.state && ltb row.attempts cfg.max_attempts
    then (ok false, record q { rows = update (has_id result.task_id) requeue q.rows })
    else (
      ok true,
      record q {
        rows =
            update (has_id result.task_id)
              (λ r. record r { state = result.state; result = some result }) q.rows;
      },
    )

unfoldable pub on_result : Config → TaskResult → Queue → Result Bool × Queue
unfolding settle find_row
on_result cfg result q = elim (find_row result.task_id q.rows) [
  | none ↦ (ok false, q)
  | some row ↦ settle cfg result row q
]

-- Seconds since the assignment; the lease is read back with the plain lease time.
pub task_age_s : Config → ℕ → String → Queue → ℕ
unfolding find_row
task_age_s cfg now tid q = elim (find_row tid q.rows) [
  | none ↦ 0
  | some r ↦
      if in_flight r.state
      then elim r.lease_expires_at [ none ↦ 0 | some lease ↦ now + cfg.lease_seconds - lease ]
      else 0
]

abbrev pub lost_result : String → TaskResult
lost_result tid = record {
  task_id = tid;
  attempt_id = "";
  state = failed;
  output = none;
  error = some "node lost; retry budget exhausted";
  patch = none;
  applied_sha = none;
}

-- `WHERE assigned_node=? AND state IN ('assigned','running')`; a NULL node equals nothing.
abbrev pub runs_on : Option String → Row → Bool
runs_on none r = false
runs_on (some node) r = holds r.assigned_node node && in_flight r.state

-- The loop of `on_node_lost` over the rows that it selected.
pub lose : Config → List Row → List Row → List String × List Row
unfolding update
lose cfg [] rows = ([], rows)
lose cfg (r ∷ rs) rows =
    let after_failure = lose cfg rs (
      update (has_id r.task_id)
        (λ s. record s { state = failed; result = some (lost_result r.task_id) }) rows) in
    let after_requeue = lose cfg rs (update (has_id r.task_id) requeue rows) in
    if leb cfg.max_attempts r.attempts
    then after_failure
    else (r.task_id ∷ after_requeue.0, after_requeue.1)

unfoldable pub on_node_lost : Config → Option String → Queue → List String × Queue
unfolding lose
on_node_lost cfg node q =
    let (requeued, rows) = lose cfg (select (runs_on node) q.rows) q.rows in
    (requeued, record q { rows = rows })

abbrev pub lease_over : ℕ → Row → Bool
lease_over now r =
    in_flight r.state && elim r.lease_expires_at [ none ↦ false | some lease ↦ ltb lease now ]

pub lose_nodes : Config → List Row → Queue → List String × Queue
lose_nodes cfg [] q = ([], q)
lose_nodes cfg (r ∷ rs) q =
    let (here, q') = on_node_lost cfg r.assigned_node q in
    let (later, q'') = lose_nodes cfg rs q' in (here ++ later, q'')

unfoldable pub expire_leases : Config → ℕ → Queue → List String × Queue
unfolding lose_nodes
expire_leases cfg now q = lose_nodes cfg (select (lease_over now) q.rows) q

abbrev pub cancels : String → Row → Bool
cancels tid r = has_id tid r && is_open r

-- `cur.rowcount > 0`
unfoldable pub cancel : String → Queue → Bool × Queue
unfolding update
cancel tid q = (
  ltb 0 (length (select (cancels tid) q.rows)),
  record q { rows = update (cancels tid) (λ r. record r { state = cancelled }) q.rows },
)

unfoldable pub delete : String → Queue → Bool × Queue
delete tid q = (
  ltb 0 (length (select (has_id tid) q.rows)),
  record q { rows = select (λ r. not (has_id tid r)) q.rows },
)

unfoldable pub clear : Queue → ℕ × Queue
clear q = (length q.rows, record { rows = []; seq = 0 })
