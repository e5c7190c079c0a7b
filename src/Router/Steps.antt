-- ===== src/Router/Steps.antt =====
-- scheduler/router.py as a transition system: every call that changes the table of tasks and keeps
-- its rows. `delete` and `clear`, which remove rows, are no steps.
use clique.Prelude.{ℕ, String, ◌≡◌, true, Option, some}
use clique.Types.{TaskRequest, TaskResult, is_terminal, is_queued}
use clique.Router.{
  Config, Queue, Row, find_row, submit, assign, mark_running, on_result, on_node_lost,
  expire_leases, cancel,
}

-- A result that is reported has a final state; a task that is assigned was queued.
pub data Step (cfg : Config) : Queue → Queue → Type 0 where
  submitted :
      (fresh : String) (request : TaskRequest) (q : Queue)
      → Step cfg q (submit cfg fresh request q).1
  scheduled :
      (tid node attempt : String) (lease : ℕ) (q : Queue) {r : Row}
      → find_row tid q.rows ≡ some r
      → is_queued r.state ≡ true
      → Step cfg q (assign tid node attempt lease q)
  started : (tid attempt : String) (q : Queue) → Step cfg q (mark_running tid attempt q)
  reported :
      (result : TaskResult) (q : Queue)
      → is_terminal result.state ≡ true
      → Step cfg q (on_result cfg result q).1
  node_lost : (node : Option String) (q : Queue) → Step cfg q (on_node_lost cfg node q).1
  leases_expired : (now : ℕ) (q : Queue) → Step cfg q (expire_leases cfg now q).1
  cancelled : (tid : String) (q : Queue) → Step cfg q (cancel tid q).1

pub data Reach (cfg : Config) (q : Queue) : Queue → Type 0 where
  here : Reach cfg q q
  next : {q' q'' : Queue} → Reach cfg q q' → Step cfg q' q'' → Reach cfg q q''
