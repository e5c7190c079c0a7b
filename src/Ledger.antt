-- ===== src/Ledger.antt =====
-- scheduler/ledger.py: the ledger of ended tasks. The sqlite table `ledger` is a list of rows; `seq` is
-- the counter of its AUTOINCREMENT column. The column `rate`, always 0, is left out.
pub mod Totals
mod Tests
use clique.Prelude.{
  ℕ, String, ◌+◌, Bool, true, false, not, ◌&&◌, Option, none, some, List, [], ◌∷◌, ◌++◌, length,
  map, if◌then◌else◌, ◌is◌,
}
use clique.Types.{
  TaskState, queued, assigned, running, succeeded, failed, cancelled, expired, TaskType, chat,
  code_generation, code_edit, summarization, embedding, other, TaskView, TaskResult,
}
use clique.Schedule.Score.{same_type}

pub record LedgerRow : Type 0 where
  pub seq : ℕ
  pub task_id : String
  pub task_type : TaskType
  pub state : String
  pub node_id : Option String
  pub accepted : Bool
  pub applied_sha : Option String
  pub created_at : ℕ

pub record Book : Type 0 where
  pub rows : List LedgerRow
  pub last_seq : ℕ

-- `state.value`
abbrev pub state_value : TaskState → String
state_value queued = "queued"
state_value assigned = "assigned"
state_value running = "running"
state_value succeeded = "succeeded"
state_value failed = "failed"
state_value cancelled = "cancelled"
state_value expired = "expired"

unfoldable pub has_task : String → List LedgerRow → Bool
has_task tid [] = false
has_task tid (r ∷ rs) = if r.task_id is tid then true else has_task tid rs

abbrev pub sha_of : Option TaskResult → Option String
sha_of none = none
sha_of (some r) = r.applied_sha

abbrev pub is_there : Option String → Bool
is_there none = false
is_there (some s) = true

-- Whether the task counts as accepted work.
abbrev pub is_accepted : TaskView → Bool
is_accepted view =
    (state_value view.state is "succeeded")
    && same_type view.request.task_type code_edit
    && is_there (sha_of view.result)

pub data Recorded : Type 0 where
  duplicate : Recorded
  entered : Bool → Recorded

abbrev pub row_for : ℕ → TaskView → Book → LedgerRow
row_for now view b = record {
  seq = b.last_seq + 1;
  task_id = view.request.task_id;
  task_type = view.request.task_type;
  state = state_value view.state;
  node_id = view.assigned_node;
  accepted = is_accepted view;
  applied_sha = sha_of view.result;
  created_at = now;
}

abbrev pub enter : ℕ → TaskView → Book → Book
enter now view b = record { rows = b.rows ++ row_for now view b ∷ []; last_seq = b.last_seq + 1 }

unfoldable pub record_task : ℕ → TaskView → Book → Recorded × Book
unfolding has_task
record_task now view b =
    if has_task view.request.task_id b.rows
    then (duplicate, b)
    else (entered (is_accepted view), enter now view b)

-- `COALESCE(SUM(accepted), 0)`
unfoldable pub sum_accepted : List LedgerRow → ℕ
sum_accepted [] = 0
sum_accepted (r ∷ rs) = let rest = sum_accepted rs in if r.accepted then rest + 1 else rest

-- One line of a GROUP BY: the key, COUNT(*) and SUM(accepted).
pub record Group (K : Type 0) : Type 0 where
  pub key : K
  pub terminal : ℕ
  pub accepted : ℕ

abbrev one_if : Bool → ℕ
one_if true = 1
one_if false = 0

module _ {K : Type 0} (same : K → K → Bool) where
  unfoldable pub add_row : K → Bool → List (Group K) → List (Group K)
  add_row k a [] = (record { key = k; terminal = 1; accepted = one_if a }) ∷ []
  add_row k a (g ∷ gs) =
      if same g.key k
      then (record g { terminal = g.terminal + 1; accepted = g.accepted + one_if a }) ∷ gs
      else g ∷ add_row k a gs

  unfoldable pub group_by : (LedgerRow → K) → List LedgerRow → List (Group K)
  unfolding add_row
  group_by f [] = []
  group_by f (r ∷ rs) = add_row (f r) r.accepted (group_by f rs)

abbrev pub same_node : Option String → Option String → Bool
same_node none none = true
same_node (some a) (some b) = a is b
same_node _ _ = false

abbrev pub same_state : String → String → Bool
same_state a b = a is b

-- `n or "-"`
abbrev node_or_dash : Option String → String
node_or_dash none = "-"
node_or_dash (some n) = if n is "" then "-" else n

pub record Summary : Type 0 where
  pub total_terminal : ℕ
  pub accepted_tasks : ℕ
  pub by_state : List (Group String)
  pub by_node : List (Group String)

abbrev named : Group (Option String) → Group String
named g = record { key = node_or_dash g.key; terminal = g.terminal; accepted = g.accepted }

unfoldable pub summary : Book → Summary
unfolding sum_accepted group_by
summary b = record {
  total_terminal = length b.rows;
  accepted_tasks = sum_accepted b.rows;
  by_state = group_by same_state (λ (r : LedgerRow). r.state) b.rows;
  by_node = map named (group_by same_node (λ (r : LedgerRow). r.node_id) b.rows);
}

unfoldable pub clear : Book → ℕ × Book
clear b = (length b.rows, record b { rows = [] })
