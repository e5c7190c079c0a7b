-- ===== src/Router/Views.antt =====
-- scheduler/router.py: the reads of the queue, `get_task` and `list_tasks`.
use clique.Prelude.{
  ℕ, String, true, Bool, Option, none, some, List, [], ◌∷◌, select, take, if◌then◌else◌, ◌is◌,
}
use clique.Prelude.Sort.{sort_by}
use mathlib.Core.List.{reverse}
use clique.Types.{TaskView}
use clique.Ledger.{state_value}
use clique.Router.{Row, Queue, find_row}

abbrev pub view_of : Row → TaskView
view_of r = record {
  request = r.request;
  state = r.state;
  assigned_node = r.assigned_node;
  attempt_id = r.attempt_id;
  attempts = r.attempts;
  result = r.result;
}

unfoldable pub get_task : String → Queue → Option TaskView
get_task tid q = elim (find_row tid q.rows) [ none ↦ none | some r ↦ some (view_of r) ]

-- `[v for (tid,) in rows if (v := self.get_task(tid))]`
unfoldable pub get_all : List Row → Queue → List TaskView
unfolding get_task
get_all [] q = []
get_all (r ∷ rs) q = elim (get_task r.task_id q) [ none ↦ get_all rs q | some v ↦ v ∷ get_all rs q ]

abbrev has_state : Option String → Row → Bool
has_state none r = true
has_state (some s) r = if s is "" then true else state_value r.state is s

unfoldable pub list_tasks : Option String → ℕ → Queue → List TaskView
unfolding get_all sort_by
list_tasks state limit q =
    get_all
      (take limit
        (reverse (sort_by (λ (r : Row). r.created_seq) (select (has_state state) q.rows))))
      q
