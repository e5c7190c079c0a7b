-- ===== src/Server/Tests/Edits.antt =====
-- scheduler/server.py: the verification of a concrete code edit.
use clique.Prelude.{ℕ, ◌≡◌, refl, false, none, some, [], ◌∷◌, ◌++◌}
use clique.Types.{TaskResult, TaskType, TaskState, Text, succeeded, CodeTaskSpec}
use clique.Router.{Row, new_row, find_row}
use clique.Server.{State, done}
use clique.Texts.{
  is_prefix, split_on, same_text, contains, strip, lstrip, rstrip, is_space, split_at,
  encoded_length,
}
use clique.Live.Lines.{is_break}
use clique.Dict.Keyed.{fetch, store}
use clique.Live.{codes}
use clique.Router.Views.{view_of, get_task}
use clique.Server.Verify.{Outside, verify_code_result}
use clique.Server.Gate.{Accepted, verify_code_result-Accepted}
use clique.Checkout.Hunks.{patched}
use clique.Server.Tests.{naturals, config, ask, fresh, outside}

-- A code edit, whose answer is a fenced diff
abbrev pub edit_spec : CodeTaskSpec
edit_spec = record {
  base_sha = "";
  use_tools = false;
  files = ("a.py", codes "x\n") ∷ [];
  test_cmd = "pytest" ∷ [];
  allowed_paths = codes "a.py" ∷ [];
  timeout_s = 60;
  patch_budget_kb = 64;
}

abbrev edit_task : Row
edit_task =
    record (new_row
      (record (ask "t5" "k5") { task_type = TaskType.code_edit; code = some edit_spec }) 1) {
        state = TaskState.running;
        assigned_node = some "gpu";
        attempt_id = some "a-2";
        lease_expires_at = some 120;
        attempts = 1;
      }

abbrev editing : State ℕ
editing = record fresh { queue = record { rows = edit_task ∷ []; seq = 1 } }

abbrev hunk : Text
hunk = codes "--- a/a.py\n+++ b/a.py\n@@ -1 +1 @@\n-x\n+y"

abbrev answer : TaskResult
answer = record {
  task_id = "t5";
  attempt_id = "a-2";
  state = succeeded;
  output = some (codes "```diff\n" ++ (hunk ++ codes "\n```"));
  error = none;
  patch = none;
  applied_sha = none;
}

abbrev patching : Outside
patching = record outside { patch = some (λ diff files. patched files) }

abbrev accepted : TaskResult
accepted = record answer { patch = some (hunk ++ 10 ∷ []); applied_sha = some "sha" }

verifies :
    verify_code_result patching naturals config answer editing
    ≡ (done accepted, record editing { dirs = [] })
unfolding verify_code_result find_row strip lstrip rstrip is_prefix is_space contains split_at
    encoded_length split_on is_break fetch same_text store
verifies = refl

edit_found : get_task "t5" editing.queue ≡ some (view_of edit_task)
unfolding get_task find_row
edit_found = refl

verify_code_result-Accepted_example :
    Accepted patching naturals config edit_spec "gpu" answer accepted []
      (record editing { dirs = [] })
verify_code_result-Accepted_example =
    verify_code_result-Accepted patching naturals config answer accepted editing
      (record editing { dirs = [] }) edit_found refl refl verifies refl
