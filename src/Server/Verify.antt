-- ===== src/Server/Verify.antt =====
-- scheduler/server.py: `_verify_code_result`; scheduler/workspaces.py: `run_tests`. Of an error only the
-- prefix that machines read is modelled. `tests` is the run of a command in a directory, `commit` the
-- commit of the files that were verified, with the identifier that it gives if there is anything to
-- commit.
use clique.Prelude.{
  ℕ, String, Bool, false, not, ◌&&◌, ◌||◌, Option, none, some, List, [], ◌∷◌, select, map, ◌==◌,
  if◌then◌else◌, ◌is◌,
}
use clique.Types.{Text, TaskResult, CodeTaskSpec, Float, code_edit, TaskState}
use clique.Texts.{same_text, feeds_from, with_feeds}
use clique.Dict.Keyed.{fetch, store}
use clique.Live.{Workspace, codes}
use clique.Schedule.Score.{same_type}
use clique.Ledger.{state_value}
use clique.Router.{Config}
use clique.Router.Views.{get_task}
use clique.Harness.{HarnessError, extract_diff, validate_diff}
use clique.Harness
use clique.Tools.{Parts, Files}
use clique.Tools.Snapshot.{is_one_of, last_part, is_compiled}
use clique.Checkout.{Result, ok, err, Fault, Dirs, is_task_id, create}
use clique.Checkout.Hunks.{PatchRun, apply_patch}
use clique.Server.{State, Reply, done, andthen}
use clique.Server.Tasks.{forget_dir}

pub data TestRun : Type 0 where
  timed_out : Files → TestRun
  returned : ℕ → Files → TestRun

-- `pytest` becomes the interpreter's module.
abbrev pub test_command : String → List String → List String
test_command python [] = []
test_command python (c ∷ cs) = if c is "pytest" then python ∷ "-m" ∷ "pytest" ∷ cs else c ∷ cs

abbrev pub harness_prefix : HarnessError → String
harness_prefix HarnessError.diff_missing = "diff_missing"
harness_prefix HarnessError.diff_invalid = "diff_invalid"
harness_prefix HarnessError.patch_too_large = "patch_too_large"
harness_prefix HarnessError.path_forbidden = "path_forbidden"
harness_prefix HarnessError.test_cmd_forbidden = "test_cmd_forbidden"

abbrev pub fault_prefix : Fault → String
fault_prefix Fault.bad_task_id = "bad_task_id"
fault_prefix Fault.path_forbidden = "path_forbidden"
fault_prefix Fault.binary_rejected = "binary_rejected"
fault_prefix Fault.context_miss = "patch_conflict"
fault_prefix Fault.no_file_headers = "patch_conflict"
fault_prefix Fault.no_workspace = "no_workspace"
fault_prefix Fault.patch_conflict = "patch_conflict"
fault_prefix Fault.tests_failed = "tests_failed"
fault_prefix Fault.timeout = "timeout"

-- A file that is published: no trace of the run of the tests.
unfoldable pub is_published : Parts → Bool
unfolding same_text
is_published [] = false
is_published (p ∷ ps) = not (
    same_text (last_part p ps) (codes ".harness.patch")
    || is_one_of p ("__pycache__" ∷ ".pytest_cache" ∷ ".hypothesis" ∷ [])
    || is_compiled (last_part p ps))

-- The files of a directory that are published, as `read_text` gives them
unfoldable pub published_files : Files → Files
unfolding is_published feeds_from
published_files fs =
    map (λ (f : Parts × Text). (f.0, with_feeds f.1))
      (select (λ (f : Parts × Text). is_published f.0) fs)

-- What the server uses of the world round it: the class of digits, the resolution of paths, patch(1)
-- where it is installed, the name of the interpreter, the run of tests, and the commits of verified files
-- and of live workspaces.
pub record Outside : Type 0 where
  pub is_digit : ℕ → Bool
  pub resolve : Text → Parts
  pub patch : Option (Text → Files → PatchRun)
  pub python : String
  pub tests : List String → ℕ → Files → TestRun
  pub commit : String → String → Files → Option String
  pub flushed : Workspace → ℕ → List String → Option String

abbrev pub then_do :
    Result {0} Unit × Dirs → (Dirs → Result {0} Unit × Dirs) → Result {0} Unit × Dirs
then_do (ok u, dirs) f = f dirs
then_do (err e, dirs) f = (err e, dirs)

module _ (o : Outside) where
  open o use {is_digit, resolve, patch, python, tests, commit}

  abbrev pub tested : TestRun → Result {0} Unit × Files
  tested (timed_out fs) = (err Fault.timeout, fs)
  tested (returned code fs) = (if code == 0 then ok tt else err Fault.tests_failed, fs)

  -- `create` has made the directory; one that is missing is an error here too.
  unfoldable pub run_tests : Text → CodeTaskSpec → Dirs → Result {0} Unit × Dirs
  unfolding is_task_id fetch store same_text
  run_tests tid spec dirs =
      if is_task_id tid
      then (elim (fetch same_text tid dirs) [
        | none ↦ (err Fault.no_workspace, dirs)
        | some fs ↦
            let out = tested (tests (test_command python spec.test_cmd) spec.timeout_s fs) in
            (out.0, store same_text tid out.1 dirs)
      ])
      else (err Fault.bad_task_id, dirs)

  -- `create`, `apply_patch` and `run_tests`, up to the first that raises
  unfoldable pub try_patch : Text → CodeTaskSpec → Text → Dirs → Result {0} Unit × Dirs
  unfolding create apply_patch run_tests
  try_patch tid spec diff dirs =
      then_do (create resolve tid spec dirs)
        (λ d. then_do (apply_patch is_digit resolve patch tid diff d) (λ e. run_tests tid spec e))

  -- `extract_diff` and `validate_diff`, up to the first that raises
  unfoldable pub accepted_diff : Option Text → CodeTaskSpec → Harness.Result Text
  unfolding extract_diff validate_diff
  accepted_diff output spec = elim (extract_diff (elim output [ none ↦ [] | some t ↦ t ])) [
    | Harness.err e ↦ Harness.err e
    | Harness.ok diff ↦ elim (validate_diff diff spec) [
      | Harness.err e ↦ Harness.err e
      | Harness.ok u ↦ Harness.ok diff
    ]
  ]

  -- The files of the task's directory that are published, as `read_text` gives them
  unfoldable pub published : Text → Dirs → Files
  unfolding fetch same_text published_files
  published tid dirs = elim (fetch same_text tid dirs) [ none ↦ [] | some fs ↦ published_files fs ]

  module _ (fl : Float) (cfg : Config) where
    open fl use {F}

    abbrev pub failure : TaskResult → String → TaskResult
    failure result prefix = record result {
      state = TaskState.failed;
      error = some prefix;
      patch = none;
      applied_sha = none;
    }

    -- The inner function `fail`
    unfoldable pub fail : TaskResult → String → State F → Reply TaskResult × State F
    unfolding forget_dir
    fail result prefix s =
        andthen (forget_dir fl cfg result.task_id s) (λ _ t. (done (failure result prefix), t))

    abbrev pub with_sha : TaskResult → Text → Option String → State F → Reply TaskResult × State F
    with_sha result diff none s = fail result "commit_empty" s
    with_sha result diff (some sha) s =
        andthen (forget_dir fl cfg result.task_id s)
          (λ _ t. (done (record result { patch = some diff; applied_sha = some sha }), t))

    -- The commit of a patch that passed
    unfoldable pub accept : TaskResult → String → Text → State F → Reply TaskResult × State F
    unfolding fail forget_dir published
    accept result node diff s =
        with_sha result diff (commit result.task_id node (published (codes result.task_id) s.dirs))
          s

    abbrev pub after_tests :
        TaskResult → String → Text → Result {0} Unit → State F → Reply TaskResult × State F
    after_tests result node diff (err e) t = fail result (fault_prefix e) t
    after_tests result node diff (ok u) t = accept result node diff t

    abbrev pub with_diff :
        TaskResult
        → String
        → CodeTaskSpec
        → Harness.Result Text
        → State F
        → Reply TaskResult × State F
    with_diff result node spec (Harness.err e) s = fail result (harness_prefix e) s
    with_diff result node spec (Harness.ok diff) s =
        let out = try_patch (codes result.task_id) spec diff s.dirs in
        after_tests result node diff out.0 (record s { dirs = out.1 })

    -- A result of a code edit that is to be verified
    unfoldable pub verify_spec :
        TaskResult → String → CodeTaskSpec → State F → Reply TaskResult × State F
    unfolding fail accept accepted_diff try_patch
    verify_spec result node spec s = with_diff result node spec (accepted_diff result.output spec) s

    -- `view.assigned_node or "server"`
    abbrev pub committer : Option String → String
    committer none = "server"
    committer (some x) = if x is "" then "server" else x

    unfoldable pub verify_code_result : TaskResult → State F → Reply TaskResult × State F
    unfolding get_task verify_spec
    verify_code_result result s = elim (get_task result.task_id s.queue) [
      | none ↦ (done result, s)
      | some view ↦ elim view.request.code [
        | none ↦ (done result, s)
        | some spec ↦
            if same_type view.request.task_type code_edit
              && (state_value result.state is "succeeded")
            then verify_spec result (committer view.assigned_node) spec s
            else (done result, s)
      ]
    ]
