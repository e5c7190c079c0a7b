-- ===== src/Server/Verified.antt =====
-- scheduler/server.py: the verification of a result leaves the queue alone, and what it gives is final.
use clique.Prelude.{
  String, ◌≡◌, refl, true, ◌&&◌, Option, none, some, Bool-cases, Option-cases, inl, inr, ◌is◌,
}
use clique.Types.{Text, TaskResult, Float, CodeTaskSpec, is_terminal, code_edit}
use clique.Checkout
use clique.Harness
use clique.Live.{codes}
use clique.Ledger.{state_value}
use clique.Schedule.Score.{same_type}
use clique.Router.{Config, Queue}
use clique.Router.Views.{get_task}
use clique.Server.{State, Reply, done, raised, andthen}
use clique.Server.Tasks.{forget_dir}
use clique.Server.Verify.{
  Outside, failure, fail, with_sha, accept, after_tests, with_diff, verify_spec, verify_code_result,
  committer, try_patch, accepted_diff, published, harness_prefix, fault_prefix,
}
use clique.Server.Cancels.{forget_dir-queue}

-- What a verification gives has a final state.
abbrev pub IsFinal : Reply TaskResult → Type 0
IsFinal raised = Unit
IsFinal (done r) = is_terminal r.state ≡ true

module _ (o : Outside) (fl : Float) (cfg : Config) where
  open fl use {F}

  -- The queue is as it was, and a result is final.
  abbrev pub Verified : Queue → Reply TaskResult × State F → Type 0
  Verified q x = (x.1.queue ≡ q) × IsFinal x.0

  then-Verified :
      (q : Queue) (r : TaskResult) (x : Reply {0} Unit × State F)
      → x.1.queue ≡ q
      → is_terminal r.state ≡ true
      → Verified q (andthen x (λ _ t. (done r, t)))
  then-Verified q r (done u, t) same final = (same, final)
  then-Verified q r (raised, t) same final = (same, tt)

  fail-Verified :
      (r : TaskResult) (prefix : String) (s : State F) → Verified s.queue (fail o fl cfg r prefix s)
  unfolding fail
  fail-Verified r prefix s =
      then-Verified s.queue (failure o fl cfg r prefix) (forget_dir fl cfg r.task_id s)
        (forget_dir-queue fl cfg r.task_id s) refl

  with_sha-Verified :
      (r : TaskResult) (diff : Text) (sha : Option String) (s : State F)
      → is_terminal r.state ≡ true
      → Verified s.queue (with_sha o fl cfg r diff sha s)
  with_sha-Verified r diff none s final = fail-Verified r "commit_empty" s
  with_sha-Verified r diff (some sha) s final =
      then-Verified s.queue (record r { patch = some diff; applied_sha = some sha })
        (forget_dir fl cfg r.task_id s) (forget_dir-queue fl cfg r.task_id s) final

  after_tests-Verified :
      (r : TaskResult) (node : String) (diff : Text) (out : Checkout.Result {0} Unit) (s : State F)
      → is_terminal r.state ≡ true
      → Verified s.queue (after_tests o fl cfg r node diff out s)
  unfolding accept
  after_tests-Verified r node diff (Checkout.err e) s final = fail-Verified r (fault_prefix e) s
  after_tests-Verified r node diff (Checkout.ok u) s final =
      with_sha-Verified r diff (o.commit r.task_id node (published o (codes r.task_id) s.dirs)) s
        final

  with_diff-Verified :
      (r : TaskResult) (node : String) (spec : CodeTaskSpec) (diff : Harness.Result Text)
      (s : State F)
      → is_terminal r.state ≡ true
      → Verified s.queue (with_diff o fl cfg r node spec diff s)
  with_diff-Verified r node spec (Harness.err e) s final = fail-Verified r (harness_prefix e) s
  with_diff-Verified r node spec (Harness.ok diff) s final =
      let out = try_patch o (codes r.task_id) spec diff s.dirs in
      after_tests-Verified r node diff out.0 (record s { dirs = out.1 }) final

  pub verify_code_result-Verified :
      (r : TaskResult) (s : State F)
      → is_terminal r.state ≡ true
      → Verified s.queue (verify_code_result o fl cfg r s)
  unfolding verify_code_result verify_spec
  verify_code_result-Verified r s final = elim (Option-cases (get_task r.task_id s.queue)) [
    | inl e ↦ rw (verify_code_result, e) (refl, final)
    | inr (view, e) ↦ elim (Option-cases view.request.code) [
      | inl f ↦ rw (verify_code_result, e, f) (refl, final)
      | inr (spec, f) ↦
          elim (Bool-cases
            (same_type view.request.task_type code_edit && (state_value r.state is "succeeded"))) [
              | inr other ↦ rw (verify_code_result, e, f, other) (refl, final)
              | inl check ↦
                  rw (verify_code_result, e, f, check)
                    (with_diff-Verified r (committer o fl cfg view.assigned_node) spec
                      (accepted_diff o r.output spec) s final)
            ]
    ]
  ]
