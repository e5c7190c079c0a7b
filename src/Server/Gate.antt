-- ===== src/Server/Gate.antt =====
-- scheduler/server.py: what stands behind a code edit that `_verify_code_result` lets through.
use clique.Prelude.{
  Option, All, Bool-cases, Option-cases, String, [], ap, arith, false, inl, inr, none, refl, some,
  sym, ◌∙◌, subst, true, ◌*◌, ◌is◌, ◌≡◌, ◌≤◌, ◌⊎◌,
}
use clique.Texts.{encoded_length}
use clique.Harness.{touched_paths, extract_diff, validate_diff}
use clique.Harness.Guards.{Passes, IsTestCmd, validate_diff-Passes}
use clique.Types.{Text, TaskResult, TaskView, Float, CodeTaskSpec, code_edit}
use clique.Texts.{same_text}
use clique.Dict.Keyed.{fetch}
use clique.Checkout.{drop_dir, fetch-drop_dir, Dirs, cleanup, is_task_id}
use clique.Checkout
use clique.Harness
use clique.Live.{codes}
use clique.Ledger.{state_value}
use clique.Schedule.Score.{same_type}
use clique.Router.{Config}
use clique.Router.Views.{get_task}
use clique.Server.{State, Reply, done, raised}
use clique.Server.Tasks.{forget_dir}
use clique.Server.Verify.{
  Outside, fail, with_sha, accept, after_tests, with_diff, verify_spec, verify_code_result,
  committer, try_patch, accepted_diff, published, published_files, harness_prefix, fault_prefix,
}
use clique.Server.Tried.{Tried, try_patch-Tried}

abbrev result_or : TaskResult → Reply TaskResult → TaskResult
result_or other (done r) = r
result_or other raised = other

Result-cases :
    (r : Checkout.Result {0} Unit)
    → (r ≡ Checkout.ok tt) ⊎ ((e : Checkout.Fault) × (r ≡ Checkout.err e))
Result-cases (Checkout.ok u) = inl refl
Result-cases (Checkout.err e) = inr (e, refl)

Harness-cases :
    {A : Type 0} (r : Harness.Result A)
    → ((a : A) × (r ≡ Harness.ok a)) ⊎ ((e : Harness.HarnessError) × (r ≡ Harness.err e))
Harness-cases (Harness.ok a) = inl (a, refl)
Harness-cases (Harness.err e) = inr (e, refl)

abbrev text_or : Text → Harness.Result Text → Text
text_or other (Harness.ok t) = t
text_or other (Harness.err e) = other

-- The diff that is extracted is the one that was checked.
accepted_diff-validate_diff :
    (o : Outside) (output : Option Text) (spec : CodeTaskSpec) (diff : Text)
    → accepted_diff o output spec ≡ Harness.ok diff
    → validate_diff diff spec ≡ Harness.ok tt
unfolding accepted_diff
accepted_diff-validate_diff o output spec diff k =
    elim (Harness-cases (extract_diff (elim output [ none ↦ [] | some t ↦ t ]))) [
      | inr (e, h) ↦ let no : Harness.err e ≡ Harness.ok diff = rw (accepted_diff, h) at k in cc
      | inl (x, h) ↦ elim (Harness-cases (validate_diff x spec)) [
        | inr (e, v) ↦
            let no : Harness.err e ≡ Harness.ok diff = rw (accepted_diff, h, v) at k in cc
        | inl (u, v) ↦
            let same : x ≡ diff = ap (text_or x) (rw (accepted_diff, h, v) at k) in
            subst (λ y. validate_diff y spec ≡ Harness.ok tt) same v
      ]
    ]

module _ (o : Outside) (fl : Float) (cfg : Config) where
  open fl use {F}

  -- What stands behind a result that succeeded: a diff that passes the guards and was tried, and a commit
  -- of the published files that the tests left. The directory is gone.
  pub record Accepted (spec : CodeTaskSpec) (node : String) (result r : TaskResult) (dirs : Dirs)
      (t : State F) : Type 0 where
    pub diff : Text
    pub sha : String
    pub extracted : accepted_diff o result.output spec ≡ Harness.ok diff
    pub in_budget : encoded_length diff ≤ spec.patch_budget_kb * 1024
    pub guarded : All (Passes spec) (touched_paths diff)
    pub allowed : IsTestCmd spec.test_cmd
    pub tried : Tried o (codes result.task_id) spec diff dirs
    pub committed : o.commit result.task_id node (published_files tried.left) ≡ some sha
    pub carries : r ≡ record result { patch = some diff; applied_sha = some sha }
    pub cleaned : fetch same_text (codes result.task_id) t.dirs ≡ none

  -- Either the result is a failure, or it was accepted.
  abbrev Gated : CodeTaskSpec → String → TaskResult → Dirs → Reply TaskResult × State F → Type 0
  Gated spec node result dirs (raised, t) = Unit
  Gated spec node result dirs (done r, t) =
      state_value r.state is "succeeded" ≡ true → Accepted spec node result r dirs t

  fail-Gated :
      (spec : CodeTaskSpec) (node : String) (result : TaskResult) (dirs : Dirs) (prefix : String)
      (s : State F)
      → Gated spec node result dirs (fail o fl cfg result prefix s)
  unfolding fail forget_dir cleanup
  fail-Gated spec node result dirs prefix s =
      elim (Bool-cases (is_task_id (codes result.task_id))) [
        | inr e ↦ rw e tt
        | inl e ↦ rw e (λ h. absurd (ground arith))
      ]

  with_sha-Gated :
      (spec : CodeTaskSpec) (node : String) (result : TaskResult) (dirs : Dirs) (t : State F)
      (diff : Text) (sha : String)
      → ((u : State F)
          → fetch same_text (codes result.task_id) u.dirs ≡ none
          → Accepted spec node result
              (record result { patch = some diff; applied_sha = some sha })
              dirs
              u)
      → Gated spec node result dirs (with_sha o fl cfg result diff (some sha) t)
  unfolding forget_dir cleanup
  with_sha-Gated spec node result dirs t diff sha good =
      elim (Bool-cases (is_task_id (codes result.task_id))) [
        | inr e ↦ rw e tt
        | inl e ↦ rw e (λ _.
            good (record t { dirs = drop_dir (codes result.task_id) t.dirs })
              (fetch-drop_dir (codes result.task_id) t.dirs))
      ]

  accept-Gated :
      (spec : CodeTaskSpec) (node : String) (result : TaskResult) (dirs : Dirs) (s : State F)
      (diff : Text)
      → accepted_diff o result.output spec ≡ Harness.ok diff
      → (try_patch o (codes result.task_id) spec diff dirs).0 ≡ Checkout.ok tt
      → Gated spec node result dirs (
          accept o fl cfg result node diff
            (record s { dirs = (try_patch o (codes result.task_id) spec diff dirs).1 }))
  unfolding accept
  accept-Gated spec node result dirs s diff found passed =
      let after = (try_patch o (codes result.task_id) spec diff dirs).1 in
      let t : State F = record s { dirs = after } in
      let (tried, same) = try_patch-Tried o (codes result.task_id) spec diff dirs passed in
      let guards =
        validate_diff-Passes diff spec
          (accepted_diff-validate_diff o result.output spec diff found) in
      elim (Option-cases
        (o.commit result.task_id node (published o (codes result.task_id) after))) [
          | inl e ↦ rw (with_sha, e) (fail-Gated spec node result dirs "commit_empty" t)
          | inr (sha, e) ↦
              rw (with_sha, e)
                (with_sha-Gated spec node result dirs t diff sha (λ u gone. record {
                  diff = diff;
                  sha = sha;
                  extracted = found;
                  in_budget = guards.0;
                  guarded = guards.1.0.0;
                  allowed = guards.1.1;
                  tried = tried;
                  committed = ap (o.commit result.task_id node) (sym same) ∙ e;
                  carries = refl;
                  cleaned = gone;
                }))
        ]

  after_tests-Gated :
      (spec : CodeTaskSpec) (node : String) (result : TaskResult) (s : State F) (diff : Text)
      → accepted_diff o result.output spec ≡ Harness.ok diff
      → Gated spec node result s.dirs (with_diff o fl cfg result node spec (Harness.ok diff) s)
  after_tests-Gated spec node result s diff found =
      let out = try_patch o (codes result.task_id) spec diff s.dirs in
      elim (Result-cases out.0) [
        | inl passed ↦
            rw (after_tests, passed) (accept-Gated spec node result s.dirs s diff found passed)
        | inr (e, broke) ↦
            rw (after_tests, broke)
              (fail-Gated spec node result s.dirs (fault_prefix e) (record s { dirs = out.1 }))
      ]

  with_diff-Gated :
      (spec : CodeTaskSpec) (node : String) (result : TaskResult) (s : State F)
      (r : Harness.Result Text)
      → accepted_diff o result.output spec ≡ r
      → Gated spec node result s.dirs (with_diff o fl cfg result node spec r s)
  with_diff-Gated spec node result s (Harness.err e) found =
      fail-Gated spec node result s.dirs (harness_prefix e) s
  with_diff-Gated spec node result s (Harness.ok diff) found =
      after_tests-Gated spec node result s diff found

  Gated-Accepted :
      (spec : CodeTaskSpec) (node : String) (result r : TaskResult) (dirs : Dirs) (t : State F)
      (x : Reply TaskResult × State F)
      → Gated spec node result dirs x
      → x ≡ (done r, t)
      → state_value r.state is "succeeded" ≡ true
      → Accepted spec node result r dirs t
  Gated-Accepted spec node result r dirs t x g e h =
      let here : Gated spec node result dirs (done r, t) =
        subst (Gated spec node result dirs) e g in
      here h

  -- A result of a code edit with a spec that comes out of the verification as succeeded holds a diff
  -- that was extracted from the output and is within the size budget; every path that it is seen to touch
  -- passes the guards, and the test command's program is one of the six. The snapshot was written and the
  -- diff applied to it without an error, the run of the test command on the files so made ended with 0,
  -- and what of the files it left is published is committed under the identifier that the result holds.
  -- The result is otherwise as reported, and the task's directory is gone.
  pub verify_code_result-Accepted :
      (result r : TaskResult) (s t : State F) {view : TaskView} {spec : CodeTaskSpec}
      → get_task result.task_id s.queue ≡ some view
      → view.request.code ≡ some spec
      → same_type view.request.task_type code_edit ≡ true
      → verify_code_result o fl cfg result s ≡ (done r, t)
      → state_value r.state is "succeeded" ≡ true
      → Accepted spec (committer o fl cfg view.assigned_node) result r s.dirs t
  unfolding verify_code_result verify_spec
  verify_code_result-Accepted result r s t {view} {spec} found code edit e h =
      elim (Bool-cases (state_value result.state is "succeeded")) [
        | inr failed ↦
            let same : result ≡ r =
              ap (λ (x : Reply TaskResult × State F). result_or result x.0)
                (rw (verify_code_result, found, code, edit, failed) at e) in
            let no : (state_value r.state is "succeeded") ≡ false = rw (← same) failed in
            absurd (ground arith)
        | inl fine ↦
            Gated-Accepted spec (committer o fl cfg view.assigned_node) result r s.dirs t
              (with_diff o fl cfg result (committer o fl cfg view.assigned_node) spec
                (accepted_diff o result.output spec) s)
              (with_diff-Gated spec (committer o fl cfg view.assigned_node) result s
                (accepted_diff o result.output spec) refl)
              (rw (verify_code_result, found, code, edit, fine) at e) h
      ]
