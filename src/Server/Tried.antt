-- ===== src/Server/Tried.antt =====
-- scheduler/server.py, scheduler/workspaces.py: what stands behind a diff that was tried without an
-- error.
use clique.Prelude.{◌≡◌, refl, some, ◌==◌, ==_iff, ap, ◌∙◌, Bool-cases, Option-cases, inl, inr}
use clique.Types.{Text, CodeTaskSpec}
use clique.Texts.{same_text}
use clique.Texts.Laws.{same_text_iff}
use clique.Dict.Keyed.{fetch, store, fetch-store}
use clique.Tools.{Files}
use clique.Checkout.{Result, ok, err, Fault, Dirs, is_task_id, create}
use clique.Checkout.Hunks.{apply_patch}
use clique.Server.Verify.{
  Outside, TestRun, timed_out, returned, test_command, then_do, tested, run_tests, try_patch,
  published, published_files,
}

-- A snapshot that was written, a diff that was applied to it, and a run of the test command that ended
-- with 0 on the files that the diff made, and left others.
pub record Tried (o : Outside) (tid : Text) (spec : CodeTaskSpec) (diff : Text) (dirs : Dirs)
    : Type 0 where
  pub seeded : Dirs
  pub made : create o.resolve tid spec dirs ≡ (ok tt, seeded)
  pub changed : Dirs
  pub applied : apply_patch o.is_digit o.resolve o.patch tid diff seeded ≡ (ok tt, changed)
  pub files : Files
  pub there : fetch same_text tid changed ≡ some files
  pub left : Files
  pub tests_pass :
      o.tests (test_command o.python spec.test_cmd) spec.timeout_s files ≡ returned 0 left

then_do-ok :
    (x : Result {0} Unit × Dirs) (f : Dirs → Result {0} Unit × Dirs)
    → (then_do x f).0 ≡ ok tt
    → (d : Dirs) × ((x ≡ (ok tt, d)) × (((f d).0 ≡ ok tt) × (then_do x f ≡ f d)))
then_do-ok (ok u, d) f h = (d, (refl, (h, refl)))
then_do-ok (err e, d) f h = absurd (no h)
  where
    no : err e ≡ ok (tt {0}) → ⊥
    no k = cc

module _ (o : Outside) where
  tested-ok :
      (r : TestRun)
      → (tested o r).0 ≡ ok tt
      → (left : Files) × ((r ≡ returned 0 left) × ((tested o r).1 ≡ left))
  tested-ok (timed_out fs) h = absurd (no h)
    where
      no : err Fault.timeout ≡ ok (tt {0}) → ⊥
      no k = cc
  tested-ok (returned code fs) h = elim (Bool-cases (code == 0)) [
    | inl e ↦ (fs, (ap (λ c. returned c fs) ((==_iff code 0).0 e), refl))
    | inr e ↦ let no : err Fault.tests_failed ≡ ok (tt {0}) = rw e at h in cc
  ]

  run_tests-ok :
      (tid : Text) (spec : CodeTaskSpec) (dirs : Dirs)
      → (run_tests o tid spec dirs).0 ≡ ok tt
      → (files : Files) × ((left : Files) × ((fetch same_text tid dirs ≡ some files)
            × ((o.tests (test_command o.python spec.test_cmd) spec.timeout_s files
                  ≡ returned 0 left)
                × ((run_tests o tid spec dirs).1 ≡ store same_text tid left dirs))))
  unfolding run_tests
  run_tests-ok tid spec dirs h = elim (Bool-cases (is_task_id tid)) [
    | inr n ↦ let no : err Fault.bad_task_id ≡ ok (tt {0}) = rw (run_tests, n) at h in cc
    | inl y ↦ elim (Option-cases (fetch same_text tid dirs)) [
      | inl n ↦ let no : err Fault.no_workspace ≡ ok (tt {0}) = rw (run_tests, y, n) at h in cc
      | inr (fs, e) ↦
          let (left, (ran, same)) = tested-ok _ (rw (run_tests, y, e) at h) in
          (fs, (left, (e, (ran, rw (run_tests, y, e) (ap (λ k. store same_text tid k dirs) same)))))
    ]
  ]

  published-found :
      (tid : Text) (dirs : Dirs) {fs : Files}
      → fetch same_text tid dirs ≡ some fs
      → published o tid dirs ≡ published_files fs
  unfolding published
  published-found tid dirs h = rw (published, h) refl

  -- A diff that is tried without an error was applied to the snapshot, and the tests ended with 0 on the
  -- files that it made; the files that they left are those that would be published.
  pub try_patch-Tried :
      (tid : Text) (spec : CodeTaskSpec) (diff : Text) (dirs : Dirs)
      → (try_patch o tid spec diff dirs).0 ≡ ok tt
      → (t : Tried o tid spec diff dirs) × (published o tid (try_patch o tid spec diff dirs).1
          ≡ published_files t.left)
  unfolding try_patch
  try_patch-Tried tid spec diff dirs h =
      let (seeded, (made, (rest, same))) = then_do-ok (create o.resolve tid spec dirs) _ h in
      let (changed, (applied, (ran, same'))) =
        then_do-ok (apply_patch o.is_digit o.resolve o.patch tid diff seeded) _ rest in
      let (files, (left, (there, (passed, kept)))) = run_tests-ok tid spec changed ran in
      let all : (try_patch o tid spec diff dirs).1 ≡ store same_text tid left changed =
        ap (λ (x : Result {0} Unit × Dirs). x.1) (same ∙ same') ∙ kept in
      let found = fetch-store same_text tid left changed ((same_text_iff tid tid).1 refl) in
      (
        record {
          seeded = seeded;
          made = made;
          changed = changed;
          applied = applied;
          files = files;
          there = there;
          left = left;
          tests_pass = passed;
        },
        ap (published o tid) all ∙ published-found tid (store same_text tid left changed) found,
      )
