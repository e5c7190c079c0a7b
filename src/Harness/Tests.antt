-- ===== src/Harness/Tests.antt =====
-- The harness of scheduler/harness.py on concrete outputs and diffs.
use clique.Prelude.{◌*◌, ◌≤◌, ◌≡◌, refl, false, [], ◌∷◌, ◌++◌, arith, All, All-any, ◌==◌}
use clique.Types.{Text, CodeTaskSpec}
use clique.Texts.{is_space, is_prefix, strip, lstrip, rstrip, contains, split_at, encoded_length}
use clique.Live.{codes}
use clique.Live.Lines.{is_break}
use clique.Think.{close_tag}
use clique.Harness.{ok, extract_diff, plain_lines, touched_paths, validate_diff}
use clique.Harness.Fences.{answer_with, extract_diff-answer}
use clique.Harness.Guards.{Passes, Headed, IsTestCmd, validate_diff-Passes}
use clique.Harness.Hidden.{IsHidden, file_diff, validate_diff-null}

abbrev spec : CodeTaskSpec
spec = record {
  base_sha = "";
  files = ("a.py", codes "x = 1") ∷ [];
  allowed_paths = codes "src" ∷ [];
  test_cmd = "pytest" ∷ [];
  timeout_s = 60;
  patch_budget_kb = 100;
  use_tools = false;
}

abbrev hunk : Text
hunk = codes "--- a/src/x\n+x\n"

extract_diff-answer_example :
    extract_diff (codes "draft ```diff\n```" ++ (close_tag ++ answer_with (codes "ok ") hunk []))
    ≡ ok (strip is_space hunk ++ 10 ∷ [])
unfolding strip lstrip rstrip is_prefix is_space
extract_diff-answer_example =
    extract_diff-answer (codes "draft ```diff\n```") (codes "ok ") hunk []
      (refl, (refl, (refl, tt))) (All-any (λ c. c == b'`') hunk refl) tt
      (All-any (λ c. c == b'<') (answer_with (codes "ok ") hunk []) refl) refl

guarded : validate_diff hunk spec ≡ ok tt
unfolding validate_diff
guarded = refl

validate_diff-Passes_example :
    (encoded_length hunk ≤ spec.patch_budget_kb * 1024)
    × ((All (Passes spec) (touched_paths hunk) × All (Headed spec) (plain_lines hunk))
        × IsTestCmd spec.test_cmd)
validate_diff-Passes_example = validate_diff-Passes hunk spec guarded

abbrev hidden : Text
hidden = codes "lib/dev/null.py"

hidden-IsHidden : (prefix : Text) → is_prefix prefix hidden ≡ false → IsHidden prefix hidden
unfolding contains split_at is_prefix is_break
hidden-IsHidden prefix h = record {
  no_break = All-any is_break hidden refl;
  null = refl;
  other = h;
}

abbrev added : Text
added = codes "@@ -0,0 +1,1 @@\n+x\n"

nothing_seen : touched_paths added ≡ []
unfolding touched_paths is_prefix
nothing_seen = refl

-- The output of a model with that diff is taken out of its fence as it is.
hidden_extracted :
    extract_diff (codes "```diff\n" ++ (file_diff hidden hidden added ++ codes "```"))
    ≡ ok (file_diff hidden hidden added)
unfolding extract_diff is_space
hidden_extracted = refl

validate_diff-null_example : validate_diff (file_diff hidden hidden added) spec ≡ ok tt
unfolding encoded_length is_prefix
validate_diff-null_example =
    validate_diff-null hidden hidden added spec (hidden-IsHidden (codes "a/") refl)
      (hidden-IsHidden (codes "b/") refl) nothing_seen (omega arith) refl
