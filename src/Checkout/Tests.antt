-- ===== src/Checkout/Tests.antt =====
-- The applier of scheduler/workspaces.py on concrete diffs.
use clique.Prelude.{◌≡◌, refl, [], ◌∷◌, ◌++◌}
use clique.Types.{Text}
use clique.Texts.{split_on, is_prefix, same_text, strip, lstrip, rstrip, is_space, feeds_from}
use clique.Live.{codes}
use clique.Live.Lines.{split_lines, push, ends_line, is_break, join}
use clique.Tools.{Parts, Files, put_text, text_at, same_parts}
use clique.Checkout.{ok, err, context_miss, apply_simple, target_of, remove_prefix}
use clique.Checkout.Apply.{
  adds, removes, keeps, one_file, apply_simple-two_files, apply_simple-only_adds,
}

abbrev places : Text → Parts
places path = split_on 47 path

abbrev one_line : Files
one_line = ((codes "f" ∷ []), codes "x\n") ∷ []

abbrev adding : Text
adding = codes "--- a/f\n+++ b/f\n@@ -1 +1,2 @@\n x\n+y\n"

adding_lines :
    split_lines adding
    ≡ one_file places
        (codes "a/f\n")
        (codes "b/f\n")
        (codes " -1 +1,2 @@\n")
        (keeps (codes "x\n") ∷ adds (codes "y\n") ∷ [])
        []
unfolding split_lines push ends_line is_break
adding_lines = refl

apply_simple-only_adds_example : apply_simple places adding one_line ≡ (
  ok tt,
  put_text (target_of places (strip is_space (codes "b/f\n"))) (join (codes "y\n" ∷ [])) one_line,
)
unfolding is_prefix
apply_simple-only_adds_example =
    apply_simple-only_adds places adding (codes "a/f\n") (codes "b/f\n") (codes " -1 +1,2 @@\n")
      (keeps (codes "x\n") ∷ adds (codes "y\n") ∷ []) (codes "y\n") [] one_line adding_lines
      (refl, (refl, tt)) refl refl

abbrev changing_two : Text
changing_two =
    codes "--- a/f\n+++ b/f\n@@ -1 +1 @@\n-x\n+y\n--- a/g\n+++ b/g\n@@ -1 +1 @@\n-x\n+y\n"

changing_two_lines :
    split_lines changing_two
    ≡ one_file places
        (codes "a/f\n")
        (codes "b/f\n")
        (codes " -1 +1 @@\n")
        (removes (codes "x\n") ∷ adds (codes "y\n") ∷ [])
        ((codes "--- " ++ codes "a/g\n")
          ∷ (codes "+++ " ++ codes "b/g\n")
          ∷ codes "@@ -1 +1 @@\n"
          ∷ codes "-x\n"
          ∷ codes "+y\n"
          ∷ [])
unfolding split_lines push ends_line is_break
changing_two_lines = refl

apply_simple-two_files_example :
    apply_simple places changing_two one_line ≡ (err context_miss, one_line)
unfolding is_prefix same_text split_lines push ends_line is_break text_at same_parts split_on strip
    lstrip rstrip is_space remove_prefix feeds_from
apply_simple-two_files_example =
    apply_simple-two_files places changing_two (codes "a/f\n") (codes "b/f\n") (codes " -1 +1 @@\n")
      (codes "a/g\n") (codes "b/g\n") (removes (codes "x\n") ∷ adds (codes "y\n") ∷ [])
      (codes "@@ -1 +1 @@\n" ∷ codes "-x\n" ∷ codes "+y\n" ∷ []) one_line changing_two_lines
      (refl, (refl, tt)) (refl, tt)
