-- ===== src/Think/Tests.antt =====
-- The splitting of common/think.py on concrete outputs.
use clique.Prelude.{◌≡◌, refl, arith, true, some, [], ◌∷◌}
use clique.Types.{Text}
use clique.Texts.{split_at, is_space, is_feed, is_prefix, lstrip, strip}
use clique.Live.{codes}
use clique.Think.{fresh, split_think}
use clique.Think.Stream.{run, run-split_think}

abbrev output : Text
output = codes "so 2</think>\n\ntwo"

run-split_think_example :
    (run (fresh (some true)) output (3 ∷ 9 ∷ 15 ∷ []) ≡ (codes "so 2", (split_think output).1))
    × ((split_think output).0 ≡ strip is_feed (lstrip is_space (codes "so 2")))
unfolding split_at is_prefix is_space lstrip
run-split_think_example =
    run-split_think output (codes "so 2") (codes "\n\ntwo") refl refl (3 ∷ 9 ∷ 15 ∷ [])
      (omega arith, (omega arith, (omega arith, tt)))
