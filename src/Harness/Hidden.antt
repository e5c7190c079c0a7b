-- ===== src/Harness/Hidden.antt =====
-- scheduler/harness.py: the paths that `_touched_paths` does not see.
use clique.Prelude.{
  ℕ, ◌*◌, ◌≤◌, ◌≡◌, refl, true, false, List, [], ◌∷◌, ◌++◌, arith, All, ltb, ◌==◌, ap, ◌∙◌,
  Bool-cases, inl, inr, Option-cases,
}
use clique.Types.{Text, CodeTaskSpec}
use clique.Texts.{is_prefix, contains, split_at, encoded_length}
use clique.Live.{codes}
use clique.Live.Lines.{split_lines, is_break, ends_line, push}
use clique.Harness.{
  ok, chomp, plain_lines, paths_of, touched_paths, check_paths, is_test_cmd, validate_diff,
}

-- No character of the text ends a line.
abbrev pub HasNoBreak : Text → Type 0
HasNoBreak t = All (λ c. is_break c ≡ false) t

split_lines-line :
    (t rest : Text)
    → HasNoBreak t
    → split_lines (t ++ 10 ∷ rest) ≡ (t ++ 10 ∷ []) ∷ split_lines rest
unfolding split_lines ends_line push
split_lines-line [] rest h = refl
split_lines-line (c ∷ t) rest (h, hs) = rw (h, split_lines-line t rest hs) refl

not_return : (c : ℕ) → is_break c ≡ false → (c == 13) ≡ false
unfolding is_break
not_return c h = ground arith

chomp-single : (t : Text) → HasNoBreak t → chomp (t ++ 10 ∷ []) ≡ t
unfolding chomp is_break
chomp-single [] h = refl
chomp-single (c ∷ []) (h, hs) = rw (not_return c h) refl
chomp-single (c ∷ d ∷ t) (h, (k, hs)) = rw (not_return c h, chomp-single (d ∷ t) (k, hs)) refl

contains-cons : (p : Text) (c : ℕ) (t : Text) → contains p t ≡ true → contains p (c ∷ t) ≡ true
unfolding contains split_at
contains-cons p c t h = elim (Bool-cases (is_prefix p (c ∷ t))) [
  | inl e ↦ rw (contains, e) refl
  | inr e ↦ elim (Option-cases (split_at p t)) [
    | inl n ↦ let no : false ≡ true = rw (contains, n) at h in cc
    | inr (q, k) ↦ rw (contains, e, k) refl
  ]
]

contains-append : (p s t : Text) → contains p t ≡ true → contains p (s ++ t) ≡ true
contains-append p [] t h = h
contains-append p (c ∷ s) t h = contains-cons p c (s ++ t) (contains-append p s t h)

plain_lines-line :
    (t rest : Text) → HasNoBreak t → plain_lines (t ++ 10 ∷ rest) ≡ t ∷ plain_lines rest
unfolding plain_lines
plain_lines-line t rest h = rw (split_lines-line t rest h, chomp-single t h) refl

-- The path of a file that has no break, "dev/null" somewhere in it, and not the prefix.
pub record IsHidden (prefix path : Text) : Type 0 where
  pub no_break : HasNoBreak path
  pub null : contains (codes "dev/null") path ≡ true
  pub other : is_prefix prefix path ≡ false

-- The two lines that name a file before and after, and the lines of its hunks
abbrev pub file_diff : Text → Text → Text → Text
file_diff old new rest = (codes "--- " ++ old) ++ 10 ∷ ((codes "+++ " ++ new) ++ 10 ∷ rest)

paths_of-old :
    (old : Text) (ls : List Text)
    → IsHidden (codes "a/") old
    → paths_of ((codes "--- " ++ old) ∷ ls) ≡ paths_of ls
unfolding paths_of is_prefix
paths_of-old old ls h =
    let null = contains-append (codes "dev/null") (codes "--- ") old h.null in
    rw (h.other, null) refl

paths_of-new :
    (new : Text) (ls : List Text)
    → IsHidden (codes "b/") new
    → paths_of ((codes "+++ " ++ new) ∷ ls) ≡ paths_of ls
unfolding paths_of is_prefix
paths_of-new new ls h =
    let null = contains-append (codes "dev/null") (codes "+++ ") new h.null in
    rw (h.other, null) refl

touched_paths-hidden :
    (old new rest : Text)
    → IsHidden (codes "a/") old
    → IsHidden (codes "b/") new
    → touched_paths (file_diff old new rest) ≡ touched_paths rest
unfolding touched_paths is_break
touched_paths-hidden old new rest h k =
    let safe_old : HasNoBreak (codes "--- " ++ old) = (refl, (refl, (refl, (refl, h.no_break)))) in
    let safe_new : HasNoBreak (codes "+++ " ++ new) = (refl, (refl, (refl, (refl, k.no_break)))) in
    let after = (codes "+++ " ++ new) ++ 10 ∷ rest in
    ap paths_of (plain_lines-line (codes "--- " ++ old) after safe_old)
    ∙ (paths_of-old old (plain_lines after) h
        ∙ (ap paths_of (plain_lines-line (codes "+++ " ++ new) rest safe_new)
            ∙ paths_of-new new (plain_lines rest) k))

validate_diff-pass :
    (diff : Text) (spec : CodeTaskSpec)
    → encoded_length diff ≤ spec.patch_budget_kb * 1024
    → check_paths spec (touched_paths diff) ≡ true
    → is_test_cmd spec.test_cmd ≡ true
    → validate_diff diff spec ≡ ok tt
unfolding validate_diff
validate_diff-pass diff spec small paths cmd =
    let within = not_over (spec.patch_budget_kb * 1024) (encoded_length diff) small in
    rw (validate_diff, within, paths, cmd) refl
  where
    not_over : (a b : ℕ) → b ≤ a → ltb a b ≡ false
    not_over a b h = ground arith

-- A diff whose first file is named by two paths that have "dev/null" somewhere in them, the old one not
-- beginning with "a/" and the new one not with "b/", is only seen to touch what its further lines name:
-- if they name nothing, the diff is within the size budget and the test command is an allowed one, it
-- passes, whatever paths are allowed.
pub validate_diff-null :
    (old new rest : Text) (spec : CodeTaskSpec)
    → IsHidden (codes "a/") old
    → IsHidden (codes "b/") new
    → touched_paths rest ≡ []
    → encoded_length (file_diff old new rest) ≤ spec.patch_budget_kb * 1024
    → is_test_cmd spec.test_cmd ≡ true
    → validate_diff (file_diff old new rest) spec ≡ ok tt
unfolding check_paths
validate_diff-null old new rest spec h k further small cmd =
    let none_seen = touched_paths-hidden old new rest h k ∙ further in
    validate_diff-pass (file_diff old new rest) spec small (rw none_seen refl) cmd
