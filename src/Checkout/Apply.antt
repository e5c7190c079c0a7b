-- ===== src/Checkout/Apply.antt =====
-- scheduler/workspaces.py, `_apply_simple`: what becomes of a diff with hunks.
use clique.Prelude.{
  subst, ◌≡◌, refl, ap, ◌∙◌, true, false, none, some, List, [], ◌∷◌, ◌++◌, arith, All, map,
  Bool-cases, Option-cases, inl, inr,
}
use mathlib.Core.List.{append_assoc, append-nil}
use clique.Types.{Text}
use clique.Texts.{is_prefix, same_text, is_space, strip}
use clique.Live.{codes}
use clique.Live.Lines.{split_lines, join}
use clique.Tools.{Parts, Files, put_text}
use clique.Checkout.{
  ok, err, context_miss, Hunk, take_out, take_all, text_or_none, scan, begin_file, only_adds,
  starts, target_of, flush, finish, run, apply_simple, no_hunk,
}

-- The lines of a hunk: removed, added, or context.
pub data Change : Type 0 where
  removes adds keeps : Text → Change

abbrev pub line_of : Change → Text
line_of (removes t) = 45 ∷ t
line_of (adds t) = 43 ∷ t
line_of (keeps t) = 32 ∷ t

abbrev pub removed : List Change → List Text
removed [] = []
removed (removes t ∷ cs) = t ∷ removed cs
removed (c ∷ cs) = removed cs

abbrev pub added : List Change → List Text
added [] = []
added (adds t ∷ cs) = t ∷ added cs
added (c ∷ cs) = added cs

-- The line is not read as the header of a file.
abbrev pub IsPlain : Change → Type 0
IsPlain c = starts "+++ " (line_of c) ≡ false

abbrev in_file : Text → List Text → List Text → Hunk
in_file f o n = record { cur = some f; old_lines = o; new_lines = n; in_hunk = true }

abbrev scanned : Text → Change → List Text → List Text → Hunk
scanned f (removes t) o n = in_file f (o ++ t ∷ []) n
scanned f (adds t) o n = in_file f o (n ++ t ∷ [])
scanned f (keeps t) o n = in_file f o n

scan-line_of :
    (f : Text) (c : Change) (o n : List Text) → scan (line_of c) (in_file f o n) ≡ scanned f c o n
unfolding scan is_prefix
scan-line_of f (removes t) o n = refl
scan-line_of f (adds t) o n = refl
scan-line_of f (keeps t) o n = refl

take_out-All :
    (P : Text → Type 0) (line : Text) (ls : List Text) {rest : List Text}
    → take_out line ls ≡ some rest
    → All P ls
    → All P rest
unfolding take_out
take_out-All P line [] h a = absurd (ground arith)
take_out-All P line (l ∷ ls) {rest} h (b, a) = elim (Bool-cases (same_text l line)) [
  | inl e ↦ let same : ls ≡ rest = ground arith in subst (All P) same a
  | inr e ↦ elim (Option-cases (take_out line ls)) [
    | inl n ↦ let no : none ≡ some rest = rw (take_out, e, n) at h in absurd (ground arith)
    | inr (r, f) ↦
        let made : some (l ∷ r) ≡ some rest = rw (take_out, e, f) at h in
        let same : l ∷ r ≡ rest = ground arith in subst (All P) same (b, take_out-All P line ls f a)
  ]
]

-- No line is the text.
abbrev pub Misses : Text → List Text → Type 0
Misses t ls = All (λ l. same_text l t ≡ false) ls

take_out-Misses : (t : Text) (ls : List Text) → Misses t ls → take_out t ls ≡ none
unfolding take_out
take_out-Misses t [] m = refl
take_out-Misses t (l ∷ ls) (n, m) = rw (take_out-Misses t ls m, n) refl

take_all-Misses :
    (olds : List Text) (t : Text) (ls : List Text)
    → Misses t ls
    → take_all (olds ++ t ∷ []) ls ≡ none
unfolding take_all
take_all-Misses [] t ls m = rw (take_all, take_out-Misses t ls m) refl
take_all-Misses (o ∷ olds) t ls m = elim (Option-cases (take_out o ls)) [
  | inl e ↦ rw (take_all, e) refl
  | inr (rest, e) ↦ rw (take_all, e) (take_all-Misses olds t rest (take_out-All _ o ls e m))
]

only_adds-old : (olds : List Text) (t : Text) (n : List Text) → only_adds (olds ++ t ∷ []) n ≡ false
only_adds-old [] t n = refl
only_adds-old (o ∷ olds) t n = refl

module _ (resolve : Text → Parts) where
  run-pass :
      (l : Text) (ls : List Text) (h : Hunk) (fs : Files)
      → starts "+++ " l ≡ false
      → run resolve (l ∷ ls) h fs ≡ run resolve ls (scan l h) fs
  unfolding run
  run-pass l ls h fs e = rw (run, e) refl

  run-refused :
      (l : Text) (ls : List Text) (h : Hunk) (fs : Files)
      → starts "+++ " l ≡ true
      → flush resolve h fs ≡ err context_miss
      → run resolve (l ∷ ls) h fs ≡ (err context_miss, fs)
  unfolding run
  run-refused l ls h fs e f = rw (run, e, f) refl

  run-scanned :
      (f : Text) (c : Change) (more o n : List Text) (fs : Files)
      → IsPlain c
      → run resolve (line_of c ∷ more) (in_file f o n) fs ≡ run resolve more (scanned f c o n) fs
  run-scanned f c more o n fs p =
      run-pass (line_of c) more (in_file f o n) fs p
      ∙ ap (λ h. run resolve more h fs) (scan-line_of f c o n)

  run-changes :
      (f : Text) (cs : List Change) (more o n : List Text) (fs : Files)
      → All IsPlain cs
      → run resolve (map line_of cs ++ more) (in_file f o n) fs
        ≡ run resolve more (in_file f (o ++ removed cs) (n ++ added cs)) fs
  run-changes f [] more o n fs p = rw (append-nil o, append-nil n) refl
  run-changes f (removes t ∷ cs) more o n fs (p, ps) =
      run-scanned f (removes t) (map line_of cs ++ more) o n fs p
      ∙ (run-changes f cs more (o ++ t ∷ []) n fs ps
          ∙ ap (λ x. run resolve more (in_file f x (n ++ added cs)) fs)
              (append_assoc o (t ∷ []) (removed cs)))
  run-changes f (adds t ∷ cs) more o n fs (p, ps) =
      run-scanned f (adds t) (map line_of cs ++ more) o n fs p
      ∙ (run-changes f cs more o (n ++ t ∷ []) fs ps
          ∙ ap (λ x. run resolve more (in_file f (o ++ removed cs) x) fs)
              (append_assoc n (t ∷ []) (added cs)))
  run-changes f (keeps t ∷ cs) more o n fs (p, ps) =
      run-scanned f (keeps t) (map line_of cs ++ more) o n fs p ∙ run-changes f cs more o n fs ps

  -- The lines of a diff of one file: the old name, the new one, a hunk's header and the hunk.
  abbrev pub one_file : Text → Text → Text → List Change → List Text → List Text
  one_file old new header cs more =
      (codes "--- " ++ old)
      ∷ (codes "+++ " ++ new)
      ∷ (codes "@@" ++ header)
      ∷ (map line_of cs ++ more)

  run-one_file :
      (old new header : Text) (cs : List Change) (more : List Text) (fs : Files)
      → All IsPlain cs
      → run resolve (one_file old new header cs more) no_hunk fs
        ≡ run resolve more (in_file (strip is_space new) (removed cs) (added cs)) fs
  unfolding run scan begin_file flush is_prefix
  run-one_file old new header cs more fs p = run-changes (strip is_space new) cs more [] [] fs p

  flush-missing :
      (f t : Text) (o n : List Text) (fs : Files)
      → Misses t (split_lines (text_or_none (target_of resolve f) fs))
      → flush resolve (in_file f (o ++ t ∷ []) n) fs ≡ err context_miss
  unfolding flush
  flush-missing f t o n fs m =
      rw
        (
          flush,
          only_adds-old o t n,
          take_all-Misses o t (split_lines (text_or_none (target_of resolve f) fs)) m,
        )
        refl

  -- A diff that begins with the two names of a file, one hunk of it and the two names of a second file,
  -- without lines of `diff --git`, is refused and changes nothing, unless one of the lines of the first
  -- file, as it is read, is the one that the old name of the second makes without its first dash.
  pub apply_simple-two_files :
      (diff old new header old' new' : Text) (cs : List Change) (more : List Text) (fs : Files)
      → split_lines diff
        ≡ one_file old new header cs ((codes "--- " ++ old') ∷ (codes "+++ " ++ new') ∷ more)
      → All IsPlain cs
      → Misses
          (codes "-- " ++ old')
          (split_lines (text_or_none (target_of resolve (strip is_space new)) fs))
      → apply_simple resolve diff fs ≡ (err context_miss, fs)
  unfolding apply_simple scan is_prefix
  apply_simple-two_files diff old new header old' new' cs more fs lines p m =
      let f = strip is_space new in
      let second = (codes "+++ " ++ new') ∷ more in
      rw lines (
        run-one_file old new header cs ((codes "--- " ++ old') ∷ second) fs p
        ∙ (run-pass (codes "--- " ++ old') second (in_file f (removed cs) (added cs)) fs refl
            ∙ run-refused (codes "+++ " ++ new') more
                (in_file f (removed cs ++ (codes "-- " ++ old') ∷ []) (added cs)) fs refl
                (flush-missing f (codes "-- " ++ old') (removed cs) (added cs) fs m)))

  -- A diff of one file that adds lines and removes none replaces the file's text by the added lines,
  -- whatever the file holds.
  pub apply_simple-only_adds :
      (diff old new header : Text) (cs : List Change) (line : Text) (lines : List Text) (fs : Files)
      → split_lines diff ≡ one_file old new header cs []
      → All IsPlain cs
      → removed cs ≡ []
      → added cs ≡ line ∷ lines
      → apply_simple resolve diff fs
        ≡ (ok tt, put_text (target_of resolve (strip is_space new)) (join (line ∷ lines)) fs)
  unfolding apply_simple run flush
  apply_simple-only_adds diff old new header cs line lines fs split p none_removed some_added =
      rw split (run-one_file old new header cs [] fs p ∙ rw (none_removed, some_added) refl)

  -- A diff of one file that removes lines makes of the file the lines that are left and behind them, in
  -- order, the added ones.
  pub apply_simple-one_file :
      (diff old new header line : Text) (cs : List Change) (lines rest : List Text) (fs : Files)
      → split_lines diff ≡ one_file old new header cs []
      → All IsPlain cs
      → removed cs ≡ line ∷ lines
      → take_all
          (line ∷ lines)
          (split_lines (text_or_none (target_of resolve (strip is_space new)) fs))
        ≡ some rest
      → apply_simple resolve diff fs
        ≡ (ok tt, put_text (target_of resolve (strip is_space new)) (join (rest ++ added cs)) fs)
  unfolding apply_simple run flush
  apply_simple-one_file diff old new header line cs lines rest fs split p gone left =
      rw split (run-one_file old new header cs [] fs p ∙ rw (gone, finish, flush, left) refl)
