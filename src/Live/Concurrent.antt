-- ===== src/Live/Concurrent.antt =====
-- scheduler/workspace.py: what the rebase of one edit over another does to the lines.
use clique.Prelude.{
  ℕ, zero, suc, ◌+◌, ◌-◌, ◌≤◌, ◌<◌, ◌≡◌, refl, ap, sym, subst, ◌∙◌, true, none, some, List, [], ◌∷◌,
  ◌++◌, arith, length, take, drop, ltb, leb, ltb→lt, leb→le, length-append, length-drop,
  take-append-drop, if◌then◌else◌, Bool-cases, inl, inr,
}
use clique.Prelude.Int.{pos, ◌+ℤ◌, ◌-ℤ◌}
use clique.Types.{Text}
use clique.Live.Lines.{
  insert, delete, push, Op, round, go, index, slice_end, insert_at, terminated, ends_with_feed,
  split_lines,
}
use clique.Live.Rebase.{line_count, shift}
use clique.Live.Merge.{
  insert_at-above, insert_at-below, insert_at-before_cut, insert_at-in_cut, insert_at-after_cut,
  without, delete_to-without, without-twice,
}

-- An insertion of a text, and a deletion of `c` lines, at line `n + 1` (lines count from 1).
abbrev pub ins : ℕ → Text → Op
ins n t = record { kind = insert; line = some (pos (n + 1)); text = some t; count = none }

abbrev pub del : ℕ → ℕ → Op
del n c = record { kind = delete; line = some (pos (n + 1)); text = none; count = some (pos c) }

index-in : (n m : ℕ) → n ≤ m → index (pos (n + 1)) m ≡ n
unfolding index
index-in n m h = omega arith

-- What an insertion does to the lines.
pub round-ins :
    (n : ℕ) (t : Text) (l : List Text)
    → n ≤ length l
    → round insert (ins n t) l ≡ go (insert_at n (split_lines (terminated t)) l)
unfolding round
round-ins n t l h = rw (index-in n (length l) h)

round-del :
    (n c : ℕ) (l : List Text) → n + c ≤ length l → round delete (del n c) l ≡ go (without n c l)
unfolding round
round-del n c l h =
    let e : index (pos (n + 1)) (length l) ≡ n = index-in n (length l) (omega arith) in
    let f : slice_end n (pos c) (length l) ≡ n + c = unfold slice_end in omega arith in
    rw (e, f, delete_to-without n c l)

length-split_lines-pos : (c : ℕ) (t : Text) → 1 ≤ length (split_lines (c ∷ t))
unfolding split_lines
length-split_lines-pos c t = ground (arith, length-push-pos c (split_lines t))
  where
    length-push-pos : (c : ℕ) (ls : List Text) → 1 ≤ length (push c ls)
    length-push-pos c [] = omega arith
    length-push-pos c (x ∷ ls) = omega arith

-- A text that ends with a line feed is inserted as it is, and counted right.
terminated-id : (t : Text) → ends_with_feed t ≡ true → terminated t ≡ t
unfolding terminated
terminated-id [] h = refl
terminated-id (c ∷ t) h = rw h

line_count-length : (t : Text) → ends_with_feed t ≡ true → line_count t ≡ length (split_lines t)
unfolding line_count
line_count-length [] h = unfold ends_with_feed in cc
line_count-length (c ∷ t) h = omega (arith, length-split_lines-pos c t)

pos-+ℤ : (x y : ℕ) → pos x +ℤ pos y ≡ pos (x + y)
unfolding ◌+ℤ◌
pos-+ℤ x y = ground arith

length-insert_at :
    (a : ℕ) (t l : List Text) → a ≤ length l → length (insert_at a t l) ≡ length l + length t
unfolding insert_at
length-insert_at zero t l h = omega (arith, length-append t l)
length-insert_at (suc a) t [] h = absurd (omega arith)
length-insert_at (suc a) t (x ∷ l) h = omega (arith, length-insert_at a t l (omega arith))

shift-ins-same : (a b : ℕ) (t s : Text) → b < a → shift (ins a t) (ins b s) ≡ ins b s
unfolding shift
shift-ins-same a b t s h = ground arith

shift-ins-later :
    (a b : ℕ) (t s : Text)
    → a ≤ b
    → shift (ins a t) (ins b s)
      ≡ record (ins b s) { line = some (pos (b + 1) +ℤ pos (line_count t)) }
unfolding shift
shift-ins-later a b t s h = ground arith

-- Both insertions, in the lines that both clients saw.
abbrev pub both : ℕ → ℕ → List Text → List Text → List Text → List Text
both a b t s l =
    if ltb b a
    then take b l ++ (s ++ insert_at (a - b) t (drop b l))
    else insert_at a t (take b l) ++ (s ++ drop b l)

over_insert :
    (l : List Text) (a b : ℕ) (t s : Text)
    → ends_with_feed t ≡ true
    → a ≤ length l
    → b ≤ length l
    → round insert (shift (ins a t) (ins b s)) (insert_at a (split_lines t) l)
      ≡ go (both a b (split_lines t) (split_lines (terminated s)) l)
over_insert l a b t s e h k = elim (Bool-cases (ltb b a)) [
  | inl under ↦
      rw
        (
          shift-ins-same a b t s (ltb→lt b a under),
          under,
          round-ins b s (insert_at a (split_lines t) l)
              (omega (arith, length-insert_at a (split_lines t) l)),
        )
        (ap go (
          insert_at-below a b (split_lines (terminated s)) (split_lines t) l
            (omega (arith, ltb→lt b a under)) h))
  | inr over ↦
      let order : a ≤ b = ground arith in
      let place : index (pos (b + 1 + length (split_lines t)))
            (length (insert_at a (split_lines t) l))
          ≡ b + length (split_lines t) =
        unfold index in omega (arith, length-insert_at a (split_lines t) l h) in
      rw (shift-ins-later a b t s order, over, pos-+ℤ, line_count-length t e)
        (unfold round in
          rw place
            (ap go (insert_at-above a b (split_lines (terminated s)) (split_lines t) l order k)))
]

go-injective : (x y : List Text) → go x ≡ go y → x ≡ y
go-injective x y h = cc

-- An insertion aimed at line `b + 1`, rebased over an insertion of whole lines at line `a + 1` that
-- came first (both within the text), lands directly before the line that it was aimed at: the
-- lines that result are the old ones with both insertions.
pub rebase-over_insert :
    (l l' : List Text) (a b : ℕ) (t s : Text)
    → ends_with_feed t ≡ true
    → a ≤ length l
    → b ≤ length l
    → round insert (ins a t) l ≡ go l'
    → round insert (shift (ins a t) (ins b s)) l'
      ≡ go (both a b (split_lines t) (split_lines (terminated s)) l)
rebase-over_insert l l' a b t s e h k r =
    let same : insert_at a (split_lines t) l ≡ l' =
      go-injective _ _ (sym (round-ins a t l h ∙ rw (terminated-id t e)) ∙ r) in
    rw (← same) (over_insert l a b t s e h k)

shift-before_cut : (a c b : ℕ) (s : Text) → b ≤ a → shift (del a c) (ins b s) ≡ ins b s
unfolding shift ◌-ℤ◌
shift-before_cut a c b s h = ground arith

shift-in_cut : (a c b : ℕ) (s : Text) → a < b → b ≤ a + c → shift (del a c) (ins b s) ≡ ins a s
unfolding shift ◌-ℤ◌
shift-in_cut a c b s h k = ground arith

shift-after_cut :
    (a c n : ℕ) (s : Text) → 0 < n → shift (del a c) (ins (a + c + n) s) ≡ ins (a + n) s
unfolding shift ◌-ℤ◌
shift-after_cut a c n s h = ground arith

length-without :
    (a c : ℕ) (l : List Text) → a + c ≤ length l → length (without a c l) + c ≡ length l
length-without a c l h = omega (
  arith,
  length-append (take a l) (drop (a + c) l),
  length-drop (a + c) l,
  length-append (take a l) (drop a l),
  length-drop a l,
  ap length (take-append-drop a l),
)

-- The insertion and the deletion, in the lines that both clients saw.
abbrev pub beside : ℕ → ℕ → ℕ → List Text → List Text → List Text
beside a c b s l =
    if leb b a
    then take b l ++ (s ++ without (a - b) c (drop b l))
    else if leb b (a + c)
    then take a l ++ (s ++ drop (a + c) l)
    else without a c (take b l) ++ (s ++ drop b l)

after_cut :
    (l : List Text) (a c n : ℕ) (s : Text)
    → 0 < n
    → a + c + n ≤ length l
    → round insert (shift (del a c) (ins (a + c + n) s)) (without a c l)
      ≡ go (without a c (take (a + c + n) l) ++ (split_lines (terminated s) ++ drop (a + c + n) l))
after_cut l a c n s p h =
    rw
      (
        shift-after_cut a c n s p,
        round-ins (a + n) s (without a c l) (omega (arith, length-without a c l (omega arith))),
      )
      (ap go (insert_at-after_cut a c n (split_lines (terminated s)) l h))

-- An insertion aimed at line `b + 1`, rebased over a deletion of the `c` lines from line `a + 1` on
-- that came first (all within the text), lands before the line that it was aimed at, or in the place
-- of the deleted lines if that line is one of them: the lines that result are the old ones without
-- the deleted ones and with the insertion.
pub rebase-over_delete :
    (l l' : List Text) (a c b : ℕ) (s : Text)
    → a + c ≤ length l
    → b ≤ length l
    → round delete (del a c) l ≡ go l'
    → round insert (shift (del a c) (ins b s)) l' ≡ go (beside a c b (split_lines (terminated s)) l)
rebase-over_delete l l' a c b s h k r =
    let same : without a c l ≡ l' = go-injective _ _ (sym (round-del a c l h) ∙ r) in
    let size = length-without a c l h in
    let new = split_lines (terminated s) in
    rw (← same) (elim (Bool-cases (leb b a)) [
      | inl before ↦
          rw
            (
              before,
              shift-before_cut a c b s (leb→le b a before),
              round-ins b s (without a c l) (omega (arith, leb→le b a before)),
            )
            (ap go (insert_at-before_cut a b c new l (leb→le b a before) (omega arith)))
      | inr later ↦ elim (Bool-cases (leb b (a + c))) [
        | inl within ↦
            rw
              (
                later,
                within,
                shift-in_cut a c b s (ground arith) (leb→le b (a + c) within),
                round-ins a s (without a c l) (omega arith),
              )
              (ap go (insert_at-in_cut a c new l (omega arith)))
        | inr beyond ↦
            let n = b - (a + c) in
            let far : a + c < b = ground arith in
            let split : b ≡ a + c + n = omega arith in
            rw (later, beyond)
              (subst
                (λ x.
                  round insert (shift (del a c) (ins x s)) (without a c l)
                  ≡ go (without a c (take x l) ++ (new ++ drop x l)))
                (sym split) (after_cut l a c n s (omega arith) (omega arith)))
      ]
    ])

shift-same_delete : (a c : ℕ) → shift (del a c) (del a c) ≡ del a c
unfolding shift
shift-same_delete a c = ground arith

-- Two clients that delete the same lines delete twice as many: the second deletion, rebased over the
-- first, takes the `c` lines behind those that both meant.
pub rebase-same_delete :
    (l l' : List Text) (a c : ℕ)
    → a + c + c ≤ length l
    → round delete (del a c) l ≡ go l'
    → round delete (shift (del a c) (del a c)) l' ≡ go (take a l ++ drop (a + c + c) l)
rebase-same_delete l l' a c h r =
    let same : without a c l ≡ l' = go-injective _ _ (sym (round-del a c l (omega arith)) ∙ r) in
    rw
      (
        ← same,
        shift-same_delete a c,
        round-del a c (without a c l) (omega (arith, length-without a c l (omega arith))),
      )
      (ap go (without-twice a c l (omega arith)))

-- An insertion of the empty text inserts nothing, and yet it moves what is rebased over it by a line:
-- an insertion aimed at line `b + 1`, at or behind it, lands behind that line.
pub rebase-over_nothing :
    (l l' : List Text) (a b : ℕ) (s : Text)
    → a ≤ b
    → b < length l
    → round insert (ins a []) l ≡ go l'
    → round insert (shift (ins a []) (ins b s)) l'
      ≡ go (insert_at (b + 1) (split_lines (terminated s)) l)
rebase-over_nothing l l' a b s h k r =
    let none_yet : insert_at a [] l ≡ l = unfold insert_at in take-append-drop a l in
    let blank : split_lines (terminated []) ≡ [] =
      unfold terminated in unfold split_lines in refl in
    let same : l ≡ l' =
      go-injective _ _ (sym (round-ins a [] l (omega arith) ∙ rw (blank, none_yet)) ∙ r) in
    let one : line_count [] ≡ 1 = unfold line_count in unfold split_lines in refl in
    rw (← same, shift-ins-later a b [] s h, pos-+ℤ, one) (round-ins (b + 1) s l (omega arith))
