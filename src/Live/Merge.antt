-- ===== src/Live/Merge.antt =====
-- Two edits of one list of lines, one after the other, as one edit of the list that both aimed at.
use clique.Prelude.{
  ℕ, zero, suc, ◌+◌, ◌-◌, ◌≤◌, ◌≡◌, refl, ap, List, [], ◌∷◌, ◌++◌, arith, length, take, drop,
  take-append-drop,
}
use clique.Types.{Text}
use clique.Live.Lines.{insert_at, delete_to}

take-past {ℓ} : {A : Type ℓ} (t l : List A) (n : ℕ) → take (n + length t) (t ++ l) ≡ t ++ take n l
take-past [] l n = let e : n + 0 ≡ n = omega arith in rw e
take-past (x ∷ t) l n =
    let e : n + suc (length t) ≡ suc (n + length t) = omega arith in
    rw e (ap (◌∷◌ x) (take-past t l n))

drop-past {ℓ} : {A : Type ℓ} (t l : List A) (n : ℕ) → drop (n + length t) (t ++ l) ≡ drop n l
drop-past [] l n = let e : n + 0 ≡ n = omega arith in rw e
drop-past (x ∷ t) l n =
    let e : n + suc (length t) ≡ suc (n + length t) = omega arith in rw e (drop-past t l n)

-- An insertion of `s` before line `b` that comes after an insertion of `t` before line `a`.
pub insert_at-above :
    (a b : ℕ) (s t l : List Text)
    → a ≤ b
    → b ≤ length l
    → insert_at (b + length t) s (insert_at a t l) ≡ insert_at a t (take b l) ++ (s ++ drop b l)
unfolding insert_at
insert_at-above zero b s t l h k = rw (take-past t l b, drop-past t l b)
insert_at-above (suc a) zero s t l h k = absurd (omega arith)
insert_at-above (suc a) (suc b) s t [] h k = absurd (omega arith)
insert_at-above (suc a) (suc b) s t (x ∷ l) h k =
    let e : suc b + length t ≡ suc (b + length t) = omega arith in
    rw e (ap (◌∷◌ x) (insert_at-above a b s t l (omega arith) (omega arith)))

pub insert_at-below :
    (a b : ℕ) (s t l : List Text)
    → b ≤ a
    → a ≤ length l
    → insert_at b s (insert_at a t l) ≡ take b l ++ (s ++ insert_at (a - b) t (drop b l))
unfolding insert_at
insert_at-below a zero s t l h k = let e : a - 0 ≡ a = omega arith in rw e
insert_at-below zero (suc b) s t l h k = absurd (omega arith)
insert_at-below (suc a) (suc b) s t [] h k = absurd (omega arith)
insert_at-below (suc a) (suc b) s t (x ∷ l) h k =
    let e : suc a - suc b ≡ a - b = omega arith in
    rw e (ap (◌∷◌ x) (insert_at-below a b s t l (omega arith) (omega arith)))

-- The list without the `c` lines from line `a` on.
abbrev pub without : ℕ → ℕ → List Text → List Text
without a c l = take a l ++ drop (a + c) l

pub delete_to-without : (a c : ℕ) (l : List Text) → delete_to a (a + c) l ≡ without a c l
unfolding delete_to
delete_to-without a zero l =
    let e : a + 0 ≡ a = omega arith in rw e (ground (arith, take-append-drop a l))
delete_to-without a (suc c) l = ground arith

pub insert_at-before_cut :
    (a b c : ℕ) (s l : List Text)
    → b ≤ a
    → a ≤ length l
    → insert_at b s (without a c l) ≡ take b l ++ (s ++ without (a - b) c (drop b l))
unfolding insert_at
insert_at-before_cut a zero c s l h k = let e : a - 0 ≡ a = omega arith in rw e
insert_at-before_cut zero (suc b) c s l h k = absurd (omega arith)
insert_at-before_cut (suc a) (suc b) c s [] h k = absurd (omega arith)
insert_at-before_cut (suc a) (suc b) c s (x ∷ l) h k =
    let e : suc a - suc b ≡ a - b = omega arith in
    let f : suc a + c ≡ suc (a + c) = omega arith in
    rw (e, f) (ap (◌∷◌ x) (insert_at-before_cut a b c s l (omega arith) (omega arith)))

pub insert_at-in_cut :
    (a c : ℕ) (s l : List Text)
    → a ≤ length l
    → insert_at a s (without a c l) ≡ take a l ++ (s ++ drop (a + c) l)
unfolding insert_at
insert_at-in_cut zero c s l h = refl
insert_at-in_cut (suc a) c s [] h = absurd (omega arith)
insert_at-in_cut (suc a) c s (x ∷ l) h =
    let f : suc a + c ≡ suc (a + c) = omega arith in
    rw f (ap (◌∷◌ x) (insert_at-in_cut a c s l (omega arith)))

take-nil {ℓ} : {A : Type ℓ} (n : ℕ) → take {A = A} n [] ≡ []
take-nil zero = refl
take-nil (suc n) = refl

drop-nil {ℓ} : {A : Type ℓ} (n : ℕ) → drop {A = A} n [] ≡ []
drop-nil zero = refl
drop-nil (suc n) = refl

take-drop {ℓ} : {A : Type ℓ} (c n : ℕ) (l : List A) → take n (drop c l) ≡ drop c (take (c + n) l)
take-drop zero n l = let e : 0 + n ≡ n = omega arith in rw e
take-drop {A} (suc c) n [] = rw (take-nil {A = A} n, take-nil {A = A} (suc c + n))
take-drop (suc c) n (x ∷ l) =
    let e : suc c + n ≡ suc (c + n) = omega arith in rw e (take-drop c n l)

drop-drop {ℓ} : {A : Type ℓ} (c n : ℕ) (l : List A) → drop n (drop c l) ≡ drop (c + n) l
drop-drop zero n l = let e : 0 + n ≡ n = omega arith in rw e
drop-drop {A} (suc c) n [] = rw (drop-nil {A = A} n, drop-nil {A = A} (suc c + n))
drop-drop (suc c) n (x ∷ l) =
    let e : suc c + n ≡ suc (c + n) = omega arith in rw e (drop-drop c n l)

-- An insertion behind the cut, at a line that the cut has moved up.
pub insert_at-after_cut :
    (a c n : ℕ) (s l : List Text)
    → a + c + n ≤ length l
    → insert_at (a + n) s (without a c l)
      ≡ without a c (take (a + c + n) l) ++ (s ++ drop (a + c + n) l)
unfolding insert_at
insert_at-after_cut zero c n s l h =
    let e : 0 + n ≡ n = omega arith in
    let f : 0 + c ≡ c = omega arith in rw (e, f, take-drop c n l, drop-drop c n l)
insert_at-after_cut (suc a) c n s [] h = absurd (omega arith)
insert_at-after_cut (suc a) c n s (x ∷ l) h =
    let f : suc a + c ≡ suc (a + c) = omega arith in
    let g : suc a + n ≡ suc (a + n) = omega arith in
    let j : suc (a + c) + n ≡ suc (a + c + n) = omega arith in
    rw (f, g, j) (ap (◌∷◌ x) (insert_at-after_cut a c n s l (omega arith)))

pub without-twice :
    (a c : ℕ) (l : List Text)
    → a ≤ length l
    → without a c (without a c l) ≡ take a l ++ drop (a + c + c) l
without-twice zero c l h = let e : 0 + c ≡ c = omega arith in rw (e, drop-drop c c l)
without-twice (suc a) c [] h = absurd (omega arith)
without-twice (suc a) c (x ∷ l) h =
    let e : suc a + c ≡ suc (a + c) = omega arith in
    let f : suc (a + c) + c ≡ suc (a + c + c) = omega arith in
    rw (e, f) (ap (◌∷◌ x) (without-twice a c l (omega arith)))
