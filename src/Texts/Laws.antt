-- ===== src/Texts/Laws.antt =====
-- Laws of the text operations on the beginnings of a text.
use Prim.Native.Nat.{min}
use clique.Prelude.{
  ℕ, zero, suc, ◌+◌, ◌-◌, ◌≤◌, ◌<◌, ◌≡◌, refl, sym, ap, ◌∙◌, ◌↔◌, Bool, true, false, ◌&&◌, Option,
  none, some, [], ◌∷◌, ◌++◌, arith, All, length, length-drop, take, drop, take-append-drop, leb,
  ◌==◌, if◌then◌else◌, Bool-cases, inl, inr,
}
use clique.Types.{Text}
use clique.Texts.{same_text, is_prefix, split_at, cons_left, lstrip}

pub same_text_iff : (s t : Text) → (same_text s t ≡ true) ↔ (s ≡ t)
unfolding same_text
same_text_iff [] [] = ground arith
same_text_iff [] (d ∷ t) = ground arith
same_text_iff (c ∷ s) [] = ground arith
same_text_iff (c ∷ s) (d ∷ t) = ground (arith, same_text_iff s t)

pub length-take : (n : ℕ) (t : Text) → length (take n t) ≡ min n (length t)
length-take zero t = omega arith
length-take (suc n) [] = omega arith
length-take (suc n) (c ∷ t) = omega (arith, length-take n t)

pub take-take : (m n : ℕ) (t : Text) → m ≤ n → take m (take n t) ≡ take m t
take-take zero n t h = refl
take-take (suc m) zero t h = absurd (omega arith)
take-take (suc m) (suc n) [] h = refl
take-take (suc m) (suc n) (c ∷ t) h = ap (◌∷◌ c) (take-take m n t (omega arith))

pub take-all : (n : ℕ) (t : Text) → length t ≤ n → take n t ≡ t
take-all zero [] h = refl
take-all zero (c ∷ t) h = absurd (omega arith)
take-all (suc n) [] h = refl
take-all (suc n) (c ∷ t) h = ap (◌∷◌ c) (take-all n t (omega arith))

-- What was sent, followed by what a longer beginning adds to it.
pub take-drop-take : (m n : ℕ) (t : Text) → m ≤ n → take m t ++ drop m (take n t) ≡ take n t
take-drop-take zero n t h = refl
take-drop-take (suc m) zero t h = absurd (omega arith)
take-drop-take (suc m) (suc n) [] h = refl
take-drop-take (suc m) (suc n) (c ∷ t) h = ap (◌∷◌ c) (take-drop-take m n t (omega arith))

pub take-append_left : (n : ℕ) (s t : Text) → n ≤ length s → take n (s ++ t) ≡ take n s
take-append_left zero s t h = refl
take-append_left (suc n) [] t h = absurd (omega arith)
take-append_left (suc n) (c ∷ s) t h = ap (◌∷◌ c) (take-append_left n s t (omega arith))

-- A pattern at the start of a beginning of a text stands at the start of the text.
pub is_prefix-take :
    (p t : Text) (n : ℕ) → is_prefix p (take n t) ≡ (is_prefix p t && leb (length p) n)
unfolding is_prefix
is_prefix-take [] t n = ground arith
is_prefix-take (c ∷ p) t zero = elim (Bool-cases (is_prefix (c ∷ p) t)) [
  | inl e ↦ rw e (ground arith)
  | inr e ↦ rw e refl
]
is_prefix-take (c ∷ p) [] (suc n) = refl
is_prefix-take (c ∷ p) (d ∷ t) (suc n) = ground (arith, is_prefix-take p t n)

is_prefix-short : (p t : Text) → length t < length p → is_prefix p t ≡ false
unfolding is_prefix
is_prefix-short [] t h = absurd (omega arith)
is_prefix-short (c ∷ p) [] h = refl
is_prefix-short (c ∷ p) (d ∷ t) h = ground (arith, is_prefix-short p t (omega arith))

split_at-short : (p t : Text) → length t < length p → split_at p t ≡ none
unfolding split_at
split_at-short [] t h = absurd (omega arith)
split_at-short (q ∷ p) [] h = refl
split_at-short (q ∷ p) (c ∷ t) h =
    rw (is_prefix-short (q ∷ p) (c ∷ t) h, split_at-short (q ∷ p) t (omega arith)) refl

sub_zero : (n : ℕ) → n - 0 ≡ n
sub_zero n = omega arith

zero_sub : (n : ℕ) → 0 - n ≡ 0
zero_sub n = omega arith

sub_suc : (n m : ℕ) → suc n - suc m ≡ n - m
sub_suc n m = omega arith

zero_add : (n : ℕ) → 0 + n ≡ n
zero_add n = omega arith

sub_suc_add : (n a b : ℕ) → suc n - (suc a + b) ≡ n - (a + b)
sub_suc_add n a b = omega arith

take-nil : (n : ℕ) → take {A = ℕ} n [] ≡ []
take-nil zero = refl
take-nil (suc n) = refl

drop-take : (m n : ℕ) (t : Text) → drop m (take n t) ≡ take (n - m) (drop m t)
drop-take zero n t = rw sub_zero refl
drop-take (suc m) zero t = rw zero_sub refl
drop-take (suc m) (suc n) [] = rw (take-nil (suc n - suc m)) refl
drop-take (suc m) (suc n) (c ∷ t) = rw sub_suc (drop-take m n t)

-- The first place of a pattern: what stands in front of it, and behind it.
pub data First (p : Text) : Text → Text → Text → Type 0 where
  at_once : {t r : Text} → is_prefix p t ≡ true → drop (length p) t ≡ r → First p t [] r
  later :
      {t h r : Text} (c : ℕ)
      → is_prefix p (c ∷ t) ≡ false
      → First p t h r
      → First p (c ∷ t) (c ∷ h) r

cons-First :
    (p : Text) (c : ℕ) (t : Text) (o : Option (Text × Text)) {h r : Text}
    → is_prefix p (c ∷ t) ≡ false
    → ((h' r' : Text) → o ≡ some (h', r') → First p t h' r')
    → cons_left c o ≡ some (h, r)
    → First p (c ∷ t) h r
cons-First p c t none n f e = absurd (ground arith)
cons-First p c t (some (l, r')) {h} {r} n f e =
    let eh : c ∷ l ≡ h = ground arith in
    let er : r' ≡ r = ground arith in rw (← eh, ← er) (later c n (f l r' refl))

pub split_at-First :
    (q : ℕ) (p t h r : Text) → split_at (q ∷ p) t ≡ some (h, r) → First (q ∷ p) t h r
unfolding split_at
split_at-First q p [] h r e = absurd (ground arith)
split_at-First q p (c ∷ t) h r e = elim (Bool-cases (is_prefix (q ∷ p) (c ∷ t))) [
  | inl y ↦
      let here : ◌≡◌ {A = Option (Text × Text)} (some ([], drop (length p) t)) (some (h, r)) =
        rw y at e in
      let eh : [] ≡ h = ground arith in
      let er : drop (length p) t ≡ r = ground arith in rw (← eh) (at_once y er)
  | inr n ↦
      cons-First (q ∷ p) c t (split_at (q ∷ p) t) n (λ h' r' k. split_at-First q p t h' r' k)
        (rw n at e)
]

split_at-here :
    (q : ℕ) (p u : Text)
    → is_prefix (q ∷ p) u ≡ true
    → split_at (q ∷ p) u ≡ some ([], drop (length (q ∷ p)) u)
unfolding split_at is_prefix
split_at-here q p [] y = absurd (ground arith)
split_at-here q p (c ∷ u) y = rw (split_at, y) refl

split_at-later :
    (q : ℕ) (p : Text) (c : ℕ) (u : Text)
    → is_prefix (q ∷ p) (c ∷ u) ≡ false
    → split_at (q ∷ p) (c ∷ u) ≡ cons_left c (split_at (q ∷ p) u)
unfolding split_at
split_at-later q p c u n = rw n refl

-- A beginning of a text holds the pattern where the text does, once it is long enough.
pub split_at-long :
    {q : ℕ} {p t h r : Text} (n : ℕ)
    → First (q ∷ p) t h r
    → length h + length (q ∷ p) ≤ n
    → split_at (q ∷ p) (take n t) ≡ some (h, take (n - (length h + length (q ∷ p))) r)
split_at-long {q} {p} {t} n (at_once y e) b =
    let starts : is_prefix (q ∷ p) (take n t) ≡ true =
      is_prefix-take (q ∷ p) t n ∙ rw y (ground arith) in
    split_at-here q p (take n t) starts ∙ rw (drop-take (length (q ∷ p)) n t, e) (less e)
  where
    less :
        {r' : Text}
        → drop (length (q ∷ p)) t ≡ r'
        → ◌≡◌ {A = Option (Text × Text)}
            (some ([], take (n - length (q ∷ p)) r'))
            (some ([], take (n - (0 + length (q ∷ p))) r'))
    less _ = rw zero_add refl
split_at-long {q} {p} zero (later c e f) b = absurd (omega arith)
split_at-long {q} {p} (suc n) (later {t} c e f) b =
    let more = split_at-long n f (omega arith) in
    let not_here : is_prefix (q ∷ p) (c ∷ take n t) ≡ false =
      is_prefix-take (q ∷ p) (c ∷ t) (suc n) ∙ rw e refl in
    split_at-later q p c (take n t) not_here ∙ rw (more, sub_suc_add) refl

pub split_at-early :
    {q : ℕ} {p t h r : Text} (n : ℕ)
    → First (q ∷ p) t h r
    → n < length h + length (q ∷ p)
    → split_at (q ∷ p) (take n t) ≡ none
split_at-early {q} {p} {t} n (at_once y e) b =
    split_at-short (q ∷ p) (take n t) (omega (arith, length-take n t))
split_at-early {q} {p} zero (later c e f) b = split_at-short (q ∷ p) [] (omega arith)
split_at-early {q} {p} (suc n) (later {t} c e f) b =
    let more = split_at-early n f (omega arith) in
    let not_here : is_prefix (q ∷ p) (c ∷ take n t) ≡ false =
      is_prefix-take (q ∷ p) (c ∷ t) (suc n) ∙ rw e refl in
    split_at-later q p c (take n t) not_here ∙ rw more refl

-- How many characters `lstrip` takes off.
abbrev pub lead : (ℕ → Bool) → Text → ℕ
lead f [] = 0
lead f (c ∷ t) = if f c then suc (lead f t) else 0

pub lstrip-take :
    (f : ℕ → Bool) (n : ℕ) (t : Text) → lstrip f (take n t) ≡ take (n - lead f t) (lstrip f t)
unfolding lstrip
lstrip-take f zero t = rw zero_sub refl
lstrip-take f (suc n) [] = rw (take-nil (suc n - 0)) refl
lstrip-take f (suc n) (c ∷ t) = elim (Bool-cases (f c)) [
  | inl e ↦ rw (e, sub_suc) (lstrip-take f n t)
  | inr e ↦ rw (e, sub_zero) refl
]

-- In front of its first place a text is the text before the pattern.
pub First-take : {p t h r : Text} (n : ℕ) → First p t h r → n ≤ length h → take n t ≡ take n h
First-take zero f b = refl
First-take (suc n) (at_once y e) b = absurd (omega arith)
First-take (suc n) (later c e f) b = ap (◌∷◌ c) (First-take n f (omega arith))

is_prefix-length : (p t : Text) → is_prefix p t ≡ true → length p ≤ length t
unfolding is_prefix
is_prefix-length [] t y = omega arith
is_prefix-length (c ∷ p) [] y = absurd (ground arith)
is_prefix-length (c ∷ p) (d ∷ t) y =
    let rest = is_prefix-length p t (ground arith) in omega (arith, rest)

pub First-length : {p t h r : Text} → First p t h r → length h + length p ≤ length t
First-length {p} {t} (at_once y e) = omega (arith, is_prefix-length p t y)
First-length (later c e f) = omega (arith, First-length f)

pub drop-take-drop : (a b : ℕ) (t : Text) → a ≤ b → drop a (take b t) ++ drop b t ≡ drop a t
drop-take-drop zero b t h = take-append-drop b t
drop-take-drop (suc a) zero t h = absurd (omega arith)
drop-take-drop (suc a) (suc b) [] h = refl
drop-take-drop (suc a) (suc b) (c ∷ t) h = drop-take-drop a b t (omega arith)

pub drop-all : (n : ℕ) (t : Text) → length t ≤ n → drop n t ≡ []
drop-all zero [] h = refl
drop-all zero (c ∷ t) h = absurd (omega arith)
drop-all (suc n) [] h = refl
drop-all (suc n) (c ∷ t) h = drop-all n t (omega arith)

-- No character of the text is the given one.
abbrev pub Lacks : ℕ → Text → Type 0
Lacks q t = All (λ c. (c == q) ≡ false) t

is_prefix-append : (p t : Text) → is_prefix p (p ++ t) ≡ true
unfolding is_prefix
is_prefix-append [] t = refl
is_prefix-append (c ∷ p) t = let rest = is_prefix-append p t in ground arith

drop-append : (p t : Text) → drop (length p) (p ++ t) ≡ t
drop-append [] t = refl
drop-append (c ∷ p) t = drop-append p t

-- A pattern is found behind a text without its first character.
pub split_at-first :
    (q : ℕ) (p t u : Text) → Lacks q t → split_at (q ∷ p) (t ++ ((q ∷ p) ++ u)) ≡ some (t, u)
unfolding split_at is_prefix
split_at-first q p [] u h =
    let start = is_prefix-append (q ∷ p) u in let rest = drop-append p u in rw (start, rest) refl
split_at-first q p (c ∷ t) u (h, hs) =
    let other : (q == c) ≡ false = ground arith in rw (other, split_at-first q p t u hs) refl

pub split_at-lacking : (q : ℕ) (p t : Text) → Lacks q t → split_at (q ∷ p) t ≡ none
unfolding split_at is_prefix
split_at-lacking q p [] h = refl
split_at-lacking q p (c ∷ t) (h, hs) =
    let other : (q == c) ≡ false = ground arith in rw (other, split_at-lacking q p t hs) refl

pub Lacks-append : (q : ℕ) (s t : Text) → Lacks q s → Lacks q t → Lacks q (s ++ t)
Lacks-append q [] t h k = k
Lacks-append q (c ∷ s) t (h, hs) k = (h, Lacks-append q s t hs k)

First-rest : {p t h r : Text} → First p t h r → length h + length p + length r ≡ length t
First-rest {p} {t} (at_once y e) =
    let size = ap length (sym e) in
    omega (arith, is_prefix-length p t y, size, length-drop (length p) t)
First-rest (later c e f) = omega (arith, First-rest f)

-- What is left behind a pattern is shorter.
pub split_at-length :
    (q : ℕ) (p t h r : Text)
    → split_at (q ∷ p) t ≡ some (h, r)
    → length h + length (q ∷ p) + length r ≡ length t
split_at-length q p t h r e = First-rest (split_at-First q p t h r e)
