-- ===== src/Texts.antt =====
-- Python's operations on texts, as lists of code points.
pub mod Laws
pub mod Found
use clique.Prelude.{
  ℕ, zero, suc, ◌+◌, ◌-◌, ◌≤◌, ◌<◌, ◌≡◌, refl, sym, ap, ◌∙◌, Bool, true, false, not, ◌&&◌, ◌||◌,
  Option, none, some, List, [], ◌∷◌, ◌++◌, arith, length, take, drop, any, leb, ltb, ◌==◌,
  if◌then◌else◌, Bool-cases, inl, inr,
}
use clique.Types.{Text}

-- `t.startswith(p)`
unfoldable pub is_prefix : Text → Text → Bool
is_prefix [] t = true
is_prefix (c ∷ p) [] = false
is_prefix (c ∷ p) (d ∷ t) = c == d && is_prefix p t

-- The text that `read_text` makes of what a file holds: a carriage return, and the line feed that
-- follows it, become one line feed. The flag says that a carriage return stands before.
unfoldable pub feeds_from : Bool → Text → Text
feeds_from b [] = []
feeds_from b (c ∷ t) =
    let rest = feeds_from false t in
    let returned = feeds_from true t in
    if b && c == 10 then rest else if c == 13 then 10 ∷ returned else c ∷ rest

abbrev pub with_feeds : Text → Text
with_feeds t = feeds_from false t

-- `s == t`
unfoldable pub same_text : Text → Text → Bool
same_text [] [] = true
same_text (c ∷ s) (d ∷ t) = c == d && same_text s t
same_text _ _ = false

abbrev pub is_empty : Text → Bool
is_empty [] = true
is_empty (c ∷ t) = false

abbrev pub cons_left : ℕ → Option (Text × Text) → Option (Text × Text)
cons_left c none = none
cons_left c (some (l, r)) = some (c ∷ l, r)

-- Where `i = t.find(p)` is there, `t[:i]` and `t[i + len(p):]`.
unfoldable pub split_at : Text → Text → Option (Text × Text)
split_at p [] = if is_empty p then some ([], []) else none
split_at p (c ∷ t) =
    let rest = split_at p t in
    if is_prefix p (c ∷ t) then some ([], drop (length p) (c ∷ t)) else cons_left c rest

-- `p in t`
unfoldable pub contains : Text → Text → Bool
unfolding split_at
contains p t = elim (split_at p t) [ none ↦ false | some s ↦ true ]

-- `str.isspace` of one character
unfoldable pub is_space : ℕ → Bool
is_space c =
    (leb 9 c && leb c 13)
    || (leb 28 c && leb c 32)
    || c == 133
    || c == 160
    || c == 5760
    || (leb 8192 c && leb c 8202)
    || c == 8232
    || c == 8233
    || c == 8239
    || c == 8287
    || c == 12288

abbrev pub is_feed : ℕ → Bool
is_feed c = c == 10

-- `t.lstrip(…)`, `t.rstrip(…)` and `t.strip(…)`, by a test on characters
unfoldable pub lstrip : (ℕ → Bool) → Text → Text
lstrip f [] = []
lstrip f (c ∷ t) = let rest = lstrip f t in if f c then rest else c ∷ t

abbrev pub cons_kept : (ℕ → Bool) → ℕ → Text → Text
cons_kept f c [] = if f c then [] else c ∷ []
cons_kept f c (d ∷ t) = c ∷ d ∷ t

unfoldable pub rstrip : (ℕ → Bool) → Text → Text
rstrip f [] = []
rstrip f (c ∷ t) = cons_kept f c (rstrip f t)

unfoldable pub strip : (ℕ → Bool) → Text → Text
unfolding lstrip rstrip
strip f t = rstrip f (lstrip f t)

-- `t.replace(p, "")` for a pattern that is not empty; the number is what is left of a match.
unfoldable pub without : Text → ℕ → Text → Text
without p n [] = []
without p (suc n) (c ∷ t) = without p n t
without p zero (c ∷ t) =
    let matched = without p (length p - 1) t in
    let kept = c ∷ without p zero t in if is_prefix p (c ∷ t) then matched else kept

-- What follows the last place of a pattern, `t.rsplit(p, 1)[1]` where `p in t`.
unfoldable pub after_last : Text → Text → Option Text
after_last p [] = if is_empty p then some [] else none
after_last p (c ∷ t) = elim (after_last p t) [
  | some r ↦ some r
  | none ↦ if is_prefix p (c ∷ t) then some (drop (length p) (c ∷ t)) else none
]

-- `t.split(c)` for one character
abbrev pub cons_first : ℕ → List Text → List Text
cons_first c [] = (c ∷ []) ∷ []
cons_first c (s ∷ ss) = (c ∷ s) ∷ ss

unfoldable pub split_on : ℕ → Text → List Text
split_on c [] = [] ∷ []
split_on c (d ∷ t) = let rest = split_on c t in if d == c then [] ∷ rest else cons_first d rest

-- `s in l`
unfoldable pub is_among : Text → List Text → Bool
unfolding same_text
is_among s [] = false
is_among s (t ∷ ts) = if same_text t s then true else is_among s ts

-- `len(t.encode())`
abbrev pub byte_length : ℕ → ℕ
byte_length c = if ltb c 128 then 1 else if ltb c 2048 then 2 else if ltb c 65536 then 3 else 4

unfoldable pub encoded_length : Text → ℕ
encoded_length [] = 0
encoded_length (c ∷ t) = byte_length c + encoded_length t

-- `t.count(p)` and `t.replace(p, new)` for a pattern that is not empty; the number is what is left of
-- a match.
unfoldable pub count_in : Text → ℕ → Text → ℕ
count_in p n [] = 0
count_in p (suc n) (c ∷ t) = count_in p n t
count_in p zero (c ∷ t) =
    let matched = suc (count_in p (length p - 1) t) in
    let passed = count_in p zero t in if is_prefix p (c ∷ t) then matched else passed

unfoldable pub replace_in : Text → Text → ℕ → Text → Text
replace_in p new n [] = []
replace_in p new (suc n) (c ∷ t) = replace_in p new n t
replace_in p new zero (c ∷ t) =
    let matched = new ++ replace_in p new (length p - 1) t in
    let passed = c ∷ replace_in p new zero t in if is_prefix p (c ∷ t) then matched else passed

abbrev pub has_null : Text → Bool
has_null t = any (λ c. c == 0) t
