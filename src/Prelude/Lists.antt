-- ===== src/Prelude/Lists.antt =====
-- Lists measured by native numbers under the library's names, tests on lists, and predicates that
-- hold of every element.
use Prim.Native.Nat.{ℕ, zero, suc, ◌+◌, ◌-◌}
use mathlib.Core.Path.{◌≡◌, refl, ap}
use mathlib.Core.Bool.{Bool, true, false}
use mathlib.Core.List.{List, [], ◌∷◌, ◌++◌}
use native.Mathlib.Omega.{arith}
use mathlib.Core.Logic.{inl, inr, ◌⊎◌}
use clique.Prelude.Tests.{if◌then◌else◌, Bool-cases}

module _ {ℓ} {A : Type ℓ} where
  abbrev pub length : List A → ℕ
  length [] = 0
  length (x ∷ xs) = suc (length xs)

  abbrev pub take : ℕ → List A → List A
  take zero xs = []
  take (suc n) [] = []
  take (suc n) (x ∷ xs) = x ∷ take n xs

  abbrev pub drop : ℕ → List A → List A
  drop zero xs = xs
  drop (suc n) [] = []
  drop (suc n) (x ∷ xs) = drop n xs

  pub length-append : (xs ys : List A) → length (xs ++ ys) ≡ length xs + length ys
  length-append [] ys = omega arith
  length-append (x ∷ xs) ys = omega (arith, length-append xs ys)

  pub length-drop : (n : ℕ) (xs : List A) → length (drop n xs) ≡ length xs - n
  length-drop zero xs = omega arith
  length-drop (suc n) [] = omega arith
  length-drop (suc n) (x ∷ xs) = omega (arith, length-drop n xs)

  pub take-append-drop : (n : ℕ) (xs : List A) → take n xs ++ drop n xs ≡ xs
  take-append-drop zero xs = refl
  take-append-drop (suc n) [] = refl
  take-append-drop (suc n) (x ∷ xs) = ap (◌∷◌ x) (take-append-drop n xs)

  -- The elements that pass a test, in order.
  abbrev pub select : (A → Bool) → List A → List A
  select p [] = []
  select p (x ∷ xs) = if p x then x ∷ select p xs else select p xs

  abbrev pub any : (A → Bool) → List A → Bool
  any p [] = false
  any p (x ∷ xs) = if p x then true else any p xs

module _ {ℓ κ} {A : Type ℓ} (P : A → Type κ) where
  abbrev pub All : List A → Type κ
  All [] = Unit
  All (x ∷ xs) = P x × All xs

-- The value stands in the list.
abbrev pub Among : {A : Type 0} → List A → A → Type 0
Among [] x = ⊥
Among (y ∷ ys) x = (x ≡ y) ⊎ Among ys x

module _ {ℓ} {A : Type ℓ} where
  pub All-any : (p : A → Bool) (xs : List A) → any p xs ≡ false → All (λ x. p x ≡ false) xs
  All-any p [] h = tt
  All-any p (x ∷ xs) h = elim (Bool-cases (p x)) [
    | inl e ↦ let no : true ≡ false = rw e at h in cc
    | inr e ↦ (e, All-any p xs (rw e at h))
  ]

module _ {A : Type 0} where
  -- An element that passes the test, where some element does.
  pub any-some :
      (p : A → Bool) (xs : List A) → any p xs ≡ true → (x : A) × (Among xs x × (p x ≡ true))
  any-some p [] h = absurd (not_true h)
    where
      not_true : false ≡ true → ⊥
      not_true e = cc
  any-some p (x ∷ xs) h = elim (Bool-cases (p x)) [
    | inl e ↦ (x, (inl refl, e))
    | inr e ↦ let (y, (at, k)) = any-some p xs (rw e at h) in (y, (inr at, k))
  ]
