-- ===== src/Dict/Keyed.antt =====
-- A Python dict whose keys are of any type: an association list in order of first insertion. The test
-- `same` decides whether two keys are equal.
use clique.Prelude.{
  ◌≡◌, ◌↔◌, refl, false, ap, ◌∙◌, Bool-cases, inl, inr, true, Bool, Option, none, some, List, [],
  ◌∷◌, if◌then◌else◌,
}

abbrev pub Keyed {ℓ} : Type ℓ → Type ℓ → Type ℓ
Keyed K V = List (K × V)

module _ {ℓ} {K : Type ℓ} {V : Type ℓ} (same : K → K → Bool) where
  -- `d.get(k)`
  unfoldable pub fetch : K → Keyed K V → Option V
  fetch k [] = none
  fetch k ((j, v) ∷ d) = if same j k then some v else fetch k d

  -- `d[k] = v`
  unfoldable pub store : K → V → Keyed K V → Keyed K V
  store k v [] = (k, v) ∷ []
  store k v ((j, w) ∷ d) = if same j k then (j, v) ∷ d else (j, w) ∷ store k v d

  -- `d.setdefault(k, v)`
  unfoldable pub store_new : K → V → Keyed K V → Keyed K V
  unfolding fetch store
  store_new k v d = elim (fetch k d) [ none ↦ store k v d | some w ↦ d ]

  -- `d.pop(k, None)`, without the value
  unfoldable pub discard : K → Keyed K V → Keyed K V
  discard k [] = []
  discard k ((j, w) ∷ d) = let rest = discard k d in if same j k then rest else (j, w) ∷ rest

  pub fetch-store :
      (k : K) (v : V) (d : Keyed K V) → same k k ≡ true → fetch k (store k v d) ≡ some v
  unfolding fetch store
  fetch-store k v [] h = rw h refl
  fetch-store k v ((j, w) ∷ d) h = elim (Bool-cases (same j k)) [
    | inl e ↦ rw (e, e) refl
    | inr e ↦ rw (e, e) (fetch-store k v d h)
  ]

  -- A store under another key, where the test is equality.
  pub fetch-store_other :
      ((a b : K) → (same a b ≡ true) ↔ (a ≡ b))
      → (j k : K) (v : V) (d : Keyed K V) → same j k ≡ false
      → fetch k (store j v d) ≡ fetch k d
  unfolding fetch store
  fetch-store_other iff j k v [] h = rw h refl
  fetch-store_other iff j k v ((i, w) ∷ d) h = elim (Bool-cases (same i j)) [
    | inl e ↦
        let own : i ≡ j = (iff i j).0 e in
        let apart : same i k ≡ false = ap (λ x. same x k) own ∙ h in rw (e, apart) refl
    | inr e ↦ elim (Bool-cases (same i k)) [
      | inl f ↦ rw (e, f) refl
      | inr f ↦ rw (e, f) (fetch-store_other iff j k v d h)
    ]
  ]

  pub fetch-discard : (k : K) (d : Keyed K V) → fetch k (discard k d) ≡ none
  unfolding fetch discard
  fetch-discard k [] = refl
  fetch-discard k ((j, w) ∷ d) = elim (Bool-cases (same j k)) [
    | inl e ↦ rw e (fetch-discard k d)
    | inr e ↦ rw (e, e) (fetch-discard k d)
  ]
