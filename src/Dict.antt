-- ===== src/Dict.antt =====
-- A Python dict with text keys: an association list in order of first insertion.
pub mod Keyed
use clique.Prelude.{
  Bool-cases, inl, inr, subst, ap, ◌∙◌, String, ◌≡◌, refl, Bool, true, false, Option, none, some,
  List, [], ◌∷◌, arith, All, if◌then◌else◌, ◌is◌, is_iff,
}

abbrev pub Dict {ℓ} : Type ℓ → Type ℓ
Dict V = List (String × V)

module _ {ℓ} {V : Type ℓ} where
  -- `d.get(k)`
  unfoldable pub get : String → Dict V → Option V
  get k [] = none
  get k ((j, v) ∷ d) = if j is k then some v else get k d

  -- `d[k] = v`
  unfoldable pub put : String → V → Dict V → Dict V
  put k v [] = (k, v) ∷ []
  put k v ((j, w) ∷ d) = if j is k then (j, v) ∷ d else (j, w) ∷ put k v d

  -- `d.pop(k, None)`, without the value
  unfoldable pub remove : String → Dict V → Dict V
  remove k [] = []
  remove k ((j, w) ∷ d) = let rest = remove k d in if j is k then rest else (j, w) ∷ rest

  -- `d.get(k, v)`
  unfoldable pub get_or : String → V → Dict V → V
  unfolding get
  get_or k v d = elim (get k d) [ none ↦ v | some w ↦ w ]

  pub get-put :
      (k j : String) (v : V) (d : Dict V) → get j (put k v d) ≡ (if k is j then some v else get j d)
  unfolding get put
  get-put k j v [] = refl
  get-put k j v ((i, w) ∷ d) = ground (arith, is_iff i k, is_iff i j, is_iff k j, get-put k j v d)

  pub get-remove :
      (k j : String) (d : Dict V) → get j (remove k d) ≡ (if k is j then none else get j d)
  unfolding get remove
  get-remove k j [] = ground arith
  get-remove k j ((i, w) ∷ d) = ground (arith, is_iff i k, is_iff i j, is_iff k j, get-remove k j d)

  pub All-put {κ} :
      (P : String × V → Type κ) (k : String) (v : V) (d : Dict V)
      → ((j : String) → P (j, v))
      → All P d
      → All P (put k v d)
  unfolding put
  All-put P k v [] h a = (h k, tt)
  All-put P k v ((j, w) ∷ d) h (b, a) = split (j is k) (All-put P k v d h a)
    where
      split : (t : Bool) → All P (put k v d) → All P (if t then (j, v) ∷ d else (j, w) ∷ put k v d)
      split true rest = (h j, a)
      split false rest = (b, rest)

  pub All-get {κ} :
      (P : V → Type κ) (k : String) (d : Dict V) {v : V}
      → get k d ≡ some v
      → All (λ e. P e.1) d
      → P v
  unfolding get
  All-get P k [] h a = ground arith
  All-get P k ((j, w) ∷ d) {v} h a = elim (Bool-cases (j is k)) [
    | inl e ↦ let same : w ≡ v = ground arith in subst P same a.0
    | inr e ↦ All-get P k d (rw e at h) a.1
  ]

  -- No key stands twice.
  abbrev pub Unique : Dict V → Type ℓ
  Unique [] = Unit
  Unique (e ∷ d) = (get e.0 d ≡ none) × Unique d

  pub Unique-put : (k : String) (v : V) (d : Dict V) → Unique d → Unique (put k v d)
  unfolding put get
  Unique-put k v [] u = (refl, tt)
  Unique-put k v ((j, w) ∷ d) (a, u) = elim (Bool-cases (j is k)) [
    | inl e ↦ rw e (a, u)
    | inr e ↦ rw e (ground (arith, get-put k j v d, is_iff j k, is_iff k j), Unique-put k v d u)
  ]

  pub get_or-none : (k : String) (v : V) (d : Dict V) → get k d ≡ none → get_or k v d ≡ v
  unfolding get_or
  get_or-none k v d e = rw (e, get_or)

  pub get_or-some : (k : String) (v : V) (d : Dict V) {w : V} → get k d ≡ some w → get_or k v d ≡ w
  unfolding get_or
  get_or-some k v d e = rw (e, get_or)

  pub get_or-same :
      (k : String) (v : V) (d d' : Dict V) → get k d ≡ get k d' → get_or k v d ≡ get_or k v d'
  unfolding get_or
  get_or-same k v d d' e = rw (get_or, e)

  -- To write what a read with a default gives changes no such read.
  pub get_or-put_default :
      (k j : String) (v : V) (d : Dict V) → get_or j v (put k (get_or k v d) d) ≡ get_or j v d
  get_or-put_default k j v d = elim (Bool-cases (k is j)) [
    | inr other ↦ get_or-same j v (put k (get_or k v d) d) d (rw (get-put, other))
    | inl same ↦
        let eq : k ≡ j = (is_iff k j).0 same in
        get_or-some j v (put k (get_or k v d) d) (rw (get-put, same)) ∙ ap (λ x. get_or x v d) eq
  ]
