-- ===== src/Texts/Found.antt =====
-- What Python's tests on texts say of them: `startswith`, `in` and `split`.
use clique.Prelude.{
  ℕ, ◌≡◌, ◌≢◌, refl, ap, true, false, List, [], ◌∷◌, ◌++◌, arith, All, ◌==◌, Bool-cases, inl, inr,
}
use clique.Types.{Text}
use clique.Texts.{is_prefix, same_text, is_among, has_null}
use clique.Texts.Laws.{same_text_iff}

pub is_prefix-rest : (p t : Text) → is_prefix p t ≡ true → (rest : Text) × (t ≡ p ++ rest)
unfolding is_prefix
is_prefix-rest [] t h = (t, refl)
is_prefix-rest (c ∷ p) [] h = absurd (ground arith)
is_prefix-rest (c ∷ p) (d ∷ t) h =
    let first : d ≡ c = ground arith in
    let (rest, e) = is_prefix-rest p t (ground arith) in (rest, rw first (ap (◌∷◌ c) e))

-- A text that does not begin with the character is no such character with a text behind it.
pub is_prefix-not : (c : ℕ) (t : Text) → is_prefix (c ∷ []) t ≡ false → (rest : Text) → t ≢ c ∷ rest
unfolding is_prefix
is_prefix-not c t h rest e =
    let no : is_prefix (c ∷ []) (c ∷ rest) ≡ false = rw e at h in absurd (ground arith)

pub is_among-none : (s : Text) (l : List Text) → is_among s l ≡ false → All (λ t. t ≢ s) l
unfolding is_among
is_among-none s [] h = tt
is_among-none s (t ∷ ts) h = elim (Bool-cases (same_text t s)) [
  | inl e ↦ let no : true ≡ false = rw (is_among, e) at h in cc
  | inr e ↦ (
    (λ same.
        let no : same_text s s ≡ false = rw same at e in
        let yes = (same_text_iff s s).1 refl in cc),
    is_among-none s ts (rw (is_among, e) at h),
  )
]

pub has_null-none : (t : Text) → has_null t ≡ false → All (λ c. c ≢ 0) t
has_null-none [] h = tt
has_null-none (c ∷ t) h = elim (Bool-cases (c == 0)) [
  | inl e ↦ let no : true ≡ false = rw e at h in cc
  | inr e ↦ (λ zero. ground arith, has_null-none t (rw e at h))
]
