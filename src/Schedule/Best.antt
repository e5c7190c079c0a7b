-- ===== src/Schedule/Best.antt =====
-- scheduler/router.py: the node that `schedule_pending` chooses for one task.
use clique.Prelude.{
  String, ◌≡◌, refl, subst, Bool, true, false, Option, none, some, List, [], ◌∷◌, arith, All, Among,
  map, select, Bool-cases, inl, inr, ◌⊎◌,
}
use mathlib.Core.Option.{some-injective}
use clique.Types.{TaskRequest, Session, Float}
use clique.Context
use clique.Schedule.Score.{placement, out_of_reach}
use clique.Schedule.{Ready, Scored, best_of, in_cluster, weigh, choose, first_best}
use clique.Schedule.Slots.{All-map, first_best-All, All-weaken}

All-test {ℓ} : {A : Type ℓ} (p : A → Bool) (xs : List A) → All (λ x. p x ≡ true) (select p xs)
All-test p [] = tt
All-test p (x ∷ xs) = elim (Bool-cases (p x)) [
  | inl e ↦ rw e (e, All-test p xs)
  | inr e ↦ rw e (All-test p xs)
]

All-later : {A : Type 0} (y : A) (ys xs : List A) → All (Among ys) xs → All (Among (y ∷ ys)) xs
All-later y ys [] a = tt
All-later y ys (x ∷ xs) (h, a) = (inr h, All-later y ys xs a)

All-Among : {A : Type 0} (p : A → Bool) (xs : List A) → All (Among xs) (select p xs)
All-Among p [] = tt
All-Among p (x ∷ xs) = elim (Bool-cases (p x)) [
  | inl e ↦ rw e (inl refl, All-later x xs (select p xs) (All-Among p xs))
  | inr e ↦ rw e (All-later x xs (select p xs) (All-Among p xs))
]

-- The order of the floats that are numbers.
pub record IsOrdered (fl : Float) : Type 0 where
  pub asym : (a b : fl.F) → fl.lt a b ≡ true → fl.lt b a ≡ false
  pub trans : (a b c : fl.F) → fl.lt a b ≡ false → fl.lt b c ≡ false → fl.lt a c ≡ false
  pub below : (a b c : fl.F) → fl.lt a b ≡ false → fl.le a c ≡ true → fl.le b c ≡ true

module _ (fl : Float) (ord : IsOrdered fl) where
  open fl use {F, lt, le}

  -- Nothing in the list beats the score.
  Unbeaten : F → List (Scored F) → Type 0
  Unbeaten v l = All (λ s. lt v s.value ≡ false) l

  best_of-Unbeaten :
      (top : Scored F) (rest : List (Scored F))
      → (lt (best_of fl top rest).value top.value ≡ false)
        × Unbeaten (best_of fl top rest).value rest
  unfolding best_of Unbeaten
  best_of-Unbeaten top [] = (self (Bool-cases _), tt)
    where
      self :
          (lt top.value top.value ≡ true) ⊎ (lt top.value top.value ≡ false)
          → lt top.value top.value ≡ false
      self (inl e) = ord.asym _ _ e
      self (inr e) = e
  best_of-Unbeaten top (s ∷ rest) = elim (Bool-cases (lt top.value s.value)) [
    | inl e ↦
        let (h, hs) = best_of-Unbeaten s rest in
        subst Bounds {x = best_of fl s rest} {y = best_of fl top (s ∷ rest)} (rw (best_of, e) refl)
          (ord.trans _ _ _ h (ord.asym _ _ e), (h, hs))
    | inr e ↦
        let (h, hs) = best_of-Unbeaten top rest in
        subst Bounds {x = best_of fl top rest} {y = best_of fl top (s ∷ rest)}
          (rw (best_of, e) refl) (h, (ord.trans _ _ _ h e, hs))
  ]
    where
      Bounds : Scored F → Type 0
      Bounds t = (lt t.value top.value ≡ false) × Unbeaten t.value (s ∷ rest)

  module _ (find : String → Option Session) (contexts : Option Context.Store) where
    -- The ready nodes that a task may go to.
    abbrev pub candidates : TaskRequest → List (Ready F) → List (Ready F)
    candidates request = select (in_cluster fl (placement find request).0)

    first_best-some :
        (l : List (Scored F)) {s : Scored F}
        → first_best fl find contexts l ≡ some s
        → (le s.value (out_of_reach fl) ≡ false) × Unbeaten s.value l
    unfolding Unbeaten
    first_best-some [] h = ground arith
    first_best-some (x ∷ rest) {s} h =
        elim (Bool-cases (le (best_of fl x rest).value (out_of_reach fl))) [
          | inl e ↦ let no : none ≡ some s = rw e at h in cc
          | inr e ↦
              let yes : some (best_of fl x rest) ≡ some s = rw e at h in
              subst
                (λ (t : Scored F).
                  (le t.value (out_of_reach fl) ≡ false) × Unbeaten t.value (x ∷ rest))
                (some-injective _ _ yes) (e, best_of-Unbeaten x rest)
        ]

    first_best-none :
        (l : List (Scored F))
        → first_best fl find contexts l ≡ none
        → All (λ s. le s.value (out_of_reach fl) ≡ true) l
    unfolding Unbeaten
    first_best-none [] h = tt
    first_best-none (x ∷ rest) h =
        elim (Bool-cases (le (best_of fl x rest).value (out_of_reach fl))) [
          | inl e ↦
              let (top, others) = best_of-Unbeaten x rest in
              (
                ord.below _ _ _ top e,
                All-weaken (λ (s : Scored F). lt (best_of fl x rest).value s.value ≡ false) _
                    (λ s k. ord.below _ _ _ k e) rest others,
              )
          | inr e ↦ let no : some (best_of fl x rest) ≡ none = rw e at h in cc
        ]

    All-unmap {κ} :
        (P : Scored F → Type κ) (request : TaskRequest) (l : List (Ready F))
        → All P (map (weigh fl find contexts request) l)
        → All (λ n. P (weigh fl find contexts request n)) l
    All-unmap P request [] h = tt
    All-unmap P request (n ∷ l) (h, hs) = (h, All-unmap P request l hs)

    -- Where floats are ordered, the node that is chosen for a task is one of the ready nodes, of the task's
    -- cluster, and is weighed with its own score and payload; that score is in reach, and no candidate's
    -- score is higher.
    pub choose-best :
        (request : TaskRequest) (ready : List (Ready F)) {s : Scored F}
        → choose fl find contexts request ready ≡ some s
        → (Among ready s.node
            × ((in_cluster fl (placement find request).0 s.node ≡ true)
                × (s ≡ weigh fl find contexts request s.node)))
          × ((le s.value (out_of_reach fl) ≡ false)
              × All
                  (λ n. lt s.value (weigh fl find contexts request n).value ≡ false)
                  (candidates request ready))
    unfolding choose Unbeaten
    choose-best request ready {s} h =
        let (reach, unbeaten) = first_best-some _ h in
        (
          first_best-All fl find contexts Own _ h (
              All-map Own (weigh fl find contexts request) _ (
                own (candidates request ready)
                  (All-Among (in_cluster fl (placement find request).0) ready) (All-test _ ready))),
          (reach, All-unmap (λ (t : Scored F). lt s.value t.value ≡ false) request _ unbeaten),
        )
      where
        Own : Scored F → Type 0
        Own t =
            Among ready t.node
            × ((in_cluster fl (placement find request).0 t.node ≡ true)
                × (t ≡ weigh fl find contexts request t.node))

        own :
            (l : List (Ready F))
            → All (Among ready) l
            → All (λ n. in_cluster fl (placement find request).0 n ≡ true) l
            → All (λ n. Own (weigh fl find contexts request n)) l
        own [] a b = tt
        own (n ∷ l) (a, as_) (b, bs) = ((a, (b, refl)), own l as_ bs)

    -- Where floats are ordered, a task is passed over only if every ready node of its cluster has a
    -- score that is out of reach.
    pub choose-passed :
        (request : TaskRequest) (ready : List (Ready F))
        → choose fl find contexts request ready ≡ none
        → All
            (λ n. le (weigh fl find contexts request n).value (out_of_reach fl) ≡ true)
            (candidates request ready)
    unfolding choose
    choose-passed request ready h =
        All-unmap (λ (t : Scored F). le t.value (out_of_reach fl) ≡ true) request _
          (first_best-none _ h)
