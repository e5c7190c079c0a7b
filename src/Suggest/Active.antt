-- ===== src/Suggest/Active.antt =====
-- scheduler/suggestions.py: what holds of the active suggestions however the calls interleave.
use clique.Prelude.{
  ℕ, String, ◌+◌, ◌-◌, ltb, subst, ◌≡◌, ◌≢◌, ◌↔◌, sym, Bool, true, false, Option, none, some, List,
  [], ◌∷◌, arith, All, select, ◌is◌, is_iff, Bool-cases, Option-cases, inl, inr,
}
use clique.Types.{Text, Float, NodeInfo}
use clique.Dict.{Dict, put, remove, get}
use clique.Dict.Keyed.{Keyed, fetch, store}
use clique.Texts.{same_text}
use clique.Texts.Laws.{same_text_iff}
use clique.Registry.{NodeRow, list_nodes}
use clique.Router.{Queue}
use clique.Suggest.{
  is_ready, cooldown, Suggestion, Sig, sig_of, same_node, same_sig, Engine, is_active, is_marked,
  retire, is_candidate, is_cooling, first_fit, suggestion, suggest_for, activate, suggest_all,
  analyze, clear, dismiss, observe_window,
}
use clique.Suggest.Load.{depths, list_clusters, observe, queued_by_hint, same_cluster, Cluster}

same_cluster_iff : (a b : Option Text) → (same_cluster a b ≡ true) ↔ (a ≡ b)
unfolding same_cluster
same_cluster_iff none none = ground arith
same_cluster_iff none (some b) = ground arith
same_cluster_iff (some a) none = ground arith
same_cluster_iff (some a) (some b) = ground (arith, same_text_iff a b)

same_node_iff : (a b : Option String) → (same_node a b ≡ true) ↔ (a ≡ b)
same_node_iff none none = ground arith
same_node_iff none (some b) = ground arith
same_node_iff (some a) none = ground arith
same_node_iff (some a) (some b) = ground (arith, is_iff a b)

pub same_sig_iff : (s t : Sig) → (same_sig s t ≡ true) ↔ (s ≡ t)
unfolding same_sig
same_sig_iff (k, n, c) (l, m, d) =
    ground (arith, is_iff k l, same_node_iff n m, same_cluster_iff c d)

-- The suggestion is none of those, by kind, target and cluster.
abbrev pub Fresh : Sig → Dict Suggestion → Type 0
Fresh sig d = All (λ (t : String × Suggestion). sig_of t.1 ≢ sig) d

-- No two suggestions have the same kind, target and cluster.
abbrev pub Distinct : Dict Suggestion → Type 0
Distinct [] = Unit
Distinct (s ∷ d) = Fresh (sig_of s.1) d × Distinct d

is_active-Fresh : (sig : Sig) (d : Dict Suggestion) → is_active sig d ≡ false → Fresh sig d
unfolding is_active
is_active-Fresh sig [] h = tt
is_active-Fresh sig ((k, s) ∷ d) h = elim (Bool-cases (same_sig (sig_of s) sig)) [
  | inl e ↦ let no : true ≡ false = rw e at h in absurd (ground arith)
  | inr e ↦ (
    λ eq. absurd (ground (arith, (same_sig_iff (sig_of s) sig).1 eq)),
    is_active-Fresh sig d (rw e at h),
  )
]

Fresh-put :
    (sig : Sig) (k : String) (s : Suggestion) (d : Dict Suggestion)
    → sig_of s ≢ sig
    → Fresh sig d
    → Fresh sig (put k s d)
unfolding put
Fresh-put sig k s [] h f = (h, tt)
Fresh-put sig k s ((j, t) ∷ d) h (g, f) = elim (Bool-cases (j is k)) [
  | inl e ↦ rw e (h, f)
  | inr e ↦ rw e (g, Fresh-put sig k s d h f)
]

Distinct-put :
    (k : String) (s : Suggestion) (d : Dict Suggestion)
    → Fresh (sig_of s) d
    → Distinct d
    → Distinct (put k s d)
unfolding put
Distinct-put k s [] f u = (tt, tt)
Distinct-put k s ((j, t) ∷ d) (g, f) (h, u) = elim (Bool-cases (j is k)) [
  | inl e ↦ rw e (f, u)
  | inr e ↦ rw e (Fresh-put (sig_of t) k s d (λ eq. g (sym eq)) h, Distinct-put k s d f u)
]

module _ (p : String × Suggestion → Bool) where
  Fresh-select : (sig : Sig) (d : Dict Suggestion) → Fresh sig d → Fresh sig (select p d)
  Fresh-select sig [] f = tt
  Fresh-select sig (s ∷ d) (g, f) = elim (Bool-cases (p s)) [
    | inl e ↦ rw e (g, Fresh-select sig d f)
    | inr e ↦ rw e (Fresh-select sig d f)
  ]

  Distinct-select : (d : Dict Suggestion) → Distinct d → Distinct (select p d)
  Distinct-select [] u = tt
  Distinct-select (s ∷ d) (f, u) = elim (Bool-cases (p s)) [
    | inl e ↦ rw e (Fresh-select (sig_of s.1) d f, Distinct-select d u)
    | inr e ↦ rw e (Distinct-select d u)
  ]

  All-select : (d : Dict Suggestion) → All (λ s. p s ≡ true) (select p d)
  All-select [] = tt
  All-select (s ∷ d) = elim (Bool-cases (p s)) [
    | inl e ↦ rw e (e, All-select d)
    | inr e ↦ rw e (All-select d)
  ]

module _ (k : String) where
  All-remove :
      (P : String × Suggestion → Type 0) (d : Dict Suggestion) → All P d → All P (remove k d)
  unfolding remove
  All-remove P [] f = tt
  All-remove P ((j, t) ∷ d) (g, f) = elim (Bool-cases (j is k)) [
    | inl e ↦ rw e (All-remove P d f)
    | inr e ↦ rw e (g, All-remove P d f)
  ]

  Distinct-remove : (d : Dict Suggestion) → Distinct d → Distinct (remove k d)
  unfolding remove
  Distinct-remove [] u = tt
  Distinct-remove ((j, t) ∷ d) (f, u) = elim (Bool-cases (j is k)) [
    | inl e ↦ rw e (Distinct-remove d u)
    | inr e ↦
        rw e
          (All-remove (λ (s : String × Suggestion). sig_of s.1 ≢ sig_of t) d f, Distinct-remove d u)
  ]

-- No two active suggestions agree on kind, target and cluster, and the cluster of each, where it has
-- one, has a mark in `_overloaded_since`.
pub record IsSound (e : Engine) : Type 0 where
  pub distinct : Distinct e.active
  pub kept : All (λ (s : String × Suggestion). is_marked e.overloaded_since s.1 ≡ true) e.active

retire-IsSound : (e : Engine) → Distinct e.active → IsSound (retire e)
unfolding retire
retire-IsSound e u = record {
  distinct = Distinct-select (λ s. is_marked e.overloaded_since s.1) e.active u;
  kept = All-select (λ s. is_marked e.overloaded_since s.1) e.active;
}

module _ (fl : Float) where
  open fl use {F}

  first_fit-found :
      (p : NodeInfo F → Bool) (ns : List (NodeInfo F)) {n : NodeInfo F}
      → first_fit fl p ns ≡ some n
      → p n ≡ true
  unfolding first_fit
  first_fit-found p [] h = ground arith
  first_fit-found p (m ∷ ns) {n} h = elim (Bool-cases (p m)) [
    | inl e ↦ let same : m ≡ n = ground arith in subst (λ (x : NodeInfo F). p x ≡ true) same e
    | inr e ↦ first_fit-found p ns (rw e at h)
  ]

  module _ (now : ℕ) (new_id : Text → String) (footprint : F → ℕ) where
    -- A suggestion is for the cluster it is made for, is not cooling down, and is not active yet.
    pub record IsNew (e : Engine) (s : Suggestion) : Type 0 where
      pub warm : is_cooling now (sig_of s) e ≡ false
      pub absent : is_active (sig_of s) e.active ≡ false

    is_candidate-IsNew :
        (key : Text) (needed : ℕ) (e : Engine) (n : NodeInfo F)
        → is_candidate fl now key needed e n ≡ true
        → IsNew e (suggestion fl now (new_id key) key n)
    unfolding is_candidate
    is_candidate-IsNew key needed e n h = record { warm = ground arith; absent = ground arith }

    pub suggest_for-IsNew :
        (clusters : Keyed Text (Cluster F)) (nodes : List (NodeInfo F)) (key : Text) (since : ℕ)
        (e : Engine) {s : Suggestion}
        → suggest_for fl now new_id footprint clusters nodes key since e ≡ some s
        → IsNew e s
    unfolding suggest_for
    suggest_for-IsNew clusters nodes key since e {s} h =
        elim (Bool-cases (ltb (now - since) observe_window)) [
          | inl early ↦ let no : none ≡ some s = rw early at h in absurd (ground arith)
          | inr late ↦ elim (Option-cases (fetch same_text key clusters)) [
            | inl missing ↦
                let no : none ≡ some s = rw (late, missing) at h in absurd (ground arith)
            | inr (c, found) ↦
                elim (Option-cases (
                  first_fit fl (is_candidate fl now key (footprint c.model.parameter_count_b) e)
                    nodes)) [
                      | inl idle ↦
                          let no : none ≡ some s = rw (late, found, idle) at h in
                          absurd (ground arith)
                      | inr (n, chosen) ↦
                          let made : some (suggestion fl now (new_id key) key n) ≡ some s =
                            rw (late, found, chosen) at h in
                          let same : suggestion fl now (new_id key) key n ≡ s = ground arith in
                          subst (IsNew e) same
                            (is_candidate-IsNew key _ e n (first_fit-found _ nodes chosen))
                    ]
          ]
        ]

    suggest_all-Distinct :
        (clusters : Keyed Text (Cluster F)) (nodes : List (NodeInfo F)) (since : Keyed Text ℕ)
        (e : Engine)
        → Distinct e.active
        → Distinct (suggest_all fl now new_id footprint clusters nodes since e).1.active
    unfolding suggest_all
    suggest_all-Distinct clusters nodes [] e u = u
    suggest_all-Distinct clusters nodes ((key, t) ∷ since) e u =
        elim (Option-cases (suggest_for fl now new_id footprint clusters nodes key t e)) [
          | inl idle ↦ rw (suggest_all, idle) (suggest_all-Distinct clusters nodes since e u)
          | inr (s, made) ↦
              let new = suggest_for-IsNew clusters nodes key t e made in
              let fresh = is_active-Fresh (sig_of s) e.active new.absent in
              rw (suggest_all, made)
                (suggest_all-Distinct clusters nodes since (activate fl now new_id footprint s e)
                  (Distinct-put s.suggestion_id s e.active fresh u))
        ]

    analyze-IsSound :
        (rows : List (NodeRow F)) (q : Queue) (e : Engine)
        → Distinct e.active
        → IsSound (analyze fl now new_id footprint rows q e).1
    unfolding analyze
    analyze-IsSound rows q e u =
        let clusters = list_clusters fl rows in
        let since = observe now (depths clusters (queued_by_hint q)) e.overloaded_since in
        let nodes = select (λ (n : NodeInfo F). is_ready n.status) (list_nodes rows) in
        retire-IsSound
          (suggest_all fl now new_id footprint clusters nodes since
            (record e { overloaded_since = since })).1
          (suggest_all-Distinct clusters nodes since (record e { overloaded_since = since }) u)

  -- One call of the engine.
  pub data Step (e : Engine) : Engine → Type 0 where
    analyzed :
        (now : ℕ) (new_id : Text → String) (footprint : F → ℕ) (rows : List (NodeRow F)) (q : Queue)
        → Step e (analyze fl now new_id footprint rows q e).1
    dismissed : (now : ℕ) (sid : String) (e' : Engine) → dismiss now sid e ≡ some e' → Step e e'
    cleared : Step e (clear e).1

  -- The engines that calls lead to.
  pub data Reach : Engine → Type 0 where
    started : Reach (record { active = []; cooldowns = []; overloaded_since = [] })
    after : (e : Engine) {e' : Engine} → Reach e → Step e e' → Reach e'

  dismiss-IsSound :
      (now : ℕ) (sid : String) (e : Engine) {e' : Engine}
      → IsSound e
      → dismiss now sid e ≡ some e'
      → IsSound e'
  unfolding dismiss
  dismiss-IsSound now sid e {e'} v h = elim (Option-cases (get sid e.active)) [
    | inl none_there ↦
        let no : none ≡ some e' = rw (dismiss, none_there) at h in absurd (ground arith)
    | inr (s, found) ↦
        let out = record e {
          active = remove sid e.active;
          cooldowns = store same_sig (sig_of s) (now + cooldown) e.cooldowns;
        } in
        let made : some out ≡ some e' = rw (dismiss, found) at h in
        let same : out ≡ e' = ground arith in
        subst IsSound same (record {
          distinct = Distinct-remove sid e.active v.distinct;
          kept = All-remove sid _ e.active v.kept;
        })
  ]

  Step-IsSound : (e : Engine) {e' : Engine} → IsSound e → Step e e' → IsSound e'
  unfolding clear
  Step-IsSound e v (analyzed now new_id footprint rows q) =
      analyze-IsSound now new_id footprint rows q e v.distinct
  Step-IsSound e v (dismissed now sid e' h) = dismiss-IsSound now sid e v h
  Step-IsSound e v cleared = record { distinct = tt; kept = tt }

  -- However analyses, dismissals and clearings follow each other, no two active suggestions agree on
  -- kind, target and cluster, and the cluster of every active one, where it has one, has a mark in
  -- `_overloaded_since`.
  pub Reach-IsSound : (e : Engine) → Reach e → IsSound e
  Reach-IsSound _ started = record { distinct = tt; kept = tt }
  Reach-IsSound _ (after e r s) = Step-IsSound e (Reach-IsSound e r) s
