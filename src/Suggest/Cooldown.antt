-- ===== src/Suggest/Cooldown.antt =====
-- scheduler/suggestions.py: the time for which a dismissed suggestion stays away.
use clique.Prelude.{
  ℕ, String, ◌+◌, ◌<◌, ◌≤◌, none, Bool-cases, ◌≡◌, ◌≢◌, refl, sym, ap, ◌∙◌, false, some, List, [],
  ◌∷◌, ◌++◌, arith, All, ltb, select, subst, Option-cases, inl, inr,
}
use clique.Types.{Text, Float, NodeInfo}
use clique.Dict.{get, remove}
use clique.Dict.Keyed.{Keyed, fetch, store, fetch-store, fetch-store_other}
use clique.Registry.{NodeRow, list_nodes}
use clique.Router.{Queue}
use clique.Suggest.{
  is_ready, retire, cooldown, Suggestion, Sig, sig_of, same_sig, Engine, is_cooling, suggest_for,
  activate, suggest_all, analyze, dismiss,
}
use clique.Suggest.Load.{depths, list_clusters, observe, queued_by_hint, Cluster}
use clique.Suggest.Active.{same_sig_iff, suggest_for-IsNew}

is_cooling-same :
    (now : ℕ) (sig : Sig) (e e' : Engine)
    → e.cooldowns ≡ e'.cooldowns
    → is_cooling now sig e ≡ is_cooling now sig e'
unfolding is_cooling
is_cooling-same now sig e e' eq = rw eq refl

is_cooling-found :
    (now until : ℕ) (sig : Sig) (e : Engine)
    → fetch same_sig sig e.cooldowns ≡ some until
    → is_cooling now sig e ≡ ltb now until
unfolding is_cooling
is_cooling-found now until sig e f = rw (is_cooling, f) refl

module _ (fl : Float) (footprint : fl.F → ℕ) where
  open fl use {F}

  -- One tick of the server: its time, its new identifiers, the roster and the queue that it finds.
  pub record Tick : Type 0 where
    pub now : ℕ
    pub new_id : Text → String
    pub rows : List (NodeRow F)
    pub queue : Queue

  abbrev pub at_tick : Tick → Engine → List Suggestion × Engine
  at_tick t e = analyze fl t.now t.new_id footprint t.rows t.queue e

  -- What happens to the engine: a tick, or the dismissal of a suggestion at a time.
  pub data Event : Type 0 where
    ticked : Tick → Event
    dismissed : ℕ → String → Event

  abbrev pub time_of : Event → ℕ
  time_of (ticked t) = t.now
  time_of (dismissed now sid) = now

  -- The dismissal of a suggestion that is not there changes nothing.
  abbrev pub at_dismissal : ℕ → String → Engine → Engine
  at_dismissal now sid e = elim (dismiss now sid e) [ none ↦ e | some e' ↦ e' ]

  -- The suggestions that are made in the course of the events.
  unfoldable pub made_by : List Event → Engine → List Suggestion
  unfolding analyze dismiss
  made_by [] e = []
  made_by (ticked t ∷ es) e = let rest = made_by es (at_tick t e).1 in (at_tick t e).0 ++ rest
  made_by (dismissed now sid ∷ es) e = made_by es (at_dismissal now sid e)

  module _ (now : ℕ) (new_id : Text → String) where
    abbrev Warm : Keyed Sig ℕ → List Suggestion × Engine → Type 0
    Warm cooling out =
        (out.1.cooldowns ≡ cooling)
        × All (λ s. (e : Engine) → e.cooldowns ≡ cooling → is_cooling now (sig_of s) e ≡ false)
            out.0

    suggest_all-Warm :
        (clusters : Keyed Text (Cluster F)) (nodes : List (NodeInfo F)) (since : Keyed Text ℕ)
        (e : Engine)
        → Warm e.cooldowns (suggest_all fl now new_id footprint clusters nodes since e)
    unfolding suggest_all
    suggest_all-Warm clusters nodes [] e = (refl, tt)
    suggest_all-Warm clusters nodes ((key, t) ∷ since) e =
        elim (Option-cases (suggest_for fl now new_id footprint clusters nodes key t e)) [
          | inl idle ↦ rw (suggest_all, idle) (suggest_all-Warm clusters nodes since e)
          | inr (s, made) ↦
              let new = suggest_for-IsNew fl now new_id footprint clusters nodes key t e made in
              let (same, rest) =
                suggest_all-Warm clusters nodes since (activate fl now new_id footprint s e) in
              rw (suggest_all, made)
                (same, ((λ e' eq. is_cooling-same now (sig_of s) e' e eq ∙ new.warm), rest))
        ]

    analyze-Warm :
        (rows : List (NodeRow F)) (q : Queue) (e : Engine)
        → Warm e.cooldowns (analyze fl now new_id footprint rows q e)
    unfolding analyze retire
    analyze-Warm rows q e =
        let clusters = list_clusters fl rows in
        let since = observe now (depths clusters (queued_by_hint q)) e.overloaded_since in
        let nodes = select (λ (n : NodeInfo F). is_ready n.status) (list_nodes rows) in
        suggest_all-Warm clusters nodes since (record e { overloaded_since = since })

  All-append :
      (P : Suggestion → Type 0) (xs ys : List Suggestion) → All P xs → All P ys → All P (xs ++ ys)
  All-append P [] ys a b = b
  All-append P (x ∷ xs) ys (h, a) b = (h, All-append P xs ys a b)

  All-other :
      (now until : ℕ) (sig : Sig) (cooling : Keyed Sig ℕ) (e : Engine) (ss : List Suggestion)
      → e.cooldowns ≡ cooling
      → fetch same_sig sig cooling ≡ some until
      → now < until
      → All (λ s. (e : Engine) → e.cooldowns ≡ cooling → is_cooling now (sig_of s) e ≡ false) ss
      → All (λ s. sig_of s ≢ sig) ss
  All-other now until sig cooling e [] same f early a = tt
  All-other now until sig cooling e (s ∷ ss) same f early (h, a) =
      ((λ eq. differs eq (h e same)), All-other now until sig cooling e ss same f early a)
    where
      differs : sig_of s ≡ sig → is_cooling now (sig_of s) e ≡ false → ⊥
      differs eq cold =
          let there : fetch same_sig sig e.cooldowns ≡ some until =
            ap (fetch same_sig sig) same ∙ f in
          let warm : is_cooling now sig e ≡ false = sym (ap (λ x. is_cooling now x e) eq) ∙ cold in
          absurd (ground (arith, is_cooling-found now until sig e there))

  -- The cooldown of the signature ends at the time or later.
  Rests : ℕ → Sig → Engine → Type 0
  Rests until sig e =
      (later : ℕ) × ((fetch same_sig sig e.cooldowns ≡ some later) × (until ≤ later))

  dismiss-Rests :
      (now : ℕ) (sid : String) (until : ℕ) (sig : Sig) (e : Engine)
      → until ≤ now + cooldown
      → Rests until sig e
      → Rests until sig (at_dismissal now sid e)
  unfolding dismiss Rests
  dismiss-Rests now sid until sig e over (later, (f, le)) = elim (Option-cases (get sid e.active)) [
    | inl n ↦ rw (at_dismissal, dismiss, n) (later, (f, le))
    | inr (s, found) ↦ elim (Bool-cases (same_sig (sig_of s) sig)) [
      | inl y ↦
          let own : sig_of s ≡ sig = (same_sig_iff (sig_of s) sig).0 y in
          let kept =
            fetch-store same_sig (sig_of s) (now + cooldown) e.cooldowns
              ((same_sig_iff (sig_of s) (sig_of s)).1 refl) in
          rw (at_dismissal, dismiss, found) (now + cooldown, (rw (← own) kept, over))
      | inr n ↦
          rw (at_dismissal, dismiss, found)
            (
              later,
              (
                fetch-store_other same_sig same_sig_iff (sig_of s) sig (now + cooldown) e.cooldowns
                      n
                    ∙ f,
                le,
              ),
            )
    ]
  ]

  made_by-quiet :
      (es : List Event) (start : ℕ) (sig : Sig) (e : Engine)
      → Rests (start + cooldown) sig e
      → All (λ (v : Event). (start ≤ time_of v) × (time_of v < start + cooldown)) es
      → All (λ s. sig_of s ≢ sig) (made_by es e)
  unfolding made_by Rests
  made_by-quiet [] start sig e r b = tt
  made_by-quiet (ticked t ∷ es) start sig e (later, (f, le)) ((from, early), b) =
      let (same, warm) = analyze-Warm t.now t.new_id t.rows t.queue e in
      All-append _ (at_tick t e).0 (made_by es (at_tick t e).1)
        (All-other t.now later sig e.cooldowns e (at_tick t e).0 refl f (omega (arith, early, le))
          warm)
        (made_by-quiet es start sig (at_tick t e).1 (later, (rw same f, le)) b)
  made_by-quiet (dismissed now sid ∷ es) start sig e r ((from, early), b) =
      made_by-quiet es start sig (at_dismissal now sid e)
        (dismiss-Rests now sid (start + cooldown) sig e (omega (arith, from)) r) b

  -- After the dismissal of an active suggestion neither ticks nor further dismissals, of this or of other
  -- suggestions, all of them at that time or less than the cooldown after it and with no clearing in
  -- between, make a suggestion with the same kind, target and cluster.
  pub dismiss-made_by :
      (now : ℕ) (sid : String) (e e' : Engine) (s : Suggestion) (es : List Event)
      → get sid e.active ≡ some s
      → dismiss now sid e ≡ some e'
      → All (λ (v : Event). (now ≤ time_of v) × (time_of v < now + cooldown)) es
      → All (λ f. sig_of f ≢ sig_of s) (made_by es e')
  unfolding dismiss Rests
  dismiss-made_by now sid e e' s es found h b =
      let out = record e {
        active = remove sid e.active;
        cooldowns = store same_sig (sig_of s) (now + cooldown) e.cooldowns;
      } in
      let made : some out ≡ some e' = rw (dismiss, found) at h in
      let same : out ≡ e' = ground arith in
      let kept =
        fetch-store same_sig (sig_of s) (now + cooldown) e.cooldowns
          ((same_sig_iff (sig_of s) (sig_of s)).1 refl) in
      subst (λ (x : Engine). All (λ f. sig_of f ≢ sig_of s) (made_by es x)) same
        (made_by-quiet es now (sig_of s) out (now + cooldown, (kept, omega arith)) b)
