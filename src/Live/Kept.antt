-- ===== src/Live/Kept.antt =====
-- scheduler/workspace.py: `create` and the flushes keep the invariant.
use clique.Prelude.{
  ℕ, String, ◌≡◌, refl, subst, false, Option, none, some, List, [], ◌∷◌, arith, All, Bool-cases,
  Option-cases, inl, inr,
}
use clique.Types.{Text}
use clique.Dict.{Dict, get, put, All-put, All-get, Unique, Unique-put}
use clique.Live.History.{IsLinear}
use clique.Live.Create.{seed, create, created, id_or, is_bad_id}
use clique.Live.Flush.{flush, force_flush, flush_replaced, debounced_flush}
use clique.Live.{FileState, Workspace, Service, Result, ok, err}
use clique.Live.Invariant.{IsLive, AllLive}

module _ (commit : Workspace → ℕ → List String → Option String) where
  pub flush-AllLive :
      (wid : String) (ws : Workspace) (s : Service)
      → IsLive ws
      → AllLive s
      → AllLive (flush commit wid ws s).1
  unfolding flush
  flush-AllLive wid ws s v a = elim (Bool-cases ws.dirty) [
    | inl d ↦ rw d (
        All-put (λ e. IsLive e.1) wid _ s.workspaces
          (λ j. record { linear = v.linear; unique = v.unique }) a)
    | inr c ↦ rw c a
  ]

  settled : (ws : Workspace) → IsLive ws → IsLive (record ws { flush_pending = false })
  settled ws v = record { linear = v.linear; unique = v.unique }

  pub force_flush-AllLive :
      (wid : String) (s : Service) → AllLive s → AllLive (force_flush commit wid s).1
  unfolding force_flush
  force_flush-AllLive wid s a = elim (Option-cases (get wid s.workspaces)) [
    | inl e ↦ rw (e, force_flush) a
    | inr (ws, e) ↦
        let v = settled ws (All-get IsLive wid s.workspaces e a) in
        rw (e, force_flush)
          (flush-AllLive wid _ _ v (All-put (λ x. IsLive x.1) wid _ s.workspaces (λ j. v) a))
  ]

  pub debounced_flush-AllLive :
      (wid : String) (held : Option Workspace) (s : Service)
      → AllLive s
      → AllLive (debounced_flush commit wid held s)
  unfolding debounced_flush flush_replaced
  debounced_flush-AllLive wid (some ws) s a = elim (Bool-cases ws.dirty) [
    | inl d ↦ rw d a
    | inr c ↦ rw c a
  ]
  debounced_flush-AllLive wid none s a = elim (Option-cases (get wid s.workspaces)) [
    | inl e ↦ rw (e, debounced_flush) a
    | inr (ws, e) ↦
        let v = settled ws (All-get IsLive wid s.workspaces e a) in
        rw (e, debounced_flush)
          (flush-AllLive wid _ _ v (All-put (λ x. IsLive x.1) wid _ s.workspaces (λ j. v) a))
  ]

-- What `seed` has built so far has version 1 and no history.
record IsSeeded (files : Dict FileState) : Type 0 where
  linear : All (λ e. IsLinear 1 e.1) files
  unique : Unique files

fresh-IsLinear : (text : Text) → IsLinear 1 (record { text = text; version = 1; history = [] })
fresh-IsLinear text = record { numbered = omega arith; rising = omega arith; kept = omega arith }

seed-IsSeeded :
    (initial : Dict Text) (acc : Dict FileState) {acc' : Dict FileState}
    → seed initial acc ≡ ok acc'
    → IsSeeded acc
    → IsSeeded acc'
unfolding seed
seed-IsSeeded [] acc {acc'} e h = let same : acc ≡ acc' = cc in subst IsSeeded same h
seed-IsSeeded ((path, text) ∷ rest) files {acc'} e h =
    let fst : FileState = record { text = text; version = 1; history = [] } in
    let more : seed rest (put path fst files) ≡ ok acc' = ground arith in
    seed-IsSeeded rest (put path fst files) more (record {
      linear = All-put (λ x. IsLinear 1 x.1) path fst files (λ j. fresh-IsLinear text) h.linear;
      unique = Unique-put path fst files h.unique;
    })

pub create-AllLive :
    (given : Option String) (fresh : String) (initial : Dict Text) (s : Service)
    → AllLive s
    → AllLive (create given fresh initial s).1
unfolding create
create-AllLive given fresh initial s a = elim (Bool-cases (is_bad_id (id_or given fresh))) [
  | inl bad ↦ rw bad a
  | inr good ↦ rw good (made (seed initial []) refl)
]
  where
    made :
        (r : Result (Dict FileState))
        → seed initial [] ≡ r
        → AllLive (created (id_or given fresh) r s).1
    made (err x) e = a
    made (ok files) e =
        let h : IsSeeded files = seed-IsSeeded initial _ e (record { linear = tt; unique = tt }) in
        All-put (λ x. IsLive x.1) (id_or given fresh) _ s.workspaces
          (λ j. record { linear = h.linear; unique = h.unique }) a
