-- ===== src/Router/Expire.antt =====
-- `expire_leases` of scheduler/router.py: what one expired lease does to the other tasks of its node.
use clique.Prelude.{
  ℕ, String, ◌≡◌, true, false, Option, none, some, List, [], ◌∷◌, arith, All, any, Bool-cases, inl,
  inr, is_iff, holds, ◌&&◌, select,
}
use clique.Router.{
  Row, Config, Queue, update, runs_on, on_node_lost, lose_nodes, expire_leases, lease_over,
}
use clique.Router.Lost.{on_node_lost-pass, fail_or_requeue}
use clique.Router.Invariant.{IsValid, on_node_lost-IsValid}

-- No task runs on the node.
abbrev pub Idle : String → List Row → Type 0
Idle node = All (λ r. runs_on (some node) r ≡ false)

module _ (cfg : Config) (node : String) where
  stopped : (r : Row) → runs_on (some node) (fail_or_requeue cfg r) ≡ false
  stopped r = ground arith

  pass-Idle :
      (n : Option String) (rows : List Row)
      → Idle node rows
      → Idle node (update (runs_on n) (fail_or_requeue cfg) rows)
  unfolding update
  pass-Idle n [] h = tt
  pass-Idle n (r ∷ rs) (h, hs) = (
    elim (Bool-cases (runs_on n r)) [ inl e ↦ rw e (stopped r) | inr e ↦ rw e h ],
    pass-Idle n rs hs,
  )

  clears : (rows : List Row) → Idle node (update (runs_on (some node)) (fail_or_requeue cfg) rows)
  unfolding update
  clears [] = tt
  clears (r ∷ rs) = (
    elim (Bool-cases (runs_on (some node) r)) [ inl e ↦ rw e (stopped r) | inr e ↦ rw (e, e) ],
    clears rs,
  )

  lose_nodes-Idle :
      (rs : List Row) (q : Queue)
      → IsValid cfg q
      → Idle node q.rows
      → Idle node (lose_nodes cfg rs q).1.rows
  unfolding lose_nodes
  lose_nodes-Idle [] q v h = h
  lose_nodes-Idle (r ∷ rs) q v h =
      lose_nodes-Idle rs (on_node_lost cfg r.assigned_node q).1
        (on_node_lost-IsValid cfg r.assigned_node q v)
        (rw (on_node_lost-pass cfg r.assigned_node q v.ids) (pass-Idle r.assigned_node q.rows h))

  lose_nodes-clears :
      (rs : List Row) (q : Queue)
      → IsValid cfg q
      → any (λ r. holds r.assigned_node node) rs ≡ true
      → Idle node (lose_nodes cfg rs q).1.rows
  unfolding lose_nodes
  lose_nodes-clears [] q v h = cc
  lose_nodes-clears (r ∷ rs) q v h = elim (Bool-cases (holds r.assigned_node node)) [
    | inl e ↦
        lose_nodes-Idle rs (on_node_lost cfg r.assigned_node q).1
          (on_node_lost-IsValid cfg r.assigned_node q v)
          (rw (on_node_lost-pass cfg r.assigned_node q v.ids) (here r.assigned_node e))
    | inr e ↦
        lose_nodes-clears rs (on_node_lost cfg r.assigned_node q).1
          (on_node_lost-IsValid cfg r.assigned_node q v) (rw e at h)
  ]
    where
      here :
          (n : Option String)
          → holds n node ≡ true
          → Idle node (update (runs_on n) (fail_or_requeue cfg) q.rows)
      here none e = cc
      here (some m) e = let same : m ≡ node = (is_iff m node).0 e in rw same (clears q.rows)

  any-select :
      (now : ℕ) (rows : List Row)
      → any (λ r. lease_over now r && holds r.assigned_node node) rows ≡ true
      → any (λ r. holds r.assigned_node node) (select (lease_over now) rows) ≡ true
  any-select now [] h = cc
  any-select now (r ∷ rs) h = ground (arith, any-select now rs)

  -- In a well-formed queue one expired lease ends every task of the node: if some task of the node is
  -- past its lease, then after `expire_leases` no task runs on the node, not even one whose own lease has
  -- time left.
  pub expire_leases-Idle :
      (now : ℕ) (q : Queue)
      → IsValid cfg q
      → any (λ r. lease_over now r && holds r.assigned_node node) q.rows ≡ true
      → Idle node (expire_leases cfg now q).1.rows
  unfolding expire_leases
  expire_leases-Idle now q v h =
      lose_nodes-clears (select (lease_over now) q.rows) q v (any-select now q.rows h)
