-- ===== src/Router/Owned.antt =====
-- scheduler/router.py: every row of the table holds the request under its own identifier.
use clique.Prelude.{
  String, ◌<◌, ◌≡◌, refl, Bool, not, ◌&&◌, Option, List, [], ◌∷◌, All, Bool-cases, Option-cases,
  inl, inr, ltb, leb, length, select, holds,
}
use clique.Types.{TaskRequest, TaskResult, is_terminal, is_failed}
use clique.Router.{
  Row, Config, Queue, find_row, find_key, update, has_id, requeue, runs_on, submit, insert_row,
  assign, mark_running, settle, on_result, lose, on_node_lost, lose_nodes, expire_leases,
  lease_over, cancel, is_open,
}
use clique.Router.Rows.{All-update, All-append}
use clique.Router.Steps.{
  Step, Reach, submitted, scheduled, started, reported, node_lost, leases_expired, here, next,
}
use clique.Router.Invariant.{IsValid, Step-IsValid}

abbrev pub own_id : Row → String
own_id r = r.request.task_id

-- Every row holds the request under its own identifier.
abbrev pub Owned : List Row → Type 0
Owned rows = All (λ r. own_id r ≡ r.task_id) rows

module _ (cfg : Config) where
  update-Owned :
      (p : Row → Bool) (f : Row → Row) (rows : List Row)
      → ((r : Row) → own_id r ≡ r.task_id → own_id (f r) ≡ (f r).task_id)
      → Owned rows
      → Owned (update p f rows)
  update-Owned p f rows keep o =
      All-update (λ r. own_id r ≡ r.task_id) p f (λ r _ h. keep r h) rows o

  insert_row-Owned :
      (request : TaskRequest) (q : Queue) → Owned q.rows → Owned (insert_row request q).1.rows
  unfolding insert_row
  insert_row-Owned request q o = elim (Option-cases (find_row request.task_id q.rows)) [
    | inr (r, e) ↦ rw (e, insert_row) o
    | inl e ↦ rw (e, insert_row) (All-append (λ r. own_id r ≡ r.task_id) q.rows _ o refl)
  ]

  submit-Owned :
      (fresh : String) (request : TaskRequest) (q : Queue)
      → Owned q.rows
      → Owned (submit cfg fresh request q).1.rows
  unfolding submit
  submit-Owned fresh request q o = elim (Option-cases (find_key request.idempotency_key q.rows)) [
    | inr (r, e) ↦ rw (submit, e) o
    | inl e ↦ elim (Bool-cases (leb cfg.queue_cap (length (select is_open q.rows)))) [
      | inl full ↦ rw (submit, e, full) o
      | inr room ↦ rw (submit, e, room) (insert_row-Owned _ q o)
    ]
  ]

  settle-Owned :
      (result : TaskResult) (r : Row) (q : Queue)
      → Owned q.rows
      → Owned (settle cfg result r q).1.rows
  unfolding settle
  settle-Owned result r q o = elim (Bool-cases (is_terminal r.state)) [
    | inl done ↦ rw done o
    | inr live ↦ rw live (elim (Bool-cases (not (holds r.attempt_id result.attempt_id))) [
      | inl stale ↦ rw stale o
      | inr active ↦
          rw active (elim (Bool-cases (is_failed result.state && ltb r.attempts cfg.max_attempts)) [
            | inl retry ↦
                rw retry (update-Owned (has_id result.task_id) requeue q.rows (λ r h. h) o)
            | inr over ↦ rw over (update-Owned (has_id result.task_id) _ q.rows (λ r h. h) o)
          ])
    ])
  ]

  on_result-Owned :
      (result : TaskResult) (q : Queue) → Owned q.rows → Owned (on_result cfg result q).1.rows
  unfolding on_result
  on_result-Owned result q o = elim (Option-cases (find_row result.task_id q.rows)) [
    | inl e ↦ rw (e, on_result) o
    | inr (r, e) ↦ rw (e, on_result) (settle-Owned result r q o)
  ]

  lose-Owned : (rs rows : List Row) → Owned rows → Owned (lose cfg rs rows).1
  unfolding lose
  lose-Owned [] rows o = o
  lose-Owned (r ∷ rs) rows o = elim (Bool-cases (leb cfg.max_attempts r.attempts)) [
    | inl over ↦ rw over (lose-Owned rs _ (update-Owned (has_id r.task_id) _ rows (λ s h. h) o))
    | inr under ↦
        rw under (lose-Owned rs _ (update-Owned (has_id r.task_id) requeue rows (λ s h. h) o))
  ]

  on_node_lost-Owned :
      (node : Option String) (q : Queue) → Owned q.rows → Owned (on_node_lost cfg node q).1.rows
  unfolding on_node_lost
  on_node_lost-Owned node q o = lose-Owned (select (runs_on node) q.rows) q.rows o

  lose_nodes-Owned : (rs : List Row) (q : Queue) → Owned q.rows → Owned (lose_nodes cfg rs q).1.rows
  unfolding lose_nodes
  lose_nodes-Owned [] q o = o
  lose_nodes-Owned (r ∷ rs) q o =
      lose_nodes-Owned rs (on_node_lost cfg r.assigned_node q).1
        (on_node_lost-Owned r.assigned_node q o)

  pub Step-Owned : {q q' : Queue} → Step cfg q q' → Owned q.rows → Owned q'.rows
  unfolding assign mark_running expire_leases cancel
  Step-Owned (submitted fresh request q) o = submit-Owned fresh request q o
  Step-Owned (scheduled tid node attempt lease q e w) o =
      update-Owned (has_id tid) _ q.rows (λ s h. h) o
  Step-Owned (started tid attempt q) o = update-Owned _ _ q.rows (λ s h. h) o
  Step-Owned (reported result q final) o = on_result-Owned result q o
  Step-Owned (node_lost node q) o = on_node_lost-Owned node q o
  Step-Owned (leases_expired now q) o = lose_nodes-Owned (select (lease_over now) q.rows) q o
  Step-Owned (Step.cancelled tid q) o = update-Owned _ _ q.rows (λ s h. h) o

  -- The table is well-formed and every row holds its own request.
  pub record IsSound (q : Queue) : Type 0 where
    pub valid : IsValid cfg q
    pub owned : Owned q.rows

  pub Reach-IsSound :
      {q q' : Queue} → 0 < cfg.max_attempts → Reach cfg q q' → IsSound q → IsSound q'
  Reach-IsSound pos here v = v
  Reach-IsSound pos (next r s) v =
      let before = Reach-IsSound pos r v in
      record { valid = Step-IsValid cfg pos s before.valid; owned = Step-Owned s before.owned }
