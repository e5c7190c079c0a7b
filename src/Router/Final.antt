-- ===== src/Router/Final.antt =====
-- scheduler/router.py: a task that has ended keeps its row ("first result wins"), and a repeated
-- submission finds its task.
use clique.Prelude.{
  sym, ◌∙◌, String, ◌≡◌, refl, Bool, true, false, Option, none, some, List, [], ◌∷◌, arith,
  Bool-cases, Option-cases, inl, inr, ◌is◌, is_iff, holds, not, ◌&&◌, ltb, leb, length, select, ◌<◌,
}
use clique.Types.{TaskState, TaskRequest, TaskResult, is_terminal, is_queued, in_flight, is_failed}
use clique.Router.{
  Row, Config, Queue, find_row, find_key, update, has_id, requeue, runs_on, submit, insert_row,
  assign, mark_running, settle, on_result, on_node_lost, lose_nodes, expire_leases, lease_over,
  cancel, is_open,
}
use clique.Router.Rows.{find_row-update, find_row-append, find_row-has_id}
use clique.Router.Lost.{on_node_lost-pass, fail_or_requeue}
use clique.Router.Steps.{
  Step, Reach, submitted, scheduled, started, reported, node_lost, leases_expired, here, next,
}
use clique.Router.Invariant.{IsValid, on_node_lost-IsValid, Reach-IsValid}

-- The task has this row.
abbrev pub Has : String → Row → Queue → Type 0
Has tid r q = find_row tid q.rows ≡ some r

-- A pass that spares the row leaves it in its place.
spared :
    (p : Row → Bool) (f : Row → Row) (tid : String) (q : Queue) {r : Row}
    → ((s : Row) → (f s).task_id ≡ s.task_id)
    → p r ≡ false
    → Has tid r q
    → Has tid r (record q { rows = update p f q.rows })
spared p f tid q {r} same miss e = rw (find_row-update p f same tid q.rows, e, miss)

-- A pass over another task's row leaves this one in its place.
elsewhere :
    (f : Row → Row) (tid other : String) (q : Queue) {r : Row}
    → ((s : Row) → (f s).task_id ≡ s.task_id)
    → (tid is other) ≡ false
    → Has tid r q
    → Has tid r (record q { rows = update (has_id other) f q.rows })
elsewhere f tid other q {r} same miss e =
    let here_id : r.task_id ≡ tid = find_row-has_id tid q.rows e in
    spared (has_id other) f tid q same (rw here_id miss) e

module _ (cfg : Config) (tid : String) where
  insert_row-Has :
      (request : TaskRequest) (q : Queue) {r : Row}
      → Has tid r q
      → Has tid r (insert_row request q).1
  unfolding insert_row
  insert_row-Has request q e = elim (Option-cases (find_row request.task_id q.rows)) [
    | inr (s, old) ↦ rw (old, insert_row) e
    | inl new ↦ rw (new, insert_row) (find_row-append tid q.rows _ e)
  ]

  submit-Has :
      (fresh : String) (request : TaskRequest) (q : Queue) {r : Row}
      → Has tid r q
      → Has tid r (submit cfg fresh request q).1
  unfolding submit
  submit-Has fresh request q h = elim (Option-cases (find_key request.idempotency_key q.rows)) [
    | inr (s, old) ↦ rw (old, submit) h
    | inl new ↦ elim (Bool-cases (leb cfg.queue_cap (length (select is_open q.rows)))) [
      | inl full ↦ rw (new, submit, full) h
      | inr room ↦ rw (new, submit, room) (insert_row-Has _ q h)
    ]
  ]

  settle-elsewhere :
      (result : TaskResult) (s : Row) (q : Queue) {r : Row}
      → (tid is result.task_id) ≡ false
      → Has tid r q
      → Has tid r (settle cfg result s q).1
  unfolding settle
  settle-elsewhere result s q other e = elim (Bool-cases (is_terminal s.state)) [
    | inl done ↦ rw done e
    | inr live ↦ rw live (elim (Bool-cases (not (holds s.attempt_id result.attempt_id))) [
      | inl stale ↦ rw stale e
      | inr active ↦
          rw active (elim (Bool-cases (is_failed result.state && ltb s.attempts cfg.max_attempts)) [
            | inl retry ↦ rw retry (elsewhere requeue tid result.task_id q (λ x. refl) other e)
            | inr over ↦ rw over (elsewhere _ tid result.task_id q (λ x. refl) other e)
          ])
    ])
  ]

  on_result-Has :
      (result : TaskResult) (q : Queue) {r : Row}
      → is_terminal r.state ≡ true
      → Has tid r q
      → Has tid r (on_result cfg result q).1
  unfolding on_result
  on_result-Has result q {r} t e = elim (Bool-cases (tid is result.task_id)) [
    | inl same ↦
        let eq : tid ≡ result.task_id = (is_iff tid result.task_id).0 same in
        let found : find_row result.task_id q.rows ≡ some r = rw (← eq) e in
        rw (found, on_result) (unfold settle in rw t e)
    | inr other ↦ elim (Option-cases (find_row result.task_id q.rows)) [
      | inl missing ↦ rw (missing, on_result) e
      | inr (s, found) ↦ rw (found, on_result) (settle-elsewhere result s q other e)
    ]
  ]

  -- A state that has ended is in none of the others.
  terminal-not_in_flight : (st : TaskState) → is_terminal st ≡ true → in_flight st ≡ false
  terminal-not_in_flight st t = ground arith

  on_node_lost-Has :
      (node : Option String) (q : Queue) {r : Row}
      → IsValid cfg q
      → is_terminal r.state ≡ true
      → Has tid r q
      → Has tid r (on_node_lost cfg node q).1
  on_node_lost-Has node q {r} v t e =
      rw (on_node_lost-pass cfg node q v.ids)
        (spared (runs_on node) (fail_or_requeue cfg) tid q (λ s. ground arith) (idle node) e)
    where
      idle : (n : Option String) → runs_on n r ≡ false
      idle none = refl
      idle (some n) = ground (arith, terminal-not_in_flight r.state t)

  lose_nodes-Has :
      (rs : List Row) (q : Queue) {r : Row}
      → IsValid cfg q
      → is_terminal r.state ≡ true
      → Has tid r q
      → Has tid r (lose_nodes cfg rs q).1
  unfolding lose_nodes
  lose_nodes-Has [] q v t e = e
  lose_nodes-Has (s ∷ rs) q v t e =
      lose_nodes-Has rs (on_node_lost cfg s.assigned_node q).1
        (on_node_lost-IsValid cfg s.assigned_node q v) t (on_node_lost-Has s.assigned_node q v t e)

  Step-Has :
      {q q' : Queue} {r : Row}
      → Step cfg q q'
      → IsValid cfg q
      → is_terminal r.state ≡ true
      → Has tid r q
      → Has tid r q'
  unfolding assign mark_running expire_leases cancel
  Step-Has (submitted fresh request q) v t e = submit-Has fresh request q e
  Step-Has {r} (scheduled other node attempt lease q {r = s} found w) v t e =
      elim (Bool-cases (tid is other)) [
        | inl same ↦
            let eq : tid ≡ other = (is_iff tid other).0 same in
            let twin : some s ≡ some r = sym found ∙ rw (← eq) e in
            absurd (waiting_ended s.state r.state (ground arith) w t)
        | inr apart ↦ elsewhere _ tid other q (λ x. refl) apart e
      ]
    where
      waiting_ended : (a b : TaskState) → a ≡ b → is_queued a ≡ true → is_terminal b ≡ true → ⊥
      waiting_ended a b same w t = ground arith
  Step-Has {r} (started other attempt q) v t e = spared _ _ tid q (λ x. refl) (ground arith) e
  Step-Has (reported result q final) v t e = on_result-Has result q t e
  Step-Has (node_lost node q) v t e = on_node_lost-Has node q v t e
  Step-Has (leases_expired now q) v t e = lose_nodes-Has (select (lease_over now) q.rows) q v t e
  Step-Has {r} (Step.cancelled other q) v t e = spared _ _ tid q (λ x. refl) (ground arith) e

  -- The first result wins: from a well-formed queue, once a task has ended (succeeded, failed, cancelled
  -- or expired), no sequence of submissions, assignments of queued tasks, starts, results with a final
  -- state, lost nodes, expired leases and cancels changes anything in its row.
  pub Reach-keeps_ended :
      {q q' : Queue} {r : Row}
      → 0 < cfg.max_attempts
      → IsValid cfg q
      → find_row tid q.rows ≡ some r
      → is_terminal r.state ≡ true
      → Reach cfg q q'
      → find_row tid q'.rows ≡ some r
  Reach-keeps_ended pos v e t here = e
  Reach-keeps_ended pos v e t (next r s) =
      Step-Has s (Reach-IsValid cfg pos v r) t (Reach-keeps_ended pos v e t r)
