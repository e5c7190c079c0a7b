-- ===== src/Router/Invariant.antt =====
-- The well-formedness of the table of tasks, and that every operation of scheduler/router.py
-- keeps it.
use clique.Prelude.{
  ℕ, String, ◌+◌, ◌≤◌, ◌<◌, ◌≡◌, refl, Bool, true, false, Option, none, some, List, [], ◌∷◌, arith,
  All, ap, length, holds, ◌&&◌, Bool-cases, Option-cases, inl, inr, select, leb, ltb, not,
}
use clique.Types.{
  is_failed, TaskState, queued, assigned, running, TaskRequest, TaskResult, is_terminal, is_queued,
  in_flight, is_assigned,
}
use clique.Router.{
  Row, Config, Queue, find_row, find_key, update, has_id, requeue, runs_on, submit, insert_row,
  assign, mark_running, settle, on_result, on_node_lost, lose_nodes, expire_leases, cancel, is_open,
  lease_over,
}
use clique.Router.Rows.{
  Distinct, All-append, All-update, All-update_found, All-find, Distinct-update, Distinct-append,
  find_row-Absent, find_key-Absent, id_of, key_of,
}
use clique.Router.Lost.{on_node_lost-pass, fail_or_requeue}
use clique.Router.Steps.{
  Step, Reach, submitted, scheduled, started, reported, node_lost, leases_expired, here, next,
}

abbrev pub is_some {ℓ} : {A : Type ℓ} → Option A → Bool
is_some none = false
is_some (some a) = true

-- What the columns of a row hold in each state.
pub record InFlight (cfg : Config) (r : Row) : Type 0 where
  pub on_node : is_some r.assigned_node ≡ true
  pub has_attempt : is_some r.attempt_id ≡ true
  pub has_lease : is_some r.lease_expires_at ≡ true
  pub tried : 0 < r.attempts
  pub budget : r.attempts ≤ cfg.max_attempts

pub record Waiting (cfg : Config) (r : Row) : Type 0 where
  pub no_node : r.assigned_node ≡ none
  pub no_attempt : r.attempt_id ≡ none
  pub no_lease : r.lease_expires_at ≡ none
  pub budget : r.attempts < cfg.max_attempts

abbrev pub Fits : Config → TaskState → Row → Type 0
Fits cfg queued r = Waiting cfg r
Fits cfg assigned r = InFlight cfg r
Fits cfg running r = InFlight cfg r
Fits cfg _ r = r.attempts ≤ cfg.max_attempts

abbrev pub IsSound : Config → Row → Type 0
IsSound cfg r = Fits cfg r.state r

pub record IsValid (cfg : Config) (q : Queue) : Type 0 where
  pub ids : Distinct id_of q.rows
  pub keys : Distinct key_of q.rows
  pub sound : All (IsSound cfg) q.rows

module _ (cfg : Config) where
  -- a budget of at least one attempt
  insert_row-IsValid :
      (request : TaskRequest) (q : Queue)
      → 0 < cfg.max_attempts
      → find_key request.idempotency_key q.rows ≡ none
      → IsValid cfg q
      → IsValid cfg (insert_row request q).1
  unfolding insert_row
  insert_row-IsValid request q pos fresh v = elim (Option-cases (find_row request.task_id q.rows)) [
    | inr (r, e) ↦ rw (e, insert_row) (record { ids = v.ids; keys = v.keys; sound = v.sound })
    | inl e ↦
        rw (e, insert_row)
          (record {
            ids = Distinct-append id_of q.rows _ (find_row-Absent request.task_id q.rows e) v.ids;
            keys =
                Distinct-append key_of q.rows _
                  (find_key-Absent request.idempotency_key q.rows fresh) v.keys;
            sound =
                All-append (IsSound cfg) q.rows _ v.sound
                  (record { no_node = refl; no_attempt = refl; no_lease = refl; budget = pos });
          })
  ]

  submit-IsValid :
      (fresh : String) (request : TaskRequest) (q : Queue)
      → 0 < cfg.max_attempts
      → IsValid cfg q
      → IsValid cfg (submit cfg fresh request q).1
  unfolding submit
  submit-IsValid fresh request q pos v =
      elim (Option-cases (find_key request.idempotency_key q.rows)) [
        | inr (r, e) ↦ rw (e, submit) v
        | inl e ↦ elim (Bool-cases (leb cfg.queue_cap (length (select is_open q.rows)))) [
          | inl full ↦ rw (e, submit, full) v
          | inr room ↦ rw (e, submit, room) (insert_row-IsValid _ q pos e v)
        ]
      ]

  -- A pass that leaves identifiers and keys alone, and turns sound rows into sound rows.
  update-IsValid :
      (p : Row → Bool) (f : Row → Row) (q : Queue)
      → ((r : Row) → (f r).task_id ≡ r.task_id)
      → ((r : Row) → (f r).request ≡ r.request)
      → ((r : Row) → p r ≡ true → IsSound cfg r → IsSound cfg (f r))
      → IsValid cfg q
      → IsValid cfg (record q { rows = update p f q.rows })
  update-IsValid p f q same_id same_request keep v = record {
    ids = Distinct-update id_of p f same_id q.rows v.ids;
    keys =
        Distinct-update key_of p f
          (λ r. ap (λ (t : TaskRequest). t.idempotency_key) (same_request r)) q.rows v.keys;
    sound = All-update (IsSound cfg) p f keep q.rows v.sound;
  }

  -- The same for an update by identifier of a row that was looked up.
  found-IsValid :
      (f : Row → Row) (tid : String) (q : Queue) {r : Row}
      → ((s : Row) → (f s).task_id ≡ s.task_id)
      → ((s : Row) → (f s).request ≡ s.request)
      → find_row tid q.rows ≡ some r
      → IsSound cfg (f r)
      → IsValid cfg q
      → IsValid cfg (record q { rows = update (has_id tid) f q.rows })
  found-IsValid f tid q same_id same_request e s v = record {
    ids = Distinct-update id_of (has_id tid) f same_id q.rows v.ids;
    keys =
        Distinct-update key_of (has_id tid) f
          (λ r. ap (λ (t : TaskRequest). t.idempotency_key) (same_request r)) q.rows v.keys;
    sound = All-update_found (IsSound cfg) f tid q.rows e s v.sound v.ids;
  }

  sound_budget : (st : TaskState) (r : Row) → Fits cfg st r → r.attempts ≤ cfg.max_attempts
  sound_budget queued r s = omega arith
  sound_budget assigned r s = omega arith
  sound_budget _ r s = omega arith

  assign-IsValid :
      (tid node attempt : String) (lease : ℕ) (q : Queue) {r : Row}
      → find_row tid q.rows ≡ some r
      → is_queued r.state ≡ true
      → IsValid cfg q
      → IsValid cfg (assign tid node attempt lease q)
  unfolding assign
  assign-IsValid tid node attempt lease q {r} e w v =
      found-IsValid _ tid q (λ s. refl) (λ s. refl) e
        (ready r.state w (All-find (IsSound cfg) tid q.rows e v.sound)) v
    where
      ready :
          (st : TaskState)
          → is_queued st ≡ true
          → Fits cfg st r
          → InFlight cfg (record r {
            state = assigned;
            assigned_node = some node;
            attempt_id = some attempt;
            lease_expires_at = some lease;
            attempts = r.attempts + 1;
          })
      ready queued h s = record {
        on_node = refl;
        has_attempt = refl;
        has_lease = refl;
        tried = omega arith;
        budget = omega arith;
      }
      ready _ h s = cc

  mark_running-IsValid :
      (tid attempt : String) (q : Queue) → IsValid cfg q → IsValid cfg (mark_running tid attempt q)
  unfolding mark_running
  mark_running-IsValid tid attempt q v =
      update-IsValid _ _ q (λ s. refl) (λ s. refl) (λ r h. run r.state r h) v
    where
      run :
          (st : TaskState) (r : Row)
          → (has_id tid r && holds r.attempt_id attempt && is_assigned st) ≡ true
          → Fits cfg st r
          → InFlight cfg (record r { state = running })
      run assigned r h s = record {
        on_node = s.on_node;
        has_attempt = s.has_attempt;
        has_lease = s.has_lease;
        tried = s.tried;
        budget = s.budget;
      }
      run _ r h s = absurd (ground arith)

  settled :
      (st : TaskState) (r s : Row)
      → is_terminal st ≡ true
      → s.attempts ≤ cfg.max_attempts
      → Fits cfg st s
  settled queued r s t h = cc
  settled assigned r s t h = cc
  settled running r s t h = cc
  settled _ r s t h = h

  on_result-IsValid :
      (result : TaskResult) (q : Queue)
      → is_terminal result.state ≡ true
      → IsValid cfg q
      → IsValid cfg (on_result cfg result q).1
  unfolding on_result settle
  on_result-IsValid result q final v = elim (Option-cases (find_row result.task_id q.rows)) [
    | inl e ↦ rw (e, on_result) v
    | inr (r, e) ↦
        rw (e, on_result)
          (elim (Bool-cases (is_terminal r.state)) [
            | inl done ↦ rw done v
            | inr live ↦ rw live (elim (Bool-cases (not (holds r.attempt_id result.attempt_id))) [
              | inl stale ↦ rw stale v
              | inr active ↦
                  rw active
                    (elim (Bool-cases (is_failed result.state && ltb r.attempts cfg.max_attempts)) [
                      | inl retry ↦ rw retry (
                          found-IsValid requeue result.task_id q (λ s. refl) (λ s. refl) e
                            (record {
                              no_node = refl;
                              no_attempt = refl;
                              no_lease = refl;
                              budget = ground arith;
                            })
                            v)
                      | inr over ↦ rw over (
                          found-IsValid _ result.task_id q (λ s. refl) (λ s. refl) e
                            (settled result.state r _ final (
                              sound_budget r.state r
                                (All-find (IsSound cfg) result.task_id q.rows e v.sound)))
                            v)
                    ])
            ])
          ])
  ]

  in_flight-Fits : (st : TaskState) (r : Row) → in_flight st ≡ true → Fits cfg st r → InFlight cfg r
  in_flight-Fits assigned r h s = s
  in_flight-Fits running r h s = s
  in_flight-Fits _ r h s = cc

  runs_on-in_flight :
      (node : Option String) (r : Row) → runs_on node r ≡ true → in_flight r.state ≡ true
  runs_on-in_flight none r h = cc
  runs_on-in_flight (some n) r h = ground arith

  fail_or_requeue-IsSound :
      (r : Row) → in_flight r.state ≡ true → IsSound cfg r → IsSound cfg (fail_or_requeue cfg r)
  fail_or_requeue-IsSound r h s = elim (Bool-cases (leb cfg.max_attempts r.attempts)) [
    | inl over ↦ rw over ((in_flight-Fits r.state r h s).budget)
    | inr under ↦
        rw under
          (record { no_node = refl; no_attempt = refl; no_lease = refl; budget = ground arith })
  ]

  pub on_node_lost-IsValid :
      (node : Option String) (q : Queue) → IsValid cfg q → IsValid cfg (on_node_lost cfg node q).1
  on_node_lost-IsValid node q v = rw (on_node_lost-pass cfg node q v.ids) (
      update-IsValid (runs_on node) (fail_or_requeue cfg) q (λ r. ground arith) (λ r. ground arith)
        (λ r h s. fail_or_requeue-IsSound r (runs_on-in_flight node r h) s) v)

  lose_nodes-IsValid :
      (rs : List Row) (q : Queue) → IsValid cfg q → IsValid cfg (lose_nodes cfg rs q).1
  unfolding lose_nodes
  lose_nodes-IsValid [] q v = v
  lose_nodes-IsValid (r ∷ rs) q v =
      lose_nodes-IsValid rs (on_node_lost cfg r.assigned_node q).1
        (on_node_lost-IsValid r.assigned_node q v)

  expire_leases-IsValid :
      (now : ℕ) (q : Queue) → IsValid cfg q → IsValid cfg (expire_leases cfg now q).1
  unfolding expire_leases
  expire_leases-IsValid now q v = lose_nodes-IsValid (select (lease_over now) q.rows) q v

  cancel-IsValid : (tid : String) (q : Queue) → IsValid cfg q → IsValid cfg (cancel tid q).1
  unfolding cancel
  cancel-IsValid tid q v =
      update-IsValid _ _ q (λ s. refl) (λ s. refl) (λ r h s. sound_budget r.state r s) v

  -- Every step keeps the table well-formed.
  pub Step-IsValid :
      {q q' : Queue} → 0 < cfg.max_attempts → Step cfg q q' → IsValid cfg q → IsValid cfg q'
  Step-IsValid pos (submitted fresh request q) v = submit-IsValid fresh request q pos v
  Step-IsValid pos (scheduled tid node attempt lease q e w) v =
      assign-IsValid tid node attempt lease q e w v
  Step-IsValid pos (started tid attempt q) v = mark_running-IsValid tid attempt q v
  Step-IsValid pos (reported result q final) v = on_result-IsValid result q final v
  Step-IsValid pos (node_lost node q) v = on_node_lost-IsValid node q v
  Step-IsValid pos (leases_expired now q) v = expire_leases-IsValid now q v
  Step-IsValid pos (Step.cancelled tid q) v = cancel-IsValid tid q v

  -- However submissions, assignments of queued tasks, starts, results with a final state, lost nodes,
  -- expired leases and cancels follow each other, the table stays well-formed: identifiers and idempotency
  -- keys are unique, a waiting task has no node, attempt or lease and has attempts left, a running one has
  -- all three, and no task is tried more often than the configuration allows.
  pub Reach-IsValid :
      {q q' : Queue} → 0 < cfg.max_attempts → IsValid cfg q → Reach cfg q q' → IsValid cfg q'
  Reach-IsValid pos v here = v
  Reach-IsValid pos v (next r s) = Step-IsValid pos s (Reach-IsValid pos v r)
