-- ===== src/Schedule.antt =====
-- scheduler/router.py: `schedule_pending`, the placement of the queued tasks on the ready nodes, and
-- scheduler/registry.py: `ready_nodes`. The sessions and the nodes come in as they are read; `fresh`
-- gives the identifier of each new attempt, in order.
pub mod Score
pub mod Slots
pub mod Best
pub mod Placed
mod Tests
use clique.Prelude.{
  ℕ, String, ◌+◌, Bool, true, false, not, ◌&&◌, ◌||◌, Option, none, some, List, [], ◌∷◌, length,
  map, select, leb, ◌==◌, if◌then◌else◌, ◌is◌, holds,
}
use clique.Prelude.Sort.{sort_by}
use clique.Types.{
  Text, TaskType, code_edit, TaskRequest, ChatMessage, Session, Float, ModelSpec, NodeInfo,
  NodeStatus, in_flight, is_queued,
}
use clique.Texts.{is_prefix}
use clique.Context
use clique.Router.{Row, Config, Queue, assign}
use clique.Schedule.Score.{
  Reason, score, out_of_reach, cluster_key, placement, worker_payload, same_type,
}

-- `getattr(model, "parallel_slots", 1) or 1`
abbrev pub slots_of : {F : Type 0} → ModelSpec F → ℕ
slots_of m = if m.parallel_slots == 0 then 1 else m.parallel_slots

abbrev is_ready : NodeStatus → Bool
is_ready NodeStatus.ready = true
is_ready _ = false

abbrev is_busy : NodeStatus → Bool
is_busy NodeStatus.busy = true
is_busy _ = false

-- A ready node, with its model.
abbrev pub Ready : Type 0 → Type 0
Ready F = NodeInfo F × ModelSpec F

abbrev takes_work : {F : Type 0} → NodeInfo F → ModelSpec F → Bool
takes_work n m =
    if leb (slots_of m) 1
    then is_ready n.status && elim n.current_task_id [ none ↦ true | some _ ↦ false ]
    else is_ready n.status || is_busy n.status

-- `ready_nodes`; a node without a model is passed over.
unfoldable pub ready_nodes : {F : Type 0} → List (NodeInfo F) → List (Ready F)
ready_nodes [] = []
ready_nodes (n ∷ ns) =
    let rest = ready_nodes ns in
    elim n.model [ none ↦ rest | some m ↦ if takes_work n m then (n, m) ∷ rest else rest ]

-- The tasks that run on a node.
abbrev pub works_on : String → Row → Bool
works_on nid r = in_flight r.state && holds r.assigned_node nid

unfoldable pub count_on : String → List Row → ℕ
count_on nid [] = 0
count_on nid (r ∷ rs) = let rest = count_on nid rs in if works_on nid r then rest + 1 else rest

abbrev pub bump : String → (String → ℕ) → String → ℕ
bump nid active x = if x is nid then active x + 1 else active x

-- A candidate with its score, and the payload that it would run.
pub record Scored (F : Type 0) : Type 0 where
  pub node : Ready F
  pub value : F
  pub reason : List (Reason F)
  pub prompt : Text
  pub messages : Option (List ChatMessage)

-- An assignment and the payload of the request that goes out with it.
pub record Sent (F : Type 0) : Type 0 where
  pub task_id : String
  pub attempt_id : String
  pub node_id : String
  pub lease_expires_at : ℕ
  pub reason : List (Reason F)
  pub prompt : Text
  pub messages : Option (List ChatMessage)
  pub session_id : Option String

module _ (fl : Float) where
  open fl use {F, lt, le}

  -- The head of the list sorted by falling score: the first of the best.
  unfoldable pub best_of : Scored F → List (Scored F) → Scored F
  best_of top [] = top
  best_of top (s ∷ rest) = best_of (if lt top.value s.value then s else top) rest

  abbrev pub in_cluster : Option Text → Ready F → Bool
  in_cluster none n = true
  in_cluster (some c) n = is_prefix c (cluster_key fl n.1)

  module _ (find : String → Option Session) (contexts : Option Context.Store) where
    abbrev pub weigh : TaskRequest → Ready F → Scored F
    weigh request n =
        let payload = worker_payload fl contexts request n.1 in
        let scored = score fl request n.0 n.1 (some payload.0) (placement find request).1 in
        record {
          node = n;
          value = scored.0;
          reason = scored.1;
          prompt = payload.0;
          messages = payload.1;
        }

    abbrev reachable : Scored F → Option (Scored F)
    reachable s = if le s.value (out_of_reach fl) then none else some s

    abbrev first_best : List (Scored F) → Option (Scored F)
    first_best [] = none
    first_best (s ∷ rest) = reachable (best_of s rest)

    -- The node for one task, where there is one.
    unfoldable pub choose : TaskRequest → List (Ready F) → Option (Scored F)
    unfolding best_of
    choose request ready =
        first_best (map (weigh request) (select (in_cluster (placement find request).0) ready))

    module _ (cfg : Config) (fresh : ℕ → String) (now : ℕ) where
      abbrev pub lease_of : TaskRequest → ℕ
      lease_of request =
          now
          + (if same_type request.task_type code_edit
              then cfg.code_lease_seconds
              else cfg.lease_seconds)

      abbrev pub sent : ℕ → TaskRequest → Scored F → Sent F
      sent n request s = record {
        task_id = request.task_id;
        attempt_id = fresh n;
        node_id = s.node.0.node_id;
        lease_expires_at = lease_of request;
        reason = s.reason;
        prompt = s.prompt;
        messages = s.messages;
        session_id = request.session_id;
      }

      -- `del ready[nid]`
      abbrev pub without_node : String → List (Ready F) → List (Ready F)
      without_node nid = select (λ n. not (n.0.node_id is nid))

      abbrev pub still_ready : Scored F → (String → ℕ) → List (Ready F) → List (Ready F)
      still_ready s active ready =
          let nid = s.node.0.node_id in
          if leb (slots_of s.node.1) (active nid) then without_node nid ready else ready

      -- The loop over the queued rows; `n` counts the assignments made.
      unfoldable pub place_rows :
          List Row → List (Ready F) → (String → ℕ) → ℕ → Queue → List (Sent F) × Queue
      unfolding choose
      place_rows [] ready active n q = ([], q)
      place_rows (r ∷ rs) [] active n q = ([], q)
      place_rows (r ∷ rs) (x ∷ xs) active n q = elim (choose r.request (x ∷ xs)) [
        | none ↦ place_rows rs (x ∷ xs) active n q
        | some s ↦
            let nid = s.node.0.node_id in
            let active' = bump nid active in
            let rest =
              place_rows rs (still_ready s active' (x ∷ xs)) active' (n + 1)
                (assign r.request.task_id nid (fresh n) (lease_of r.request) q) in
            (sent n r.request s ∷ rest.0, rest.1)
      ]

      -- The nodes below their slots.
      abbrev pub has_slot : List Row → Ready F → Bool
      has_slot rows n = not (leb (slots_of n.1) (count_on n.0.node_id rows))

      unfoldable pub schedule_pending : List (NodeInfo F) → Queue → List (Sent F) × Queue
      unfolding place_rows ready_nodes count_on
      schedule_pending nodes q =
          place_rows (sort_by (λ (r : Row). r.created_seq) (select (λ r. is_queued r.state) q.rows))
            (select (has_slot q.rows) (ready_nodes nodes)) (λ nid. count_on nid q.rows) 0 q
