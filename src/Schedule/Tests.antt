-- ===== src/Schedule/Tests.antt =====
-- The scheduling of scheduler/router.py on concrete tables, with integers for floats.
use clique.Prelude.{
  ℕ, String, ◌+◌, ◌/◌, ◌≤◌, ◌≡◌, refl, true, false, not, Option, none, some, List, [], ◌∷◌, arith,
  All, Among, if◌then◌else◌, ◌==◌,
}
use Prim.Native.Nat.{max}
use clique.Prelude.Int.{ℤ, pos, ◌+ℤ◌, ◌-ℤ◌, ◌*ℤ◌, ltb_ℤ, pos_part}
use clique.Types.{chat, TaskRequest, Session, Float, ModelSpec, NodeInfo, NodeRole, NodeStatus}
use clique.Router.{Config, Queue, new_row}
use clique.Schedule.Score.{placement, worker_payload, score, out_of_reach}
use clique.Schedule.{
  Ready, slots_of, choose, weigh, count_on, in_cluster, ready_nodes, schedule_pending,
}
use clique.Schedule.Slots.{schedule_pending-slots}
use clique.Schedule.Best.{IsOrdered, candidates, choose-best}

abbrev integers : Float
integers = record {
  F = ℤ;
  of_nat = pos;
  add = ◌+ℤ◌;
  sub = ◌-ℤ◌;
  mul = ◌*ℤ◌;
  div = λ a b. pos (pos_part a / pos_part b);
  least = λ a b. if ltb_ℤ b a then b else a;
  lt = ltb_ℤ;
  le = λ a b. not (ltb_ℤ b a);
  is_zero = λ a. pos_part a == 0;
  show_g = λ a. (48 + pos_part a) ∷ [];
}

integers-IsOrdered : IsOrdered integers
integers-IsOrdered = record {
  asym = λ a b h. ground arith;
  trans = λ a b c h k. ground arith;
  below = λ a b c h k. ground arith;
}

abbrev config : Config
config = record {
  lease_seconds = 120;
  code_lease_seconds = 600;
  max_attempts = 3;
  queue_cap = 1000;
}

abbrev ask : String → TaskRequest
ask tid = record {
  task_id = tid;
  submitted_by_node = "laptop";
  task_type = chat;
  prompt = 104 ∷ 105 ∷ [];
  messages = none;
  session_id = none;
  model_hint = none;
  workspace_id = none;
  workspace_seq = 0;
  max_output_tokens = 1024;
  record_turns = true;
  compaction_covers = none;
  idempotency_key = tid;
  code = none;
}

abbrev model : ℕ → ModelSpec ℤ
model window = record {
  family = 109 ∷ [];
  parameter_count_b = pos 7;
  quantization = 113 ∷ [];
  artifact_hash = none;
  context_window = window;
  parallel_slots = 1;
  capabilities = chat ∷ [];
}

abbrev node : String → ℕ → NodeInfo ℤ
node nid window = record {
  node_id = nid;
  display_name = nid;
  role = NodeRole.client;
  status = NodeStatus.ready;
  address = "";
  public_key = "";
  model = some (model window);
  resources = none;
  last_heartbeat_at = none;
  current_task_id = none;
  offline_since = none;
  last_task_duration_s = 0;
}

abbrev no_session : String → Option Session
no_session sid = none

abbrev two_waiting : Queue
two_waiting = record { rows = new_row (ask "t1") 1 ∷ new_row (ask "t2") 2 ∷ []; seq = 2 }

abbrev attempt : ℕ → String
attempt n = "a-1"

one_slot : All (λ (n : Ready ℤ). slots_of n.1 ≤ 1) (ready_nodes (node "gpu" 4096 ∷ []))
unfolding ready_nodes
one_slot = (omega arith, tt)

schedule_pending-slots_example :
    count_on "gpu"
      (schedule_pending integers no_session none config attempt 10
        (node "gpu" 4096 ∷ [])
        two_waiting).1.rows
    ≤ max 1 (count_on "gpu" two_waiting.rows)
schedule_pending-slots_example =
    schedule_pending-slots integers no_session none config attempt 10 (λ nid. 1)
      (node "gpu" 4096 ∷ []) two_waiting ((refl, tt), (tt, tt)) one_slot "gpu"

abbrev two_ready : List (Ready ℤ)
two_ready = (node "small" 64, model 64) ∷ (node "gpu" 4096, model 4096) ∷ []

chooses_gpu :
    choose integers no_session none (ask "t1") two_ready
    ≡ some (weigh integers no_session none (ask "t1") (node "gpu" 4096, model 4096))
unfolding choose placement ◌-ℤ◌ score worker_payload ◌+ℤ◌ ◌*ℤ◌
chooses_gpu = refl

choose-best_example :
    (Among two_ready (node "gpu" 4096, model 4096)
      × ((in_cluster integers (placement no_session (ask "t1")).0 (node "gpu" 4096, model 4096)
            ≡ true)
          × (weigh integers no_session none (ask "t1") (node "gpu" 4096, model 4096)
              ≡ weigh integers no_session none (ask "t1") (node "gpu" 4096, model 4096))))
    × ((not (
            ltb_ℤ
              (out_of_reach integers)
              (weigh integers no_session none (ask "t1") (node "gpu" 4096, model 4096)).value)
          ≡ false)
        × All
            (λ n.
              ltb_ℤ
                (weigh integers no_session none (ask "t1") (node "gpu" 4096, model 4096)).value
                (weigh integers no_session none (ask "t1") n).value
              ≡ false)
            (candidates integers integers-IsOrdered no_session none (ask "t1") two_ready))
choose-best_example =
    choose-best integers integers-IsOrdered no_session none (ask "t1") two_ready chooses_gpu

abbrev small_ready : List (Ready ℤ)
small_ready = (node "small" 64, model 64) ∷ []

chooses_none : choose integers no_session none (ask "t1") small_ready ≡ none
unfolding choose placement ◌-ℤ◌ score worker_payload
chooses_none = refl
