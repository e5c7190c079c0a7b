-- ===== src/Suggest/Tests.antt =====
-- The engine of scheduler/suggestions.py on a concrete roster and queue, with numbers for floats.
use Prim.Native.Nat.{min}
use clique.Prelude.{
  ℕ, String, ◌+◌, ◌-◌, ◌*◌, ◌/◌, ◌≡◌, refl, true, none, some, List, [], ◌∷◌, ◌==◌, ltb, leb, All,
  ◌≢◌, arith,
}
use clique.Types.{TaskRequest, TaskType, Float, NodeInfo, NodeRole, NodeStatus, Text}
use clique.Registry.{NodeRow, list_nodes}
use clique.Router.{Queue, new_row, find_row}
use clique.Suggest.{
  Engine, Suggestion, sig_of, analyze, dismiss, suggest_all, retire, suggest_for, first_fit,
  is_candidate, is_cooling, is_active, same_sig, is_marked,
}
use clique.Suggest.Load.{
  list_clusters, queued_by_hint, depths, observe, clustered, by_hint, hinted, unhinted,
  same_cluster,
}
use clique.Schedule.Score.{cluster_key}
use clique.Dict.{get, put, remove}
use clique.Dict.Keyed.{fetch, store, store_new, discard}
use clique.Texts.{same_text, is_prefix}
use clique.Prelude.Sort.{sort_by, insert_by}
use clique.Router.Views.{list_tasks, get_all, get_task}
use clique.Suggest.Active.{IsSound, Reach-IsSound, started, after, analyzed}
use clique.Suggest.Cooldown.{Tick, ticked, dismissed, made_by, dismiss-made_by}

abbrev naturals : Float
naturals = record {
  F = ℕ;
  of_nat = λ n. n;
  add = λ a b. a + b;
  sub = λ a b. a - b;
  mul = λ a b. a * b;
  div = λ a b. a / b;
  least = min;
  lt = ltb;
  le = leb;
  is_zero = λ a. a == 0;
  show_g = λ a. (48 + a) ∷ [];
}

abbrev ask : String → TaskRequest
ask tid = record {
  task_id = tid;
  submitted_by_node = "laptop";
  task_type = TaskType.chat;
  prompt = [];
  messages = none;
  session_id = none;
  model_hint = some (99 ∷ []);
  workspace_id = none;
  workspace_seq = 0;
  max_output_tokens = 64;
  record_turns = true;
  compaction_covers = none;
  idempotency_key = tid;
  code = none;
}

abbrev node : String → ℕ → NodeInfo ℕ
node nid family = record {
  node_id = nid;
  display_name = nid;
  role = NodeRole.client;
  status = NodeStatus.ready;
  address = "";
  public_key = "";
  model = some (record {
    family = family ∷ [];
    parameter_count_b = 7;
    quantization = 113 ∷ [];
    artifact_hash = none;
    context_window = 4096;
    parallel_slots = 1;
    capabilities = TaskType.chat ∷ [];
  });
  resources = none;
  last_heartbeat_at = none;
  current_task_id = none;
  offline_since = none;
  last_task_duration_s = 0;
}

-- A node that serves the model "c", for which three tasks wait, and an idle one that serves "d".
abbrev roster : List (NodeRow ℕ)
roster =
    (record { join_order = 1; info = node "busy" 99 })
    ∷ (record { join_order = 2; info = node "idle" 100 })
    ∷ []

abbrev waiting : Queue
waiting = record {
  rows = new_row (ask "t1") 1 ∷ new_row (ask "t2") 2 ∷ new_row (ask "t3") 3 ∷ [];
  seq = 3;
}

abbrev footprint : ℕ → ℕ
footprint b = b * 1200

abbrev new_id : Text → String
new_id key = "sg-1"

abbrev empty : Engine
empty = record { active = []; cooldowns = []; overloaded_since = [] }

-- The engine after an analysis at a time.
abbrev then_at : ℕ → Engine → Engine
then_at now e = (analyze naturals now new_id footprint roster waiting e).1

abbrev swap_idle : Suggestion
swap_idle = record {
  suggestion_id = "sg-1";
  kind = "swap_model";
  target_node = some "idle";
  from_cluster = some (100 ∷ 45 ∷ 55 ∷ 98 ∷ 45 ∷ 113 ∷ []);
  to_cluster = some (99 ∷ 45 ∷ 55 ∷ 98 ∷ 45 ∷ 113 ∷ []);
  created_at = 30;
}

abbrev overloaded : Engine
overloaded = record {
  active = ("sg-1", swap_idle) ∷ [];
  cooldowns = [];
  overloaded_since = ((99 ∷ 45 ∷ 55 ∷ 98 ∷ 45 ∷ 113 ∷ []), 0) ∷ [];
}

suggests : then_at 30 (then_at 0 empty) ≡ overloaded
unfolding analyze list_clusters queued_by_hint depths observe suggest_all list_nodes retire
    clustered cluster_key fetch store store_new discard same_text by_hint list_tasks get_all
    get_task find_row sort_by insert_by hinted unhinted is_prefix same_cluster suggest_for first_fit
    is_candidate is_cooling is_active same_sig is_marked put
suggests = refl

Reach-IsSound_example : IsSound (then_at 30 (then_at 0 empty))
Reach-IsSound_example = Reach-IsSound naturals (then_at 30 (then_at 0 empty)) (
    after (then_at 0 empty) (after empty started (analyzed 0 new_id footprint roster waiting))
      (analyzed 30 new_id footprint roster waiting))

abbrev tick : ℕ → Tick naturals footprint
tick now = record { now = now; new_id = new_id; rows = roster; queue = waiting }

abbrev resting : Engine
resting = record {
  active = [];
  cooldowns = (sig_of swap_idle, 640) ∷ [];
  overloaded_since = ((99 ∷ 45 ∷ 55 ∷ 98 ∷ 45 ∷ 113 ∷ []), 0) ∷ [];
}

finds_swap : get "sg-1" overloaded.active ≡ some swap_idle
unfolding get
finds_swap = refl

dismisses : dismiss 40 "sg-1" overloaded ≡ some resting
unfolding dismiss get remove store
dismisses = refl

dismiss-made_by_example :
    All
      (λ f. sig_of f ≢ sig_of swap_idle)
      (made_by naturals footprint
        (ticked (tick 100) ∷ dismissed 200 "sg-1" ∷ ticked (tick 639) ∷ [])
        resting)
dismiss-made_by_example =
    dismiss-made_by naturals footprint 40 "sg-1" overloaded resting swap_idle
      (ticked (tick 100) ∷ dismissed 200 "sg-1" ∷ ticked (tick 639) ∷ []) finds_swap dismisses
      ((omega arith, omega arith), ((omega arith, omega arith), ((omega arith, omega arith), tt)))
