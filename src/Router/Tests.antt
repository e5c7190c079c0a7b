-- ===== src/Router/Tests.antt =====
-- The queue of scheduler/router.py on concrete tables.
use clique.Prelude.{
  ℕ, String, ◌≡◌, refl, ◌≤◌, true, none, some, [], ◌∷◌, arith, length, select, map,
}
use clique.Types.{running, succeeded, failed, chat, TaskRequest, TaskResult, TaskState}
use clique.Router.{
  Row, Config, Queue, ok, find_row, find_key, submit, new_row, update, settle, on_result,
  on_node_lost, lose, expire_leases, is_open, runs_on, requeue, lost_result,
}
use clique.Router.Lost.{on_node_lost-pass, has_budget, fail_or_requeue}
use clique.Router.Rows.{id_of}
use clique.Router.Steps.{here, next, reported, node_lost}
use clique.Router.Invariant.{IsValid, InFlight, Reach-IsValid}
use clique.Router.Final.{Reach-keeps_ended}
use clique.Router.Submit.{submit-idempotent, submit-cap}
use clique.Router.Expire.{Idle, expire_leases-Idle}

abbrev config : Config
config = record {
  lease_seconds = 120;
  code_lease_seconds = 600;
  max_attempts = 3;
  queue_cap = 1000;
}

abbrev ask : String → String → TaskRequest
ask tid key = record {
  task_id = tid;
  submitted_by_node = "laptop";
  task_type = chat;
  prompt = [];
  messages = none;
  session_id = none;
  model_hint = none;
  workspace_id = none;
  workspace_seq = 0;
  max_output_tokens = 1024;
  record_turns = true;
  compaction_covers = none;
  idempotency_key = key;
  code = none;
}

abbrev run_row : String → String → ℕ → ℕ → Row
run_row tid key lease tries = record (new_row (ask tid key) 1) {
  state = running;
  assigned_node = some "gpu";
  attempt_id = some "a-1";
  lease_expires_at = some lease;
  attempts = tries;
}

abbrev reply : String → TaskState → TaskResult
reply tid state = record {
  task_id = tid;
  attempt_id = "a-1";
  state = state;
  output = none;
  error = none;
  patch = none;
  applied_sha = none;
}

abbrev done_row : Row
done_row = record (run_row "t1" "k1" 120 1) {
  state = succeeded;
  result = some (reply "t1" succeeded);
}

abbrev two_running : Queue
two_running = record { rows = run_row "t1" "k1" 120 1 ∷ run_row "t2" "k2" 500 3 ∷ []; seq = 2 }

abbrev one_done : Queue
one_done = record { rows = done_row ∷ run_row "t2" "k2" 500 3 ∷ []; seq = 2 }

run_row-InFlight :
    (tid key : String) (lease : ℕ)
    → (InFlight config (run_row tid key lease 1)) × (InFlight config (run_row tid key lease 3))
run_row-InFlight tid key lease = (
  record {
    on_node = refl;
    has_attempt = refl;
    has_lease = refl;
    tried = omega arith;
    budget = omega arith;
  },
  record {
    on_node = refl;
    has_attempt = refl;
    has_lease = refl;
    tried = omega arith;
    budget = omega arith;
  },
)

two_running-IsValid : IsValid config two_running
two_running-IsValid = record {
  ids = ((refl, tt), (tt, tt));
  keys = ((refl, tt), (tt, tt));
  sound = ((run_row-InFlight "t1" "k1" 120).0, ((run_row-InFlight "t2" "k2" 500).1, tt));
}

one_done-IsValid : IsValid config one_done
one_done-IsValid = record {
  ids = ((refl, tt), (tt, tt));
  keys = ((refl, tt), (tt, tt));
  sound = (omega arith, two_running-IsValid.sound.1);
}

-- The first task ends, its node is lost, and a late failure comes in.
result_commits : on_result config (reply "t1" succeeded) two_running ≡ (ok true, one_done)
unfolding on_result settle find_row update
result_commits = refl

node_is_lost : on_node_lost config (some "gpu") two_running ≡ (
  "t1" ∷ [],
  record {
    rows =
        requeue (run_row "t1" "k1" 120 1)
        ∷ (record (run_row "t2" "k2" 500 3) { state = failed; result = some (lost_result "t2") })
        ∷ [];
    seq = 2;
  },
)
unfolding on_node_lost lose update
node_is_lost = refl

Reach-keeps_ended_example :
    find_row "t1"
      (on_result config (reply "t1" failed) (on_node_lost config (some "gpu") one_done).1).1.rows
    ≡ some done_row
Reach-keeps_ended_example =
    Reach-keeps_ended config "t1" (omega arith) one_done-IsValid (unfold find_row in refl) refl (
      next (next here (node_lost (some "gpu") one_done))
        (reported (reply "t1" failed) (on_node_lost config (some "gpu") one_done).1 refl))

Reach-IsValid_example : IsValid config (on_node_lost config (some "gpu") two_running).1
Reach-IsValid_example =
    Reach-IsValid config (omega arith) two_running-IsValid
      (next here (node_lost (some "gpu") two_running))

submit-idempotent_example :
    submit config "t8" (ask "" "k2") (submit config "t9" (ask "" "k2") one_done).1
    ≡ (ok "t2", (submit config "t9" (ask "" "k2") one_done).1)
submit-idempotent_example =
    submit-idempotent config "t9" "t8" (ask "" "k2") (ask "" "k2") one_done
      (submit config "t9" (ask "" "k2") one_done).1 (unfold submit find_key in refl) refl

submit-cap_example :
    length (select is_open (submit config "t3" (ask "" "k3") one_done).1.rows) ≤ config.queue_cap
submit-cap_example = submit-cap config "t3" (ask "" "k3") one_done (omega arith)

on_node_lost-pass_example : on_node_lost config (some "gpu") two_running ≡ (
  map id_of (select (has_budget config) (select (runs_on (some "gpu")) two_running.rows)),
  record two_running {
    rows = update (runs_on (some "gpu")) (fail_or_requeue config) two_running.rows;
  },
)
on_node_lost-pass_example =
    on_node_lost-pass config (some "gpu") two_running two_running-IsValid.ids

-- At 300 only the lease of the first task is over.
expire_leases-Idle_example : Idle "gpu" (expire_leases config 300 two_running).1.rows
expire_leases-Idle_example =
    expire_leases-Idle config "gpu" 300 two_running two_running-IsValid refl
