-- ===== src/Server/Tests.antt =====
-- The server of scheduler/server.py on concrete queues, with numbers for floats.
mod Edits
mod Groups
use Prim.Native.Nat.{min}
use clique.Prelude.{
  ℕ, String, ◌+◌, ◌-◌, ◌*◌, ◌/◌, ◌≡◌, refl, true, false, none, some, [], ◌∷◌, ◌==◌, ◌++◌, ltb, leb,
  arith, ◌&&◌,
}
use clique.Types.{
  TaskRequest, TaskResult, TaskType, TaskState, Float, Text, is_terminal, succeeded, CodeTaskSpec,
}
use clique.Router.{Config, Row, new_row, find_row, find_key, submit}
use clique.Router.Steps.{Reach}
use clique.Router.Owned.{IsSound}
use clique.Server.{State, World, done}
use clique.Server.Tasks.{cancel_task, delete_task}
use clique.Server.Submit.{submit_task, in_session, refused, too_many_tasks}
use clique.Server.Races.{race_of, race_won, settle_race}
use clique.Server.Members.{Named}
use clique.Server.Settled.{Settled, settle_race-Settled}
use clique.Texts.{
  is_prefix, split_on, same_text, contains, strip, lstrip, rstrip, is_space, split_at,
  encoded_length,
}
use clique.Live.Lines.{is_break}
use clique.Dict.Keyed.{fetch, store}
use clique.Live.{codes}
use clique.Checkout.{is_task_id}
use clique.Router.Views.{view_of, get_task}
use clique.Server.Steps.{start, more, submitted, cancelled, Run-refines}
use clique.Server.Verify.{Outside, returned, verify_code_result}
use clique.Server.Logged.{IsFull, in_session-full}
use clique.Server.Forgotten.{Forgotten, delete_task-Forgotten}
use clique.Sessions.{SessionRow, find_session, ok}
use clique.Sessions
use clique.Context.{latest_version}
use clique.Server.Gate.{Accepted, verify_code_result-Accepted}
use clique.Checkout.Hunks.{patched}

abbrev pub naturals : Float
naturals = record {
  F = ℕ;
  of_nat = λ n. n;
  add = λ a b. a + b;
  sub = λ a b. a - b;
  mul = λ a b. a * b;
  div = λ a b. a / b;
  least = min;
  lt = ltb;
  le = leb;
  is_zero = λ a. a == 0;
  show_g = λ a. (48 + a) ∷ [];
}

abbrev pub config : Config
config = record {
  lease_seconds = 120;
  code_lease_seconds = 600;
  max_attempts = 3;
  queue_cap = 1000;
}

abbrev pub ask : String → String → TaskRequest
ask tid key = record {
  task_id = tid;
  submitted_by_node = "laptop";
  task_type = TaskType.chat;
  prompt = [];
  messages = none;
  session_id = none;
  model_hint = none;
  workspace_id = none;
  workspace_seq = 0;
  max_output_tokens = 64;
  record_turns = true;
  compaction_covers = none;
  idempotency_key = key;
  code = none;
}

-- A task that has succeeded, and one that waits
abbrev ended : Row
ended = record (new_row (ask "t1" "k1") 1) {
  state = succeeded;
  result = some (record {
    task_id = "t1";
    attempt_id = "a-1";
    state = succeeded;
    output = none;
    error = none;
    patch = none;
    applied_sha = none;
  });
}

abbrev pub fresh : State ℕ
fresh = record {
  queue = record { rows = ended ∷ new_row (ask "t2" "k2") 2 ∷ []; seq = 2 };
  roster = [];
  manager = record { rows = []; migrating = []; contexts = [] };
  conns = [];
  progress = [];
  compacting = [];
  races = [];
  ledger = record { rows = []; last_seq = 0 };
  dirs = [];
  live = record { workspaces = []; ops_since_flush = []; actors_since_flush = [] };
  engine = record { active = []; cooldowns = []; overloaded_since = [] };
  outbox = [];
}

abbrev pub world : World
world = record {
  now = 7;
  attempt = λ k n. "a-2";
  task_id = "t3";
  job_id = "t4";
  delivers = λ nid. true;
  job_key = λ sid covered version. "compact";
}

abbrev pub outside : Outside
outside = record {
  is_digit = λ c. leb 48 c && leb c 57;
  resolve = λ path. path ∷ [];
  patch = none;
  python = "python3";
  tests = λ command timeout files. returned 0 files;
  commit = λ tid node files. some "sha";
  flushed = λ ws n actors. none;
}

-- A task is submitted, and cancelled.
abbrev asked : State ℕ
asked = (submit_task naturals config world (ask "" "k3") fresh).1

abbrev stopped : State ℕ
stopped = (cancel_task naturals config world "t3" asked).1

fresh-IsSound : IsSound config fresh.queue
fresh-IsSound = record {
  valid = record {
    ids = ((refl, tt), (tt, tt));
    keys = ((refl, tt), (tt, tt));
    sound = (
      omega arith,
      (record { no_node = refl; no_attempt = refl; no_lease = refl; budget = omega arith }, tt),
    );
  };
  owned = (refl, (refl, tt));
}

Run-refines_example :
    Reach config fresh.queue stopped.queue
    × (IsSound config stopped.queue
        × ((tid : String) (r : Row)
            → find_row tid fresh.queue.rows ≡ some r
            → is_terminal r.state ≡ true
            → find_row tid stopped.queue.rows ≡ some r))
Run-refines_example =
    Run-refines outside naturals config (omega arith) fresh-IsSound
      (more (more start (submitted world (ask "" "k3"))) (cancelled world "t3"))
