-- ===== src/Server/Tests/Groups.antt =====
-- scheduler/server.py: a concrete race, a deleted task, and a queue that is full.
use clique.Prelude.{ℕ, ◌+◌, ◌≡◌, refl, true, none, some, [], ◌∷◌}
use clique.Types.{TaskRequest, TaskState, succeeded}
use clique.Router.{Config, Row, new_row, find_row, find_key}
use clique.Server.{State, done}
use clique.Server.Tasks.{delete_task}
use clique.Server.Submit.{in_session, refused, too_many_tasks}
use clique.Server.Races.{race_of, race_won, settle_race}
use clique.Server.Members.{Named}
use clique.Server.Settled.{Settled, settle_race-Settled}
use clique.Texts.{is_prefix, split_on, same_text, contains}
use clique.Dict.Keyed.{fetch}
use clique.Live.{codes}
use clique.Checkout.{is_task_id}
use clique.Router.Views.{view_of, get_task}
use clique.Sessions.Appends.{logged}
use clique.Server.Logged.{by_user, IsFull, in_session-full}
use clique.Server.Forgotten.{Forgotten, delete_task-Forgotten}
use clique.Sessions.{SessionRow, find_session, ok}
use clique.Sessions
use clique.Context.{latest_version}
use clique.Server.Tests.{naturals, config, ask, fresh, world}

-- A race of two replicas: the first has succeeded with a commit, the second runs.
abbrev won : Row
won = record (new_row (ask "t1" "race:r:0") 1) {
  state = succeeded;
  result = some (record {
    task_id = "t1";
    attempt_id = "a-1";
    state = succeeded;
    output = none;
    error = none;
    patch = none;
    applied_sha = some "sha";
  });
}

abbrev replica : Row
replica = record (new_row (ask "t2" "race:r:1") 2) {
  state = TaskState.running;
  assigned_node = some "gpu";
  attempt_id = some "a-2";
  lease_expires_at = some 120;
  attempts = 1;
}

abbrev raced : State ℕ
raced = record fresh {
  queue = record { rows = won ∷ replica ∷ []; seq = 2 };
  conns = "gpu" ∷ [];
  races = (codes "r", "t1" ∷ "t2" ∷ []) ∷ [];
}

wins : race_won naturals config (view_of won) raced ≡ some (codes "r", "t1" ∷ "t2" ∷ [])
unfolding race_won race_of is_prefix split_on fetch same_text
wins = refl

raced-Named : Named ("t1" ∷ "t2" ∷ [])
unfolding is_task_id contains is_prefix
raced-Named = (refl, (refl, tt))

settle_race-Settled_example :
    Settled naturals config "t1"
      (codes "r", "t1" ∷ "t2" ∷ [])
      raced
      (settle_race naturals config world (view_of won) raced)
settle_race-Settled_example =
    settle_race-Settled naturals config world (view_of won) raced wins raced-Named

-- A queue with room for one task, and a session
abbrev narrow : Config
narrow = record config { queue_cap = 1 }

abbrev session : SessionRow
session = record {
  session = record {
    session_id = "s";
    owner_node = "laptop";
    cluster_key = [];
    pinned_node = none;
    context_version = 0;
    watchers = [];
  };
  active = true;
}

abbrev talking : State ℕ
talking = record fresh { manager = record { rows = session ∷ []; migrating = []; contexts = [] } }

finds_session : find_session "s" talking.manager.rows ≡ some session
unfolding find_session
finds_session = refl

abbrev turn : TaskRequest
turn = record (ask "" "k9") { session_id = some "s" }

is_full : IsFull naturals narrow "k9" talking.queue
unfolding find_key
is_full = record { unknown = refl; full = refl }

in_session-full_example :
    ((in_session naturals narrow world (codes "hi") turn talking).0 ≡ done (refused too_many_tasks))
    × (((in_session naturals narrow world (codes "hi") turn talking).1.manager
          ≡ logged "s" (by_user (codes "hi")) world.now talking.manager)
        × (Sessions.get "s" (in_session naturals narrow world (codes "hi") turn talking).1.manager
            ≡ ok (record session.session { context_version = latest_version "s" [] + 1 })))
in_session-full_example =
    in_session-full naturals narrow world "s" (codes "hi") turn talking refl finds_session refl
      is_full

t2_found : get_task "t2" raced.queue ≡ some (view_of replica)
unfolding get_task find_row
t2_found = refl

delete_task-Forgotten_example :
    Forgotten naturals config "t2" raced.queue (delete_task naturals config world "t2" raced)
delete_task-Forgotten_example =
    delete_task-Forgotten naturals config world "t2" raced t2_found raced-Named.1.0
