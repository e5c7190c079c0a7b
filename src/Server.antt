-- ===== src/Server.antt =====
-- scheduler/server.py: the class SchedulerServer, which joins the other parts. Its state holds theirs;
-- a handler is a function on it. `World` is what a call meets outside: the clock, new identifiers, and
-- which sends over a web socket succeed. Events for watchers, which change no state, are left out.
pub mod Tasks
pub mod Races
pub mod Submit
pub mod Compact
pub mod Verify
pub mod Messages
pub mod Upkeep
pub mod Refine
pub mod Cancels
pub mod Handlers
pub mod Verified
pub mod Runs
pub mod Steps
pub mod Fanout
pub mod Members
pub mod Settled
pub mod Gate
pub mod Tried
pub mod Logged
pub mod Forgotten
mod Tests
use clique.Prelude.{
  ℕ, String, Bool, true, false, not, Option, none, some, List, [], ◌∷◌, ◌++◌, any, if◌then◌else◌,
  ◌is◌,
}
use clique.Types.{Text, TaskView, TaskRequest, Session, Float, NodeInfo, NodeStatus}
use clique.Dict.{Dict}
use clique.Dict.Keyed.{Keyed}
use clique.Schedule.Score.{cluster_key}
use clique.Schedule.{Sent, schedule_pending}
use clique.Registry.{NodeRow, list_nodes}
use clique.Registry
use clique.Router.{Config, Queue, on_node_lost}
use clique.Router.Views
use clique.Sessions.{Manager, ok, err, pin, bind_cluster}
use clique.Sessions
use clique.Ledger.{Book}
use clique.Checkout.{Dirs}
use clique.Live.{Service}
use clique.Suggest.{Engine}

-- A message to an agent.
pub data Frame (F : Type 0) : Type 0 where
  assign : Sent F → Frame F
  revoke : (node task attempt : String) → Frame F

pub record State (F : Type 0) : Type 0 where
  pub queue : Queue
  pub roster : List (NodeRow F)
  pub manager : Manager
  -- the nodes with a web socket
  pub conns : List String
  -- the text that a task has put out so far
  pub progress : Dict Text
  -- the sessions with a compaction under way
  pub compacting : List String
  pub races : Keyed Text (List String)
  pub ledger : Book
  pub dirs : Dirs
  pub live : Service
  pub engine : Engine
  -- what was sent, in order
  pub outbox : List (Frame F)

pub record World : Type 0 where
  pub now : ℕ
  -- the identifiers of the attempts that the `k`-th scheduling of the call makes
  pub attempt : ℕ → ℕ → String
  pub task_id : String
  -- a second identifier, for a compaction
  pub job_id : String
  pub delivers : String → Bool
  -- the text `compact:<session>:<covered>:<version>`
  pub job_key : String → ℕ → ℕ → String

abbrev pub is_in : String → List String → Bool
is_in x xs = any (λ y. y is x) xs

-- What a call gives, or that it raised; `andthen` is the rest of a call.
pub data Reply {ℓ} (A : Type ℓ) : Type ℓ where
  done : A → Reply A
  raised : Reply A

abbrev pub andthen {ℓ} : {A B S : Type ℓ} → Reply A × S → (A → S → Reply B × S) → Reply B × S
andthen (done a, s) f = f a s
andthen (raised, s) f = (raised, s)

-- `if text:` of a text that may be missing
abbrev pub given : Option String → Option String
given none = none
given (some x) = if x is "" then none else some x

module _ (fl : Float) (cfg : Config) where
  open fl use {F}

  abbrev pub find_session : Manager → String → Option Session
  find_session m sid = elim (Sessions.get sid m) [ err e ↦ none | ok s ↦ some s ]

  unfoldable pub lose_node : String → State F → State F
  lose_node nid s = record s { queue = (on_node_lost cfg (some nid) s.queue).1 }

  unfoldable pub set_status : String → NodeStatus → Option String → State F → State F
  set_status nid status task s = record s { roster = Registry.set_status nid status task s.roster }

  abbrev pub send : Frame F → State F → State F
  send f s = record s { outbox = s.outbox ++ f ∷ [] }

  -- The session follows its task to the node, if it is there.
  abbrev bind_to : String → Option (NodeInfo F) → Manager → Manager
  bind_to sid none m = m
  bind_to sid (some n) m = elim n.model [
    | none ↦ m
    | some model ↦ (bind_cluster sid (cluster_key fl model) m).1
  ]

  abbrev pub after_pin : String → String → Sessions.Result Session → Manager → State F → State F
  after_pin sid nid (err e) m s = record s { manager = m }
  after_pin sid nid (ok session) m s = record s {
    manager = bind_to sid (Registry.get nid s.roster) m;
  }

  unfoldable pub follow : String → String → State F → State F
  unfolding pin bind_cluster
  follow sid nid s = let out = pin sid nid s.manager in after_pin sid nid out.0 out.1 s

  abbrev pub follow_if : Option String → String → State F → State F
  follow_if sid nid s = elim (given sid) [ none ↦ s | some x ↦ follow x nid s ]

  -- One assignment: without a web socket, and where the send fails, the node is lost.
  unfoldable pub deliver_one : World → Sent F → State F → State F
  unfolding lose_node set_status follow
  deliver_one w a s =
      if not (is_in a.node_id s.conns)
      then lose_node a.node_id s
      else (let busy = set_status a.node_id NodeStatus.busy (some a.task_id) s in
          let bound = follow_if a.session_id a.node_id busy in
          if w.delivers a.node_id
          then send (assign a) bound
          else set_status a.node_id NodeStatus.offline none (lose_node a.node_id bound))

  unfoldable pub deliver : World → List (Sent F) → State F → State F
  unfolding deliver_one
  deliver w [] s = s
  deliver w (a ∷ rest) s = deliver w rest (deliver_one w a s)

  -- `_schedule_now`, for the `k`-th time in a call
  unfoldable pub schedule_now : World → ℕ → State F → State F
  unfolding deliver schedule_pending list_nodes
  schedule_now w k s =
      let out =
        schedule_pending fl (find_session s.manager) (some s.manager.contexts) cfg (w.attempt k)
          w.now (list_nodes s.roster) s.queue in
      deliver w out.0 (record s { queue = out.1 })

  -- `_revoke_assignment`; a send that fails is passed over.
  unfoldable pub revoke_assignment : World → String → String → String → State F → State F
  unfolding set_status
  revoke_assignment w tid attempt nid s =
      let told =
        if is_in nid s.conns
        then (if w.delivers nid then send (revoke nid tid attempt) s else s)
        else s in
      set_status nid NodeStatus.ready none told
