-- ===== src/Server/Tasks.antt =====
-- scheduler/server.py: the calls that cancel and forget: `cancel`, `delete_task`, `clear_queue`,
-- `clear_data`, `delete_session` and `clear_sessions`.
use clique.Prelude.{
  ℕ, String, Bool, true, false, not, ◌&&◌, Option, none, some, List, [], ◌∷◌, select, length,
  if◌then◌else◌, ◌is◌,
}
use clique.Types.{Text, TaskView, Float, NodeStatus, in_flight}
use clique.Dict.{remove}
use clique.Dict.Keyed.{Keyed}
use clique.Live.{codes}
use clique.Live.Flush
use clique.Router.{Config, Queue, Row}
use clique.Router
use clique.Router.Views.{get_task}
use clique.Checkout.{cleanup}
use clique.Checkout
use clique.Sessions.{ok, err}
use clique.Sessions
use clique.Context
use clique.Ledger
use clique.Suggest
use clique.Server.{
  State, World, Reply, done, raised, andthen, revoke, is_in, send, set_status, revoke_assignment,
}

-- `text or ""`
abbrev pub or_empty : Option String → String
or_empty none = ""
or_empty (some x) = x

abbrev pub with_members : Text → List String → Keyed Text (List String) → Keyed Text (List String)
with_members race [] others = others
with_members race (t ∷ ts) others = (race, t ∷ ts) ∷ others

-- The race groups without a task; a group without members goes.
unfoldable pub leave_races : String → Keyed Text (List String) → Keyed Text (List String)
leave_races tid [] = []
leave_races tid ((race, members) ∷ rest) =
    let kept = select (λ t. not (t is tid)) members in
    let others = leave_races tid rest in with_members race kept others

-- What a clearing counts.
pub record Counts : Type 0 where
  pub sessions : ℕ
  pub context_turns : ℕ
  pub tasks : ℕ
  pub ledger : ℕ
  pub workspaces : ℕ
  pub live_workspaces : ℕ
  pub suggestions : ℕ
  pub revoked : ℕ

-- `inflight_assignments`, with the attempt and the node of each row
unfoldable pub inflight_assignments : List Row → List (String × (String × String))
inflight_assignments [] = []
inflight_assignments (r ∷ rs) =
    let rest = inflight_assignments rs in
    elim r.assigned_node [
      | none ↦ rest
      | some nid ↦
          if in_flight r.state then (r.task_id, (or_empty r.attempt_id, nid)) ∷ rest else rest
    ]

module _ (fl : Float) (cfg : Config) where
  open fl use {F}

  abbrev pub after_cleanup :
      Checkout.Result {0} Unit → Checkout.Dirs → State F → Reply {0} Unit × State F
  after_cleanup (Checkout.err e) dirs s = (raised, s)
  after_cleanup (Checkout.ok u) dirs s = (done tt, record s { dirs = dirs })

  -- `workspaces.cleanup`, which raises for an identifier that names no directory
  unfoldable pub forget_dir : String → State F → Reply {0} Unit × State F
  unfolding cleanup
  forget_dir tid s = let out = cleanup (codes tid) s.dirs in after_cleanup out.0 out.1 s

  -- The node of a cancelled task is told, and is free; here a send that fails raises.
  abbrev pub free_node :
      World → String → Option String → Option String → State F → Reply Bool × State F
  free_node w tid attempt none s = (done true, s)
  free_node w tid attempt (some nid) s =
      if nid is ""
      then (done true, s)
      else if not (is_in nid s.conns)
      then (done true, set_status fl cfg nid NodeStatus.ready none s)
      else if w.delivers nid
      then (
        done true,
        set_status fl cfg nid NodeStatus.ready none
            (send fl cfg (revoke nid tid (or_empty attempt)) s),
      )
      else (raised, s)

  -- The route `cancel`; `none` is the 404.
  unfoldable pub cancel_task : World → String → State F → Option (Reply Bool) × State F
  unfolding get_task forget_dir set_status
  cancel_task w tid s = elim (get_task tid s.queue) [
    | none ↦ (none, s)
    | some view ↦
        let out = Router.cancel tid s.queue in
        let s' : State F = record s { queue = out.1 } in
        let told =
          andthen (forget_dir tid s')
            (λ _ t. free_node w tid view.attempt_id view.assigned_node t) in
        if out.0 then (some told.0, told.1) else (some (done false), s')
  ]

  -- An assignment that is in flight is revoked first.
  abbrev pub revoke_view : World → String → TaskView → State F → State F
  revoke_view w tid view s = elim view.assigned_node [
    | none ↦ s
    | some nid ↦
        if in_flight view.state && not (nid is "")
        then revoke_assignment fl cfg w tid (or_empty view.attempt_id) nid s
        else s
  ]

  abbrev pub forget_task : String → State F → State F
  forget_task tid t = record t {
    progress = remove tid t.progress;
    races = leave_races tid t.races;
    queue = (Router.delete tid t.queue).1;
  }

  unfoldable pub delete_task : World → String → State F → Reply Bool × State F
  unfolding get_task revoke_assignment forget_dir leave_races remove
  delete_task w tid s = elim (get_task tid s.queue) [
    | none ↦ (done false, s)
    | some view ↦
        andthen (forget_dir tid (revoke_view w tid view s)) (λ _ t. (done true, forget_task tid t))
  ]

  -- The loops over the assignments in flight, the first with their directories
  unfoldable pub revoke_and_forget :
      World → List (String × (String × String)) → State F → Reply {0} Unit × State F
  unfolding revoke_assignment forget_dir
  revoke_and_forget w [] s = (done tt, s)
  revoke_and_forget w ((tid, (attempt, nid)) ∷ rest) s =
      andthen (forget_dir tid (revoke_assignment fl cfg w tid attempt nid s))
        (λ _ t. revoke_and_forget w rest t)

  unfoldable pub revoke_all : World → List (String × (String × String)) → State F → State F
  unfolding revoke_assignment
  revoke_all w [] s = s
  revoke_all w ((tid, (attempt, nid)) ∷ rest) s =
      revoke_all w rest (revoke_assignment fl cfg w tid attempt nid s)

  -- The tasks, the revoked assignments and the directories are counted.
  unfoldable pub clear_queue : World → State F → Reply (ℕ × (ℕ × ℕ)) × State F
  unfolding inflight_assignments revoke_and_forget
  clear_queue w s =
      let gone = inflight_assignments s.queue.rows in
      andthen (revoke_and_forget w gone s) (λ _ t. (
        done ((Router.clear t.queue).0, (length gone, (Checkout.clear t.dirs).0)),
        record t {
          queue = (Router.clear t.queue).1;
          dirs = (Checkout.clear t.dirs).1;
          progress = [];
          races = [];
        },
      ))

  unfoldable pub clear_data : World → State F → Counts × State F
  unfolding inflight_assignments revoke_all
  clear_data w s =
      let gone = inflight_assignments s.queue.rows in
      let t = revoke_all w gone s in
      let m = (Sessions.clear t.manager).1 in
      (
        record {
          sessions = (Sessions.clear t.manager).0;
          context_turns = (Context.clear t.manager.contexts).0;
          tasks = (Router.clear t.queue).0;
          ledger = (Ledger.clear t.ledger).0;
          workspaces = (Checkout.clear t.dirs).0;
          live_workspaces = (Flush.clear t.live).0;
          suggestions = (Suggest.clear t.engine).0;
          revoked = length gone;
        },
        record t {
          manager = record m { contexts = (Context.clear m.contexts).1 };
          queue = (Router.clear t.queue).1;
          ledger = (Ledger.clear t.ledger).1;
          dirs = (Checkout.clear t.dirs).1;
          live = (Flush.clear t.live).1;
          engine = (Suggest.clear t.engine).1;
          progress = [];
          races = [];
          compacting = [];
        },
      )

  abbrev pub without : String → List String → List String
  without sid = select (λ x. not (x is sid))

  unfoldable pub delete_session : String → State F → Bool × State F
  delete_session sid s =
      let out = Sessions.delete sid s.manager in
      elim out.0 [
        | err e ↦ (false, s)
        | ok u ↦ (true, record s { manager = out.1; compacting = without sid s.compacting })
      ]

  unfoldable pub clear_sessions : State F → (ℕ × ℕ) × State F
  clear_sessions s =
      let m = (Sessions.clear s.manager).1 in
      (
        ((Sessions.clear s.manager).0, (Context.clear m.contexts).0),
        record s {
          manager = record m { contexts = (Context.clear m.contexts).1 };
          compacting = [];
        },
      )
