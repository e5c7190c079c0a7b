-- ===== src/Server/Upkeep.antt =====
-- scheduler/server.py: `_reap_offline`, `gc_workspaces` and the body of `_tick_loop`; the web sockets
-- of the agents, `agent_ws`.
use Prim.Native.Nat.{min}
use clique.Prelude.{
  ℕ, String, ◌-◌, Bool, true, false, not, ◌||◌, Option, none, some, List, [], ◌∷◌, any, select, map,
  ltb, if◌then◌else◌, ◌is◌,
}
use clique.Types.{Text, Float, NodeInfo, NodeRole, NodeStatus, TaskView}
use clique.Texts.{same_text}
use clique.Dict.{get}
use clique.Live.{Workspace, Service, codes}
use clique.Live.Create.{list_ids}
use clique.Live.Flush.{force_flush}
use clique.Registry.{NodeRow, list_nodes, mark_offline_stale}
use clique.Registry
use clique.Router.{Config, expire_leases, task_age_s}
use clique.Router.Views.{list_tasks}
use clique.Suggest.{analyze}
use clique.Tools.{Files}
use clique.Server.{State, World, lose_node, schedule_now}
use clique.Server.Races.{gc_races}

abbrev is_offline : NodeStatus → Bool
is_offline NodeStatus.offline = true
is_offline _ = false

abbrev is_server : NodeRole → Bool
is_server NodeRole.server = true
is_server _ = false

module _ (fl : Float) (cfg : Config) where
  open fl use {F}

  -- A node that has been away for longer than its grace period
  abbrev pub is_reaped : ℕ → ℕ → NodeInfo F → Bool
  is_reaped now grace_max n = if is_server n.role then false else elim n.offline_since [
    | none ↦ false
    | some t ↦ ltb (min n.last_task_duration_s grace_max) (now - t)
  ]

  unfoldable pub reap : ℕ → ℕ → List (NodeInfo F) → List (NodeRow F) → List (NodeRow F)
  reap now grace_max [] rows = rows
  reap now grace_max (n ∷ ns) rows =
      reap now grace_max ns
        (if is_reaped now grace_max n then Registry.delete n.node_id rows else rows)

  unfoldable pub reap_offline : World → ℕ → State F → State F
  unfolding reap list_nodes
  reap_offline w grace_max s = record s {
    roster =
        reap w.now grace_max
          (select (λ (n : NodeInfo F). is_offline n.status) (list_nodes s.roster)) s.roster;
  }

  unfoldable pub lose_all : List (NodeInfo F) → State F → State F
  unfolding lose_node
  lose_all [] s = s
  lose_all (n ∷ ns) s = lose_all ns (lose_node fl cfg n.node_id s)

  -- The nodes whose heartbeat is too old
  unfoldable pub mark_lost : World → ℕ → State F → State F
  unfolding mark_offline_stale lose_all
  mark_lost w offline_after s =
      let out =
        mark_offline_stale w.now offline_after (some (λ tid. task_age_s cfg w.now tid s.queue))
          s.roster in
      lose_all out.0 (record s { roster = out.1 })

  -- The identifiers of the newest hundred tasks
  abbrev pub listed : State F → List Text
  listed s = map (λ (v : TaskView). codes v.request.task_id) (list_tasks none 100 s.queue)

  abbrev pub is_kept : (Text → Bool) → State F → Text → Bool
  is_kept is_old s tid = any (λ t. same_text t tid) (listed s) || not (is_old tid)

  -- `is_old` says which directories were not written for an hour.
  unfoldable pub gc_workspaces : (Text → Bool) → State F → State F
  unfolding list_tasks gc_races
  gc_workspaces is_old s =
      gc_races fl cfg
        (record s { dirs = select (λ (d : Text × Files). is_kept is_old s d.0) s.dirs })

  -- The web socket of an agent, with the latest one in place of another, and the end of that one
  abbrev pub connected : String → State F → State F
  connected nid s = record s { conns = nid ∷ select (λ (x : String). not (x is nid)) s.conns }

  abbrev pub disconnected : String → State F → State F
  disconnected nid s = record s { conns = select (λ (x : String). not (x is nid)) s.conns }

  module _ (flushed : Workspace → ℕ → List String → Option String) where
    abbrev pub flush_dirty : String → Service → Service
    flush_dirty wid live = elim (get wid live.workspaces) [
      | none ↦ live
      | some ws ↦ if ws.dirty then (force_flush flushed wid live).1 else live
    ]

    unfoldable pub flush_dirty_all : List String → Service → Service
    unfolding force_flush get
    flush_dirty_all [] live = live
    flush_dirty_all (wid ∷ wids) live = flush_dirty_all wids (flush_dirty wid live)

    -- The work of every thirty seconds
    unfoldable pub periodic : (Text → Bool) → State F → State F
    unfolding gc_workspaces flush_dirty_all
    periodic is_old s =
        let t = gc_workspaces is_old s in
        record t { live = flush_dirty_all (list_ids t.live) t.live }

    abbrev pub suggested : World → (Text → String) → (F → ℕ) → State F → State F
    suggested w new_id footprint s = record s {
      engine = (analyze fl w.now new_id footprint s.roster s.queue s.engine).1;
    }

    -- One round of the loop; the flag says whether thirty seconds are over.
    unfoldable pub tick :
        World → ℕ → ℕ → (Text → String) → (F → ℕ) → (Text → Bool) → Bool → State F → State F
    unfolding mark_lost reap_offline expire_leases analyze periodic schedule_now
    tick w offline_after grace_max new_id footprint is_old is_due s =
        let lost = reap_offline w grace_max (mark_lost w offline_after s) in
        let expired : State F = record lost { queue = (expire_leases cfg w.now lost.queue).1 } in
        let t = suggested w new_id footprint expired in
        schedule_now fl cfg w 0 (if is_due then periodic is_old t else t)
