-- ===== src/Live/Flush.antt =====
-- scheduler/workspace.py: the checkpoints, as far as memory goes, `_flush`, `force_flush`, `shutdown_flush`, and
-- `clear`. The commit hook, or the git library where there is none, is the parameter `commit`: it
-- gives the identifier of the commit, or `none` where it fails.
use clique.Prelude.{ℕ, String, false, Option, none, some, List, [], ◌∷◌, length, if◌then◌else◌}
use clique.Dict.{get, put, remove, get_or}
use clique.Live.{Workspace, Service, Result, ok, err, no_workspace}
use clique.Live.Create.{list_ids}

module _ (commit : Workspace → ℕ → List String → Option String) where
  unfoldable pub flush : String → Workspace → Service → Option String × Service
  unfolding put remove get_or
  flush wid ws s =
      let ws' : Workspace = record ws { dirty = false } in
      if ws.dirty
      then (
        commit ws' (get_or wid 0 s.ops_since_flush) (get_or wid [] s.actors_since_flush),
        record {
          workspaces = put wid ws' s.workspaces;
          ops_since_flush = remove wid s.ops_since_flush;
          actors_since_flush = remove wid s.actors_since_flush;
        },
      )
      else (none, s)

  -- The debounced flush that is pending is cancelled first.
  unfoldable pub force_flush : String → Service → Result (Option String) × Service
  unfolding flush get
  force_flush wid s = elim (get wid s.workspaces) [
    | none ↦ (err no_workspace, s)
    | some ws ↦
        let ws' : Workspace = record ws { flush_pending = false } in
        let s' : Service = record s { workspaces = put wid ws' s.workspaces } in
        let (sha, s'') = flush wid ws' s' in (ok sha, s'')
  ]

  -- A flush of an object that `create` or `clear` has taken away from under its identifier: of the
  -- service only the counters change, which are those of the identifier.
  unfoldable pub flush_replaced : String → Workspace → Service → Service
  unfolding remove
  flush_replaced wid ws s =
      if ws.dirty
      then record s {
        ops_since_flush = remove wid s.ops_since_flush;
        actors_since_flush = remove wid s.actors_since_flush;
      }
      else s

  -- The debounced flush wakes up: its task is done when it returns. It holds the workspace that it was
  -- made for, which is given where another stands under the identifier by now.
  unfoldable pub debounced_flush : String → Option Workspace → Service → Service
  unfolding flush flush_replaced get
  debounced_flush wid (some held) s = flush_replaced wid held s
  debounced_flush wid none s = elim (get wid s.workspaces) [
    | none ↦ s
    | some ws ↦
        let ws' : Workspace = record ws { flush_pending = false } in
        (flush wid ws' (record s { workspaces = put wid ws' s.workspaces })).1
  ]

  unfoldable pub flush_all : List String → Service → Service
  unfolding force_flush
  flush_all [] s = s
  flush_all (wid ∷ wids) s = flush_all wids (force_flush wid s).1

  unfoldable pub shutdown_flush : Service → Service
  unfolding flush_all
  shutdown_flush s = flush_all (list_ids s) s

-- Every workspace is dropped, with the counters.
unfoldable pub clear : Service → ℕ × Service
clear s =
    (length s.workspaces, record { workspaces = []; ops_since_flush = []; actors_since_flush = [] })
