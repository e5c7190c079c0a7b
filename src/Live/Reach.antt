-- ===== src/Live/Reach.antt =====
-- scheduler/workspace.py as a transition system.
use clique.Prelude.{ℕ, String, ◌≡◌, Option, some, List}
use clique.Types.{Text}
use clique.Dict.{Dict, get, All-get}
use clique.Live.Lines.{Op}
use clique.Live.Create.{create}
use clique.Live.Flush.{flush, force_flush, debounced_flush}
use clique.Live.{Workspace, Service, apply_patch}
use clique.Live.Invariant.{IsLive, AllLive, apply_patch-AllLive}
use clique.Live.Kept.{flush-AllLive, force_flush-AllLive, debounced_flush-AllLive, create-AllLive}

module _ (commit : Workspace → ℕ → List String → Option String) where
  -- One call of the service; `flushed` is the flush that a patch schedules at once; of a
  -- workspace that was replaced by then it does what `woken` does with that workspace.
  pub data LiveStep : Service → Service → Type 0 where
    created :
        (given : Option String) (fresh : String) (initial : Dict Text) (s : Service)
        → LiveStep s (create given fresh initial s).1
    patched :
        (wid path : String) (base : ℕ) (ops : List Op) (actor : String) (s : Service)
        → LiveStep s (apply_patch wid path base ops actor s).1
    flushed :
        (wid : String) (s : Service) {ws : Workspace}
        → get wid s.workspaces ≡ some ws
        → LiveStep s (flush commit wid ws s).1
    woken :
        (wid : String) (held : Option Workspace) (s : Service)
        → LiveStep s (debounced_flush commit wid held s)
    forced : (wid : String) (s : Service) → LiveStep s (force_flush commit wid s).1

  pub data LiveReach (s : Service) : Service → Type 0 where
    here : LiveReach s s
    next : {t u : Service} → LiveReach s t → LiveStep t u → LiveReach s u

  LiveStep-AllLive : {s t : Service} → LiveStep s t → AllLive s → AllLive t
  LiveStep-AllLive (created given fresh initial s) a = create-AllLive given fresh initial s a
  LiveStep-AllLive (patched wid path base ops actor s) a =
      apply_patch-AllLive wid path base ops actor s a
  LiveStep-AllLive (flushed wid s {ws = ws} e) a =
      flush-AllLive commit wid ws s (All-get IsLive wid s.workspaces e a) a
  LiveStep-AllLive (woken wid held s) a = debounced_flush-AllLive commit wid held s a
  LiveStep-AllLive (forced wid s) a = force_flush-AllLive commit wid s a

  -- However creations, patches and flushes interleave, those of replaced workspaces included, every file
  -- of every workspace keeps one linear history (versions one by one, sequence numbers rising and not
  -- above the workspace's, at most 200 entries), and no path stands twice.
  pub LiveReach-AllLive : {s t : Service} → AllLive s → LiveReach s t → AllLive t
  LiveReach-AllLive a here = a
  LiveReach-AllLive a (next r st) = LiveStep-AllLive st (LiveReach-AllLive a r)
