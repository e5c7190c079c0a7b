-- ===== src/Server/Compact.antt =====
-- scheduler/server.py: `_session_window` and `_maybe_compact`, which queues the summary of a session.
use Prim.Native.Nat.{max}
use clique.Prelude.{
  ℕ, String, ◌/◌, Bool, false, not, ◌&&◌, Option, none, some, List, [], ◌∷◌, length, select,
  if◌then◌else◌, ◌is◌,
}
use clique.Types.{Text, TaskRequest, summarization, Session, Float, NodeInfo, ChatMessage}
use clique.Texts.{is_prefix, is_empty}
use clique.Context.{latest_version, summary_max_output_tokens}
use clique.Context.Plan.{compaction_plan}
use clique.Schedule.Score.{cluster_key, join_messages}
use clique.Registry.{NodeRow, list_nodes}
use clique.Registry
use clique.Router.{Config, submit}
use clique.Router
use clique.Sessions.{Manager, append_latest, spoken, ok, err, conflict}
use clique.Sessions
use clique.Server.{State, World, Reply, done, raised, is_in, given, schedule_now}

module _ (fl : Float) (cfg : Config) where
  open fl use {F}

  -- The pinned node, then the nodes of the session's cluster
  abbrev serves : Session → NodeInfo F → Bool
  serves session n = elim n.model [
    | none ↦ false
    | some m ↦
        not (is_empty session.cluster_key) && is_prefix session.cluster_key (cluster_key fl m)
  ]

  unfoldable pub candidates : Session → List (NodeInfo F) → List String
  unfolding cluster_key is_prefix
  candidates session [] = []
  candidates session (n ∷ ns) =
      let rest = candidates session ns in if serves session n then n.node_id ∷ rest else rest

  unfoldable pub first_window : List (NodeRow F) → ℕ → List String → ℕ
  first_window roster fallback [] = fallback
  first_window roster fallback (nid ∷ rest) = elim (Registry.get nid roster) [
    | none ↦ first_window roster fallback rest
    | some n ↦ elim n.model [ none ↦ first_window roster fallback rest | some m ↦ m.context_window ]
  ]

  abbrev pub pinned_first : Option String → List String → List String
  pinned_first none rest = rest
  pinned_first (some nid) rest = nid ∷ rest

  -- A node that stands twice is asked twice, with the same answer.
  unfoldable pub session_window : String → State F → ℕ
  unfolding candidates first_window
  session_window sid s = elim (Sessions.get sid s.manager) [
    | err e ↦ 8192
    | ok session ↦
        first_window s.roster 8192
          (pinned_first (given session.pinned_node) (candidates session (list_nodes s.roster)))
  ]

  abbrev pub some_text : Text → Option Text
  some_text t = if is_empty t then none else some t

  -- The request of a compaction
  unfoldable pub compaction_job :
      World → String → Session → ℕ → (ℕ × ℕ) → List ChatMessage → State F → TaskRequest
  unfolding join_messages summary_max_output_tokens
  compaction_job w sid session window covers messages s =
      let prompt = join_messages messages in
      record {
        task_id = "";
        submitted_by_node = "";
        task_type = summarization;
        prompt = prompt;
        messages = some messages;
        session_id = some sid;
        model_hint = some_text session.cluster_key;
        workspace_id = none;
        workspace_seq = 0;
        max_output_tokens = summary_max_output_tokens window (max 1 (length prompt / 4));
        record_turns = false;
        compaction_covers = some covers;
        idempotency_key = w.job_key sid covers.1 (latest_version sid s.manager.contexts);
        code = none;
      }

  abbrev pub discard : String → State F → State F
  discard sid s = record s { compacting = select (λ (x : String). not (x is sid)) s.compacting }

  abbrev pub after_job : World → String → Router.Result String → State F → Reply {0} Unit × State F
  after_job w sid (Router.ok tid) t = (done tt, schedule_now fl cfg w 0 t)
  after_job w sid (Router.err Router.queue_full) t = (done tt, discard sid t)
  after_job w sid (Router.err e) t = (raised, t)

  -- The compaction is under way from here on.
  unfoldable pub start_compaction :
      World → String → TaskRequest → State F → Reply {0} Unit × State F
  unfolding schedule_now
  start_compaction w sid job s =
      let out = submit cfg w.job_id job s.queue in
      after_job w sid out.0 (record s { queue = out.1; compacting = sid ∷ s.compacting })

  abbrev pub compact_with :
      World
      → String
      → ℕ
      → ((ℕ × ℕ) × List ChatMessage)
      → Sessions.Result Session
      → State F
      → Reply {0} Unit × State F
  compact_with w sid window plan (err e) s = (done tt, s)
  compact_with w sid window plan (ok session) s =
      start_compaction w sid (compaction_job w sid session window plan.0 plan.1 s) s

  unfoldable pub maybe_compact : World → String → ℕ → State F → Reply {0} Unit × State F
  unfolding session_window compaction_plan compaction_job start_compaction
  maybe_compact w sid max_output s =
      let window = session_window sid s in
      if is_in sid s.compacting
      then (done tt, s)
      else (elim (compaction_plan sid window max_output s.manager.contexts) [
        | none ↦ (done tt, s)
        | some plan ↦ compact_with w sid window plan (Sessions.get sid s.manager) s
      ])
