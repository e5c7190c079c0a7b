-- ===== src/Server/Messages.antt =====
-- scheduler/server.py: `_on_agent_message`, the messages of an agent. The tool calls, which change
-- files of live workspaces only, are left out.
use clique.Prelude.{
  ℕ, String, Bool, false, Option, none, some, List, [], ◌∷◌, ◌++◌, if◌then◌else◌, ◌is◌,
}
use clique.Types.{
  Text, TaskView, TaskRequest, TaskResult, Float, NodeStatus, summarization, is_terminal,
}
use clique.Texts.{is_empty}
use clique.Dict.{put, remove, get_or}
use clique.Live.Flush.{force_flush}
use clique.Schedule.Score.{same_type}
use clique.Ledger.{state_value, record_task}
use clique.Registry.{Beat}
use clique.Registry
use clique.Router.{Config, on_result, mark_running, task_age_s}
use clique.Router
use clique.Router.Views.{get_task}
use clique.Sessions.{append_latest, spoken, compacted, pin, ok, err, conflict}
use clique.Sessions
use clique.Server.{
  State, World, Reply, done, raised, andthen, given, lose_node, set_status, schedule_now,
}
use clique.Server.Submit.{append_attempts, alone}
use clique.Server.Compact.{discard, maybe_compact}
use clique.Server.Races.{settle_race}
use clique.Server.Verify.{Outside, verify_code_result}

pub data Message (F : Type 0) : Type 0 where
  heartbeat : Beat F → Message F
  progress : (task attempt : String) → Text → Message F
  result : TaskResult → Message F
  leave : Message F

abbrev pub covers_of : Option (ℕ × ℕ) → List ℕ
covers_of none = []
covers_of (some (lo, hi)) = lo ∷ hi ∷ []

abbrev pub text_or_none : Option Text → Option Text
text_or_none none = none
text_or_none (some t) = if is_empty t then none else some t

-- The task of a node that leaves
abbrev pub task_of : Option String → Option String
task_of task = given task

module _ (o : Outside) (fl : Float) (cfg : Config) where
  open fl use {F}

  -- The text is kept whatever the attempt; only the row asks for it.
  unfoldable pub on_progress : String → String → Text → State F → State F
  unfolding put get_or
  on_progress tid attempt delta s = record s {
    progress = put tid (get_or tid [] s.progress ++ delta) s.progress;
    queue = mark_running tid attempt s.queue;
  }

  abbrev pub after_summary : String → Sessions.Result ℕ → State F → Reply {0} Unit × State F
  after_summary sid (ok v) t = (done tt, discard fl cfg sid t)
  after_summary sid (err conflict) t = (done tt, discard fl cfg sid t)
  after_summary sid (err e) t = (raised, t)

  -- The summary of a session; a conflict is logged.
  unfoldable pub commit_compaction :
      World → String → Text → TaskRequest → State F → Reply {0} Unit × State F
  unfolding append_latest
  commit_compaction w sid output request s =
      let turn = compacted output (covers_of request.compaction_covers) in
      let out = append_latest alone append_attempts sid turn w.now s.manager in
      after_summary sid out.0 (record s { manager = out.1 })

  -- A turn that is in the log pins the session, which may be compacted then.
  abbrev pub after_answer :
      World → String → String → ℕ → Sessions.Result ℕ → State F → Reply {0} Unit × State F
  after_answer w nid sid max_output (ok v) t =
      maybe_compact fl cfg w sid max_output (record t { manager = (pin sid nid t.manager).1 })
  after_answer w nid sid max_output (err conflict) t = (done tt, t)
  after_answer w nid sid max_output (err e) t = (raised, t)

  -- The assistant's turn
  unfoldable pub commit_turn :
      World → String → String → Text → TaskRequest → State F → Reply {0} Unit × State F
  unfolding append_latest pin maybe_compact
  commit_turn w nid sid output request s =
      let out =
        append_latest alone append_attempts sid (spoken "assistant" output) w.now s.manager in
      after_answer w nid sid request.max_output_tokens out.0 (record s { manager = out.1 })

  -- What a settled task writes into its session
  unfoldable pub to_session :
      World → String → TaskResult → TaskRequest → State F → Reply {0} Unit × State F
  unfolding commit_compaction commit_turn
  to_session w nid r request s = elim (given request.session_id) [
    | none ↦ (done tt, s)
    | some sid ↦
        if state_value r.state is "succeeded"
        then (elim (text_or_none r.output) [
          | none ↦ (done tt, s)
          | some output ↦
              if request.record_turns
              then commit_turn w nid sid output request s
              else if same_type request.task_type summarization
              then commit_compaction w sid output request s
              else (done tt, s)
        ])
        else if request.record_turns
        then (done tt, s)
        else (done tt, discard fl cfg sid s)
  ]

  -- The workspace of a settled task is checkpointed.
  unfoldable pub checkpoint : Option String → State F → State F
  unfolding force_flush
  checkpoint wid s = elim (given wid) [
    | none ↦ s
    | some x ↦ record s { live = (force_flush o.flushed x s.live).1 }
  ]

  -- The ledger and the race of a task that has ended
  unfoldable pub close_task : World → TaskView → State F → Reply {0} Unit × State F
  unfolding record_task settle_race
  close_task w view s =
      if is_terminal view.state
      then settle_race fl cfg w view (record s { ledger = (record_task w.now view s.ledger).1 })
      else (done tt, s)

  -- What follows a result that the queue took
  unfoldable pub on_committed : World → String → TaskResult → State F → Reply {0} Unit × State F
  unfolding get_task close_task checkpoint to_session remove
  on_committed w nid r s =
      let t : State F = record s { progress = remove r.task_id s.progress } in
      elim (get_task r.task_id t.queue) [
        | none ↦ (done tt, t)
        | some view ↦
            andthen (close_task w view t)
              (λ _ u. to_session w nid r view.request (checkpoint view.request.workspace_id u))
      ]

  abbrev pub is_committed : Router.Result Bool → Bool
  is_committed (Router.ok b) = b
  is_committed (Router.err e) = false

  -- A result that was verified; whatever became of it, its node is free.
  unfoldable pub on_verified : World → String → TaskResult → State F → Reply {0} Unit × State F
  unfolding on_committed set_status schedule_now
  on_verified w nid r s =
      let out = on_result cfg r s.queue in
      let t : State F = record s { queue = out.1 } in
      andthen (if is_committed out.0 then on_committed w nid r t else (done tt, t))
        (λ _ u. (done tt, schedule_now fl cfg w 1 (set_status fl cfg nid NodeStatus.ready none u)))

  abbrev pub age_of : World → String → State F → ℕ
  age_of w nid s = elim (Registry.get nid s.roster) [
    | none ↦ 0
    | some n ↦ elim (task_of n.current_task_id) [
      | none ↦ 0
      | some tid ↦ task_age_s cfg w.now tid s.queue
    ]
  ]

  abbrev pub gone : World → String → State F → State F
  gone w nid s = record s { roster = Registry.remove w.now nid (age_of w nid s) s.roster }

  unfoldable pub on_agent_message : World → String → Message F → State F → Reply {0} Unit × State F
  unfolding on_progress on_verified verify_code_result lose_node schedule_now
  on_agent_message w nid (heartbeat b) s = (
    done tt,
    schedule_now fl cfg w 1 (record s { roster = Registry.on_heartbeat w.now nid b s.roster }),
  )
  on_agent_message w nid (progress tid attempt delta) s = (done tt, on_progress tid attempt delta s)
  on_agent_message w nid (result r) s =
      andthen (verify_code_result o fl cfg r s) (λ r' t. on_verified w nid r' t)
  on_agent_message w nid leave s =
      (done tt, schedule_now fl cfg w 1 (lose_node fl cfg nid (gone w nid s)))
