-- ===== src/Server/Runs.antt =====
-- scheduler/server.py as a transition system: the calls that keep the rows of the queue. Its queue moves
-- as Router.Steps says.
use clique.Prelude.{
  ℕ, String, ◌<◌, ◌≡◌, refl, true, Option, none, Bool-cases, Option-cases, inl, inr, ◌is◌,
  if◌then◌else◌,
}
use clique.Types.{
  Text, TaskRequest, TaskResult, TaskView, Float, NodeStatus, is_terminal, summarization,
}
use clique.Dict.{remove}
use clique.Server.Verified.{Verified, verify_code_result-Verified}
use clique.Ledger.{state_value, record_task}
use clique.Server.Races.{settle_race}
use clique.Schedule.Score.{same_type}
use clique.Router.{Config, Queue, on_result}
use clique.Registry
use clique.Router.Steps.{started, reported}
use clique.Router.Views.{get_task}
use clique.Sessions
use clique.Server.{State, World, Reply, done, raised, andthen, given, set_status, lose_node}
use clique.Server.Refine.{
  Moves, stays, Moves-then, step, andthen-Moves, if-Moves, schedule_now-Moves, lose_node-Moves,
}
use clique.Server.Submit.{alone, append_attempts}
use clique.Server.Compact.{discard}
use clique.Server.Verify.{Outside, verify_code_result}
use clique.Server.Messages.{
  covers_of, text_or_none, Message, heartbeat, progress, result, leave, on_progress, after_summary,
  commit_compaction, after_answer, commit_turn, to_session, checkpoint, close_task, on_committed,
  is_committed, on_verified, gone, on_agent_message,
}
use clique.Server.Handlers.{maybe_compact-Moves}
use clique.Server.Cancels.{settle_race-Moves}

-- A result of an agent has a final state.
abbrev pub IsFair : {F : Type 0} → Message F → Type 0
IsFair (result r) = is_terminal r.state ≡ true
IsFair _ = Unit

module _ (o : Outside) (fl : Float) (cfg : Config) (pos : 0 < cfg.max_attempts) where
  open fl use {F}

  after_answer-Moves :
      (w : World) (nid sid : String) (max_output : ℕ) (r : Sessions.Result ℕ) (s : State F)
      → Moves fl cfg pos s.queue (after_answer o fl cfg w nid sid max_output r s).1.queue
  after_answer-Moves w nid sid max_output (Sessions.ok v) s =
      maybe_compact-Moves fl cfg pos w sid max_output
        (record s { manager = (Sessions.pin sid nid s.manager).1 })
  after_answer-Moves w nid sid max_output (Sessions.err Sessions.no_such_session) s =
      stays fl cfg pos s.queue refl
  after_answer-Moves w nid sid max_output (Sessions.err Sessions.conflict) s =
      stays fl cfg pos s.queue refl
  after_answer-Moves w nid sid max_output (Sessions.err Sessions.node_unavailable) s =
      stays fl cfg pos s.queue refl

  after_summary-queue :
      (sid : String) (r : Sessions.Result ℕ) (s : State F)
      → (after_summary o fl cfg sid r s).1.queue ≡ s.queue
  after_summary-queue sid (Sessions.ok v) s = refl
  after_summary-queue sid (Sessions.err Sessions.no_such_session) s = refl
  after_summary-queue sid (Sessions.err Sessions.conflict) s = refl
  after_summary-queue sid (Sessions.err Sessions.node_unavailable) s = refl

  commit_turn-Moves :
      (w : World) (nid sid : String) (output : Text) (request : TaskRequest) (s : State F)
      → Moves fl cfg pos s.queue (commit_turn o fl cfg w nid sid output request s).1.queue
  unfolding commit_turn
  commit_turn-Moves w nid sid output request s =
      let out =
        Sessions.append_latest alone append_attempts sid (Sessions.spoken "assistant" output) w.now
          s.manager in
      after_answer-Moves w nid sid request.max_output_tokens out.0 (record s { manager = out.1 })

  commit_compaction-Moves :
      (w : World) (sid : String) (output : Text) (request : TaskRequest) (s : State F)
      → Moves fl cfg pos s.queue (commit_compaction o fl cfg w sid output request s).1.queue
  unfolding commit_compaction
  commit_compaction-Moves w sid output request s =
      let turn = Sessions.compacted output (covers_of request.compaction_covers) in
      let out = Sessions.append_latest alone append_attempts sid turn w.now s.manager in
      stays fl cfg pos s.queue (after_summary-queue sid out.0 (record s { manager = out.1 }))

  checkpoint-queue :
      (wid : Option String) (s : State F) → (checkpoint o fl cfg wid s).queue ≡ s.queue
  unfolding checkpoint
  checkpoint-queue wid s = elim (Option-cases (given wid)) [
    | inl e ↦ rw (checkpoint, e) refl
    | inr (x, e) ↦ rw (checkpoint, e) refl
  ]

  close_task-Moves :
      (w : World) (view : TaskView) (s : State F)
      → Moves fl cfg pos s.queue (close_task o fl cfg w view s).1.queue
  unfolding close_task
  close_task-Moves w view s =
      let t : State F = record s { ledger = (record_task w.now view s.ledger).1 } in
      if-Moves fl cfg pos s.queue (is_terminal view.state) (settle_race fl cfg w view t)
        (done tt, s) (settle_race-Moves fl cfg pos w view t) (stays fl cfg pos s.queue refl)

  to_session-Moves :
      (w : World) (nid : String) (r : TaskResult) (request : TaskRequest) (s : State F)
      → Moves fl cfg pos s.queue (to_session o fl cfg w nid r request s).1.queue
  unfolding to_session
  to_session-Moves w nid r request s = elim (Option-cases (given request.session_id)) [
    | inl e ↦ rw (to_session, e) (stays fl cfg pos s.queue refl)
    | inr (sid, e) ↦ elim (Bool-cases (state_value r.state is "succeeded")) [
      | inr failed ↦
          rw (to_session, e, failed)
            (if-Moves fl cfg pos s.queue request.record_turns (done tt, s)
              (done tt, discard fl cfg sid s) (stays fl cfg pos s.queue refl)
              (stays fl cfg pos s.queue refl))
      | inl succeeded ↦ elim (Option-cases (text_or_none r.output)) [
        | inl f ↦ rw (to_session, e, succeeded, f) (stays fl cfg pos s.queue refl)
        | inr (output, f) ↦
            rw (to_session, e, succeeded, f)
              (if-Moves fl cfg pos s.queue request.record_turns
                (commit_turn o fl cfg w nid sid output request s) _
                (commit_turn-Moves w nid sid output request s)
                (if-Moves fl cfg pos s.queue (same_type request.task_type summarization)
                  (commit_compaction o fl cfg w sid output request s) (done tt, s)
                  (commit_compaction-Moves w sid output request s) (stays fl cfg pos s.queue refl)))
      ]
    ]
  ]

  on_committed-Moves :
      (w : World) (nid : String) (r : TaskResult) (s : State F)
      → Moves fl cfg pos s.queue (on_committed o fl cfg w nid r s).1.queue
  unfolding on_committed
  on_committed-Moves w nid r s =
      let t : State F = record s { progress = remove r.task_id s.progress } in
      elim (Option-cases (get_task r.task_id s.queue)) [
        | inl e ↦ rw (on_committed, e) (stays fl cfg pos s.queue refl)
        | inr (view, e) ↦
            rw (on_committed, e)
              (andthen-Moves fl cfg pos s.queue (close_task o fl cfg w view t) _
                (close_task-Moves w view t)
                (λ _ u.
                  let v = checkpoint o fl cfg view.request.workspace_id u in
                  Moves-then fl cfg pos
                    (stays fl cfg pos u.queue (checkpoint-queue view.request.workspace_id u))
                    (to_session-Moves w nid r view.request v)))
      ]

  on_verified-Moves :
      (w : World) (nid : String) (r : TaskResult) (s : State F)
      → is_terminal r.state ≡ true
      → Moves fl cfg pos s.queue (on_verified o fl cfg w nid r s).1.queue
  unfolding on_verified set_status
  on_verified-Moves w nid r s final =
      let out = on_result cfg r s.queue in
      let t : State F = record s { queue = out.1 } in
      Moves-then fl cfg pos (step fl cfg pos (reported r s.queue final)) (
        andthen-Moves fl cfg pos t.queue
          (if is_committed o fl cfg out.0 then on_committed o fl cfg w nid r t else (done tt, t)) _
          (if-Moves fl cfg pos t.queue (is_committed o fl cfg out.0)
            (on_committed o fl cfg w nid r t) (done tt, t) (on_committed-Moves w nid r t)
            (stays fl cfg pos t.queue refl))
          (λ _ u.
            schedule_now-Moves fl cfg pos w 1 (set_status fl cfg nid NodeStatus.ready none u)))

  after_verify-Moves :
      (w : World) (nid : String) (q : Queue) (x : Reply TaskResult × State F)
      → Verified o fl cfg q x
      → Moves fl cfg pos q (andthen x (λ r t. on_verified o fl cfg w nid r t)).1.queue
  after_verify-Moves w nid q (done r, t) (same, final) =
      Moves-then fl cfg pos (stays fl cfg pos q same) (on_verified-Moves w nid r t final)
  after_verify-Moves w nid q (raised, t) (same, final) = stays fl cfg pos q same

  pub on_agent_message-Moves :
      (w : World) (nid : String) (m : Message F) (s : State F)
      → IsFair m
      → Moves fl cfg pos s.queue (on_agent_message o fl cfg w nid m s).1.queue
  unfolding on_agent_message on_progress
  on_agent_message-Moves w nid (heartbeat b) s fair =
      schedule_now-Moves fl cfg pos w 1
        (record s { roster = Registry.on_heartbeat w.now nid b s.roster })
  on_agent_message-Moves w nid (progress tid attempt delta) s fair =
      step fl cfg pos (started tid attempt s.queue)
  on_agent_message-Moves w nid (result r) s fair =
      after_verify-Moves w nid s.queue (verify_code_result o fl cfg r s)
        (verify_code_result-Verified o fl cfg r s fair)
  on_agent_message-Moves w nid leave s fair =
      let t = gone o fl cfg w nid s in
      Moves-then fl cfg pos (lose_node-Moves fl cfg pos nid t)
        (schedule_now-Moves fl cfg pos w 1 (lose_node fl cfg nid t))
