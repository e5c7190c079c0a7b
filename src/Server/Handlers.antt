-- ===== src/Server/Handlers.antt =====
-- scheduler/server.py: submitting and compacting move the queue by steps of Router.Steps.
use clique.Prelude.{
  ℕ, String, ◌<◌, refl, Option, none, some, List, ◌∷◌, Bool-cases, Option-cases, inl, inr,
}
use clique.Types.{Text, Session, TaskRequest, Float}
use clique.Live.{Workspace}
use clique.Live.Create.{Snapshot, snapshot}
use clique.Live
use clique.Router.{Config, Queue, submit, cancel, on_result, expire_leases, mark_running}
use clique.Router
use clique.Router.Steps.{submitted}
use clique.Sessions
use clique.Server.{State, World, given, is_in}
use clique.Types.{ChatMessage}
use clique.Context.Plan.{compaction_plan}
use clique.Server.Refine.{Moves, stays, Moves-then, step, if-Moves, schedule_now-Moves}
use clique.Server.Submit.{
  with_session, with_snapshot, after_submit, enqueue, after_turn, enqueue_turn, hinted, in_session,
  with_edit, edited, submit_task, alone, append_attempts,
}
use clique.Server.Compact.{
  compact_with, after_job, start_compaction, maybe_compact, session_window, compaction_job,
}

module _ (fl : Float) (cfg : Config) (pos : 0 < cfg.max_attempts) where
  open fl use {F}

  after_submit-Moves :
      (w : World) (r : Router.Result String) (t : State F)
      → Moves fl cfg pos t.queue (after_submit fl cfg w r t).1.queue
  after_submit-Moves w (Router.ok tid) t = schedule_now-Moves fl cfg pos w 0 t
  after_submit-Moves w (Router.err Router.queue_full) t = stays fl cfg pos t.queue refl
  after_submit-Moves w (Router.err Router.integrity_error) t = stays fl cfg pos t.queue refl
  after_submit-Moves w (Router.err Router.lease_expired) t = stays fl cfg pos t.queue refl

  enqueue-Moves :
      (w : World) (request : TaskRequest) (s : State F)
      → Moves fl cfg pos s.queue (enqueue fl cfg w request s).1.queue
  unfolding enqueue
  enqueue-Moves w request s =
      Moves-then fl cfg pos (step fl cfg pos (submitted w.task_id request s.queue)) (
        after_submit-Moves w (submit cfg w.task_id request s.queue).0
          (record s { queue = (submit cfg w.task_id request s.queue).1 }))

  after_turn-Moves :
      (w : World) (request : TaskRequest) (r : Sessions.Result ℕ) (t : State F)
      → Moves fl cfg pos t.queue (after_turn fl cfg w request r t).1.queue
  after_turn-Moves w request (Sessions.ok v) t = enqueue-Moves w request t
  after_turn-Moves w request (Sessions.err Sessions.no_such_session) t =
      stays fl cfg pos t.queue refl
  after_turn-Moves w request (Sessions.err Sessions.conflict) t = stays fl cfg pos t.queue refl
  after_turn-Moves w request (Sessions.err Sessions.node_unavailable) t =
      stays fl cfg pos t.queue refl

  enqueue_turn-Moves :
      (w : World) (sid : String) (said : Text) (session : Session) (request : TaskRequest)
      (s : State F)
      → Moves fl cfg pos s.queue (enqueue_turn fl cfg w sid said session request s).1.queue
  unfolding enqueue_turn
  enqueue_turn-Moves w sid said session request s =
      let out =
        Sessions.append_latest alone append_attempts sid (Sessions.spoken "user" said) w.now
          s.manager in
      let request' = hinted session request in
      if-Moves fl cfg pos s.queue request.record_turns
        (after_turn fl cfg w request' out.0 (record s { manager = out.1 }))
        (enqueue fl cfg w request' s)
        (after_turn-Moves w request' out.0 (record s { manager = out.1 }))
        (enqueue-Moves w request' s)

  with_session-Moves :
      (w : World) (sid : String) (said : Text) (request : TaskRequest) (r : Sessions.Result Session)
      (s : State F)
      → Moves fl cfg pos s.queue (with_session fl cfg w sid said request r s).1.queue
  with_session-Moves w sid said request (Sessions.err e) s = stays fl cfg pos s.queue refl
  with_session-Moves w sid said request (Sessions.ok session) s =
      enqueue_turn-Moves w sid said session request s

  in_session-Moves :
      (w : World) (said : Text) (request : TaskRequest) (s : State F)
      → Moves fl cfg pos s.queue (in_session fl cfg w said request s).1.queue
  unfolding in_session
  in_session-Moves w said request s = elim (Option-cases (given request.session_id)) [
    | inl e ↦ rw (in_session, e) (enqueue-Moves w request s)
    | inr (sid, e) ↦
        rw (in_session, e) (with_session-Moves w sid said request (Sessions.get sid s.manager) s)
  ]

  with_edit-Moves :
      (w : World) (snap : Option Snapshot) (request : TaskRequest) (s : State F)
      → Moves fl cfg pos s.queue (with_edit fl cfg w snap request s).1.queue
  with_edit-Moves w snap request s = elim (Option-cases (edited snap request)) [
    | inl e ↦ rw (with_edit, e) (stays fl cfg pos s.queue refl)
    | inr (request', e) ↦ rw (with_edit, e) (in_session-Moves w request.prompt request' s)
  ]

  with_snapshot-Moves :
      (w : World) (request : TaskRequest) (r : Live.Result Snapshot) (s : State F)
      → Moves fl cfg pos s.queue (with_snapshot fl cfg w request r s).1.queue
  with_snapshot-Moves w request (Live.err e) s = stays fl cfg pos s.queue refl
  with_snapshot-Moves w request (Live.ok snap) s =
      with_edit-Moves w (some snap) (record request { workspace_seq = snap.seq }) s

  pub submit_task-Moves :
      (w : World) (request : TaskRequest) (s : State F)
      → Moves fl cfg pos s.queue (submit_task fl cfg w request s).1.queue
  unfolding submit_task
  submit_task-Moves w request s = elim (Option-cases (given request.workspace_id)) [
    | inl e ↦ rw (submit_task, e) (with_edit-Moves w none request s)
    | inr (wid, e) ↦ rw (submit_task, e) (with_snapshot-Moves w request (snapshot wid s.live) s)
  ]

  after_job-Moves :
      (w : World) (sid : String) (r : Router.Result String) (t : State F)
      → Moves fl cfg pos t.queue (after_job fl cfg w sid r t).1.queue
  after_job-Moves w sid (Router.ok tid) t = schedule_now-Moves fl cfg pos w 0 t
  after_job-Moves w sid (Router.err Router.queue_full) t = stays fl cfg pos t.queue refl
  after_job-Moves w sid (Router.err Router.integrity_error) t = stays fl cfg pos t.queue refl
  after_job-Moves w sid (Router.err Router.lease_expired) t = stays fl cfg pos t.queue refl

  start_compaction-Moves :
      (w : World) (sid : String) (job : TaskRequest) (s : State F)
      → Moves fl cfg pos s.queue (start_compaction fl cfg w sid job s).1.queue
  unfolding start_compaction
  start_compaction-Moves w sid job s =
      Moves-then fl cfg pos (step fl cfg pos (submitted w.job_id job s.queue)) (
        after_job-Moves w sid (submit cfg w.job_id job s.queue).0 (record s {
          queue = (submit cfg w.job_id job s.queue).1;
          compacting = sid ∷ s.compacting;
        }))

  compact_with-Moves :
      (w : World) (sid : String) (window : ℕ) (plan : (ℕ × ℕ) × List ChatMessage)
      (r : Sessions.Result Session) (s : State F)
      → Moves fl cfg pos s.queue (compact_with fl cfg w sid window plan r s).1.queue
  compact_with-Moves w sid window plan (Sessions.err e) s = stays fl cfg pos s.queue refl
  compact_with-Moves w sid window plan (Sessions.ok session) s =
      start_compaction-Moves w sid (compaction_job fl cfg w sid session window plan.0 plan.1 s) s

  pub maybe_compact-Moves :
      (w : World) (sid : String) (max_output : ℕ) (s : State F)
      → Moves fl cfg pos s.queue (maybe_compact fl cfg w sid max_output s).1.queue
  unfolding maybe_compact
  maybe_compact-Moves w sid max_output s =
      let window = session_window fl cfg sid s in
      elim (Bool-cases (is_in sid s.compacting)) [
        | inl e ↦ rw (maybe_compact, e) (stays fl cfg pos s.queue refl)
        | inr e ↦ elim (Option-cases (compaction_plan sid window max_output s.manager.contexts)) [
          | inl f ↦ rw (maybe_compact, e, f) (stays fl cfg pos s.queue refl)
          | inr (plan, f) ↦
              rw (maybe_compact, e, f)
                (compact_with-Moves w sid window plan (Sessions.get sid s.manager) s)
        ]
      ]
