-- ===== src/Server/Logged.antt =====
-- scheduler/server.py: the turn of the user and the queue, in `submit_task`.
use clique.Prelude.{
  String, ◌+◌, false, [], ◌≡◌, refl, Bool, true, none, some, ap, ◌∙◌, length, select, leb,
  if◌then◌else◌, arith,
}
use clique.Types.{Text, TaskRequest, Session, Float}
use clique.Context.{Turn, latest_version}
use clique.Router.{Config, Queue, find_key, submit, is_open, queue_full}
use clique.Router
use clique.Sessions.{SessionRow, Manager, find_session, append_latest, spoken, ok}
use clique.Sessions
use clique.Sessions.Appends.{logged, append_latest-get}
use clique.Server.{State, World, Reply, done, given}
use clique.Server.Submit.{
  Answer, refused, too_many_tasks, enqueue, enqueue_turn, after_turn, in_session, hinted, alone,
  append_attempts, with_session,
}

if-true : {A : Type 0} (b : Bool) (x y : A) → b ≡ true → (if b then x else y) ≡ x
if-true b x y h = rw h refl

get-ok :
    (sid : String) (m : Manager) {r : SessionRow}
    → find_session sid m.rows ≡ some r
    → Sessions.get sid m ≡ ok (record r.session { context_version = latest_version sid m.contexts })
unfolding Sessions.get
get-ok sid m found = rw (Sessions.get, found) refl

-- The turn in which the user says the text
abbrev pub by_user : Text → Turn
by_user said = record { role = "user"; content = said; is_compaction = false; covers = [] }

hinted-key :
    (session : Session) (request : TaskRequest)
    → (hinted session request).idempotency_key ≡ request.idempotency_key
hinted-key session request = ground arith

module _ (fl : Float) (cfg : Config) where
  open fl use {F}

  -- The queue takes no more tasks, and does not know this one.
  pub record IsFull (key : String) (q : Queue) : Type 0 where
    pub unknown : find_key key q.rows ≡ none
    pub full : leb cfg.queue_cap (length (select is_open q.rows)) ≡ true

  submit-full :
      (fresh : String) (request : TaskRequest) (q : Queue)
      → IsFull request.idempotency_key q
      → submit cfg fresh request q ≡ (Router.err queue_full, q)
  unfolding submit
  submit-full fresh request q f = rw (submit, f.unknown) (rw f.full refl)

  enqueue-full :
      (w : World) (request : TaskRequest) (s : State F)
      → IsFull request.idempotency_key s.queue
      → enqueue fl cfg w request s ≡ (done (refused too_many_tasks), s)
  unfolding enqueue
  enqueue-full w request s f = rw (enqueue, submit-full w.task_id request s.queue f) refl

  enqueue_turn-full :
      (w : World) (sid : String) (said : Text) (session : Session) (request : TaskRequest)
      (s : State F) {r : SessionRow}
      → find_session sid s.manager.rows ≡ some r
      → request.record_turns ≡ true
      → IsFull request.idempotency_key s.queue
      → enqueue_turn fl cfg w sid said session request s ≡ (
        done (refused too_many_tasks),
        record s {
          manager =
              (append_latest alone append_attempts sid (spoken "user" said) w.now s.manager).1;
        },
      )
  unfolding enqueue_turn
  enqueue_turn-full w sid said session request s found turns f =
      let turn = append_latest-get append_attempts sid (spoken "user" said) w.now s.manager found in
      let t : State F = record s {
        manager = (append_latest alone append_attempts sid (spoken "user" said) w.now s.manager).1;
      } in
      let known : IsFull (hinted session request).idempotency_key t.queue =
        rw (hinted-key session request) f in
      if-true request.record_turns _ _ turns
      ∙ (ap (λ k. after_turn fl cfg w (hinted session request) k t) turn.0
          ∙ enqueue-full w (hinted session request) t known)

  -- A submission for a session that is there, whose turns are recorded, is refused where the queue is
  -- full and does not know the task; the log has a new row all the same, with the text of the user under
  -- the session's next version.
  pub in_session-full :
      (w : World) (sid : String) (said : Text) (request : TaskRequest) (s : State F)
      {r : SessionRow}
      → given request.session_id ≡ some sid
      → find_session sid s.manager.rows ≡ some r
      → request.record_turns ≡ true
      → IsFull request.idempotency_key s.queue
      → ((in_session fl cfg w said request s).0 ≡ done (refused too_many_tasks))
        × (((in_session fl cfg w said request s).1.manager
              ≡ logged sid (by_user said) w.now s.manager)
            × (Sessions.get sid (in_session fl cfg w said request s).1.manager
                ≡ ok (record r.session {
                  context_version = latest_version sid s.manager.contexts + 1;
                })))
  unfolding in_session
  in_session-full w sid said request s {r} has found turns f =
      let turn = append_latest-get append_attempts sid (spoken "user" said) w.now s.manager found in
      let after : State F = record s {
        manager = (append_latest alone append_attempts sid (spoken "user" said) w.now s.manager).1;
      } in
      let full : in_session fl cfg w said request s ≡ (done (refused too_many_tasks), after) =
        rw (in_session, has)
          (ap (λ k. with_session fl cfg w sid said request k s) (get-ok sid s.manager found)
            ∙ enqueue_turn-full w sid said
                (record r.session { context_version = latest_version sid s.manager.contexts })
                request s found turns f) in
      (
        ap (λ (x : Reply Answer × State F). x.0) full,
        (
          ap (λ (x : Reply Answer × State F). x.1.manager) full ∙ turn.1.0,
          ap (λ (x : Reply Answer × State F). Sessions.get sid x.1.manager) full ∙ turn.1.1,
        ),
      )
