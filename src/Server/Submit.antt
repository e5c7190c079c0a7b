-- ===== src/Server/Submit.antt =====
-- scheduler/server.py: `submit_task`.
use Prim.Native.Nat.{max}
use clique.Prelude.{
  ℕ, String, Bool, true, not, ◌&&◌, Option, none, some, List, [], ◌∷◌, if◌then◌else◌,
}
use clique.Types.{Text, TaskRequest, code_edit, CodeTaskSpec, Session, Float}
use clique.Texts.{is_empty}
use clique.Dict.{put}
use clique.Harness.{build_code_prompt}
use clique.Live.Create.{Snapshot, snapshot}
use clique.Live
use clique.Context.{Store}
use clique.Schedule.Score.{same_type}
use clique.Router.{Config, submit}
use clique.Router
use clique.Sessions.{Manager, append_latest, spoken, ok, err, conflict}
use clique.Sessions
use clique.Server.{State, World, Reply, done, raised, given, schedule_now}

-- The answers to a submission that the server refuses
pub data Refusal : Type 0 where
  no_such_workspace prompt_required no_such_session version_conflict too_many_tasks : Refusal

pub data Answer : Type 0 where
  accepted : String → Answer
  refused : Refusal → Answer

abbrev pub append_attempts : ℕ
append_attempts = 5

-- Nobody else writes while a call of the server runs.
abbrev pub alone : Store → Store
alone store = store

-- The live files win over those of the client.
unfoldable pub merge_files : List (String × ℕ × Text) → List (String × Text) → List (String × Text)
unfolding put
merge_files [] files = files
merge_files ((path, version, text) ∷ rest) files = merge_files rest (put path text files)

abbrev pub merged : Option Snapshot → CodeTaskSpec → CodeTaskSpec
merged none spec = spec
merged (some snap) spec = record spec { files = merge_files snap.files spec.files }

-- The request of a code edit, with the prompt that the harness builds
unfoldable pub code_request : Option Snapshot → TaskRequest → CodeTaskSpec → TaskRequest
unfolding merge_files build_code_prompt
code_request snap request spec = record request {
  prompt = build_code_prompt request.prompt (merged snap spec) 24000;
  code = some (merged snap spec);
  max_output_tokens = max request.max_output_tokens 6144;
}

abbrev pub edited : Option Snapshot → TaskRequest → Option TaskRequest
edited snap request = elim request.code [
  | none ↦ some request
  | some spec ↦
      if same_type request.task_type code_edit
      then (if is_empty request.prompt then none else some (code_request snap request spec))
      else some request
]

abbrev no_hint : Option Text → Bool
no_hint none = true
no_hint (some t) = is_empty t

-- The session's cluster where the request has no hint
abbrev pub hinted : Session → TaskRequest → TaskRequest
hinted session request =
    if no_hint request.model_hint && not (is_empty session.cluster_key)
    then record request { model_hint = some session.cluster_key }
    else request

module _ (fl : Float) (cfg : Config) where
  open fl use {F}

  abbrev pub after_submit : World → Router.Result String → State F → Reply Answer × State F
  after_submit w (Router.ok tid) t = (done (accepted tid), schedule_now fl cfg w 0 t)
  after_submit w (Router.err Router.queue_full) t = (done (refused too_many_tasks), t)
  after_submit w (Router.err e) t = (raised, t)

  -- The last part of a submission: the queue, and the scheduling
  unfoldable pub enqueue : World → TaskRequest → State F → Reply Answer × State F
  unfolding schedule_now
  enqueue w request s =
      let out = submit cfg w.task_id request s.queue in
      after_submit w out.0 (record s { queue = out.1 })

  abbrev pub after_turn : World → TaskRequest → Sessions.Result ℕ → State F → Reply Answer × State F
  after_turn w request (ok v) t = enqueue w request t
  after_turn w request (err conflict) t = (done (refused version_conflict), t)
  after_turn w request (err e) t = (raised, t)

  -- The turn of the user goes into the session's log before the queue is asked.
  unfoldable pub enqueue_turn :
      World → String → Text → Session → TaskRequest → State F → Reply Answer × State F
  unfolding append_latest enqueue
  enqueue_turn w sid said session request s =
      let out = append_latest alone append_attempts sid (spoken "user" said) w.now s.manager in
      let logged = after_turn w (hinted session request) out.0 (record s { manager = out.1 }) in
      if request.record_turns then logged else enqueue w (hinted session request) s

  abbrev pub with_session :
      World
      → String
      → Text
      → TaskRequest
      → Sessions.Result Session
      → State F
      → Reply Answer × State F
  with_session w sid said request (err e) s = (done (refused no_such_session), s)
  with_session w sid said request (ok session) s = enqueue_turn w sid said session request s

  unfoldable pub in_session : World → Text → TaskRequest → State F → Reply Answer × State F
  unfolding enqueue enqueue_turn
  in_session w said request s = elim (given request.session_id) [
    | none ↦ enqueue w request s
    | some sid ↦ with_session w sid said request (Sessions.get sid s.manager) s
  ]

  abbrev pub with_edit : World → Option Snapshot → TaskRequest → State F → Reply Answer × State F
  with_edit w snap request s = elim (edited snap request) [
    | none ↦ (done (refused prompt_required), s)
    | some request' ↦ in_session w request.prompt request' s
  ]

  abbrev pub with_snapshot :
      World → TaskRequest → Live.Result Snapshot → State F → Reply Answer × State F
  with_snapshot w request (Live.err e) s = (done (refused no_such_workspace), s)
  with_snapshot w request (Live.ok snap) s =
      with_edit w (some snap) (record request { workspace_seq = snap.seq }) s

  unfoldable pub submit_task : World → TaskRequest → State F → Reply Answer × State F
  unfolding in_session code_request snapshot
  submit_task w request s = elim (given request.workspace_id) [
    | none ↦ with_edit w none request s
    | some wid ↦ with_snapshot w request (snapshot wid s.live) s
  ]
