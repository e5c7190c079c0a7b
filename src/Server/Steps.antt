-- ===== src/Server/Steps.antt =====
-- scheduler/server.py as a transition system: the calls that keep the rows of the queue, in any order.
use clique.Prelude.{
  ℕ, zero, suc, ◌+◌, String, ◌<◌, ◌≡◌, refl, Bool, true, some, List, [], ◌∷◌, Bool-cases, inl, inr,
}
use clique.Types.{Text, TaskRequest, Float, NodeInfo, is_terminal}
use clique.Router.{Config, Queue, Row, find_row, expire_leases, task_age_s}
use clique.Registry.{mark_offline_stale}
use clique.Router.Steps.{leases_expired, Reach}
use clique.Router.Owned.{IsSound, Reach-IsSound}
use clique.Router.Final.{Reach-keeps_ended}
use clique.Server.{State, World, lose_node}
use clique.Server.{Reply, done, raised}
use clique.Server.Submit.{Answer, accepted, refused}
use clique.Server.Fanout.{
  Joined, fanout_of, member, after_member, with_member, submit_members, enter, code_race,
}
use clique.Server.Refine.{Moves, stays, Moves-then, step, schedule_now-Moves, lose_node-Moves}
use clique.Server.Tasks.{cancel_task}
use clique.Server.Submit.{submit_task}
use clique.Server.Verify.{Outside}
use clique.Server.Messages.{Message, on_agent_message}
use clique.Server.Upkeep.{
  reap_offline, lose_all, mark_lost, gc_workspaces, periodic, suggested, tick, connected,
  disconnected,
}
use clique.Server.Handlers.{submit_task-Moves}
use clique.Server.Cancels.{cancel_task-Moves}
use clique.Server.Runs.{IsFair, on_agent_message-Moves}
use clique.Server.Races.{gc_races}

module _ (o : Outside) (fl : Float) (cfg : Config) where
  open fl use {F}

  -- One call of the server.
  pub data Step (s : State F) : State F → Type 0 where
    submitted : (w : World) (request : TaskRequest) → Step s (submit_task fl cfg w request s).1
    cancelled : (w : World) (tid : String) → Step s (cancel_task fl cfg w tid s).1
    told :
        (w : World) (nid : String) (m : Message F)
        → IsFair m
        → Step s (on_agent_message o fl cfg w nid m s).1
    ticked :
        (w : World) (offline_after grace_max : ℕ) (new_id : Text → String) (footprint : F → ℕ)
        (is_old : Text → Bool) (is_due : Bool)
        → Step s (tick fl cfg o.flushed w offline_after grace_max new_id footprint is_old is_due s)
    raced :
        (worlds : ℕ → World) (key : ℕ → String) (race : Text) (request : TaskRequest) (fanout : ℕ)
        → Step s (code_race fl cfg worlds key race request fanout s).1
    joined : (nid : String) → Step s (connected fl cfg nid s)
    dropped : (nid : String) → Step s (disconnected fl cfg nid s)

  pub data Run (s : State F) : State F → Type 0 where
    start : Run s s
    more : {s' s'' : State F} → Run s s' → Step s' s'' → Run s s''

module _ (o : Outside) (fl : Float) (cfg : Config) (pos : 0 < cfg.max_attempts) where
  open fl use {F}

  lose_all-Moves :
      (ns : List (NodeInfo F)) (s : State F) → Moves fl cfg pos s.queue (lose_all fl cfg ns s).queue
  unfolding lose_all
  lose_all-Moves [] s v = Reach.here
  lose_all-Moves (n ∷ ns) s v =
      Moves-then fl cfg pos (lose_node-Moves fl cfg pos n.node_id s)
        (lose_all-Moves ns (lose_node fl cfg n.node_id s)) v

  periodic-queue :
      (is_old : Text → Bool) (s : State F) → (periodic fl cfg o.flushed is_old s).queue ≡ s.queue
  unfolding periodic gc_workspaces gc_races
  periodic-queue is_old s = refl

  tick-Moves :
      (w : World) (offline_after grace_max : ℕ) (new_id : Text → String) (footprint : F → ℕ)
      (is_old : Text → Bool) (is_due : Bool) (s : State F)
      → Moves fl cfg pos s.queue
          (tick fl cfg o.flushed w offline_after grace_max new_id footprint is_old is_due s).queue
  unfolding tick mark_lost reap_offline
  tick-Moves w offline_after grace_max new_id footprint is_old is_due s =
      let lost = reap_offline fl cfg w grace_max (mark_lost fl cfg w offline_after s) in
      let expired : State F = record lost { queue = (expire_leases cfg w.now lost.queue).1 } in
      let t = suggested fl cfg o.flushed w new_id footprint expired in
      let waits =
        Moves-then fl cfg pos
          (lose_all-Moves
            (mark_offline_stale w.now offline_after (some (λ tid. task_age_s cfg w.now tid s.queue))
              s.roster).0
            (record s {
              roster =
                  (mark_offline_stale w.now offline_after
                    (some (λ tid. task_age_s cfg w.now tid s.queue)) s.roster).1;
            }))
          (step fl cfg pos (leases_expired w.now lost.queue)) in
      Moves-then fl cfg pos waits (elim (Bool-cases is_due) [
        | inl e ↦ rw e (
            Moves-then fl cfg pos (stays fl cfg pos t.queue (periodic-queue is_old t))
              (schedule_now-Moves fl cfg pos w 0 (periodic fl cfg o.flushed is_old t)))
        | inr e ↦ rw e (schedule_now-Moves fl cfg pos w 0 t)
      ])

  after_member-Moves :
      (q : Queue) (x : Reply Answer × State F) (rest : String → State F → Reply Joined × State F)
      → Moves fl cfg pos q x.1.queue
      → ((tid : String) (t : State F) → Moves fl cfg pos t.queue (rest tid t).1.queue)
      → Moves fl cfg pos q (after_member fl cfg x rest).1.queue
  after_member-Moves q (done (accepted tid), t) rest m k = Moves-then fl cfg pos m (k tid t)
  after_member-Moves q (done (refused r), t) rest m k = m
  after_member-Moves q (raised, t) rest m k = m

  with_member-queue :
      (tid : String) (x : Reply Joined × State F) → (with_member fl cfg tid x).1.queue ≡ x.1.queue
  with_member-queue tid (done (Joined.joined tids), t) = refl
  with_member-queue tid (done (Joined.stopped r), t) = refl
  with_member-queue tid (raised, t) = refl

  enter-queue :
      (race : Text) (x : Reply Joined × State F) → (enter fl cfg race x).1.queue ≡ x.1.queue
  enter-queue race (done (Joined.joined tids), t) = refl
  enter-queue race (done (Joined.stopped r), t) = refl
  enter-queue race (raised, t) = refl

  submit_members-Moves :
      (worlds : ℕ → World) (key : ℕ → String) (request : TaskRequest) (n i : ℕ) (s : State F)
      → Moves fl cfg pos s.queue (submit_members fl cfg worlds key request n i s).1.queue
  unfolding submit_members
  submit_members-Moves worlds key request zero i s = stays fl cfg pos s.queue refl
  submit_members-Moves worlds key request (suc n) i s =
      after_member-Moves s.queue (submit_task fl cfg (worlds i) (member request (key i)) s) _
        (submit_task-Moves fl cfg pos (worlds i) (member request (key i)) s)
        (λ tid t. Moves-then fl cfg pos (submit_members-Moves worlds key request n (i + 1) t) (
          stays fl cfg pos _
            (with_member-queue tid (submit_members fl cfg worlds key request n (i + 1) t))))

  code_race-Moves :
      (worlds : ℕ → World) (key : ℕ → String) (race : Text) (request : TaskRequest) (fanout : ℕ)
      (s : State F)
      → Moves fl cfg pos s.queue (code_race fl cfg worlds key race request fanout s).1.queue
  unfolding code_race
  code_race-Moves worlds key race request fanout s =
      let x = submit_members fl cfg worlds key request (fanout_of fanout) 0 s in
      Moves-then fl cfg pos (submit_members-Moves worlds key request (fanout_of fanout) 0 s)
        (stays fl cfg pos x.1.queue (enter-queue race x))

  Step-Moves : {s s' : State F} → Step o fl cfg s s' → Moves fl cfg pos s.queue s'.queue
  Step-Moves {s} (submitted w request) = submit_task-Moves fl cfg pos w request s
  Step-Moves {s} (cancelled w tid) = cancel_task-Moves fl cfg pos w tid s
  Step-Moves {s} (told w nid m fair) = on_agent_message-Moves o fl cfg pos w nid m s fair
  Step-Moves {s} (ticked w a b c d e f) = tick-Moves w a b c d e f s
  Step-Moves {s} (raced worlds key race request fanout) =
      code_race-Moves worlds key race request fanout s
  Step-Moves {s} (joined nid) = stays fl cfg pos s.queue refl
  Step-Moves {s} (dropped nid) = stays fl cfg pos s.queue refl

  Run-Moves : {s s' : State F} → Run o fl cfg s s' → Moves fl cfg pos s.queue s'.queue
  Run-Moves {s} start = stays fl cfg pos s.queue refl
  Run-Moves (more r x) = Moves-then fl cfg pos (Run-Moves r) (Step-Moves x)

  -- From a well-formed queue, however the server's calls follow each other (submissions, races, cancels,
  -- messages of agents with final results, ticks, and web sockets that open and close), what they do to
  -- the queue is a sequence of the router's steps: it stays well-formed, and the row of a task that has
  -- ended does not change.
  pub Run-refines :
      {s s' : State F}
      → IsSound cfg s.queue
      → Run o fl cfg s s'
      → Reach cfg s.queue s'.queue
        × (IsSound cfg s'.queue
            × ((tid : String) (r : Row)
                → find_row tid s.queue.rows ≡ some r
                → is_terminal r.state ≡ true
                → find_row tid s'.queue.rows ≡ some r))
  Run-refines v r =
      let moved = Run-Moves r v in
      (
        moved,
        (
          Reach-IsSound cfg pos moved v,
          λ tid row found ended. Reach-keeps_ended cfg tid pos v.valid found ended moved,
        ),
      )
