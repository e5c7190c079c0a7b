-- ===== src/Server/Refine.antt =====
-- scheduler/server.py: what the handlers do to the queue is a run of the steps of Router.Steps.
use clique.Prelude.{
  ℕ, String, ◌<◌, ◌≡◌, refl, Bool, true, false, Option, none, some, List, [], ◌∷◌, if◌then◌else◌,
  Bool-cases, inl, inr, ◌is◌,
}
use clique.Types.{Session, Float, NodeStatus}
use clique.Registry.{list_nodes}
use clique.Router.{Config, Queue}
use clique.Router.Steps.{Step, Reach, node_lost, here, next}
use clique.Router.Owned.{IsSound, Reach-IsSound}
use clique.Schedule.{Sent, schedule_pending}
use clique.Schedule.Placed.{Reach-then, schedule_pending-Reach}
use clique.Sessions.{pin, bind_cluster}
use clique.Sessions
use clique.Server.{
  State, World, Reply, done, raised, andthen, find_session, lose_node, set_status, after_pin,
  follow, follow_if, given, is_in, deliver_one, deliver, schedule_now,
}

module _ (fl : Float) (cfg : Config) (pos : 0 < cfg.max_attempts) where
  open fl use {F}

  -- From a well-formed queue, the second queue is reached by steps.
  abbrev pub Moves : Queue → Queue → Type 0
  Moves q q' = IsSound cfg q → Reach cfg q q'

  pub stays : (q : Queue) {q' : Queue} → q' ≡ q → Moves q q'
  stays q same v = rw same here

  pub Moves-then : {q q' q'' : Queue} → Moves q q' → Moves q' q'' → Moves q q''
  Moves-then a b v = let r = a v in Reach-then cfg r (b (Reach-IsSound cfg pos r v))

  pub step : {q q' : Queue} → Step cfg q q' → Moves q q'
  step x v = next here x

  -- A call after another
  pub andthen-Moves :
      {A B : Type 0} (q : Queue) (x : Reply A × State F) (f : A → State F → Reply B × State F)
      → Moves q x.1.queue
      → ((a : A) (t : State F) → Moves t.queue (f a t).1.queue)
      → Moves q (andthen x f).1.queue
  andthen-Moves {A} {B} q (done a, t) f m k = Moves-then m (k a t)
  andthen-Moves {A} {B} q (raised, t) f m k = m

  pub if-Moves :
      {A : Type 0} (q : Queue) (b : Bool) (x y : Reply A × State F)
      → Moves q x.1.queue
      → Moves q y.1.queue
      → Moves q (if b then x else y).1.queue
  if-Moves {A} q true x y m n = m
  if-Moves {A} q false x y m n = n

  pub lose_node-Moves : (nid : String) (s : State F) → Moves s.queue (lose_node fl cfg nid s).queue
  unfolding lose_node
  lose_node-Moves nid s = step (node_lost (some nid) s.queue)

  after_pin-queue :
      (sid nid : String) (out : Sessions.Result Session) (m : Sessions.Manager) (s : State F)
      → (after_pin fl cfg sid nid out m s).queue ≡ s.queue
  after_pin-queue sid nid (Sessions.err e) m s = refl
  after_pin-queue sid nid (Sessions.ok x) m s = refl

  follow_if-queue :
      (sid : Option String) (nid : String) (s : State F)
      → (follow_if fl cfg sid nid s).queue ≡ s.queue
  unfolding follow
  follow_if-queue none nid s = refl
  follow_if-queue (some x) nid s = elim (Bool-cases (x is "")) [
    | inl e ↦ rw (follow_if, given, e) refl
    | inr e ↦
        rw (follow_if, given, e)
          (after_pin-queue x nid (pin x nid s.manager).0 (pin x nid s.manager).1 s)
  ]

  deliver_one-Moves :
      (w : World) (a : Sent F) (s : State F) → Moves s.queue (deliver_one fl cfg w a s).queue
  unfolding deliver_one set_status
  deliver_one-Moves w a s = elim (Bool-cases (is_in a.node_id s.conns)) [
    | inr away ↦ rw (deliver_one, away) (lose_node-Moves a.node_id s)
    | inl there ↦
        let busy = set_status fl cfg a.node_id NodeStatus.busy (some a.task_id) s in
        let bound = follow_if fl cfg a.session_id a.node_id busy in
        let same = follow_if-queue a.session_id a.node_id busy in
        elim (Bool-cases (w.delivers a.node_id)) [
          | inl sent ↦ rw (deliver_one, there, sent) (stays s.queue same)
          | inr lost ↦
              rw (deliver_one, there, lost)
                (Moves-then (stays s.queue same) (lose_node-Moves a.node_id bound))
        ]
  ]

  deliver-Moves :
      (w : World) (l : List (Sent F)) (s : State F) → Moves s.queue (deliver fl cfg w l s).queue
  unfolding deliver
  deliver-Moves w [] s v = here
  deliver-Moves w (a ∷ l) s v =
      Moves-then (deliver_one-Moves w a s) (deliver-Moves w l (deliver_one fl cfg w a s)) v

  pub schedule_now-Moves :
      (w : World) (k : ℕ) (s : State F) → Moves s.queue (schedule_now fl cfg w k s).queue
  unfolding schedule_now
  schedule_now-Moves w k s =
      let out =
        schedule_pending fl (find_session fl cfg s.manager) (some s.manager.contexts) cfg
          (w.attempt k) w.now (list_nodes s.roster) s.queue in
      Moves-then
        (λ v.
          schedule_pending-Reach fl (find_session fl cfg s.manager) (some s.manager.contexts) cfg
            (w.attempt k) w.now (list_nodes s.roster) s.queue v.valid.ids v.owned)
        (deliver-Moves w out.0 (record s { queue = out.1 }))
