-- ===== src/Server/Cancels.antt =====
-- scheduler/server.py: cancelling and settling move the queue by steps of Router.Steps.
use clique.Prelude.{
  String, ◌<◌, ◌≡◌, refl, ◌&&◌, Option, none, some, List, [], ◌∷◌, Bool-cases, Option-cases, inl,
  inr, ◌is◌,
}
use clique.Types.{TaskView, Float}
use clique.Checkout
use clique.Router.{Config, Queue, cancel}
use clique.Router.Steps.{Step, here}
use clique.Router.Views.{get_task}
use clique.Server.{State, World, given, set_status, is_in}
use clique.Server.Refine.{Moves, stays, Moves-then, step, andthen-Moves}
use clique.Server.Tasks.{forget_dir, after_cleanup, free_node, cancel_task}
use clique.Server.Races.{
  stop_loser, drop_loser, settle_member, settle_members, settle_race, race_won,
}

module _ (fl : Float) (cfg : Config) where
  open fl use {F}

  after_cleanup-queue :
      (r : Checkout.Result {0} Unit) (dirs : Checkout.Dirs) (s : State F)
      → (after_cleanup fl cfg r dirs s).1.queue ≡ s.queue
  after_cleanup-queue (Checkout.err e) dirs s = refl
  after_cleanup-queue (Checkout.ok u) dirs s = refl

  pub forget_dir-queue : (tid : String) (s : State F) → (forget_dir fl cfg tid s).1.queue ≡ s.queue
  unfolding forget_dir
  forget_dir-queue tid s = after_cleanup-queue _ _ s

  free_node-queue :
      (w : World) (tid : String) (attempt nid : Option String) (s : State F)
      → (free_node fl cfg w tid attempt nid s).1.queue ≡ s.queue
  unfolding set_status
  free_node-queue w tid attempt none s = refl
  free_node-queue w tid attempt (some nid) s = elim (Bool-cases (nid is "")) [
    | inl e ↦ rw (free_node, e) refl
    | inr e ↦ elim (Bool-cases (is_in nid s.conns)) [
      | inr away ↦ rw (free_node, e, away) refl
      | inl there ↦ elim (Bool-cases (w.delivers nid)) [
        | inl sent ↦ rw (free_node, e, there, sent) refl
        | inr lost ↦ rw (free_node, e, there, lost) refl
      ]
    ]
  ]

  pub stop_loser-queue :
      (w : World) (tid : String) (sib : TaskView) (s : State F)
      → (stop_loser fl cfg w tid sib s).queue ≡ s.queue
  unfolding stop_loser set_status
  stop_loser-queue w tid sib s = elim (Option-cases (given sib.assigned_node)) [
    | inl e ↦ rw (stop_loser, e) refl
    | inr (nid, e) ↦ elim (Option-cases (given sib.attempt_id)) [
      | inl f ↦ rw (stop_loser, e, f) refl
      | inr (attempt, f) ↦ elim (Bool-cases (is_in nid s.conns && w.delivers nid)) [
        | inl sent ↦ rw (stop_loser, e, f, sent) refl
        | inr lost ↦ rw (stop_loser, e, f, lost) refl
      ]
    ]
  ]

module _ (fl : Float) (cfg : Config) (pos : 0 < cfg.max_attempts) where
  open fl use {F}

  cancel-Moves : (tid : String) (q : Queue) → Moves fl cfg pos q (cancel tid q).1
  cancel-Moves tid q = step fl cfg pos (Step.cancelled tid q)

  pub cancel_task-Moves :
      (w : World) (tid : String) (s : State F)
      → Moves fl cfg pos s.queue (cancel_task fl cfg w tid s).1.queue
  unfolding cancel_task
  cancel_task-Moves w tid s = elim (Option-cases (get_task tid s.queue)) [
    | inl e ↦ rw (cancel_task, e) (stays fl cfg pos s.queue refl)
    | inr (view, e) ↦ elim (Bool-cases (cancel tid s.queue).0) [
      | inr idle ↦ rw (cancel_task, e, idle) (cancel-Moves tid s.queue)
      | inl hit ↦
          let t : State F = record s { queue = (cancel tid s.queue).1 } in
          rw (cancel_task, e, hit)
            (Moves-then fl cfg pos (cancel-Moves tid s.queue) (
              andthen-Moves fl cfg pos t.queue (forget_dir fl cfg tid t) _
                (stays fl cfg pos t.queue (forget_dir-queue fl cfg tid t))
                (λ _ u.
                  stays fl cfg pos u.queue
                    (free_node-queue fl cfg w tid view.attempt_id view.assigned_node u))))
    ]
  ]

  drop_loser-Moves :
      (w : World) (tid : String) (sib : TaskView) (s : State F)
      → Moves fl cfg pos s.queue (drop_loser fl cfg w tid sib s).1.queue
  drop_loser-Moves w tid sib s =
      andthen-Moves fl cfg pos s.queue (forget_dir fl cfg tid s) _
        (stays fl cfg pos s.queue (forget_dir-queue fl cfg tid s))
        (λ _ t. stays fl cfg pos t.queue (stop_loser-queue fl cfg w tid sib _))

  settle_member-Moves :
      (w : World) (winner tid : String) (s : State F)
      → Moves fl cfg pos s.queue (settle_member fl cfg w winner tid s).1.queue
  unfolding settle_member
  settle_member-Moves w winner tid s = elim (Bool-cases (tid is winner)) [
    | inl e ↦ rw (settle_member, e) (stays fl cfg pos s.queue refl)
    | inr e ↦ elim (Option-cases (get_task tid s.queue)) [
      | inl n ↦ rw (settle_member, e, n) (stays fl cfg pos s.queue refl)
      | inr (sib, f) ↦ elim (Bool-cases (cancel tid s.queue).0) [
        | inr idle ↦ rw (settle_member, e, f, idle) (cancel-Moves tid s.queue)
        | inl hit ↦
            rw (settle_member, e, f, hit)
              (Moves-then fl cfg pos (cancel-Moves tid s.queue)
                (drop_loser-Moves w tid sib (record s { queue = (cancel tid s.queue).1 })))
      ]
    ]
  ]

  settle_members-Moves :
      (w : World) (winner : String) (tids : List String) (s : State F)
      → Moves fl cfg pos s.queue (settle_members fl cfg w winner tids s).1.queue
  unfolding settle_members
  settle_members-Moves w winner [] s v = here
  settle_members-Moves w winner (tid ∷ tids) s v =
      andthen-Moves fl cfg pos s.queue (settle_member fl cfg w winner tid s) _
        (settle_member-Moves w winner tid s) (λ _ t. settle_members-Moves w winner tids t) v

  pub settle_race-Moves :
      (w : World) (view : TaskView) (s : State F)
      → Moves fl cfg pos s.queue (settle_race fl cfg w view s).1.queue
  unfolding settle_race
  settle_race-Moves w view s = elim (Option-cases (race_won fl cfg view s)) [
    | inl e ↦ rw (settle_race, e) (stays fl cfg pos s.queue refl)
    | inr (won, e) ↦
        rw (settle_race, e)
          (andthen-Moves fl cfg pos s.queue (settle_members fl cfg w view.request.task_id won.1 s) _
            (settle_members-Moves w view.request.task_id won.1 s)
            (λ _ t. stays fl cfg pos t.queue refl))
  ]
