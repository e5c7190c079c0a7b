-- ===== src/Server/Members.antt =====
-- scheduler/server.py: what `_settle_race` does to the members of a race, one after the other.
use clique.Prelude.{
  String, ◌≡◌, refl, Bool, true, false, ◌||◌, none, List, [], ◌∷◌, All, Bool-cases, Option-cases,
  inl, inr, ◌is◌, arith, ap, ◌∙◌, sym, subst,
}
use clique.Types.{TaskView, Float}
use clique.Live.{codes}
use clique.Checkout.{is_task_id, cleanup}
use clique.Router.{Config, Queue, find_row, cancel}
use clique.Router.Stopped.{is_stopped, cancel-is_stopped, is_stopped-cancel, cancel-other}
use clique.Router.Views.{get_task}
use clique.Server.{State, World, Reply, done, raised, andthen}
use clique.Server.Tasks.{forget_dir}
use clique.Server.Races.{settle_member, settle_members, drop_loser}
use clique.Server.Cancels.{stop_loser-queue}

-- The task is the winner, or has stopped.
abbrev pub is_settled : String → Queue → String → Bool
is_settled winner q tid = tid is winner || is_stopped tid q

-- The identifiers name directories.
abbrev pub Named : List String → Type 0
Named = All (λ tid. is_task_id (codes tid) ≡ true)

module _ (fl : Float) (cfg : Config) (winner : String) where
  open fl use {F}

  -- What a part of the settlement does from a queue: it does not raise, stopped tasks stay so, and the
  -- row of the winner is as before.
  pub record Keeps (q : Queue) (x : Reply {0} Unit × State F) : Type 0 where
    pub ends : x.0 ≡ done tt
    pub stays : (tid : String) → is_stopped tid q ≡ true → is_stopped tid x.1.queue ≡ true
    pub spares : find_row winner x.1.queue.rows ≡ find_row winner q.rows

  same-Keeps : (q : Queue) (t : State F) → t.queue ≡ q → Keeps q (done tt, t)
  same-Keeps q t e = record {
    ends = refl;
    stays = λ tid h. rw e h;
    spares = ap (λ (p : Queue). find_row winner p.rows) e;
  }

  pub andthen-done :
      (x : Reply {0} Unit × State F) (f : Unit {0} → State F → Reply {0} Unit × State F)
      → x.0 ≡ done tt
      → andthen x f ≡ f tt x.1
  andthen-done (done u, t) f e = refl
  andthen-done (raised, t) f e = cc

  drop_loser-done :
      (w : World) (tid : String) (sib : TaskView) (s : State F)
      → is_task_id (codes tid) ≡ true
      → (drop_loser fl cfg w tid sib s).0 ≡ done tt
  unfolding forget_dir cleanup
  drop_loser-done w tid sib s named = rw named refl

  drop_loser-queue :
      (w : World) (tid : String) (sib : TaskView) (s : State F)
      → is_task_id (codes tid) ≡ true
      → (drop_loser fl cfg w tid sib s).1.queue ≡ s.queue
  unfolding forget_dir cleanup
  drop_loser-queue w tid sib s named = rw named (stop_loser-queue fl cfg w tid sib _)

  free-Keeps :
      (w : World) (tid : String) (sib : TaskView) (s : State F)
      → is_task_id (codes tid) ≡ true
      → Keeps s.queue (drop_loser fl cfg w tid sib s)
  free-Keeps w tid sib s named = record {
    ends = drop_loser-done w tid sib s named;
    stays = λ t h. rw (drop_loser-queue w tid sib s named) h;
    spares = ap (λ (q : Queue). find_row winner q.rows) (drop_loser-queue w tid sib s named);
  }

  cancel-Keeps :
      (tid : String) (q : Queue) (x : Reply {0} Unit × State F)
      → (tid is winner) ≡ false
      → Keeps (cancel tid q).1 x
      → Keeps q x
  cancel-Keeps tid q x other k = record {
    ends = k.ends;
    stays = λ t h. k.stays t (is_stopped-cancel t tid q h);
    spares = k.spares ∙ cancel-other winner tid q other;
  }

  settled-winner :
      (tid : String) (q : Queue) → (tid is winner) ≡ true → is_settled winner q tid ≡ true
  settled-winner tid q e = rw e refl

  settled-stopped :
      (tid : String) (q : Queue) → is_stopped tid q ≡ true → is_settled winner q tid ≡ true
  settled-stopped tid q e = elim (Bool-cases (tid is winner)) [
    | inl w ↦ settled-winner tid q w
    | inr w ↦ rw (w, e) refl
  ]

  absent-is_stopped : (tid : String) (q : Queue) → get_task tid q ≡ none → is_stopped tid q ≡ true
  unfolding get_task
  absent-is_stopped tid q h = elim (Option-cases (find_row tid q.rows)) [
    | inl e ↦ rw e refl
    | inr (r, e) ↦ ground (arith, e)
  ]

  -- A member that was dealt with
  record Deals (q : Queue) (tid : String) (x : Reply {0} Unit × State F) : Type 0 where
    keeps : Keeps q x
    settled : is_settled winner x.1.queue tid ≡ true

  called_off :
      (tid : String) (q : Queue) (x : Reply {0} Unit × State F)
      → (tid is winner) ≡ false
      → Keeps (cancel tid q).1 x
      → Deals q tid x
  called_off tid q x other k = record {
    keeps = cancel-Keeps tid q x other k;
    settled = settled-stopped tid x.1.queue (k.stays tid (cancel-is_stopped tid q));
  }

  settle_member-Deals :
      (w : World) (tid : String) (s : State F)
      → is_task_id (codes tid) ≡ true
      → Deals s.queue tid (settle_member fl cfg w winner tid s)
  unfolding settle_member
  settle_member-Deals w tid s named = elim (Bool-cases (tid is winner)) [
    | inl e ↦
        rw (settle_member, e)
          (record { keeps = same-Keeps s.queue s refl; settled = settled-winner tid s.queue e })
    | inr e ↦ elim (Option-cases (get_task tid s.queue)) [
      | inl n ↦
          rw (settle_member, e, n)
            (record {
              keeps = same-Keeps s.queue s refl;
              settled = settled-stopped tid s.queue (absent-is_stopped tid s.queue n);
            })
      | inr (sib, f) ↦
          let t : State F = record s { queue = (cancel tid s.queue).1 } in
          elim (Bool-cases (cancel tid s.queue).0) [
            | inr idle ↦
                rw (settle_member, e, f, idle)
                  (called_off tid s.queue (done tt, t) e (same-Keeps (cancel tid s.queue).1 t refl))
            | inl hit ↦
                rw (settle_member, e, f, hit)
                  (called_off tid s.queue (drop_loser fl cfg w tid sib t) e
                    (free-Keeps w tid sib t named))
          ]
    ]
  ]

  settled-stays :
      (q : Queue) (tid : String) (x : Reply {0} Unit × State F)
      → Keeps q x
      → is_settled winner q tid ≡ true
      → is_settled winner x.1.queue tid ≡ true
  settled-stays q tid x k h = elim (Bool-cases (tid is winner)) [
    | inl e ↦ settled-winner tid x.1.queue e
    | inr e ↦ settled-stopped tid x.1.queue (k.stays tid (ground (arith, e)))
  ]

  Keeps-then :
      (q : Queue) (x : Reply {0} Unit × State F) (f : Unit {0} → State F → Reply {0} Unit × State F)
      → Keeps q x
      → Keeps x.1.queue (f tt x.1)
      → Keeps q (andthen x f)
  Keeps-then q x f k m = rw (andthen-done x f k.ends) (record {
    ends = m.ends;
    stays = λ tid h. m.stays tid (k.stays tid h);
    spares = m.spares ∙ k.spares;
  })

  pub settle_members-Keeps :
      (w : World) (tids : List String) (s : State F)
      → Named tids
      → Keeps s.queue (settle_members fl cfg w winner tids s)
  unfolding settle_members
  settle_members-Keeps w [] s named = same-Keeps s.queue s refl
  settle_members-Keeps w (tid ∷ tids) s (named, rest) =
      let x = settle_member fl cfg w winner tid s in
      Keeps-then s.queue x (λ _ t. settle_members fl cfg w winner tids t)
        (settle_member-Deals w tid s named).keeps (settle_members-Keeps w tids x.1 rest)

  abbrev SettledIn : Queue → String → Type 0
  SettledIn q tid = is_settled winner q tid ≡ true

  pub settle_members-settled :
      (w : World) (tids : List String) (s : State F)
      → Named tids
      → All (SettledIn (settle_members fl cfg w winner tids s).1.queue) tids
  unfolding settle_members
  settle_members-settled w [] s named = tt
  settle_members-settled w (tid ∷ tids) s (named, rest) =
      let x = settle_member fl cfg w winner tid s in
      let deals = settle_member-Deals w tid s named in
      let f : Unit {0} → State F → Reply {0} Unit × State F =
        λ _ t. settle_members fl cfg w winner tids t in
      subst (λ (y : Reply {0} Unit × State F). All (SettledIn y.1.queue) (tid ∷ tids))
        (sym (andthen-done x f deals.keeps.ends))
        (
          settled-stays x.1.queue tid (settle_members fl cfg w winner tids x.1)
              (settle_members-Keeps w tids x.1 rest) deals.settled,
          settle_members-settled w tids x.1 rest,
        )
