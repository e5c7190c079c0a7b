-- ===== src/Server/Forgotten.antt =====
-- scheduler/server.py: what `delete_task` leaves of a task.
use clique.Prelude.{
  String, ◌≡◌, refl, Bool, true, false, not, ◌&&◌, none, some, List, [], ◌∷◌, All, select,
  Bool-cases, Option-cases, inl, inr, ◌is◌, is_iff, ap, ◌∙◌,
}
use clique.Types.{Text, TaskView, Float, in_flight}
use clique.Texts.{same_text}
use clique.Dict.{get, get-remove}
use clique.Dict.Keyed.{Keyed, fetch}
use clique.Live.{codes}
use clique.Checkout.{drop_dir, fetch-drop_dir, is_task_id, cleanup}
use clique.Router.{Config, Queue, Row, find_row, has_id}
use clique.Router
use clique.Router.Views.{get_task}
use clique.Server.{State, World, Reply, done, revoke_assignment, set_status, is_in}
use clique.Server.Tasks.{
  forget_dir, delete_task, forget_task, revoke_view, leave_races, with_members,
}

-- The task is a member of no group.
abbrev pub IsNoMember : String → Keyed Text (List String) → Type 0
IsNoMember tid races = All (λ (g : Text × List String). All (λ t. (t is tid) ≡ false) g.1) races

others :
    (tid : String) (l : List String)
    → All (λ t. (t is tid) ≡ false) (select (λ t. not (t is tid)) l)
others tid [] = tt
others tid (t ∷ l) = elim (Bool-cases (t is tid)) [
  | inl e ↦ rw e (others tid l)
  | inr e ↦ rw e (e, others tid l)
]

with_members-IsNoMember :
    (tid : String) (race : Text) (members : List String) (races : Keyed Text (List String))
    → All (λ t. (t is tid) ≡ false) members
    → IsNoMember tid races
    → IsNoMember tid (with_members race members races)
with_members-IsNoMember tid race [] races h k = k
with_members-IsNoMember tid race (t ∷ ts) races h k = (h, k)

leave_races-IsNoMember :
    (tid : String) (races : Keyed Text (List String)) → IsNoMember tid (leave_races tid races)
unfolding leave_races
leave_races-IsNoMember tid [] = tt
leave_races-IsNoMember tid ((race, members) ∷ rest) =
    with_members-IsNoMember tid race (select (λ t. not (t is tid)) members) (leave_races tid rest)
      (others tid members) (leave_races-IsNoMember tid rest)

find_row-without :
    (tid : String) (rows : List Row) → find_row tid (select (λ r. not (has_id tid r)) rows) ≡ none
unfolding find_row
find_row-without tid [] = refl
find_row-without tid (r ∷ rows) = elim (Bool-cases (r.task_id is tid)) [
  | inl e ↦ rw e (find_row-without tid rows)
  | inr e ↦ rw (e, e) (find_row-without tid rows)
]

module _ (fl : Float) (cfg : Config) where
  open fl use {F}

  -- Nothing of the task is left, and the rows of the others are as before.
  pub record Forgotten (tid : String) (q : Queue) (x : Reply Bool × State F) : Type 0 where
    pub ends : x.0 ≡ done true
    pub no_row : find_row tid x.1.queue.rows ≡ none
    pub others_stay : x.1.queue.rows ≡ select (λ r. not (has_id tid r)) q.rows
    pub no_progress : get tid x.1.progress ≡ none
    pub no_race : IsNoMember tid x.1.races
    pub no_directory : fetch same_text (codes tid) x.1.dirs ≡ none

  forget_task-Forgotten :
      (tid : String) (q : Queue) (t : State F)
      → t.queue ≡ q
      → fetch same_text (codes tid) t.dirs ≡ none
      → Forgotten tid q (done true, forget_task fl cfg tid t)
  unfolding Router.delete
  forget_task-Forgotten tid q t same gone = record {
    ends = refl;
    no_row = find_row-without tid t.queue.rows;
    others_stay = ap (λ (p : Queue). select (λ r. not (has_id tid r)) p.rows) same;
    no_progress = get-remove tid tid t.progress ∙ rw ((is_iff tid tid).1 refl) refl;
    no_race = leave_races-IsNoMember tid t.races;
    no_directory = gone;
  }

  revoke_view-queue :
      (w : World) (tid : String) (view : TaskView) (s : State F)
      → (revoke_view fl cfg w tid view s).queue ≡ s.queue
  unfolding revoke_assignment set_status
  revoke_view-queue w tid view s = elim (Option-cases view.assigned_node) [
    | inl e ↦ rw (revoke_view, e) refl
    | inr (nid, e) ↦ elim (Bool-cases (in_flight view.state && not (nid is ""))) [
      | inr f ↦ rw (revoke_view, e, f) refl
      | inl f ↦ elim (Bool-cases (is_in nid s.conns)) [
        | inr g ↦ rw (revoke_view, e, f, g) refl
        | inl g ↦ elim (Bool-cases (w.delivers nid)) [
          | inl h ↦ rw (revoke_view, e, f, g, h) refl
          | inr h ↦ rw (revoke_view, e, f, g, h) refl
        ]
      ]
    ]
  ]

  -- The deletion of a task that is there, whose identifier names a directory, does not raise; the task
  -- then has no row, no text put out, no place in a race and no directory, and the rows of the other
  -- tasks are as before.
  pub delete_task-Forgotten :
      (w : World) (tid : String) (s : State F) {view : TaskView}
      → get_task tid s.queue ≡ some view
      → is_task_id (codes tid) ≡ true
      → Forgotten tid s.queue (delete_task fl cfg w tid s)
  unfolding delete_task forget_dir cleanup
  delete_task-Forgotten w tid s {view} found named =
      let u = revoke_view fl cfg w tid view s in
      let t : State F = record u { dirs = drop_dir (codes tid) u.dirs } in
      rw (delete_task, found, named)
        (forget_task-Forgotten tid s.queue t (revoke_view-queue w tid view s)
          (fetch-drop_dir (codes tid) u.dirs))
