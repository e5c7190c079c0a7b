-- ===== src/Server/Settled.antt =====
-- scheduler/server.py: what `_settle_race` leaves of a race that is won.
use clique.Prelude.{String, ◌≡◌, refl, true, none, some, List, All}
use clique.Types.{Text, TaskView, Float}
use clique.Texts.{same_text}
use clique.Dict.Keyed.{fetch, fetch-discard}
use clique.Router.{Config, find_row}
use clique.Server.{State, World, Reply, done}
use clique.Server.Races.{settle_members, settle_race, race_won, close_race}
use clique.Server.Members.{
  is_settled, Named, andthen-done, settle_members-Keeps, settle_members-settled,
}

module _ (fl : Float) (cfg : Config) where
  open fl use {F}

  -- What a settled race is: the call did not raise, the group is gone, no member but the winner has an
  -- open row, and the winner's row is as before.
  pub record Settled (winner : String) (won : Text × List String) (s : State F)
      (x : Reply {0} Unit × State F) : Type 0 where
    pub ends : x.0 ≡ done tt
    pub closed : fetch same_text won.0 x.1.races ≡ none
    pub stopped : All (λ tid. is_settled winner x.1.queue tid ≡ true) won.1
    pub spared : find_row winner x.1.queue.rows ≡ find_row winner s.queue.rows

  -- A task of a race that succeeded with a commit settles its race, where the identifiers of the
  -- members name directories: the call does not raise, the group of the race is gone, every other member
  -- that is still there has ended, and the row of the task is as before.
  pub settle_race-Settled :
      (w : World) (view : TaskView) (s : State F) {won : Text × List String}
      → race_won fl cfg view s ≡ some won
      → Named won.1
      → Settled view.request.task_id won s (settle_race fl cfg w view s)
  unfolding settle_race
  settle_race-Settled w view s {won} e named =
      let winner = view.request.task_id in
      let x = settle_members fl cfg w winner won.1 s in
      let k = settle_members-Keeps fl cfg winner w won.1 s named in
      rw (settle_race, e)
        (rw (andthen-done fl cfg winner x (λ _ t. (done tt, close_race fl cfg won.0 t)) k.ends)
          (record {
            ends = refl;
            closed = fetch-discard same_text won.0 x.1.races;
            stopped = settle_members-settled fl cfg winner w won.1 s named;
            spared = k.spares;
          }))
