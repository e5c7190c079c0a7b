-- ===== src/Server/Races.antt =====
-- scheduler/server.py: `_settle_race` and the part of `gc_workspaces` that drops race groups.
use clique.Prelude.{
  String, Bool, false, not, ◌&&◌, Option, none, some, List, [], ◌∷◌, any, if◌then◌else◌, ◌is◌,
}
use clique.Types.{Text, TaskView, Float, NodeStatus, is_terminal}
use clique.Texts.{is_prefix, same_text, split_on}
use clique.Dict.{remove}
use clique.Dict.Keyed.{Keyed, fetch, discard}
use clique.Live.{codes}
use clique.Ledger.{state_value, sha_of, is_there}
use clique.Router.{Config, cancel}
use clique.Router.Views.{get_task}
use clique.Server.{State, World, revoke, Reply, done, andthen, is_in, send, set_status, given}
use clique.Server.Tasks.{forget_dir}

abbrev second_or_none : List Text → Text
second_or_none (a ∷ b ∷ l) = b
second_or_none _ = []

-- `key.split(":", 2)[1]` of a key that begins with `race:`
unfoldable pub race_of : String → Option Text
unfolding is_prefix split_on
race_of key =
    if is_prefix (codes "race:") (codes key)
    then some (second_or_none (split_on 58 (codes key)))
    else none

-- A win: the harness accepted the patch, whose commit is known.
abbrev pub is_won : TaskView → Bool
is_won view = (state_value view.state is "succeeded") && is_there (given (sha_of view.result))

module _ (fl : Float) (cfg : Config) where
  open fl use {F}

  -- The node of a loser is told, if it can be, and is free.
  unfoldable pub stop_loser : World → String → TaskView → State F → State F
  unfolding set_status
  stop_loser w tid sib s = elim (given sib.assigned_node) [
    | none ↦ s
    | some nid ↦ elim (given sib.attempt_id) [
      | none ↦ s
      | some attempt ↦ set_status fl cfg nid NodeStatus.ready none (
          if is_in nid s.conns && w.delivers nid then send fl cfg (revoke nid tid attempt) s else s)
    ]
  ]

  -- What is left to do for a loser that was cancelled
  abbrev pub drop_loser : World → String → TaskView → State F → Reply {0} Unit × State F
  drop_loser w tid sib s =
      andthen (forget_dir fl cfg tid s)
        (λ _ t. (done tt, stop_loser w tid sib (record t { progress = remove tid t.progress })))

  -- One member of the group
  unfoldable pub settle_member : World → String → String → State F → Reply {0} Unit × State F
  unfolding get_task forget_dir remove stop_loser
  settle_member w winner tid s =
      if tid is winner then (done tt, s) else (elim (get_task tid s.queue) [
        | none ↦ (done tt, s)
        | some sib ↦
            let out = cancel tid s.queue in
            let t : State F = record s { queue = out.1 } in
            if out.0 then drop_loser w tid sib t else (done tt, t)
      ])

  unfoldable pub settle_members : World → String → List String → State F → Reply {0} Unit × State F
  unfolding settle_member
  settle_members w winner [] s = (done tt, s)
  settle_members w winner (tid ∷ rest) s =
      andthen (settle_member w winner tid s) (λ _ t. settle_members w winner rest t)

  abbrev pub close_race : Text → State F → State F
  close_race race s = record s { races = discard same_text race s.races }

  -- The members of the group, where the view is an accepted member of a race
  unfoldable pub race_won : TaskView → State F → Option (Text × List String)
  unfolding race_of fetch same_text
  race_won view s = elim (race_of view.request.idempotency_key) [
    | none ↦ none
    | some race ↦ elim (fetch same_text race s.races) [
      | none ↦ none
      | some [] ↦ none
      | some (m ∷ ms) ↦ if is_won view then some (race, m ∷ ms) else none
    ]
  ]

  unfoldable pub settle_race : World → TaskView → State F → Reply {0} Unit × State F
  unfolding race_won settle_members discard same_text
  settle_race w view s = elim (race_won view s) [
    | none ↦ (done tt, s)
    | some won ↦
        andthen (settle_members w view.request.task_id won.1 s)
          (λ _ t. (done tt, close_race won.0 t))
  ]

  -- No member of the group is live.
  abbrev pub is_live : State F → String → Bool
  is_live s tid = elim (get_task tid s.queue) [ none ↦ false | some v ↦ not (is_terminal v.state) ]

  unfoldable pub live_races : State F → Keyed Text (List String) → Keyed Text (List String)
  unfolding get_task
  live_races s [] = []
  live_races s ((race, members) ∷ rest) =
      let others = live_races s rest in
      if any (is_live s) members then (race, members) ∷ others else others

  unfoldable pub gc_races : State F → State F
  unfolding live_races
  gc_races s = record s { races = live_races s s.races }
