-- ===== src/Server/Fanout.antt =====
-- scheduler/api/rest.py: `code_race`, which submits a code edit several times as one race.
use Prim.Native.Nat.{max, min}
use clique.Prelude.{ℕ, zero, suc, String, ◌+◌, List, [], ◌∷◌}
use clique.Types.{Text, TaskRequest, Float, code_edit}
use clique.Texts.{same_text}
use clique.Dict.Keyed.{store}
use clique.Router.{Config}
use clique.Server.{State, World, Reply, done, raised}
use clique.Server.Submit.{Answer, Refusal, accepted, refused, submit_task}

-- The members of a race, or the refusal that ended its submission
pub data Joined : Type 0 where
  joined : List String → Joined
  stopped : Refusal → Joined

abbrev pub fanout_of : ℕ → ℕ
fanout_of n = max 1 (min n 8)

-- The request of a member
abbrev pub member : TaskRequest → String → TaskRequest
member request key = record request { task_type = code_edit; idempotency_key = key }

module _ (fl : Float) (cfg : Config) where
  open fl use {F}

  abbrev pub after_member :
      Reply Answer × State F → (String → State F → Reply Joined × State F) → Reply Joined × State F
  after_member (done (accepted tid), s) rest = rest tid s
  after_member (done (refused r), s) rest = (done (stopped r), s)
  after_member (raised, s) rest = (raised, s)

  abbrev pub with_member : String → Reply Joined × State F → Reply Joined × State F
  with_member tid (done (joined tids), s) = (done (joined (tid ∷ tids)), s)
  with_member tid (done (stopped r), s) = (done (stopped r), s)
  with_member tid (raised, s) = (raised, s)

  -- The loop from the `i`-th member on; `key i` is the text `race:<id>:<i>`.
  unfoldable pub submit_members :
      (ℕ → World) → (ℕ → String) → TaskRequest → ℕ → ℕ → State F → Reply Joined × State F
  unfolding submit_task
  submit_members worlds key request zero i s = (done (joined []), s)
  submit_members worlds key request (suc n) i s =
      after_member (submit_task fl cfg (worlds i) (member request (key i)) s)
        (λ tid t. with_member tid (submit_members worlds key request n (i + 1) t))

  -- The group is entered when every member was submitted.
  abbrev pub enter : Text → Reply Joined × State F → Reply Joined × State F
  enter race (done (joined tids), s) =
      (done (joined tids), record s { races = store same_text race tids s.races })
  enter race (done (stopped r), s) = (done (stopped r), s)
  enter race (raised, s) = (raised, s)

  unfoldable pub code_race :
      (ℕ → World) → (ℕ → String) → Text → TaskRequest → ℕ → State F → Reply Joined × State F
  unfolding submit_members store same_text
  code_race worlds key race request fanout s =
      enter race (submit_members worlds key request (fanout_of fanout) 0 s)
