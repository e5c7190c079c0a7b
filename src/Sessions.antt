-- ===== src/Sessions.antt =====
-- scheduler/sessions.py: the sessions, their turns in the context store, and migration. The sqlite
-- table `sessions` is a list of rows; new identifiers and the clock come in as arguments.
pub mod Appends
mod Tests
use Prim.Native.Nat.{max}
use clique.Prelude.{
  ℕ, zero, suc, String, ◌+◌, Bool, true, false, not, ◌&&◌, ◌||◌, Option, none, some, List, [], ◌∷◌,
  ◌++◌, length, select, any, ◌==◌, if◌then◌else◌, ◌is◌, holds,
}
use clique.Types.{Text, Session, NodeStatus, Float, NodeInfo}
use clique.Texts.{same_text}
use clique.Context
use clique.Context.{Turn, Store, latest_version}
use clique.Schedule.Score.{cluster_key}

pub record SessionRow : Type 0 where
  pub session : Session
  pub active : Bool

pub record Manager : Type 0 where
  pub rows : List SessionRow
  pub migrating : List String
  pub contexts : Store

pub data SessionError : Type 0 where
  no_such_session conflict node_unavailable : SessionError

pub data Result {ℓ} (A : Type ℓ) : Type ℓ where
  ok : A → Result A
  err : SessionError → Result A

abbrev pub is_session : String → SessionRow → Bool
is_session sid r = r.session.session_id is sid

unfoldable pub find_session : String → List SessionRow → Option SessionRow
find_session sid [] = none
find_session sid (r ∷ rs) = if is_session sid r then some r else find_session sid rs

-- `_save`: INSERT OR REPLACE
unfoldable pub save : Session → Bool → Manager → Manager
save s active m = record m {
  rows =
      select (λ r. not (is_session s.session_id r)) m.rows
      ++ (record { session = s; active = active }) ∷ [];
}

unfoldable pub create : String → String → Text → Manager → Session × Manager
unfolding save
create fresh owner cluster m =
    let s : Session = record {
      session_id = fresh;
      owner_node = owner;
      cluster_key = cluster;
      pinned_node = none;
      context_version = 0;
      watchers = [];
    } in
    (s, save s true m)

-- The session as it is stored, with its version from the context store.
unfoldable pub get : String → Manager → Result Session
unfolding find_session
get sid m = elim (find_session sid m.rows) [
  | none ↦ err no_such_session
  | some r ↦ ok (record r.session { context_version = latest_version sid m.contexts })
]

-- A change of a session that is there, saved if the test says so.
abbrev pub amend :
    (Session → Bool) → (Session → Session) → String → Manager → Result Session × Manager
amend test f sid m = elim (get sid m) [
  | err e ↦ (err e, m)
  | ok s ↦ if test s then (ok (f s), save (f s) true m) else (ok s, m)
]

abbrev is_blank : Text → Bool
is_blank [] = true
is_blank (c ∷ t) = false

unfoldable pub bind_cluster : String → Text → Manager → Result Session × Manager
unfolding get save
bind_cluster sid cluster =
    amend (λ s. is_blank s.cluster_key && not (is_blank cluster))
      (λ s. record s { cluster_key = cluster }) sid

unfoldable pub pin : String → String → Manager → Result Session × Manager
unfolding get save
pin sid node =
    amend (λ s. not (holds s.pinned_node node)) (λ s. record s { pinned_node = some node }) sid

unfoldable pub watch : String → String → Manager → Result Session × Manager
unfolding get save
watch sid watcher =
    amend (λ s. not (any (λ w. w is watcher) s.watchers))
      (λ s. record s { watchers = s.watchers ++ watcher ∷ [] }) sid

-- `append_turn` and `append_compaction`, which differ in the turn.
unfoldable pub append : String → ℕ → Turn → ℕ → Manager → Result ℕ × Manager
unfolding get
append sid expected turn now m = elim (get sid m) [
  | err e ↦ (err e, m)
  | ok s ↦ elim (Context.append_turn sid expected turn now m.contexts) [
    | none ↦ (err conflict, m)
    | some out ↦ (ok out.0, record m { contexts = out.1 })
  ]
]

abbrev pub spoken : String → Text → Turn
spoken role content = record { role = role; content = content; is_compaction = false; covers = [] }

abbrev pub compacted : Text → List ℕ → Turn
compacted content covers = record {
  role = "system";
  content = content;
  is_compaction = true;
  covers = covers;
}

abbrev retry : Result ℕ × Manager → Result ℕ × Manager → Result ℕ × Manager
retry (err conflict, m) again = again
retry out again = out

-- The loop of `_append_latest`; `meddle` is what other writers append between the read of the version
-- and the write, in each attempt.
unfoldable pub append_tries : (Store → Store) → ℕ → String → Turn → ℕ → Manager → Result ℕ × Manager
unfolding append
append_tries meddle zero sid turn now m = (err conflict, m)
append_tries meddle (suc n) sid turn now m =
    let version = latest_version sid m.contexts in
    let out = append sid version turn now (record m { contexts = meddle m.contexts }) in
    let again = append_tries meddle n sid turn now out.1 in retry out again

unfoldable pub append_latest :
    (Store → Store) → ℕ → String → Turn → ℕ → Manager → Result ℕ × Manager
unfolding append_tries
append_latest meddle attempts = append_tries meddle (max 1 attempts)

abbrev is_up : NodeStatus → Bool
is_up NodeStatus.ready = true
is_up NodeStatus.busy = true
is_up _ = false

module _ (fl : Float) where
  abbrev serves : Text → NodeInfo fl.F → Bool
  serves cluster n = elim n.model [ none ↦ false | some m ↦ same_text (cluster_key fl m) cluster ]

  -- The repin, to a node that the registry has or has not.
  abbrev pub repin : String → String → Option (NodeInfo fl.F) → Manager → Result Session × Manager
  repin sid to_node target m = elim (get sid m) [
    | err e ↦ (err e, m)
    | ok s ↦ elim target [
      | none ↦ (err node_unavailable, m)
      | some n ↦
          if is_up n.status && serves s.cluster_key n
          then (
            ok (record s { pinned_node = some to_node }),
            save (record s { pinned_node = some to_node }) true m,
          )
          else (err node_unavailable, m)
    ]
  ]

  -- `migrate`; the mark is set for the time of the call.
  unfoldable pub migrate :
      String → String → Option (NodeInfo fl.F) → Manager → Result Session × Manager
  unfolding get save same_text
  migrate sid to_node target m =
      if any (λ s. s is sid) m.migrating
      then (err conflict, m)
      else (let out = repin sid to_node target (record m { migrating = sid ∷ m.migrating }) in
          (out.0, record out.1 { migrating = select (λ s. not (s is sid)) out.1.migrating }))

unfoldable pub close : String → Manager → Result {0} Unit × Manager
unfolding get save
close sid m = elim (get sid m) [ err e ↦ (err e, m) | ok s ↦ (ok tt, save s false m) ]

unfoldable pub delete : String → Manager → Result {0} Unit × Manager
unfolding get
delete sid m = elim (get sid m) [
  | err e ↦ (err e, m)
  | ok s ↦ (
    ok tt,
    record {
      rows = select (λ r. not (is_session sid r)) m.rows;
      migrating = select (λ s. not (s is sid)) m.migrating;
      contexts = Context.delete sid m.contexts;
    },
  )
]

unfoldable pub clear : Manager → ℕ × Manager
clear m = (length m.rows, record m { rows = []; migrating = [] })
