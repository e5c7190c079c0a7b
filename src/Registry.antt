-- ===== src/Registry.antt =====
-- scheduler/registry.py: the roster of nodes. The sqlite table `nodes` is a list of rows; the clock
-- comes in as `now`.
pub mod Identity
mod Tests
use Prim.Native.Nat.{max}
use clique.Prelude.{
  ℕ, String, ◌+◌, Bool, true, false, not, ◌&&◌, ◌||◌, Option, none, some, List, [], ◌∷◌, ◌++◌, map,
  select, ltb, if◌then◌else◌, ◌is◌, holds,
}
use clique.Prelude.Sort.{sort_by}
use clique.Types.{
  NodeRole, server, client, NodeStatus, joining, ready, offline, ModelSpec, ResourceSnapshot,
  NodeInfo,
}

pub record NodeRow (F : Type 0) : Type 0 where
  pub join_order : ℕ
  pub info : NodeInfo F

abbrev is_offline : NodeStatus → Bool
is_offline offline = true
is_offline _ = false

abbrev is_server : NodeRole → Bool
is_server server = true
is_server _ = false

-- `a or b`, of objects
abbrev or_else {ℓ} : {A : Type ℓ} → Option A → Option A → Option A
or_else none b = b
or_else (some a) b = some a

-- What a node says of itself when it joins.
pub record Joining (F : Type 0) : Type 0 where
  pub node_id : String
  pub display_name : String
  pub public_key : String
  pub address : String
  pub model : Option (ModelSpec F)
  pub resources : Option (ResourceSnapshot F)
  pub role : NodeRole

pub record Beat (F : Type 0) : Type 0 where
  pub status : NodeStatus
  pub resources : Option (ResourceSnapshot F)
  pub model : Option (ModelSpec F)
  pub current_task_id : Option String

-- How long the node's task had been running.
abbrev pub task_duration : Option (String → ℕ) → Option String → ℕ
task_duration none task = 0
task_duration (some age) none = 0
task_duration (some age) (some tid) = if tid is "" then 0 else age tid

module _ {F : Type 0} where
  abbrev pub is_node : String → NodeRow F → Bool
  is_node nid r = r.info.node_id is nid

  -- `WHERE node_id=?` on the primary key
  unfoldable pub find_node : String → List (NodeRow F) → Option (NodeRow F)
  find_node nid [] = none
  find_node nid (r ∷ rs) = if is_node nid r then some r else find_node nid rs

  unfoldable pub get : String → List (NodeRow F) → Option (NodeInfo F)
  unfolding find_node
  get nid rows = elim (find_node nid rows) [ none ↦ none | some r ↦ some r.info ]

  unfoldable pub max_order : List (NodeRow F) → ℕ
  max_order [] = 0
  max_order (r ∷ rs) = max r.join_order (max_order rs)

  abbrev pub next_join_order : List (NodeRow F) → ℕ
  next_join_order rows = max_order rows + 1

  -- The join order that `_save` finds where none is given.
  abbrev pub order_of : String → List (NodeRow F) → ℕ
  order_of nid rows = elim (find_node nid rows) [
    | some r ↦ r.join_order
    | none ↦ next_join_order rows
  ]

  -- `INSERT OR REPLACE`
  unfoldable pub put_row : NodeRow F → List (NodeRow F) → List (NodeRow F)
  put_row r rows = select (λ s. not (is_node r.info.node_id s)) rows ++ r ∷ []

  -- `_save`, without and with a join order
  unfoldable pub save : NodeInfo F → List (NodeRow F) → List (NodeRow F)
  unfolding put_row find_node
  save info rows = put_row (record { join_order = order_of info.node_id rows; info = info }) rows

  unfoldable pub list_nodes : List (NodeRow F) → List (NodeInfo F)
  unfolding sort_by
  list_nodes rows = map (λ r. r.info) (sort_by (λ (r : NodeRow F). r.join_order) rows)

  -- A rejoin: with a model the scheduling state is reset, without one it stays.
  unfoldable pub rejoined : ℕ → Joining F → NodeInfo F → NodeInfo F
  rejoined now j n = elim j.model [
    | none ↦ record n {
      display_name = j.display_name;
      address = j.address;
      last_heartbeat_at = some now;
    }
    | some m ↦ record n {
      display_name = j.display_name;
      address = j.address;
      last_heartbeat_at = some now;
      model = some m;
      resources = or_else j.resources n.resources;
      status = ready;
      current_task_id = none;
    }
  ]

  abbrev pub newcomer : ℕ → Joining F → NodeInfo F
  newcomer now j = record {
    node_id = j.node_id;
    display_name = j.display_name;
    role = j.role;
    status = elim j.model [ none ↦ joining | some _ ↦ ready ];
    address = j.address;
    public_key = j.public_key;
    model = j.model;
    resources = j.resources;
    last_heartbeat_at = some now;
    current_task_id = none;
    offline_since = none;
    last_task_duration_s = 0;
  }

  unfoldable pub register : ℕ → Joining F → List (NodeRow F) → NodeInfo F × List (NodeRow F)
  unfolding save rejoined find_node
  register now j rows = elim (find_node j.node_id rows) [
    | some r ↦ (rejoined now j r.info, save (rejoined now j r.info) rows)
    | none ↦ (
      newcomer now j,
      put_row (record { join_order = next_join_order rows; info = newcomer now j }) rows,
    )
  ]

  -- An update of a node that is there.
  abbrev pub change : (NodeInfo F → NodeInfo F) → String → List (NodeRow F) → List (NodeRow F)
  change f nid rows = elim (find_node nid rows) [ none ↦ rows | some r ↦ save (f r.info) rows ]

  abbrev pub beaten : ℕ → Beat F → NodeInfo F → NodeInfo F
  beaten now b n = record n {
    status = b.status;
    resources = or_else b.resources n.resources;
    model = or_else b.model n.model;
    current_task_id = b.current_task_id;
    last_heartbeat_at = some now;
  }

  unfoldable pub on_heartbeat : ℕ → String → Beat F → List (NodeRow F) → List (NodeRow F)
  unfolding save find_node
  on_heartbeat now nid b = change (beaten now b) nid

  -- The task "__keep__" leaves the task as it is.
  abbrev pub with_status : NodeStatus → Option String → NodeInfo F → NodeInfo F
  with_status status task n =
      if holds task "__keep__"
      then record n { status = status }
      else record n { status = status; current_task_id = task }

  unfoldable pub set_status :
      String → NodeStatus → Option String → List (NodeRow F) → List (NodeRow F)
  unfolding save find_node
  set_status nid status task = change (with_status status task) nid

  abbrev pub left : ℕ → ℕ → NodeInfo F → NodeInfo F
  left now duration n = record n {
    status = offline;
    current_task_id = none;
    offline_since = some now;
    last_task_duration_s = duration;
  }

  unfoldable pub remove : ℕ → String → ℕ → List (NodeRow F) → List (NodeRow F)
  unfolding save find_node
  remove now nid duration = change (left now duration) nid

  abbrev pub is_stale : ℕ → ℕ → NodeInfo F → Bool
  is_stale now older_than n =
      not (is_offline n.status || is_server n.role)
      && elim n.last_heartbeat_at [ none ↦ false | some hb ↦ ltb (hb + older_than) now ]

  abbrev pub gone : ℕ → Option (String → ℕ) → NodeInfo F → NodeInfo F
  gone now age n = record n {
    status = offline;
    offline_since = some now;
    last_task_duration_s = task_duration age n.current_task_id;
  }

  -- The loop of `mark_offline_stale` over the listed nodes.
  unfoldable pub mark_stale :
      ℕ
      → ℕ
      → Option (String → ℕ)
      → List (NodeInfo F)
      → List (NodeRow F)
      → List (NodeInfo F) × List (NodeRow F)
  unfolding save
  mark_stale now older_than age [] rows = ([], rows)
  mark_stale now older_than age (n ∷ ns) rows =
      let after = mark_stale now older_than age ns (save (gone now age n) rows) in
      let skipped = mark_stale now older_than age ns rows in
      if is_stale now older_than n then (gone now age n ∷ after.0, after.1) else skipped

  unfoldable pub mark_offline_stale :
      ℕ → ℕ → Option (String → ℕ) → List (NodeRow F) → List (NodeInfo F) × List (NodeRow F)
  unfolding mark_stale list_nodes
  mark_offline_stale now older_than age rows = mark_stale now older_than age (list_nodes rows) rows

  unfoldable pub delete : String → List (NodeRow F) → List (NodeRow F)
  delete nid = select (λ r. not (is_node nid r))
