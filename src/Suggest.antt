-- ===== src/Suggest.antt =====
-- scheduler/suggestions.py: the class SuggestionEngine. Times are seconds. The texts of a suggestion for
-- the dashboard, its rationale and its expected effect, are left out.
pub mod Load
pub mod Active
pub mod Cooldown
mod Tests
use clique.Prelude.{
  ℕ, String, ◌+◌, ◌-◌, ◌/◌, Bool, true, false, not, ◌&&◌, Option, none, some, List, [], ◌∷◌, ◌++◌,
  map, any, select, length, ltb, leb, if◌then◌else◌, ◌is◌,
}
use clique.Types.{Text, Float, NodeInfo, NodeStatus, ModelSpec, TaskView}
use clique.Dict.{Dict, get, put, remove}
use clique.Dict.Keyed.{Keyed, fetch, store, store_new, discard}
use clique.Texts.{is_prefix, same_text, is_empty}
use clique.Schedule.Score.{cluster_key}
use clique.Suggest.Load.{same_cluster, queued_by_hint, depths, observe, Cluster, list_clusters}
use clique.Registry.{NodeRow, list_nodes}
use clique.Router.{Queue}
use clique.Router.Views.{list_tasks}

abbrev pub observe_window : ℕ
observe_window = 30

abbrev pub cooldown : ℕ
cooldown = 600

pub record Suggestion : Type 0 where
  pub suggestion_id : String
  pub kind : String
  pub target_node : Option String
  pub from_cluster : Option Text
  pub to_cluster : Option Text
  pub created_at : ℕ

-- The key of a cooldown: the kind, the target and the cluster.
abbrev pub Sig : Type 0
Sig = String × Option String × Option Text

abbrev pub sig_of : Suggestion → Sig
sig_of s = (s.kind, s.target_node, s.to_cluster)

abbrev same_node : Option String → Option String → Bool
same_node none none = true
same_node (some a) (some b) = a is b
same_node _ _ = false

unfoldable pub same_sig : Sig → Sig → Bool
unfolding same_cluster
same_sig (k, n, c) (l, m, d) = (k is l) && same_node n m && same_cluster c d

pub record Engine : Type 0 where
  pub active : Dict Suggestion
  pub cooldowns : Keyed Sig ℕ
  pub overloaded_since : Keyed Text ℕ

abbrev pub is_ready : NodeStatus → Bool
is_ready NodeStatus.ready = true
is_ready _ = false

abbrev pub is_none {ℓ} : {A : Type ℓ} → Option A → Bool
is_none none = true
is_none (some a) = false

-- `self._cooldowns.get(sig, now) > now`
unfoldable pub is_cooling : ℕ → Sig → Engine → Bool
unfolding fetch same_sig
is_cooling now sig e = elim (fetch same_sig sig e.cooldowns) [ none ↦ false | some t ↦ ltb now t ]

unfoldable pub is_active : Sig → Dict Suggestion → Bool
unfolding same_sig
is_active sig d = any (λ (s : String × Suggestion). same_sig (sig_of s.1) sig) d

abbrev pub swap_sig : String → Text → Sig
swap_sig nid key = ("swap_model", some nid, some key)

-- The cluster of the suggestion has an entry in `_overloaded_since`, or the suggestion has no cluster.
unfoldable pub is_marked : Keyed Text ℕ → Suggestion → Bool
unfolding fetch same_text
is_marked since s = elim s.to_cluster [
  | none ↦ true
  | some key ↦ if is_empty key then true else not (is_none (fetch same_text key since))
]

unfoldable pub retire : Engine → Engine
unfolding is_marked
retire e = record e {
  active = select (λ (s : String × Suggestion). is_marked e.overloaded_since s.1) e.active;
}

module _ (fl : Float) where
  open fl use {F}

  abbrev pub runs_other : Text → NodeInfo F → Bool
  runs_other key n = elim n.model [ none ↦ false | some m ↦ not (same_text (cluster_key fl m) key) ]

  -- `mem is None or mem >= needed_mb`
  abbrev pub has_memory : ℕ → NodeInfo F → Bool
  has_memory needed n = elim n.resources [
    | none ↦ true
    | some r ↦ elim r.memory_available_mb [ none ↦ true | some mb ↦ leb needed mb ]
  ]

  unfoldable pub is_candidate : ℕ → Text → ℕ → Engine → NodeInfo F → Bool
  unfolding cluster_key same_text is_cooling is_active
  is_candidate now key needed e n =
      runs_other key n
      && is_none n.current_task_id
      && has_memory needed n
      && not (is_cooling now (swap_sig n.node_id key) e)
      && not (is_active (swap_sig n.node_id key) e.active)

  unfoldable pub first_fit : (NodeInfo F → Bool) → List (NodeInfo F) → Option (NodeInfo F)
  first_fit p [] = none
  first_fit p (n ∷ ns) = if p n then some n else first_fit p ns

  abbrev pub cluster_of : NodeInfo F → Option Text
  cluster_of n = elim n.model [ none ↦ none | some m ↦ some (cluster_key fl m) ]

  abbrev pub suggestion : ℕ → String → Text → NodeInfo F → Suggestion
  suggestion now sid key n = record {
    suggestion_id = sid;
    kind = "swap_model";
    target_node = some n.node_id;
    from_cluster = cluster_of n;
    to_cluster = some key;
    created_at = now;
  }

  -- `new_id` gives the identifiers, `footprint` is `int(b * 1200)` of the parameters of a model.
  module _ (now : ℕ) (new_id : Text → String) (footprint : F → ℕ) where
    -- The suggestion for one overloaded cluster, if there is one.
    unfoldable pub suggest_for :
        Keyed Text (Cluster F) → List (NodeInfo F) → Text → ℕ → Engine → Option Suggestion
    unfolding fetch same_text first_fit is_candidate cluster_key
    suggest_for clusters nodes key since e =
        if ltb (now - since) observe_window then none else elim (fetch same_text key clusters) [
          | none ↦ none
          | some c ↦
              elim (first_fit (is_candidate now key (footprint c.model.parameter_count_b) e)
                nodes) [ none ↦ none | some n ↦ some (suggestion now (new_id key) key n) ]
        ]

    abbrev pub activate : Suggestion → Engine → Engine
    activate s e = record e { active = put s.suggestion_id s e.active }

    unfoldable pub suggest_all :
        Keyed Text (Cluster F)
        → List (NodeInfo F)
        → Keyed Text ℕ
        → Engine
        → List Suggestion × Engine
    unfolding suggest_for put
    suggest_all clusters nodes [] e = ([], e)
    suggest_all clusters nodes ((key, since) ∷ rest) e =
        elim (suggest_for clusters nodes key since e) [
          | none ↦ suggest_all clusters nodes rest e
          | some s ↦ let out = suggest_all clusters nodes rest (activate s e) in (s ∷ out.0, out.1)
        ]

    unfoldable pub analyze : List (NodeRow F) → Queue → Engine → List Suggestion × Engine
    unfolding list_clusters queued_by_hint depths observe suggest_all list_nodes retire
    analyze rows q e =
        let clusters = list_clusters fl rows in
        let since = observe now (depths clusters (queued_by_hint q)) e.overloaded_since in
        let nodes = select (λ (n : NodeInfo F). is_ready n.status) (list_nodes rows) in
        let out = suggest_all clusters nodes since (record e { overloaded_since = since }) in
        (out.0, retire out.1)

unfoldable pub clear : Engine → ℕ × Engine
clear e = (length e.active, record { active = []; cooldowns = []; overloaded_since = [] })

-- `none` is the KeyError of a suggestion that is not there.
unfoldable pub dismiss : ℕ → String → Engine → Option Engine
unfolding get remove store same_sig
dismiss now sid e = elim (get sid e.active) [
  | none ↦ none
  | some s ↦ some (record e {
    active = remove sid e.active;
    cooldowns = store same_sig (sig_of s) (now + cooldown) e.cooldowns;
  })
]
