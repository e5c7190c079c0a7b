-- ===== src/Suggest/Load.antt =====
-- scheduler/suggestions.py: how many tasks wait for each cluster; scheduler/registry.py:
-- `list_clusters`.
use clique.Prelude.{
  ℕ, String, ◌+◌, ◌/◌, Bool, true, false, Option, none, some, List, [], ◌∷◌, ◌++◌, map, length, leb,
  if◌then◌else◌,
}
use clique.Types.{Text, Float, NodeInfo, ModelSpec, TaskView}
use clique.Dict.Keyed.{Keyed, fetch, store, store_new, discard}
use clique.Texts.{is_prefix, same_text}
use clique.Schedule.Score.{cluster_key}
use clique.Registry.{NodeRow, list_nodes}
use clique.Router.{Queue}
use clique.Router.Views.{list_tasks}

abbrev pub enter_queue_depth : ℕ
enter_queue_depth = 3

unfoldable pub same_cluster : Option Text → Option Text → Bool
unfolding same_text
same_cluster none none = true
same_cluster (some a) (some b) = same_text a b
same_cluster _ _ = false

-- `_queued_by_hint`
unfoldable pub by_hint :
    List TaskView → Keyed (Option Text) (List TaskView) → Keyed (Option Text) (List TaskView)
unfolding same_cluster fetch store
by_hint [] d = d
by_hint (v ∷ vs) d =
    let hint = v.request.model_hint in
    by_hint vs (elim (fetch same_cluster hint d) [
      | none ↦ store same_cluster hint (v ∷ []) d
      | some group ↦ store same_cluster hint (group ++ v ∷ []) d
    ])

unfoldable pub queued_by_hint : Queue → Keyed (Option Text) (List TaskView)
unfolding by_hint list_tasks
queued_by_hint q = by_hint (list_tasks (some "queued") 500 q) []

-- The queued tasks whose hint fits the cluster.
unfoldable pub hinted : Text → Keyed (Option Text) (List TaskView) → ℕ
unfolding is_prefix
hinted key [] = 0
hinted key ((none, group) ∷ d) = hinted key d
hinted key ((some hint, group) ∷ d) =
    let rest = hinted key d in if is_prefix hint key then length group + rest else rest

unfoldable pub unhinted : Keyed (Option Text) (List TaskView) → ℕ
unfolding fetch same_cluster
unhinted d = elim (fetch same_cluster none d) [ none ↦ 0 | some group ↦ length group ]

pub record Cluster (F : Type 0) : Type 0 where
  pub cluster_key : Text
  pub model : ModelSpec F
  pub node_ids : List String

-- `depth`, for each cluster
unfoldable pub depths :
    {F : Type 0} → Keyed Text (Cluster F) → Keyed (Option Text) (List TaskView) → Keyed Text ℕ
unfolding hinted unhinted
depths {F} clusters queued =
    map (λ (c : Text × Cluster F). (c.0, hinted c.0 queued + unhinted queued / length clusters))
      clusters

-- The loop over `depth`: a cluster that is overloaded keeps the first time at which it was.
unfoldable pub observe : ℕ → Keyed Text ℕ → Keyed Text ℕ → Keyed Text ℕ
unfolding store_new discard same_text
observe now [] since = since
observe now ((key, d) ∷ ds) since = observe now ds (
    if leb enter_queue_depth d
    then store_new same_text key now since
    else discard same_text key since)

module _ (fl : Float) where
  open fl use {F}

  abbrev pub join_cluster :
      Text → ModelSpec F → String → Keyed Text (Cluster F) → Keyed Text (Cluster F)
  join_cluster key m nid d = elim (fetch same_text key d) [
    | none ↦ store same_text key (record { cluster_key = key; model = m; node_ids = nid ∷ [] }) d
    | some c ↦ store same_text key (record c { node_ids = c.node_ids ++ nid ∷ [] }) d
  ]

  unfoldable pub clustered : List (NodeInfo F) → Keyed Text (Cluster F) → Keyed Text (Cluster F)
  unfolding cluster_key fetch store same_text
  clustered [] d = d
  clustered (n ∷ ns) d = elim n.model [
    | none ↦ clustered ns d
    | some m ↦ clustered ns (join_cluster (cluster_key fl m) m n.node_id d)
  ]

  unfoldable pub list_clusters : List (NodeRow F) → Keyed Text (Cluster F)
  unfolding clustered list_nodes
  list_clusters rows = clustered (list_nodes rows) []
