-- ===== src/Registry/Tests.antt =====
-- The roster of scheduler/registry.py on concrete nodes.
use clique.Prelude.{ℕ, String, ◌≡◌, refl, none, some, List, [], ◌∷◌}
use clique.Types.{server, client, ready, NodeInfo}
use clique.Registry.{NodeRow, Joining, find_node, remove, register}
use clique.Registry.Identity.{Keeps, here, next, removed, joined, Reach-Keeps}

abbrev node : String → NodeInfo ℕ
node nid = record {
  node_id = nid;
  display_name = nid;
  role = client;
  status = ready;
  address = "";
  public_key = "key";
  model = none;
  resources = none;
  last_heartbeat_at = none;
  current_task_id = some "t1";
  offline_since = none;
  last_task_duration_s = 0;
}

abbrev roster : List (NodeRow ℕ)
roster =
    (record { join_order = 1; info = node "gpu" })
    ∷ (record { join_order = 2; info = node "pc" })
    ∷ []

abbrev back : Joining ℕ
back = record {
  node_id = "gpu";
  display_name = "gpu again";
  public_key = "other";
  address = "10.0.0.2";
  model = none;
  resources = none;
  role = server;
}

finds_gpu : find_node "gpu" roster ≡ some (record { join_order = 1; info = node "gpu" })
unfolding find_node
finds_gpu = refl

Reach-Keeps_example :
    Keeps "gpu"
      (record { join_order = 1; info = node "gpu" })
      (register 9 back (remove 7 "gpu" 3 roster)).1
Reach-Keeps_example =
    Reach-Keeps "gpu" (record { join_order = 1; info = node "gpu" }) ((refl, tt), (tt, tt))
      finds_gpu (next (next here (removed 7 3 "gpu")) (joined 9 back))
