-- ===== src/Gateway/Cluster/Examples.antt =====
-- A user with two devices online, one file and the protection by two nodes.
use mathlib.Core.List.{Memᴰ}
use pcos.Prelude.{ℕ, ◌+◌, ◌≡◌, refl, [], ◌∷◌, none, some, true, false, length, Text, codes}
use pcos.Common.Result.{ok}
use pcos.Files.Table.{Row, file, select, is_keyed}
use pcos.Gateway.Cluster.{
  Cluster, two_node, new_protection, find_protection, mode_of, target_replicas, online_devices,
  place, rebalance_files, rebalance_cluster, replica_count, get_cluster_status, update_cluster_mode,
}
use pcos.Gateway.Cluster.Rebalance.{Grows, rebalance_cluster_lem}

abbrev show : ℕ → Text
show n = n ∷ []

abbrev rep_id : ℕ → ℕ → Text
rep_id f d = f ∷ d ∷ []

abbrev photo : Row
photo = record {
  id = 3;
  user_id = 7;
  parent_id = none;
  name = codes "p";
  entry_type = file;
  mime_type = none;
  size_bytes = 5;
  sha256_hash = none;
  storage_path = none;
  is_trashed = false;
  trashed_at = none;
  created_at = 1;
  updated_at = 1;
}

abbrev cluster : Cluster
cluster = record {
  files = photo ∷ [];
  devices =
      record { id = 1; user_id = 7; is_online = true }
      ∷ record { id = 2; user_id = 7; is_online = true }
      ∷ [];
  replicas = [];
  protections = new_protection 7 two_node 10 ∷ [];
}

rebalance_cluster_lem_example :
    let target = target_replicas (mode_of (find_protection 7 cluster.protections)) in
    let ((added, verified), after) = rebalance_cluster show rep_id 20 7 cluster in
    Grows show rep_id 20 target (online_devices 7 cluster.devices) 3 cluster.replicas after.replicas
    × (length after.replicas ≡ length cluster.replicas + added)
unfolding is_keyed
rebalance_cluster_lem_example =
    rebalance_cluster_lem show rep_id 20 7 cluster photo (Memᴰ.head refl) refl refl

-- One call places one replica, a second call the other one, and a third none.
abbrev again : Cluster → Cluster
again c = (rebalance_cluster show rep_id 20 7 c).1

places_two : replica_count 3 (again (again (again cluster))).replicas ≡ 2
unfolding rebalance_cluster rebalance_files place select
places_two = refl

degrades :
    (get_cluster_status 7 (record cluster {
      devices = record { id = 1; user_id = 7; is_online = true } ∷ [];
    })).health_status
    ≡ codes "degraded"
unfolding get_cluster_status
degrades = refl

switches :
    (update_cluster_mode 7 (some (codes "always_on_nas")) 20 cluster).0
    ≡ ok (codes "always_on_nas", 5, 1)
unfolding update_cluster_mode
switches = refl
