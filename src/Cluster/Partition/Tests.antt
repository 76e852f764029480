-- ===== src/Cluster/Partition/Tests.antt =====
-- Five partitions on three nodes of src/cluster.c.
use inventixdb.Base.{ℕ, ◌≡◌, refl, List, [], ◌∷◌, none}
use inventixdb.Cluster.{
  ClusterNode, ClusterState, ClusterConfig, leader, follower, healthy, cluster_init,
}
use inventixdb.Cluster.Partition.{
  partition_hash, partition_init, new_partitions, count_alive, find_target, is_over, even_share,
  rebalance_partitions, partition_for_key, hash_djb2, djb2_from,
}
use inventixdb.Cluster.Partition.Stuck.{rebalance_partitions-stuck}

abbrev node : ℕ → List ℕ → ClusterNode
node id held = record {
  node_id = id;
  name = [];
  role = follower;
  status = healthy;
  last_heartbeat = 0;
  join_time = 0;
  partitions = held;
}

abbrev three : List ClusterNode
three = node 1 (0 ∷ 1 ∷ 2 ∷ []) ∷ node 2 (3 ∷ []) ∷ node 3 (4 ∷ []) ∷ []

abbrev settings : ClusterConfig
settings = record {
  self_node_id = 1;
  self_name = [];
  heartbeat_interval = 0;
  election_timeout_min = 0;
  election_timeout_max = 0;
  node_timeout = 0;
  replication_factor = 0;
  rebalance_threshold_percent = 20;
}

abbrev uneven : ClusterState
uneven =
    record (partition_init (cluster_init settings (record { now = 0; rand = 0 })) 5
      partition_hash) { nodes = three; current_role = leader }

share_of_uneven : even_share uneven ≡ 1
unfolding partition_init cluster_init new_partitions even_share count_alive
share_of_uneven = refl

rebalance_partitions-stuck_example : rebalance_partitions 1000 uneven ≡ none
unfolding partition_init cluster_init new_partitions even_share count_alive find_target is_over
rebalance_partitions-stuck_example =
    rebalance_partitions-stuck uneven 0 (node 1 (0 ∷ 1 ∷ 2 ∷ [])) refl refl refl refl 1000

-- "ab" on five partitions
key_place : partition_for_key uneven (97 ∷ 98 ∷ []) ≡ 3
unfolding partition_for_key partition_init cluster_init new_partitions hash_djb2 djb2_from
key_place = refl
