-- ===== src/Cluster/Partition.antt =====
-- Partitions and their rebalancing in src/cluster.c. Messages to the nodes and the copying of data,
-- which `sync_partition` does not do yet, are left out.
pub mod Stuck
mod Tests
use inventixdb.Base.{
  ℕ, zero, suc, ◌+◌, ◌-◌, ◌*◌, ◌/◌, ◌%◌, ◌^◌, Bool, true, false, ◌&&◌, ◌||◌, not, List, [], ◌∷◌,
  ◌++◌, Option, none, some, Bytes, ltb, leb, ◌==◌, if◌then◌else◌, length, get_elem?, set, take,
  get_or,
}
use inventixdb.Cluster.{
  NodeRole, leader, is_dead, ClusterNode, PartitionInfo, ClusterState, find_node,
}

-- `PartitionStrategy`
pub data PartitionStrategy : Type 0 where
  partition_hash partition_range : PartitionStrategy

-- A `char`, which is signed, as a `uint32_t`
abbrev pub char_to_uint : ℕ → ℕ
char_to_uint c = if ltb c 128 then c else c + 4294967040

unfoldable pub djb2_from : ℕ → Bytes → ℕ
djb2_from h [] = h
djb2_from h (c ∷ cs) = djb2_from ((h * 33 + char_to_uint c) % 2 ^ 32) cs

unfoldable pub hash_djb2 : Bytes → ℕ
hash_djb2 s = djb2_from 5381 s

-- The key of one letter at which the range `i` of `n` begins
unfoldable pub range_key : ℕ → ℕ → Bytes
range_key n i = (65 + i * (256 / n) / 10) ∷ []

unfoldable pub new_partition : PartitionStrategy → ℕ → ℕ → PartitionInfo
new_partition partition_hash n i = record {
  partition_id = i;
  primary_node = 0;
  replica_nodes = [];
  range_start = none;
  range_end = none;
}
new_partition partition_range n i = record {
  partition_id = i;
  primary_node = 0;
  replica_nodes = [];
  range_start = some (range_key n i);
  range_end = some (range_key n (i + 1));
}

-- The partitions from `i` on, of which `left` are missing
unfoldable pub new_partitions : PartitionStrategy → ℕ → ℕ → ℕ → List PartitionInfo
new_partitions strategy n zero i = []
new_partitions strategy n (suc left) i =
    new_partition strategy n i ∷ new_partitions strategy n left (i + 1)

unfoldable pub partition_init : ClusterState → ℕ → PartitionStrategy → ClusterState
partition_init s n strategy = record s { partitions = new_partitions strategy n n 0 }

unfoldable pub partition_for_key : ClusterState → Bytes → ℕ
partition_for_key s key =
    if length s.partitions == 0 then 0 else hash_djb2 key % length s.partitions

-- `strcmp(a, b) < 0`
unfoldable pub str_lt : Bytes → Bytes → Bool
str_lt a [] = false
str_lt [] (d ∷ b) = true
str_lt (c ∷ a) (d ∷ b) = let rest = str_lt a b in if c == d then rest else ltb c d

unfoldable pub in_range : PartitionInfo → Bytes → Bool
in_range p value = elim p.range_start [
  | none ↦ false
  | some first ↦ elim p.range_end [
    | none ↦ false
    | some last ↦ not (str_lt value first) && str_lt value last
  ]
]

-- The first partition whose range has the value, or `overflow`
unfoldable pub find_range : List PartitionInfo → Bytes → ℕ → ℕ
find_range [] value overflow = overflow
find_range (p ∷ ps) value overflow =
    let rest = find_range ps value overflow in if in_range p value then p.partition_id else rest

unfoldable pub partition_for_range : ClusterState → Bytes → ℕ
partition_for_range s value =
    find_range s.partitions value ((length s.partitions + 2 ^ 32 - 1) % 2 ^ 32)

unfoldable pub partition_get_owner : ClusterState → ℕ → ℕ
partition_get_owner s id = elim (get_elem? s.partitions id) [ none ↦ 0 | some p ↦ p.primary_node ]

-- The new primary of a partition, or one more replica when there is room
unfoldable pub assign_node : ℕ → ℕ → Bool → PartitionInfo → PartitionInfo
assign_node factor node is_primary p =
    if is_primary
    then record p { primary_node = node }
    else (if ltb (length p.replica_nodes) factor
        then record p { replica_nodes = p.replica_nodes ++ node ∷ [] }
        else p)

-- The first node of this id gets the partition at the end of its list.
unfoldable pub give_partition : ℕ → ℕ → List ClusterNode → List ClusterNode
give_partition id partition [] = []
give_partition id partition (n ∷ ns) =
    let rest = give_partition id partition ns in
    if n.node_id == id
    then record n { partitions = n.partitions ++ partition ∷ [] } ∷ ns
    else n ∷ rest

unfoldable pub partition_assign : ClusterState → ℕ → ℕ → Bool → ClusterState
partition_assign s id node is_primary = elim (get_elem? s.partitions id) [
  | none ↦ s
  | some p ↦ record s {
    partitions = set s.partitions id (assign_node s.config.replication_factor node is_primary p);
    nodes = give_partition node id s.nodes;
  }
]

unfoldable pub partition_set_range : ClusterState → ℕ → Option Bytes → Option Bytes → ClusterState
partition_set_range s id first last = elim (get_elem? s.partitions id) [
  | none ↦ s
  | some p ↦ record s {
    partitions = set s.partitions id (record p { range_start = first; range_end = last });
  }
]

-- The least and the greatest number of partitions of the nodes that are not dead
unfoldable pub spread : List ClusterNode → ℕ → ℕ → ℕ × ℕ
spread [] low high = (low, high)
spread (n ∷ ns) low high =
    let count = length n.partitions in
    spread ns (if not (is_dead n.status) && ltb count low then count else low)
      (if not (is_dead n.status) && ltb high count then count else high)

-- `none`: all nodes are dead, and the code divides by zero.
unfoldable pub rebalance_needed : ClusterState → Option Bool
rebalance_needed s =
    let r = spread s.nodes 2147483647 0 in
    if leb (length s.nodes) 1
    then some false
    else (if r.0 == 0
        then some true
        else (if r.1 == 0
            then none
            else some (ltb s.config.rebalance_threshold_percent ((r.1 - r.0) * 100 / r.1))))

unfoldable pub count_alive : List ClusterNode → ℕ
count_alive [] = 0
count_alive (n ∷ ns) = (if is_dead n.status then 0 else 1) + count_alive ns

-- The first node that is not dead and has fewer than `target` partitions
unfoldable pub find_target : ℕ → List ClusterNode → Option ClusterNode
find_target target [] = none
find_target target (n ∷ ns) =
    let rest = find_target target ns in
    if not (is_dead n.status) && ltb (length n.partitions) target then some n else rest

-- The last partition of the node at place `i` moves to the node `t`.
unfoldable pub move_partition : ClusterState → ℕ → ClusterNode → ClusterNode → ClusterState
move_partition s i source t =
    let kept = length source.partitions - 1 in
    partition_assign
      (record s {
        nodes = set s.nodes i (record source { partitions = take kept source.partitions });
      })
      (get_or source.partitions kept 0) t.node_id true

-- One round of the `while` over the node at place `i`, with the number of moves. A round without a
-- target changes nothing.
unfoldable pub move_one : ℕ → ℕ → ClusterNode → ClusterState × ℕ → ClusterState × ℕ
move_one target i source (s, moved) = elim (find_target target s.nodes) [
  | none ↦ (s, moved)
  | some t ↦ (move_partition s i source t, moved + 1)
]

-- Whether the `while` over a node goes on
unfoldable pub is_over : ℕ → ClusterNode → Bool
is_over target n = not (is_dead n.status) && ltb (target + 1) (length n.partitions)

-- The `while` over the node at place `i`; `none` when it is not done with the fuel.
unfoldable pub shed : ℕ → ℕ → ℕ → ClusterState × ℕ → Option (ClusterState × ℕ)
shed zero target i (s, moved) = elim (get_elem? s.nodes i) [
  | none ↦ some (s, moved)
  | some n ↦ if is_over target n then none else some (s, moved)
]
shed (suc fuel) target i (s, moved) = elim (get_elem? s.nodes i) [
  | none ↦ some (s, moved)
  | some n ↦
      let rest = shed fuel target i (move_one target i n (s, moved)) in
      if is_over target n then rest else some (s, moved)
]

-- The loop over the `left` nodes from place `i` on
unfoldable pub shed_all : ℕ → ℕ → ℕ → ℕ → ClusterState × ℕ → Option (ClusterState × ℕ)
shed_all fuel target zero i r = some r
shed_all fuel target (suc left) i r = elim (shed fuel target i r) [
  | none ↦ none
  | some next ↦ shed_all fuel target left (i + 1) next
]

-- The partitions of a node that would be even
unfoldable pub even_share : ClusterState → ℕ
even_share s = length s.partitions / count_alive s.nodes

unfoldable pub rebalance_as_leader : ℕ → ClusterState → Option (ClusterState × ℕ)
rebalance_as_leader fuel s =
    let counted = record s { total_rebalances = (s.total_rebalances + 1) % 2 ^ 64 } in
    if count_alive s.nodes == 0
    then some (counted, 0)
    else shed_all fuel (even_share s) (length s.nodes) 0 (counted, 0)

-- `rebalance_partitions`, with `fuel` rounds for each node
unfoldable pub rebalance_partitions : ℕ → ClusterState → Option (ClusterState × ℕ)
rebalance_partitions fuel s = elim s.current_role [
  | leader ↦ rebalance_as_leader fuel s
  | _ ↦ some (s, 0)
]

-- A replica becomes the primary of a partition that lost its node.
unfoldable pub promote : PartitionInfo → PartitionInfo
promote p = elim p.replica_nodes [
  | [] ↦ p
  | r ∷ rs ↦ record p { primary_node = r; replica_nodes = rs }
]

-- The partitions of the node that left, one after the other
unfoldable pub promote_all : List ℕ → List PartitionInfo → List PartitionInfo
promote_all [] ps = ps
promote_all (id ∷ ids) ps =
    promote_all ids (elim (get_elem? ps id) [ none ↦ ps | some p ↦ set ps id (promote p) ])

abbrev pub rebalance_on_join : ℕ → ClusterState → Option (ClusterState × ℕ)
rebalance_on_join fuel s = rebalance_partitions fuel s

unfoldable pub rebalance_on_leave : ℕ → ClusterState → ClusterNode → Option (ClusterState × ℕ)
rebalance_on_leave fuel s left = elim s.current_role [
  | leader ↦
      rebalance_partitions fuel (record s { partitions = promote_all left.partitions s.partitions })
  | _ ↦ some (s, 0)
]
