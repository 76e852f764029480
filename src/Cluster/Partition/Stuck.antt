-- ===== src/Cluster/Partition/Stuck.antt =====
-- When `rebalance_partitions` of src/cluster.c does not end.
use inventixdb.Base.{
  ℕ, zero, suc, ◌+◌, ◌%◌, ◌^◌, ◌<◌, ◌≤◌, ◌≡◌, inl, inr, refl, ap, ◌∙◌, true, false, List, [], ◌∷◌,
  Option, none, some, ◌==◌, length, get_elem?, arith, Bool-cases, Option-cases, ==_iff,
}
use inventixdb.Cluster.{NodeRole, leader, ClusterNode, ClusterState}
use inventixdb.Cluster.Partition.{
  count_alive, find_target, move_one, is_over, shed, shed_all, even_share, rebalance_as_leader,
  rebalance_partitions,
}

shed_stuck :
    (fuel target i moved : ℕ) (s : ClusterState) (n : ClusterNode)
    → get_elem? s.nodes i ≡ some n
    → is_over target n ≡ true
    → find_target target s.nodes ≡ none
    → shed fuel target i (s, moved) ≡ none
unfolding shed move_one
shed_stuck zero target i moved s n e over no_target = rw (e, over, shed) refl
shed_stuck (suc fuel) target i moved s n e over no_target =
    rw (e, over, no_target, shed, move_one) (shed_stuck fuel target i moved s n e over no_target)

shed_idle :
    (fuel target i moved : ℕ) (s : ClusterState) (n : ClusterNode)
    → get_elem? s.nodes i ≡ some n
    → is_over target n ≡ false
    → shed fuel target i (s, moved) ≡ some (s, moved)
unfolding shed
shed_idle zero target i moved s n e idle = rw (e, idle, shed) refl
shed_idle (suc fuel) target i moved s n e idle = rw (e, idle, shed) refl

shed_missing :
    (fuel target i moved : ℕ) (s : ClusterState)
    → get_elem? s.nodes i ≡ none
    → shed fuel target i (s, moved) ≡ some (s, moved)
unfolding shed
shed_missing zero target i moved s e = rw (e, shed) refl
shed_missing (suc fuel) target i moved s e = rw (e, shed) refl

shed_all_stuck :
    (fuel target left i j moved : ℕ) (s : ClusterState) (n : ClusterNode)
    → i ≤ j
    → j < i + left
    → get_elem? s.nodes j ≡ some n
    → is_over target n ≡ true
    → find_target target s.nodes ≡ none
    → shed_all fuel target left i (s, moved) ≡ none
unfolding shed_all
shed_all_stuck fuel target zero i j moved s n h k e over no_target = absurd (omega arith)
shed_all_stuck fuel target (suc left) i j moved s n h k e over no_target =
    elim (Bool-cases (i == j)) [
      | inl here ↦
          rw
            (
              shed_stuck fuel target i moved s n (ap (get_elem? s.nodes) ((==_iff i j).0 here) ∙ e)
                  over no_target,
              shed_all,
            )
            refl
      | inr later ↦ elim (Option-cases (get_elem? s.nodes i)) [
        | inl missing ↦
            rw (shed_missing fuel target i moved s missing, shed_all)
              (shed_all_stuck fuel target left (i + 1) j moved s n (ground arith) (omega arith) e
                over no_target)
        | inr (m, f) ↦ elim (Bool-cases (is_over target m)) [
          | inl busy ↦ rw (shed_stuck fuel target i moved s m f busy no_target, shed_all) refl
          | inr idle ↦
              rw (shed_idle fuel target i moved s m f idle, shed_all)
                (shed_all_stuck fuel target left (i + 1) j moved s n (ground arith) (omega arith) e
                  over no_target)
        ]
      ]
    ]

alive_there :
    (target i : ℕ) (ns : List ClusterNode) (n : ClusterNode)
    → get_elem? ns i ≡ some n
    → is_over target n ≡ true
    → (0 < count_alive ns) × (i < length ns)
unfolding count_alive is_over
alive_there target i [] n e over = absurd (ground arith)
alive_there target zero (m ∷ ns) n e over =
    let same : is_over target m ≡ true =
      ap (λ (o : Option ClusterNode). elim o [ none ↦ false | some x ↦ is_over target x ]) e
      ∙ over in
    (ground arith, omega arith)
alive_there target (suc i) (m ∷ ns) n e over =
    let r = alive_there target i ns n e over in (omega (arith, r.0), omega (arith, r.1))

rebalance_of_leader :
    (fuel : ℕ) (s : ClusterState)
    → s.current_role ≡ leader
    → rebalance_partitions fuel s ≡ rebalance_as_leader fuel s
unfolding rebalance_partitions
rebalance_of_leader fuel s e =
    ap
      (λ r. elim r as (λ (r' : NodeRole). Option (ClusterState × ℕ)) [
        | leader ↦ rebalance_as_leader fuel s
        | _ ↦ some (s, 0)
      ])
      e

-- When a node that is not dead has more partitions than the even share and one more, but no node that is
-- not dead has fewer than the even share, `rebalance_partitions` of a leader never ends: no number of
-- rounds is enough.
pub rebalance_partitions-stuck :
    (s : ClusterState) (j : ℕ) (n : ClusterNode)
    → s.current_role ≡ leader
    → get_elem? s.nodes j ≡ some n
    → is_over (even_share s) n ≡ true
    → find_target (even_share s) s.nodes ≡ none
    → (fuel : ℕ) → rebalance_partitions fuel s ≡ none
unfolding rebalance_as_leader
rebalance_partitions-stuck s j n e f over no_target fuel =
    let a = alive_there (even_share s) j s.nodes n f over in
    let some_alive : (count_alive s.nodes == 0) ≡ false = ground arith in
    rebalance_of_leader fuel s e
    ∙ rw (some_alive, rebalance_as_leader)
        (shed_all_stuck fuel (even_share s) (length s.nodes) 0 j 0
          (record s { total_rebalances = (s.total_rebalances + 1) % 2 ^ 64 }) n (omega arith)
          (omega (arith, a.1)) f over no_target)
