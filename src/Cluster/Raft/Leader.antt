-- ===== src/Cluster/Raft/Leader.antt =====
-- Elections of src/cluster.c: the votes that a candidate counts, and that no two candidates of a term
-- can both have a majority.
use inventixdb.Base.{
  ℕ, suc, ◌+◌, ◌*◌, ◌≤◌, ◌<◌, ◌≢◌, ◌≡◌, inl, inr, refl, sym, ap, ◌∙◌, subst, Bool, true, ◌&&◌, ◌||◌,
  List, [], ◌∷◌, ◌++◌, Option, All, length, if◌then◌else◌, ◌==◌, arith, Bool-cases, ==_iff,
}
use mathlib.Core.List.{Permᴰ, Memᴰ}
use inventixdb.Cluster.{leader, ClusterNode, ClusterState, Clock, node_ids, is_dead}
use inventixdb.Cluster.Raft.{
  VoteRequest, HeartbeatMessage, Beat, stand, vote_request, is_grant, ask_votes, count_votes, win,
  lose, send_all, raft_start_election, majority,
}
use inventixdb.Cluster.Raft.Calls.{Call, elects, step, play, Voted, IsSound}
use inventixdb.Cluster.Raft.Votes.{HasRoom, Voted-unique, step_self}

-- How many of the ids pass a test
abbrev tally : (ℕ → Bool) → List ℕ → ℕ
tally p [] = 0
tally p (i ∷ is) = (if p i then 1 else 0) + tally p is

tally-Permᴰ : (p : ℕ → Bool) {xs ys : List ℕ} → Permᴰ xs ys → tally p xs ≡ tally p ys
tally-Permᴰ p Permᴰ.nil = refl
tally-Permᴰ p (Permᴰ.cons e d) = rw (e, tally-Permᴰ p d) refl
tally-Permᴰ p (Permᴰ.swap {l = l} e f) = rw (e, f) (omega arith)
tally-Permᴰ p (Permᴰ.trans d e) = tally-Permᴰ p d ∙ tally-Permᴰ p e

tally-Memᴰ : (c : ℕ) {is : List ℕ} → Memᴰ c is → 1 ≤ tally (λ i. i == c) is
tally-Memᴰ c (Memᴰ.head e) = ground arith
tally-Memᴰ c (Memᴰ.tail m) = omega (arith, tally-Memᴰ c m)

-- Two tests that more ids pass than there are have an id in common.
tally-meet :
    (p q : ℕ → Bool) (is : List ℕ)
    → length is < tally p is + tally q is
    → (i : ℕ) × Memᴰ i is × (p i ≡ true) × (q i ≡ true)
tally-meet p q [] h = absurd (omega arith)
tally-meet p q (i ∷ is) h = elim (Bool-cases (p i && q i)) [
  | inl e ↦ (i, Memᴰ.head refl, ground arith, ground arith)
  | inr e ↦ let (j, m, f, g) = tally-meet p q is (ground arith) in (j, Memᴰ.tail m, f, g)
]

-- The nodes that vote for a candidate: the candidate, and those whose answers count
abbrev supports : ClusterState → (VoteRequest → Option Bool) → ℕ → Bool
supports s net i = (i == s.config.self_node_id) || is_grant (net (vote_request s i))

-- The votes that the loop counts come from nodes that vote for the candidate.
ask_votes-tally :
    (s : ClusterState) (net : VoteRequest → Option Bool) (ns : List ClusterNode) (votes : ℕ)
    → ask_votes s net ns votes + tally (λ i. i == s.config.self_node_id) (node_ids ns)
      ≤ votes + tally (supports s net) (node_ids ns)
unfolding ask_votes node_ids
ask_votes-tally s net [] votes = omega arith
ask_votes-tally s net (n ∷ ns) votes =
    let rest = ask_votes-tally s net ns (
      if (n.node_id == s.config.self_node_id) || is_dead n.status
      then votes
      else (if is_grant (net (vote_request s n.node_id)) then votes + 1 else votes)) in
    ground arith

leader-majority :
    (s : ClusterState) (net : VoteRequest → Option Bool) (b : HeartbeatMessage → Beat) (k : Clock)
    → (raft_start_election s net b k).current_role ≡ leader
    → majority s ≤ ask_votes (stand s) net s.nodes 1
unfolding raft_start_election stand count_votes win lose send_all
leader-majority s net b k h = ground arith

-- A node of the cluster: its id, and a history that keeps clear of the end of the terms
pub record IsNode (s : ClusterState) (calls : List (Clock × Call)) (i : ℕ) : Type 0 where
  pub self : s.config.self_node_id ≡ i
  pub nonzero : i ≢ 0
  pub room : HasRoom s (length calls)
  pub sound : All IsSound calls

-- In its history the node `c` becomes the leader of the term `t`: it knows just the members, and an
-- answer that it counts is a vote that the peer gives in its own history.
pub record Leads (start : ℕ → ClusterState) (history : ℕ → List (Clock × Call)) (members : List ℕ)
    (t c : ℕ) : Type 0 where
  pub before : List (Clock × Call)
  pub after : List (Clock × Call)
  pub net : VoteRequest → Option Bool
  pub replies : HeartbeatMessage → Beat
  pub clock : Clock
  pub in_history : history c ≡ before ++ (clock, elects net replies) ∷ after
  pub term : (stand (play (start c) before)).raft.current_term ≡ t
  pub leads : (raft_start_election (play (start c) before) net replies clock).current_role ≡ leader
  pub knows : Permᴰ (node_ids (play (start c) before).nodes) members
  pub is_member : Memᴰ c members
  pub answers :
      (j : ℕ)
      → is_grant (net (vote_request (stand (play (start c) before)) j)) ≡ true
      → Voted (start j) (history j) t c

play_self :
    (s : ClusterState) (calls : List (Clock × Call))
    → (play s calls).config.self_node_id ≡ s.config.self_node_id
play_self s [] = refl
play_self s (x ∷ xs) = play_self (step s x) xs ∙ step_self s x

-- A node votes for itself when it stands.
elects-Voted :
    (s : ClusterState) (before : List (Clock × Call)) (k : Clock) (net : VoteRequest → Option Bool)
    (replies : HeartbeatMessage → Beat) (after : List (Clock × Call))
    → Voted s
        (before ++ (k, elects net replies) ∷ after)
        (stand (play s before)).raft.current_term
        (play s before).config.self_node_id
elects-Voted s [] k net replies after = inl refl
elects-Voted s (x ∷ xs) k net replies after = inr (elects-Voted (step s x) xs k net replies after)

length-node_ids : (ns : List ClusterNode) → length (node_ids ns) ≡ length ns
unfolding node_ids
length-node_ids [] = refl
length-node_ids (n ∷ ns) = ap suc (length-node_ids ns)

length-Permᴰ : {xs ys : List ℕ} → Permᴰ xs ys → length xs ≡ length ys
length-Permᴰ Permᴰ.nil = refl
length-Permᴰ (Permᴰ.cons e d) = ap suc (length-Permᴰ d)
length-Permᴰ (Permᴰ.swap e f) = refl
length-Permᴰ (Permᴰ.trans d e) = length-Permᴰ d ∙ length-Permᴰ e

module _ (start : ℕ → ClusterState) (history : ℕ → List (Clock × Call)) (members : List ℕ)
    (is_node : (i : ℕ) → Memᴰ i members → IsNode (start i) (history i) i) where
  -- The members that vote for a leader
  abbrev backs : {t c : ℕ} → Leads start history members t c → ℕ → Bool
  backs {t} {c} l = supports (stand (play (start c) l.before)) l.net

  self_id :
      {t c : ℕ} (l : Leads start history members t c)
      → (stand (play (start c) l.before)).config.self_node_id ≡ c
  unfolding stand
  self_id {t} {c} l = play_self (start c) l.before ∙ (is_node c l.is_member).self

  Leads-majority :
      {t c : ℕ} (l : Leads start history members t c) → length members < 2 * tally (backs l) members
  unfolding stand
  Leads-majority {t} {c} l =
      let s : ClusterState = play (start c) l.before in
      let count = leader-majority s l.net l.replies l.clock l.leads in
      let votes = ask_votes-tally (stand s) l.net s.nodes 1 in
      let same = tally-Permᴰ (backs l) l.knows in
      let own = tally-Permᴰ (λ i. i == (stand s).config.self_node_id) l.knows in
      let self =
        subst (λ z. 1 ≤ tally (λ i. i == z) members) (sym (self_id l)) (tally-Memᴰ c l.is_member) in
      let size = length-node_ids s.nodes in let size' = length-Permᴰ l.knows in omega arith

  own-Voted : {t c : ℕ} (l : Leads start history members t c) → Voted (start c) (history c) t c
  unfolding stand
  own-Voted {t} {c} l =
      subst (λ h. Voted (start c) h t c) (sym l.in_history)
        (subst (λ i. Voted (start c) (l.before ++ (l.clock, elects l.net l.replies) ∷ l.after) t i)
          (self_id l)
          (subst
            (λ u.
              Voted (start c) (l.before ++ (l.clock, elects l.net l.replies) ∷ l.after) u
                (play (start c) l.before).config.self_node_id)
            l.term (elects-Voted (start c) l.before l.clock l.net l.replies l.after)))

  backs-Voted :
      {t c : ℕ} (l : Leads start history members t c) (j : ℕ)
      → backs l j ≡ true
      → Voted (start j) (history j) t c
  backs-Voted {t} {c} l j e =
      elim (Bool-cases (j == (stand (play (start c) l.before)).config.self_node_id)) [
        | inl own ↦
            let same : c ≡ j =
              sym (self_id l)
              ∙ sym ((==_iff j (stand (play (start c) l.before)).config.self_node_id).0 own) in
            subst (λ i. Voted (start i) (history i) t c) same (own-Voted l)
        | inr other ↦ l.answers j (ground arith)
      ]

  -- Where the members of a cluster do not change, have ids, and have histories that keep clear of the
  -- end of the terms, two nodes that win an election of the same term, each in its own history and with
  -- the votes that the others give in theirs, are the same node.
  pub Leads-unique :
      (t c d : ℕ) → Leads start history members t c → Leads start history members t d → c ≡ d
  Leads-unique t c d l m =
      let (j, mem, e, f) =
        tally-meet (backs l) (backs m) members
          (let a = Leads-majority l in let b = Leads-majority m in omega arith) in
      let node : IsNode (start j) (history j) j = is_node j mem in
      Voted-unique (start j) (history j) t c d node.room node.sound
        (λ z. node.nonzero (sym node.self ∙ z)) (backs-Voted l j e) (backs-Voted m j f)
