-- ===== src/Raft/Replication/Commit.antt =====
-- internal/raft/raft.go: `updateCommitIndex` and the requests of `replicateToPeer`.
use raft_recovery.Prelude.{
  ℕ, zero, suc, ◌+◌, ◌-◌, ◌*◌, Option-cases, ◌≤◌, ◌<◌, ◌≡◌, refl, subst, true, false, some, arith,
  ◌⊎◌, inl, inr, Bool-cases, length, none, List, [], ◌∷◌, String, str_eq, eq_iff, contains, lookup,
  pos, negsuc, ℤ, leb_ℤ, not, ◌&&◌, ap, Option, ◌≢◌,
}
use raft_recovery.Raft.Log.{LogEntry, last_index, get_log}
use raft_recovery.Raft.Node.{Raft, After, read}
use raft_recovery.Raft.Cluster.Liveness.Peers.{IsDistinct}
use raft_recovery.Raft.Replication.{update_commit_index, commit_loop, is_committable, holders}

-- The loop stops at the greatest index that can be committed, or leaves the node as it was.
commit_loop_found :
    (rf : Raft) (count n : ℕ)
    → n ≤ rf.commit_index + count
    → is_committable rf n ≡ true
    → n ≤ (commit_loop rf count).node.commit_index
unfolding commit_loop
commit_loop_found rf zero n h k = omega arith
commit_loop_found rf (suc count) n h k =
    elim (Bool-cases (is_committable rf (rf.commit_index + suc count))) [
      | inl hit ↦ rw hit h
      | inr miss ↦ rw miss (commit_loop_found rf count n (below miss) k)
    ]
  where
    below : is_committable rf (rf.commit_index + suc count) ≡ false → n ≤ rf.commit_index + count
    below miss = ground arith

commit_loop_sound :
    (rf : Raft) (count : ℕ)
    → ((commit_loop rf count).node ≡ rf)
      ⊎ ((rf.commit_index < (commit_loop rf count).node.commit_index)
          × ((commit_loop rf count).node.commit_index ≤ rf.commit_index + count)
          × (is_committable rf ((commit_loop rf count).node.commit_index) ≡ true))
unfolding commit_loop
commit_loop_sound rf zero = inl refl
commit_loop_sound rf (suc count) =
    elim (Bool-cases (is_committable rf (rf.commit_index + suc count))) [
      | inl hit ↦ rw hit (inr (omega arith, omega arith, hit))
      | inr miss ↦ rw miss (widen (commit_loop_sound rf count))
    ]
  where
    widen :
        ((commit_loop rf count).node ≡ rf)
          ⊎ ((rf.commit_index < (commit_loop rf count).node.commit_index)
              × ((commit_loop rf count).node.commit_index ≤ rf.commit_index + count)
              × (is_committable rf ((commit_loop rf count).node.commit_index) ≡ true))
        → ((commit_loop rf count).node ≡ rf)
          ⊎ ((rf.commit_index < (commit_loop rf count).node.commit_index)
              × ((commit_loop rf count).node.commit_index ≤ rf.commit_index + suc count)
              × (is_committable rf ((commit_loop rf count).node.commit_index) ≡ true))
    widen (inl e) = inl e
    widen (inr h) = inr (h.0, omega arith, h.2)

-- An index can be committed only if it holds an entry of the current term, and a majority of the
-- peers, the leader counted, is known to hold it.
is_committable_needs :
    (rf : Raft) (n : ℕ)
    → is_committable rf n ≡ true
    → (length rf.config.peers < 2 * (1 + holders rf n rf.config.peers))
      × ((e : LogEntry) × (get_log rf.log_store n ≡ some e) × (e.term ≡ rf.current_term))
unfolding is_committable
is_committable_needs rf n h = elim (Option-cases (get_log rf.log_store n)) [
  | inl none_there ↦ absurd (refute none_there)
  | inr (e, there) ↦ (ground arith, (e, there, ground arith))
]
  where
    refute : get_log rf.log_store n ≡ none → ⊥
    refute missing = ground arith

-- The leader has been told that the peer holds the entry at n.
abbrev pub HasMatched : Raft → ℕ → String → Type 0
HasMatched rf n p = (m : ℕ) × (lookup p rf.match_index ≡ some (pos m)) × (n ≤ m)

-- Some of these peers, each in the list as often as it is there at most, other than the leader.
abbrev pub AllMatched : Raft → ℕ → List String → List String → Type 0
AllMatched rf n peers ps =
    ((p : String)
      → contains p ps ≡ true
      → (contains p peers ≡ true) × (p ≢ rf.config.id) × HasMatched rf n p)
    × (IsDistinct peers → IsDistinct ps)

matched_of :
    (n : ℕ) (found : Option ℤ)
    → 0 < n
    → leb_ℤ n (elim found [ none ↦ pos 0 | some m ↦ m ]) ≡ true
    → (m : ℕ) × (found ≡ some (pos m)) × (n ≤ m)
matched_of n none k h = absurd (ground arith)
matched_of n (some (pos m)) k h = (m, refl, ground (arith, h))
matched_of n (some (negsuc m)) k h = absurd (ground arith)

holders_matched :
    (rf : Raft) (n : ℕ) (peers : List String)
    → 0 < n
    → (ps : List String) × (length ps ≡ holders rf n peers) × AllMatched rf n peers ps
unfolding holders contains
holders_matched rf n [] k = ([], refl, ((λ p h. absurd cc), λ d. d))
holders_matched rf n (q ∷ peers) k =
    let (ps, long, (all, distinct)) = holders_matched rf n peers k in
    elim (Bool-cases (not (str_eq q rf.config.id) && leb_ℤ n (read (pos 0) q rf.match_index))) [
      | inr out ↦ (
        ps,
        rw out long,
        ((λ p h. let (a, b, m) = all p h in (ground (arith, a), b, m)), λ d. distinct d.1),
      )
      | inl hit ↦ (
        q ∷ ps,
        rw hit (ap suc long),
        (
          (λ p h. elim (Bool-cases (str_eq q p)) [
            | inl same ↦
                subst
                  (λ x. (contains x (q ∷ peers) ≡ true) × (x ≢ rf.config.id) × HasMatched rf n x)
                  ((eq_iff q p).0 same)
                  (
                    ground (arith, eq_iff q q),
                    (λ e. ground (arith, eq_iff q rf.config.id)),
                    matched_of n (lookup q rf.match_index) k (ground arith),
                  )
            | inr apart ↦ let (a, b, m) = all p (ground arith) in (ground (arith, a), b, m)
          ]),
          λ d. (
            elim (Bool-cases (contains q ps)) [
              | inl again ↦ absurd (ground (arith, (all q again).0, d.0))
              | inr apart ↦ apart
            ],
            distinct d.1,
          ),
        ),
      )
    ]

-- A commit index that the leader may move to: a majority of the peers, the leader counted, holds it.
abbrev pub Commits : Raft → ℕ → ℕ → Type 0
Commits rf last n =
    (rf.commit_index < n)
    × (n ≤ last)
    × ((ps : List String) × (length rf.config.peers < 2 * (1 + length ps))
        × AllMatched rf n rf.config.peers ps)
    × ((e : LogEntry) × (get_log rf.log_store n ≡ some e) × (e.term ≡ rf.current_term))

-- With a commit index within the log, `updateCommitIndex` leaves the node as it was, or moves the commit
-- index forward, within the log, to an entry of the node's own term such that peers which have
-- acknowledged this index, none of them the node itself and none twice if the peers are distinct, are with
-- the node a majority of the peers.
pub update_commit_index_majority :
    (rf : Raft) (last : ℕ) {after : After}
    → last_index rf.log_store ≡ some last
    → rf.commit_index ≤ last
    → update_commit_index rf ≡ some after
    → (after.node ≡ rf) ⊎ Commits rf last after.node.commit_index
unfolding update_commit_index
update_commit_index_majority rf last {after = after} l k e =
    subst (λ (a : After). (a.node ≡ rf) ⊎ Commits rf last (a.node.commit_index)) reached
      (elim (commit_loop_sound rf (last - rf.commit_index)) [
        | inl same ↦ inl same
        | inr (up, high, hit) ↦
            let needs = is_committable_needs rf _ hit in
            let (ps, long, all) = holders_matched rf _ rf.config.peers (omega (arith, up)) in
            inr (up, omega arith, (ps, omega (arith, long, needs.0), all), needs.1)
      ])
  where
    reached : commit_loop rf (last - rf.commit_index) ≡ after
    reached = ground arith

-- Any index within the log that a majority is known to hold, with an entry of the node's own term, is
-- at most the commit index after `updateCommitIndex`.
pub update_commit_index_greatest :
    (rf : Raft) (last n : ℕ) {after : After}
    → last_index rf.log_store ≡ some last
    → n ≤ last
    → is_committable rf n ≡ true
    → update_commit_index rf ≡ some after
    → n ≤ after.node.commit_index
unfolding update_commit_index
update_commit_index_greatest rf last n l h k e =
    ground (arith, commit_loop_found rf (last - rf.commit_index) n)
