-- ===== src/Raft/Cluster/Invariant.antt =====
-- internal/raft: what ties the votes of a cluster to its elections, kept by every step.
pub mod Moves
pub mod Elections
pub mod Collecting
use raft_recovery.Prelude.{
  ℕ, suc, ◌+◌, ◌*◌, ◌<◌, ◌≤◌, ◌≡◌, ◌≢◌, ◌⊎◌, inl, inr, refl, Bool, true, false, Option, none, some,
  List, [], ◌∷◌, String, str_eq, eq_iff, contains, length, arith, if◌then◌else◌, ◌||◌, ◌&&◌, ◌==◌,
}
use raft_recovery.Raft.Node.{Raft, After, Config, RequestVoteArgs, RequestVoteReply, Effect, leader}
use raft_recovery.Raft.Steps.Quiet.{KeepsVote}
use raft_recovery.Raft.Cluster.{
  Call, Cluster, idle, asked, answered, finished, set_node, set_call, set_calls, set_votes,
  request_to,
}
use raft_recovery.Raft.Cluster.Quorum.{count}

-- What a goroutine has counted.
abbrev pub granted : Call → Bool
granted (finished yes_vote) = yes_vote
granted _ = false

-- The election of c in the term, asking p, is one of these peers and has taken place.
abbrev pub Sent : List String → Cluster → String → ℕ → String → Type 0
Sent peers s c t p =
    (contains p peers ≡ true)
    × (contains c peers ≡ true)
    × (str_eq p c ≡ false)
    × (t ≤ (s.node c).current_term)
    × (s.vote_in c t ≡ c)

abbrev pub IsSound : List String → Cluster → String → ℕ → String → Call → Type 0
IsSound peers s c t p idle = Unit {0}
IsSound peers s c t p (asked args) = (args.term ≡ t) × (args.candidate_id ≡ c) × Sent peers s c t p
IsSound peers s c t p (answered reply) =
    ((reply.vote_granted ≡ false) ⊎ (s.vote_in p t ≡ c)) × Sent peers s c t p
IsSound peers s c t p (finished yes_vote) =
    ((yes_vote ≡ false) ⊎ (s.vote_in p t ≡ c)) × Sent peers s c t p

-- The votes counted for c: its own and those of the goroutines that are done.
abbrev pub is_counted : Cluster → String → ℕ → String → Bool
is_counted s c t p = str_eq c p || granted (s.call c t p)

-- The peers that have, or had in the term, their vote for c.
abbrev pub supports : Cluster → String → ℕ → String → Bool
supports s c t p = str_eq (s.vote_in p t) c

pub record IsTallied (peers : List String) (s : Cluster) : Type 0 where
  pub config : (p : String) → (s.node p).config ≡ record { id = p; peers = peers }
  pub now : (p : String) → s.vote_in p (s.node p).current_term ≡ (s.node p).voted_for
  pub later : (p : String) (t : ℕ) → (s.node p).current_term < t → s.vote_in p t ≡ ""
  pub calls : (c : String) (t : ℕ) (p : String) → IsSound peers s c t p (s.call c t p)
  pub tally : (c : String) (t : ℕ) → s.votes c t ≤ count (is_counted s c t) peers
  pub own_vote :
      (c : String) (t : ℕ) → (s.votes c t ≡ 0) ⊎ ((s.vote_in c t ≡ c) × (contains c peers ≡ true))

-- A majority of the peers has its vote for c.
abbrev pub Won : List String → Cluster → String → ℕ → Type 0
Won peers s c t = (c ≢ "") × (length peers < 2 * count (supports s c t) peers)
