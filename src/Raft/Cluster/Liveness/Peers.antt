-- ===== src/Raft/Cluster/Liveness/Peers.antt =====
-- internal/raft: the peers that a candidate asks.
use raft_recovery.Prelude.{
  ◌+◌, ◌≡◌, inl, inr, refl, true, false, not, some, List, [], ◌∷◌, String, str_eq, eq_iff, contains,
  length, arith, ◌&&◌, Bool-cases,
}
use raft_recovery.Raft.Node.{RequestVoteArgs, others}
use raft_recovery.Raft.Election.{vote_effects}
use raft_recovery.Raft.Cluster.{request_to}

abbrev pub IsDistinct : List String → Type 0
IsDistinct [] = Unit {0}
IsDistinct (p ∷ ps) = (contains p ps ≡ false) × IsDistinct ps

pub contains-others_iff :
    (c p : String) (peers : List String)
    → contains p (others c peers) ≡ (contains p peers && not (str_eq c p))
unfolding contains others
contains-others_iff c p [] = refl
contains-others_iff c p (q ∷ peers) =
    ground (arith, eq_iff q c, eq_iff q p, eq_iff c p, contains-others_iff c p peers)

pub others-IsDistinct :
    (c : String) (peers : List String) → IsDistinct peers → IsDistinct (others c peers)
unfolding others
others-IsDistinct c [] d = tt
others-IsDistinct c (q ∷ peers) d = elim (Bool-cases (str_eq q c)) [
  | inl same ↦ rw same (others-IsDistinct c peers d.1)
  | inr apart ↦
      rw apart (ground (arith, contains-others_iff c q peers, d.0), others-IsDistinct c peers d.1)
]

length-others_absent :
    (c : String) (peers : List String)
    → contains c peers ≡ false
    → length (others c peers) ≡ length peers
unfolding others contains
length-others_absent c [] h = refl
length-others_absent c (q ∷ peers) h = ground (arith, length-others_absent c peers)

pub length-others :
    (c : String) (peers : List String)
    → IsDistinct peers
    → contains c peers ≡ true
    → length (others c peers) + 1 ≡ length peers
unfolding others contains
length-others c [] d h = cc
length-others c (q ∷ peers) d h =
    ground (arith, eq_iff q c, length-others c peers d.1, length-others_absent c peers, d.0)

pub asks_all :
    (args : RequestVoteArgs) (p : String) (ps : List String)
    → contains p ps ≡ true
    → request_to p (vote_effects args ps) ≡ some args
unfolding request_to vote_effects contains
asks_all args p [] h = cc
asks_all args p (q ∷ ps) h = ground (arith, asks_all args p ps)
