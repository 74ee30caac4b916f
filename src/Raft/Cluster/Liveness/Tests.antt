-- ===== src/Raft/Cluster/Liveness/Tests.antt =====
-- internal/raft: three peers, of which the second comes to lead.
use raft_recovery.Prelude.{◌≡◌, refl, arith, List, [], ◌∷◌, String, contains}
use raft_recovery.Raft.Node.{leader}
use raft_recovery.Raft.Cluster.{Cluster, Steps, fresh}
use raft_recovery.Raft.Cluster.Liveness.{can_lead}
use raft_recovery.Raft.Cluster.Liveness.Peers.{IsDistinct}

abbrev peers : List String
peers = "n1" ∷ "n2" ∷ "n3" ∷ []

peers-IsDistinct : IsDistinct peers
unfolding contains
peers-IsDistinct = (refl, (refl, (refl, tt)))

can_lead_example : (s : Cluster) × Steps peers (fresh peers) s × ((s.node "n2").state ≡ leader)
unfolding contains
can_lead_example = can_lead peers "n2" peers-IsDistinct refl (omega arith)
