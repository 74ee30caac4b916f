-- ===== src/Raft/Cluster/Alone/Tests.antt =====
-- internal/raft: the only node stands for election.
use raft_recovery.Prelude.{◌≢◌, refl, [], ◌∷◌, contains}
use raft_recovery.Raft.Log.{new_memory_log_store, last_index, get_log}
use raft_recovery.Raft.Node.{leader, new_raft}
use raft_recovery.Raft.Election.{start_election}
use raft_recovery.Raft.Cluster.{Cluster, Steps, here, next, campaign, fresh}
use raft_recovery.Raft.Cluster.Alone.{alone_unled}

stood : (s : Cluster) × Steps ("n1" ∷ []) (fresh ("n1" ∷ [])) s
unfolding start_election new_raft new_memory_log_store last_index get_log contains
stood = (_, next here (campaign "n1" refl refl refl))

alone_unled_example : (stood.0.node "n1").state ≢ leader
unfolding contains
alone_unled_example = alone_unled "n1" {s = stood.0} refl stood.1
