-- ===== src/Wal/Split/Parts/Tests.antt =====
-- internal/storage/wal/wal.go: three events, two to a file.
use raft_recovery.Prelude.{ℕ, ◌≡◌, refl, true, List, [], ◌∷◌, map}
use raft_recovery.Wal.Event.{Event, enqueue}
use raft_recovery.Wal.Writer.{written}
use raft_recovery.Wal.Split.{split_wal_file}
use raft_recovery.Wal.Split.Parts.{join, AllWithin, join-split_wal_file}

abbrev event : ℕ → Event
event seq = record { seq = seq; type = enqueue; job_id = "a"; timestamp = 0; checksum = 0 }

abbrev three : List Event
three = event 1 ∷ event 2 ∷ event 3 ∷ []

two_files :
    split_wal_file (λ e. 5) 10 (λ n. true) (λ e. true) (map written three)
    ≡ ((event 1 ∷ event 2 ∷ []) ∷ (event 3 ∷ []) ∷ [], true)
unfolding split_wal_file
two_files = refl

join-split_wal_file_example :
    let (parts, ok) = split_wal_file (λ e. 5) 10 (λ n. true) (λ e. true) (map written three) in
    (ok ≡ true) × (join parts ≡ three) × AllWithin (λ e. 5) 10 parts
join-split_wal_file_example =
    join-split_wal_file (λ e. 5) 10 (λ n. true) (λ e. true) (λ n. refl) (λ e. refl) three
