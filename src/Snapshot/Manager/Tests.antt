-- ===== src/Snapshot/Manager/Tests.antt =====
-- internal/snapshot/snapshot_manager.go: a write whose rename fails.
use raft_recovery.Prelude.{◌≡◌, refl, ◌≢◌, ◌⊎◌, true, none, some, [], ◌∷◌, ◌++◌}
use raft_recovery.Types.{SnapshotData}
use raft_recovery.Snapshot.Manager.{
  Disk, decodes, rename, sync, write, load, loaded, empty_snapshot, exists, write_with_backup,
}
use raft_recovery.Snapshot.Manager.Atomic.{AllWhole, write_atomic, load-write_with_backup}

abbrev old : SnapshotData
old = record { jobs = []; schema_ver = 1; last_seq = 4 }

abbrev new : SnapshotData
new = record { jobs = []; schema_ver = 2; last_seq = 9 }

abbrev disk : Disk
disk = record { file = some (decodes old); temp = none }

write_atomic_example :
    AllWhole disk new
      ((write disk (some rename) new).before ++ (write disk (some rename) new).final ∷ [])
    × ((((write disk (some rename) new).error ≡ none)
          × ((write disk (some rename) new).final.file
              ≡ some (decodes (record new { schema_ver = 1 }))))
        ⊎ (((write disk (some rename) new).error ≢ none)
            × ((write disk (some rename) new).final.file ≡ disk.file)))
write_atomic_example = write_atomic disk (some rename) new

load-write_with_backup_example :
    let b = write_with_backup disk true (some sync) new in
    (b.moved ≡ disk.file)
    × (((b.writing.error ≡ none)
          × (load true b.writing.final ≡ loaded (record new { schema_ver = 1 })))
        ⊎ ((b.writing.error ≢ none) × (load true b.writing.final ≡ loaded empty_snapshot)))
unfolding exists
load-write_with_backup_example = load-write_with_backup disk (some sync) new refl
