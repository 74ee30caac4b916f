-- ===== src/Snapshot/Manager/Atomic.antt =====
-- internal/snapshot/snapshot_manager.go: a snapshot is there whole, or not at all.
use raft_recovery.Prelude.{
  ◌≡◌, ◌≢◌, refl, ◌⊎◌, inl, true, Option, none, some, List, [], ◌∷◌, ◌++◌, arith,
}
use raft_recovery.Types.{SnapshotData}
use raft_recovery.Snapshot.Manager.{
  Disk, decodes, Call, mkdir, create, encode, flush, sync, rename, write, loaded, load, exists,
  write_with_backup, empty_snapshot,
}

-- The file as it was, or the whole new snapshot under version 1.
abbrev pub IsWhole : Disk → SnapshotData → Disk → Type 0
IsWhole disk snapshot d =
    (d.file ≡ disk.file) ⊎ (d.file ≡ some (decodes (record snapshot { schema_ver = 1 })))

abbrev pub AllWhole : Disk → SnapshotData → List Disk → Type 0
AllWhole disk snapshot [] = Unit {0}
AllWhole disk snapshot (d ∷ ds) = IsWhole disk snapshot d × AllWhole disk snapshot ds

-- Whichever call fails, and wherever a crash stops `Write`, the snapshot file is the old one or the new
-- one, whole. It is the new one at the end exactly if `Write` reports no error.
pub write_atomic :
    (disk : Disk) (fails : Option Call) (snapshot : SnapshotData)
    → AllWhole disk snapshot
        ((write disk fails snapshot).before ++ (write disk fails snapshot).final ∷ [])
      × ((((write disk fails snapshot).error ≡ none)
            × ((write disk fails snapshot).final.file
                ≡ some (decodes (record snapshot { schema_ver = 1 }))))
          ⊎ (((write disk fails snapshot).error ≢ none)
              × ((write disk fails snapshot).final.file ≡ disk.file)))
unfolding write
write_atomic disk none snapshot = ground arith
write_atomic disk (some mkdir) snapshot = ground arith
write_atomic disk (some create) snapshot = ground arith
write_atomic disk (some encode) snapshot = ground arith
write_atomic disk (some flush) snapshot = ground arith
write_atomic disk (some sync) snapshot = ground arith
write_atomic disk (some rename) snapshot = ground arith

-- What was written without an error is loaded again, under version 1; after an error the earlier
-- snapshot is loaded as before.
pub load-write :
    (disk : Disk) (fails : Option Call) (snapshot : SnapshotData)
    → (((write disk fails snapshot).error ≡ none)
        × (load true (write disk fails snapshot).final
            ≡ loaded (record snapshot { schema_ver = 1 })))
      ⊎ (((write disk fails snapshot).error ≢ none)
          × (load true (write disk fails snapshot).final ≡ load true disk))
unfolding write load
load-write disk none snapshot = inl (refl, refl)
load-write disk (some mkdir) snapshot = ground arith
load-write disk (some create) snapshot = ground arith
load-write disk (some encode) snapshot = ground arith
load-write disk (some flush) snapshot = ground arith
load-write disk (some sync) snapshot = ground arith
load-write disk (some rename) snapshot = ground arith

-- With a snapshot there, and its renaming done, the backup is the old snapshot. If the write then
-- succeeds, the new one is loaded; if it fails, a restart finds no snapshot and begins with no jobs.
pub load-write_with_backup :
    (disk : Disk) (fails : Option Call) (snapshot : SnapshotData)
    → exists disk ≡ true
    → let b = write_with_backup disk true fails snapshot in
      (b.moved ≡ disk.file)
      × (((b.writing.error ≡ none)
            × (load true b.writing.final ≡ loaded (record snapshot { schema_ver = 1 })))
          ⊎ ((b.writing.error ≢ none) × (load true b.writing.final ≡ loaded empty_snapshot)))
unfolding write_with_backup load
load-write_with_backup disk fails snapshot there =
    let w = load-write (record disk { file = none }) fails snapshot in rw there (refl, w)
