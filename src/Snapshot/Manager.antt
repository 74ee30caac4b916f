-- ===== src/Snapshot/Manager.antt =====
-- internal/snapshot/snapshot_manager.go: snapshots on disk. JSON is Go's: the content of a file is the
-- data that it decodes to, or it is corrupted.
pub mod Atomic
mod Tests
use raft_recovery.Prelude.{
  ℕ, ◌≡◌, Bool, true, false, Option, none, some, List, [], ◌∷◌, ◌==◌, if◌then◌else◌, not,
}
use raft_recovery.Types.{SnapshotData}

pub data Content : Type 0 where
  decodes : SnapshotData → Content
  corrupted : Content

-- The snapshot file and the temporary file beside it.
pub record Disk : Type 0 where
  pub file : Option Content
  pub temp : Option Content

-- The system calls of `Write` that can fail, in their order; `flush` writes the encoded data.
pub data Call : Type 0 where
  mkdir create encode flush sync rename : Call

pub data SnapshotError : Type 0 where
  write_failed : Call → SnapshotError
  backup_failed : SnapshotError
  read_failed corrupted_snapshot : SnapshotError
  incompatible_version : ℕ → SnapshotError

abbrev pub is_call : Call → Option Call → Bool
is_call mkdir (some mkdir) = true
is_call create (some create) = true
is_call encode (some encode) = true
is_call flush (some flush) = true
is_call sync (some sync) = true
is_call rename (some rename) = true
is_call _ _ = false

-- The states of the disk through which `Write` passes, up to the call that fails if one does, and its
-- result. A failure after the temporary file was made removes it.
pub record Writing : Type 0 where
  pub before : List Disk
  pub final : Disk
  pub error : Option SnapshotError

unfoldable pub write : Disk → Option Call → SnapshotData → Writing
write disk fails snapshot =
    let content : Content = decodes (record snapshot { schema_ver = 1 }) in
    let partial : Disk = record disk { temp = some corrupted } in
    let complete : Disk = record disk { temp = some content } in
    let removed : Disk = record disk { temp = none } in
    if is_call mkdir fails
    then record { before = disk ∷ []; final = disk; error = some (write_failed mkdir) }
    else if is_call create fails
    then record { before = disk ∷ []; final = disk; error = some (write_failed create) }
    else if is_call encode fails
    then record {
      before = disk ∷ partial ∷ [];
      final = removed;
      error = some (write_failed encode);
    }
    else if is_call flush fails
    then record { before = disk ∷ partial ∷ []; final = removed; error = some (write_failed flush) }
    else if is_call sync fails
    then record {
      before = disk ∷ partial ∷ complete ∷ [];
      final = removed;
      error = some (write_failed sync);
    }
    else if is_call rename fails
    then record {
      before = disk ∷ partial ∷ complete ∷ [];
      final = removed;
      error = some (write_failed rename);
    }
    else record {
      before = disk ∷ partial ∷ complete ∷ [];
      final = record { file = some content; temp = none };
      error = none;
    }

pub data Loaded : Type 0 where
  loaded : SnapshotData → Loaded
  load_failed : SnapshotError → Loaded

abbrev pub empty_snapshot : SnapshotData
empty_snapshot = record { jobs = []; schema_ver = 1; last_seq = 0 }

-- `Load`. A missing file is the first start.
unfoldable pub load : Bool → Disk → Loaded
load readable disk = elim disk.file [
  | none ↦ loaded empty_snapshot
  | some content ↦ if not readable then load_failed read_failed else elim content [
    | corrupted ↦ load_failed corrupted_snapshot
    | decodes snapshot ↦
        if snapshot.schema_ver == 1
        then loaded snapshot
        else load_failed (incompatible_version snapshot.schema_ver)
  ]
]

unfoldable pub exists : Disk → Bool
exists disk = elim disk.file [ none ↦ false | some content ↦ true ]

-- What `WriteWithBackup` moved to the name of a backup, and the write that follows.
pub record Backup : Type 0 where
  pub moved : Option Content
  pub writing : Writing

-- `WriteWithBackup`. The name of the backup, with the time in it, is new.
unfoldable pub write_with_backup : Disk → Bool → Option Call → SnapshotData → Backup
unfolding write exists
write_with_backup disk rename_ok fails snapshot =
    let gone : Disk = record disk { file = none } in
    let written = write gone fails snapshot in
    if not (exists disk)
    then record { moved = none; writing = write disk fails snapshot }
    else if not rename_ok
    then record {
      moved = none;
      writing = record { before = disk ∷ []; final = disk; error = some backup_failed };
    }
    else record { moved = disk.file; writing = record written { before = disk ∷ written.before } }
