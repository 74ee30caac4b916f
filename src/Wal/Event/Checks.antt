-- ===== src/Wal/Event/Checks.antt =====
-- internal/storage/wal/checksum.go: what the checksum of an event covers.
use raft_recovery.Prelude.{
  ℕ, ◌≤◌, ◌<◌, ◌≡◌, refl, true, List, String, ap, ◌++◌, [], ◌∷◌, arith, ==_iff,
}
use raft_recovery.Wal.Event.{
  EventType, type_name, codes, rune_of, calculate_checksum, verify_checksum, new_event,
}

-- Every event that `Append` builds passes its check, whatever CRC-32 is.
pub verify-new_event :
    (crc32 : List ℕ → ℕ) (type : EventType) (id : String) (seq now : ℕ)
    → verify_checksum crc32 (new_event crc32 type id seq now) ≡ true
unfolding verify_checksum new_event
verify-new_event crc32 type id seq now = (==_iff _ _).1 refl

-- The checksum does not tell sequence numbers from 1114112 up to 2^32 apart, whatever CRC-32 is.
pub checksum_blind :
    (crc32 : List ℕ → ℕ) (type : EventType) (id : String) (seq seq' : ℕ)
    → 1114112 ≤ seq
    → seq < 4294967296
    → 1114112 ≤ seq'
    → seq' < 4294967296
    → calculate_checksum crc32 type id seq ≡ calculate_checksum crc32 type id seq'
unfolding calculate_checksum rune_of
checksum_blind crc32 type id seq seq' h k h' k' =
    let same : rune_of seq ≡ rune_of seq' = ground arith in
    ap (λ r. crc32 (codes (type_name type) ++ (codes id ++ r ∷ []))) same
