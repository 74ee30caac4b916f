-- ===== src/Wal/Event.antt =====
-- internal/storage/wal/types.go and checksum.go: events and their checksums. A text is the list of its
-- code points; CRC-32 of its UTF-8 bytes is Go's, an argument here.
pub mod Checks
use Prim.Native.Char.{code}
use raft_recovery.Prelude.{
  ℕ, ◌+◌, ◌*◌, ◌^◌, ◌%◌, ◌≤◌, ◌<◌, ◌≡◌, Bool, List, [], ◌∷◌, ◌++◌, String, ◌==◌, ltb, leb, ◌||◌,
  ◌&&◌, if◌then◌else◌,
}
use Prim.Native.String

-- An `EventType` is any string; `other` is one that is none of the six constants.
pub data EventType : Type 0 where
  enqueue dispatch ack retry timeout dead : EventType
  other : String → EventType

abbrev pub type_name : EventType → String
type_name enqueue = "ENQUEUE"
type_name dispatch = "DISPATCH"
type_name ack = "ACK"
type_name retry = "RETRY"
type_name timeout = "TIMEOUT"
type_name dead = "DEAD"
type_name (other s) = s

pub record Event : Type 0 where
  pub seq : ℕ
  pub type : EventType
  pub job_id : String
  pub timestamp : ℕ
  pub checksum : ℕ

abbrev pub codes : String → List ℕ
codes String.[] = []
codes (String.◌∷◌ c s) = code c ∷ codes s

-- `string(rune(seq))`: the conversion to an int32 keeps the low 32 bits, and a value that is no code
-- point becomes U+FFFD. A negative int32 is at least 2^31 here, and no code point either.
unfoldable pub rune_of : ℕ → ℕ
rune_of seq =
    let r : ℕ = seq % 4294967296 in
    if leb 0x110000 r || (leb 0xd800 r && leb r 0xdfff) then 0xfffd else r

module _ (crc32 : List ℕ → ℕ) where
  unfoldable pub calculate_checksum : EventType → String → ℕ → ℕ
  unfolding rune_of
  calculate_checksum type id seq = crc32 (codes (type_name type) ++ (codes id ++ rune_of seq ∷ []))

  unfoldable pub verify_checksum : Event → Bool
  unfolding calculate_checksum
  verify_checksum event = event.checksum == calculate_checksum event.type event.job_id event.seq

  -- The event that `Append` builds.
  unfoldable pub new_event : EventType → String → ℕ → ℕ → Event
  unfolding calculate_checksum
  new_event type id seq now = record {
    seq = seq;
    type = type;
    job_id = id;
    timestamp = now;
    checksum = calculate_checksum type id seq;
  }
