-- ===== src/Wal/Writer/Durability.antt =====
-- internal/storage/wal/wal.go: answers, durability and replay.
use raft_recovery.Prelude.{
  ℕ, ◌≡◌, refl, ap, true, false, Bool, Option, none, List, [], ◌∷◌, ◌++◌, map, arith, Bool-cases,
  inl, inr,
}
use raft_recovery.Wal.Event.{Event}
use raft_recovery.Wal.Writer.{
  Wal, WalLine, written, torn, BatchRequest, Write, succeeds, leaves_torn, leaves_nothing,
  encode_all, events_of, answer_all, flush_batch, ReplayError, replay,
}

encode_all_complete :
    (writes : List Write) (es : List Event)
    → (encode_all writes es).1 ≡ true
    → (encode_all writes es).0 ≡ map written es
unfolding encode_all
encode_all_complete writes [] h = refl
encode_all_complete [] (e ∷ es) h = ap (λ l. written e ∷ l) (encode_all_complete [] es h)
encode_all_complete (succeeds ∷ writes) (e ∷ es) h =
    ap (λ l. written e ∷ l) (encode_all_complete writes es h)
encode_all_complete (leaves_torn ∷ writes) (e ∷ es) h = cc
encode_all_complete (leaves_nothing ∷ writes) (e ∷ es) h = cc

-- If a batch that is not empty is answered without an error, then what is synced is the file as it was,
-- and behind it all the events of the batch in their order.
pub flush_batch_durable :
    (w : Wal) (writes : List Write) (sync_ok : Bool) (r : BatchRequest) (rs : List BatchRequest)
    → (flush_batch w writes sync_ok (r ∷ rs)).1 ≡ answer_all none (r ∷ rs)
    → (flush_batch w writes sync_ok (r ∷ rs)).0.synced ≡ w.file ++ map written (events_of (r ∷ rs))
unfolding flush_batch answer_all
flush_batch_durable w writes sync_ok r rs h =
    let es = events_of (r ∷ rs) in
    elim (Bool-cases ((encode_all writes es).1)) [
      | inl complete ↦ elim (Bool-cases sync_ok) [
        | inl ok ↦ rw (complete, ok) (ap (◌++◌ w.file) (encode_all_complete writes es complete))
        | inr failed ↦ absurd (unsynced failed)
      ]
      | inr broken ↦ absurd (refute broken)
    ]
  where
    refute : (encode_all writes (events_of (r ∷ rs))).1 ≡ false → ⊥
    refute broken = ground arith

    unsynced : sync_ok ≡ false → ⊥
    unsynced failed = ground arith

module _ {ℓ κ} {S : Type ℓ} {E : Type κ} (crc32 : List ℕ → ℕ)
    (handler : S → Event → S × Option E) where
  -- Replaying a log whose first part replays without an error goes on from the state that this part
  -- gives.
  pub replay-append :
      (s : S) (front back : List WalLine) {s' : S}
      → replay crc32 handler s front ≡ (s', none)
      → replay crc32 handler s (front ++ back) ≡ replay crc32 handler s' back
  unfolding replay
  replay-append s [] back {s' = s'} h =
      ap (λ t. replay crc32 handler t back) (ap (λ (r : S × Option (ReplayError E)). r.0) h)
  replay-append s (torn ∷ front) back h = cc
  replay-append s (written e ∷ front) back {s' = s'} h =
      ground (arith, replay-append (handler s e).0 front back {s' = s'})
