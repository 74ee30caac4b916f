-- ===== src/Wal/Split/Parts.antt =====
-- internal/storage/wal/wal.go: the files of a split log.
mod Tests
use raft_recovery.Prelude.{
  ℕ, ◌+◌, ◌≡◌, ◌<◌, ◌≤◌, ◌⊎◌, refl, ap, ◌∙◌, Bool, true, false, Option, none, some, List, [], ◌∷◌,
  ◌++◌, map, arith, leb, if◌then◌else◌, sym, Bool-cases, inl, inr,
}
use mathlib.Core.List.{append-nil, append_assoc}
use raft_recovery.Wal.Event.{Event}
use raft_recovery.Wal.Writer.{WalLine, written, torn}
use raft_recovery.Wal.Split.{
  Splitting, files, start, is_full, next_file, encode, split_round, split_lines, split_wal_file,
}

abbrev pub join : List (List Event) → List Event
join [] = []
join (part ∷ parts) = part ++ join parts

abbrev pub total : (Event → ℕ) → List Event → ℕ
total size [] = 0
total size (e ∷ es) = size e + total size es

join-append :
    (parts : List (List Event)) (p : List Event) → join (parts ++ p ∷ []) ≡ join parts ++ p
join-append [] p = append-nil p
join-append (q ∷ parts) p =
    ap (λ rest. q ++ rest) (join-append parts p) ∙ sym (append_assoc q (join parts) p)

total-append :
    (size : Event → ℕ) (es : List Event) (e : Event)
    → total size (es ++ e ∷ []) ≡ total size es + size e
total-append size [] e = omega arith
total-append size (d ∷ es) e = let ih = total-append size es e in omega arith

-- A file passes the limit, if at all, with its last event.
pub data IsWithin (size : Event → ℕ) (max_size : ℕ) : List Event → Type 0 where
  single : (e : Event) → IsWithin size max_size (e ∷ [])
  filled :
      (es : List Event) (e : Event)
      → total size es < max_size
      → IsWithin size max_size (es ++ e ∷ [])

abbrev pub AllWithin : (Event → ℕ) → ℕ → List (List Event) → Type 0
AllWithin size max_size [] = Unit {0}
AllWithin size max_size (p ∷ ps) = IsWithin size max_size p × AllWithin size max_size ps

AllWithin-append :
    (size : Event → ℕ) (max_size : ℕ) (ps : List (List Event)) (p : List Event)
    → AllWithin size max_size ps
    → IsWithin size max_size p
    → AllWithin size max_size (ps ++ p ∷ [])
AllWithin-append size max_size [] p a w = (w, tt)
AllWithin-append size max_size (q ∷ ps) p a w = (a.0, AllWithin-append size max_size ps p a.1 w)

module _ (size : Event → ℕ) (max_size : ℕ) (create_ok : ℕ → Bool) (encode_ok : Event → Bool)
    (creates : (n : ℕ) → create_ok n ≡ true) (encodes : (e : Event) → encode_ok e ≡ true) where
  abbrev opened : Splitting → Splitting
  opened s =
      if is_full size max_size create_ok encode_ok s
      then next_file size max_size create_ok encode_ok s
      else s

  round_ok :
      (s : Splitting) (e : Event)
      → split_round size max_size create_ok encode_ok s e
        ≡ (encode size max_size create_ok encode_ok (opened s) e, true)
  unfolding split_round
  round_ok s e = ground (arith, creates (s.part + 1), encodes e)

  -- The file that is open is within the limit, and its size is known.
  abbrev IsOpen : Splitting → Type 0
  IsOpen s = elim s.out_file [
    | none ↦ Unit {0}
    | some events ↦ IsWithin size max_size events × (s.current_size ≡ total size events)
  ]

  abbrev IsSplit : Splitting → Type 0
  IsSplit s = AllWithin size max_size s.complete × IsOpen s

  -- A round that opens a file, or goes on with the one that is open.
  abbrev moved : Bool → Splitting → Event → Splitting
  moved b s e =
      encode size max_size create_ok encode_ok
        (if b then next_file size max_size create_ok encode_ok s else s) e

  join-moved :
      (b : Bool) (ps : List (List Event)) (es : List Event) (n part : ℕ) (e : Event)
      → let s : Splitting = record {
        complete = ps;
        out_file = some es;
        current_size = n;
        part = part;
      } in
        join (files (moved b s e)) ≡ join (files s) ++ e ∷ []
  join-moved true ps es n part e = join-append (ps ++ es ∷ []) (e ∷ [])
  join-moved false ps es n part e =
      join-append ps (es ++ e ∷ [])
      ∙ sym (append_assoc (join ps) es (e ∷ []))
      ∙ ap (λ front. front ++ e ∷ []) (sym (join-append ps es))

  moved-IsSplit :
      (b : Bool) (ps : List (List Event)) (es : List Event) (n part : ℕ) (e : Event)
      → leb max_size n ≡ b
      → let s : Splitting = record {
        complete = ps;
        out_file = some es;
        current_size = n;
        part = part;
      } in
        IsSplit s → IsSplit (moved b s e)
  moved-IsSplit true ps es n part e full (a, (w, t)) =
      (AllWithin-append size max_size ps es a w, (single e, omega arith))
  moved-IsSplit false ps es n part e room (a, (w, t)) =
      (a, (filled es e (ground (arith, room, t)), ground (arith, t, total-append size es e)))

  abbrev after_round : Splitting → Event → Splitting
  after_round s e = encode size max_size create_ok encode_ok (opened s) e

  after_round_kept :
      (s : Splitting) (e : Event)
      → IsSplit s
      → (join (files (after_round s e)) ≡ join (files s) ++ e ∷ []) × IsSplit (after_round s e)
  after_round_kept s e = go s.complete s.out_file s.current_size s.part
    where
      go :
          (ps : List (List Event)) (o : Option (List Event)) (n part : ℕ)
          → let s : Splitting = record {
            complete = ps;
            out_file = o;
            current_size = n;
            part = part;
          } in
            IsSplit s
            → (join (files (after_round s e)) ≡ join (files s) ++ e ∷ [])
              × IsSplit (after_round s e)
      go ps none n part (a, u) = (join-append ps (e ∷ []), (a, (single e, omega arith)))
      go ps (some es) n part v = (
        join-moved (leb max_size n) ps es n part e,
        moved-IsSplit (leb max_size n) ps es n part e refl v,
      )

  files-AllWithin : (s : Splitting) → IsSplit s → AllWithin size max_size (files s)
  files-AllWithin s = go s.complete s.out_file s.current_size s.part
    where
      go :
          (ps : List (List Event)) (o : Option (List Event)) (n part : ℕ)
          → let s : Splitting = record {
            complete = ps;
            out_file = o;
            current_size = n;
            part = part;
          } in
            IsSplit s → AllWithin size max_size (files s)
      go ps none n part (a, u) = a
      go ps (some es) n part (a, (w, t)) = AllWithin-append size max_size ps es a w

  split_lines_lem :
      (s : Splitting) (events : List Event)
      → IsSplit s
      → let (parts, ok) = split_lines size max_size create_ok encode_ok s (map written events) in
        (ok ≡ true) × (join parts ≡ join (files s) ++ events) × AllWithin size max_size parts
  unfolding split_lines
  split_lines_lem s [] v = (refl, sym (append-nil (join (files s))), files-AllWithin s v)
  split_lines_lem s (e ∷ events) v =
      let (added, v') = after_round_kept s e v in
      let (ok, joined, within) = split_lines_lem (after_round s e) events v' in
      rw (round_ok s e) (
        ok,
        joined
            ∙ ap (λ front. front ++ events) added
            ∙ append_assoc (join (files s)) (e ∷ []) events,
        within,
      )

  -- Where all files can be created and written, a log of whole events is split without an error. The
  -- files hold its events, each once and in their order; and none is empty, and each is below the
  -- limit until its last event, by the sizes that are counted.
  pub join-split_wal_file :
      (events : List Event)
      → let (parts, ok) = split_wal_file size max_size create_ok encode_ok (map written events) in
        (ok ≡ true) × (join parts ≡ events) × AllWithin size max_size parts
  unfolding split_wal_file
  join-split_wal_file events = split_lines_lem start events (tt, tt)
