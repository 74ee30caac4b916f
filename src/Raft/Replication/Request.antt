-- ===== src/Raft/Replication/Request.antt =====
-- internal/raft/raft.go: the requests of `replicateToPeer`, and what comes of them at a follower.
use raft_recovery.Prelude.{
  ℕ, zero, suc, ◌+◌, ◌-◌, ◌≤◌, ◌<◌, ◌≡◌, refl, ap, ◌∙◌, subst, sym, true, some, arith, ◌∷◌, length,
  String, get_elem?, pos,
}
use raft_recovery.Raft.Log.{Log, LogEntry, last_index, get_log}
use raft_recovery.Raft.Log.Contiguous.{
  Contiguous, get_log-Contiguous, get_elem?-Contiguous, last_index_eq,
}
use raft_recovery.Raft.Node.{Raft, After, AppendEntriesArgs, AppendEntriesReply, read}
use raft_recovery.Raft.Replication.{append_entries, replicate_request, entries_from, term_at}
use raft_recovery.Raft.Replication.Safety.{Holds, append_entries-Holds}

pub entries_from-suc :
    (es : Log) (from count : ℕ) (e : LogEntry)
    → get_log es from ≡ some e
    → entries_from es from (suc count) ≡ e ∷ entries_from es (from + 1) count
unfolding entries_from
entries_from-suc es from count e h = ground arith

-- The entries from an index on stand one behind the other, and are those of the log.
entries_from-Contiguous :
    (i : ℕ) (es : Log) (from count : ℕ)
    → Contiguous i es
    → i ≤ from
    → from + count ≤ i + length es
    → Contiguous from (entries_from es from count) × (length (entries_from es from count) ≡ count)
unfolding entries_from
entries_from-Contiguous i es from zero c low high = (tt, refl)
entries_from-Contiguous i es from (suc count) c low high =
    let at = get_elem?-Contiguous i es (from - i) c (omega arith) in
    let found : get_log es from ≡ some at.0 = get_log-Contiguous i es from c low ∙ at.1 in
    let ih = entries_from-Contiguous i es (from + 1) count c (omega arith) (omega arith) in
    let next : from + 1 ≡ suc from = omega arith in
    subst (λ l. Contiguous from l × (length l ≡ suc count))
      (sym (entries_from-suc es from count at.0 found))
      (
        (
          omega (arith, at.2),
          subst (λ n. Contiguous n (entries_from es (from + 1) count)) next ih.0,
        ),
        ap suc ih.1,
      )

get_elem?-entries_from :
    (i : ℕ) (es : Log) (from count j : ℕ)
    → Contiguous i es
    → i ≤ from
    → from + count ≤ i + length es
    → j < count
    → get_elem? (entries_from es from count) j ≡ get_log es (from + j)
get_elem?-entries_from i es from zero j c low high h = elim h [ ]
get_elem?-entries_from i es from (suc count) zero c low high h =
    let at = get_elem?-Contiguous i es (from - i) c (omega arith) in
    let found : get_log es from ≡ some at.0 = get_log-Contiguous i es from c low ∙ at.1 in
    ap (λ l. get_elem? l 0) (entries_from-suc es from count at.0 found)
    ∙ sym found
    ∙ ap (get_log es) (omega arith)
get_elem?-entries_from i es from (suc count) (suc j) c low high h =
    let at = get_elem?-Contiguous i es (from - i) c (omega arith) in
    let found : get_log es from ≡ some at.0 = get_log-Contiguous i es from c low ∙ at.1 in
    ap (λ l. get_elem? l (suc j)) (entries_from-suc es from count at.0 found)
    ∙ get_elem?-entries_from i es (from + 1) count j c (omega arith) (omega arith) (omega arith)
    ∙ ap (get_log es) (omega arith)

-- What the request of a leader holds, for a peer whose next index is p + 1.
record Requests (rf : Raft) (p last : ℕ) (args : AppendEntriesArgs) : Type 0 where
  pub term : args.term ≡ rf.current_term
  pub prev : args.prev_log_index ≡ pos p
  pub prev_term : args.prev_log_term ≡ term_at rf.log_store (pos p)
  pub entries : args.entries ≡ entries_from rf.log_store (suc p) (last - p)

replicate_request-Requests :
    (rf : Raft) (peer : String) (p last : ℕ) {args : AppendEntriesArgs}
    → last_index rf.log_store ≡ some last
    → read 0 peer rf.next_index ≡ suc p
    → p ≤ last
    → replicate_request rf peer ≡ some (some args)
    → Requests rf p last args
unfolding replicate_request
replicate_request-Requests rf peer p last l r h e =
    let count : last + 1 - suc p ≡ last - p = omega arith in
    let index : suc p - 1 ≡ p = omega arith in ground (arith, count, index)

module _ (rf : Raft) (peer : String) (args : AppendEntriesArgs) (i p last : ℕ)
    (c : Contiguous i rf.log_store) (len : i + length rf.log_store ≡ suc last)
    (r : read 0 peer rf.next_index ≡ suc p) (low : i ≤ p) (high : p ≤ last)
    (e : replicate_request rf peer ≡ some (some args)) where
  requests : Requests rf p last args
  requests =
      replicate_request-Requests rf peer p last
        (last_index_eq i last rf.log_store c len (omega arith)) r high e

  -- On a log with consecutive entries, for a peer whose next index is behind an entry of the log: the
  -- entries of the leader's request follow its previous entry one by one, up to the last of the log.
  pub replicate_request-Contiguous :
      (args.prev_log_index ≡ pos p)
      × Contiguous (suc p) args.entries
      × (p + length args.entries ≡ last)
  replicate_request-Contiguous =
      let parts =
        entries_from-Contiguous i rf.log_store (suc p) (last - p) c (omega arith) (omega arith) in
      (
        requests.prev,
        subst (Contiguous (suc p)) (sym requests.entries) parts.0,
        omega (arith, ap length requests.entries, parts.1),
      )

  -- Leader and follower have logs with consecutive entries, and the leader's previous entry for this
  -- peer is in its log and not before the follower's first. When the follower answers the leader's
  -- request with success, it holds at every index behind the previous entry, to the leader's last, an
  -- entry of the same term as the leader's.
  pub replicated-Holds :
      (f : Raft) (k flast n : ℕ) (after : After) (reply : AppendEntriesReply) (entry : LogEntry)
      → Contiguous k f.log_store
      → k + length f.log_store ≡ suc flast
      → k ≤ flast
      → k ≤ p
      → append_entries f args ≡ some (after, reply)
      → reply.success ≡ true
      → p < n
      → n ≤ last
      → get_log rf.log_store n ≡ some entry
      → Holds after.node.log_store n entry.term
  replicated-Holds f k flast n after reply entry fc flen fnow flow step ok more less there =
      let w = replicate_request-Contiguous in
      let at : get_elem? args.entries (n - suc p) ≡ some entry =
        ap (λ l. get_elem? l (n - suc p)) requests.entries
        ∙ get_elem?-entries_from i rf.log_store (suc p) (last - p) (n - suc p) c (omega arith)
            (omega arith) (omega arith)
        ∙ ap (get_log rf.log_store) (omega arith)
        ∙ there in
      let index = get_elem?-Contiguous i rf.log_store (n - i) c (omega arith) in
      let named : entry.index ≡ n =
        ground (arith, index.1, index.2, get_log-Contiguous i rf.log_store n c) in
      subst (λ m. Holds after.node.log_store m entry.term) named
        (append_entries-Holds f args k p flast fc flen w.0 flow w.1 fnow after reply step ok
          (n - suc p) entry at)
