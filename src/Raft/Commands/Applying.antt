-- ===== src/Raft/Commands/Applying.antt =====
-- internal/raft/raft.go: proposals, applied entries and compaction, on logs with consecutive entries.
use raft_recovery.Prelude.{
  ℕ, zero, suc, ◌+◌, ◌-◌, ◌≤◌, ◌<◌, ◌≡◌, refl, ap, ◌∙◌, subst, sym, true, some, none, arith, List,
  [], ◌∷◌, ◌++◌, length, String, get_elem?, pos, drop, length-drop, drop_all, get_elem?-append_lt,
  get_elem?-append_ge, get_elem?-drop,
}
use raft_recovery.Raft.Log.{Log, LogEntry, first_index, last_index, get_log, store_log}
use raft_recovery.Raft.Log.Contiguous.{
  Contiguous, Contiguous-append, Contiguous-drop, get_log-Contiguous, get_elem?-Contiguous,
  last_index_eq, delete_range_prefix,
}
use raft_recovery.Raft.Node.{Raft, After, leader, broadcast_heartbeats}
use raft_recovery.Raft.Commands.{ApplyMsg, propose, messages_from, apply_logs, snapshot}

first_index-is_some : (es : Log) → 0 < length es → (f : ℕ) × (first_index es ≡ some f)
unfolding first_index
first_index-is_some [] h = elim h [ ]
first_index-is_some (e ∷ es) h = (e.index, refl)

first_index-Contiguous :
    (i : ℕ) (es : Log) → Contiguous i es → 0 < length es → first_index es ≡ some i
unfolding first_index
first_index-Contiguous i [] c h = elim h [ ]
first_index-Contiguous i (e ∷ es) c h = ap some c.0

messages_none : (es : Log) (from n : ℕ) → n ≡ 0 → messages_from es from n ≡ []
unfolding messages_from
messages_none es from n h = rw h

-- Messages for the indexes from, from + 1, …, each with the command that the log holds there.
abbrev pub Delivers : Log → ℕ → List ApplyMsg → Type 0
Delivers es from [] = Unit {0}
Delivers es from (m ∷ ms) =
    (m.command_index ≡ from)
    × (m.command_valid ≡ true)
    × ((e : LogEntry) × (get_log es from ≡ some e) × (m.command ≡ e.command))
    × Delivers es (suc from) ms

message_of : LogEntry → ApplyMsg
message_of e = record { command_valid = true; command = e.command; command_index = e.index }

messages_from-suc :
    (es : Log) (from count : ℕ) (e : LogEntry)
    → get_log es from ≡ some e
    → messages_from es from (suc count) ≡ message_of e ∷ messages_from es (from + 1) count
unfolding messages_from message_of
messages_from-suc es from count e h = ground arith

messages_from-Delivers :
    (i : ℕ) (es : Log) (from count : ℕ)
    → Contiguous i es
    → i ≤ from
    → from + count ≤ i + length es
    → Delivers es from (messages_from es from count)
      × (length (messages_from es from count) ≡ count)
unfolding messages_from message_of
messages_from-Delivers i es from zero c low high = (tt, refl)
messages_from-Delivers i es from (suc count) c low high =
    let at = get_elem?-Contiguous i es (from - i) c (omega arith) in
    let found : get_log es from ≡ some at.0 = get_log-Contiguous i es from c low ∙ at.1 in
    let ih = messages_from-Delivers i es (from + 1) count c (omega arith) (omega arith) in
    let next : from + 1 ≡ suc from = omega arith in
    subst (λ l. Delivers es from l × (length l ≡ suc count))
      (sym (messages_from-suc es from count at.0 found))
      (
        (
          omega (arith, at.2),
          refl,
          (at.0, found, refl),
          subst (λ n. Delivers es n (messages_from es (from + 1) count)) next ih.0,
        ),
        ap suc ih.1,
      )

-- On a log with consecutive entries that holds all from the first not applied to the last committed,
-- `applyLogs` delivers each committed entry that was not applied before, once and in the order of the
-- indexes, changes nothing but the applied index, and afterwards all that is committed is applied.
pub apply_logs-Delivers :
    (rf : Raft) (i last : ℕ)
    → Contiguous i rf.log_store
    → i + length rf.log_store ≡ suc last
    → i ≤ last
    → i ≤ suc rf.last_applied
    → rf.commit_index ≤ last
    → rf.last_applied ≤ rf.commit_index
    → (messages : List ApplyMsg) × (apply_logs rf
        ≡ some (record rf { last_applied = rf.commit_index }, messages))
      × Delivers rf.log_store (suc rf.last_applied) messages
      × (rf.last_applied + length messages ≡ rf.commit_index)
unfolding apply_logs
apply_logs-Delivers rf i last c len now low high order =
    let d =
      messages_from-Delivers i rf.log_store (suc rf.last_applied)
        (rf.commit_index - rf.last_applied) c low (omega arith) in
    let next : rf.last_applied + 1 ≡ suc rf.last_applied = omega arith in
    let first = first_index-is_some rf.log_store (omega arith) in
    (
      messages_from rf.log_store (suc rf.last_applied) (rf.commit_index - rf.last_applied),
      ground (
        arith,
        next,
        first.1,
        messages_none rf.log_store (suc rf.last_applied) (rf.commit_index - rf.last_applied),
      ),
      d.0,
      omega (arith, d.1),
    )

module _ (rf : Raft) (i last : ℕ) (c : Contiguous i rf.log_store)
    (len : i + length rf.log_store ≡ suc last) (low : i ≤ last) where
  abbrev grown : LogEntry → Log
  grown entry = rf.log_store ++ entry ∷ []

  grown-Contiguous : (entry : LogEntry) → entry.index ≡ suc last → Contiguous i (grown entry)
  grown-Contiguous entry h = Contiguous-append i rf.log_store (entry ∷ []) c (h ∙ sym len, tt)

  -- On a log with consecutive entries a leader accepts every proposal, and stores it under its term at
  -- the index after the last, which is returned; every other entry stays, and the entries stay
  -- consecutive.
  pub propose_stored :
      (command : String) (n : ℕ)
      → rf.state ≡ leader
      → n ≤ last
      → i ≤ n
      → (after : After) × (propose rf command
          ≡ some (
            after,
            record { index = pos (suc last); term = pos rf.current_term; accepted = true },
          ))
        × Contiguous i after.node.log_store
        × (get_log after.node.log_store n ≡ get_log rf.log_store n)
        × (get_log after.node.log_store (suc last)
            ≡ some (record { term = rf.current_term; index = suc last; command = command }))
  unfolding propose store_log
  propose_stored command n lead h k =
      let entry : LogEntry = record {
        term = rf.current_term;
        index = suc last;
        command = command;
      } in
      let c' = grown-Contiguous entry refl in
      let next : last + 1 ≡ suc last = omega arith in
      (
        record { node = record rf { log_store = grown entry }; effects = broadcast_heartbeats rf },
        ground (arith, next, last_index_eq i last rf.log_store c len low),
        c',
        get_log-Contiguous i (grown entry) n c' k
            ∙ get_elem?-append_lt rf.log_store (entry ∷ []) (n - i) (omega arith)
            ∙ sym (get_log-Contiguous i rf.log_store n c k),
        get_log-Contiguous i (grown entry) (suc last) c' (omega arith)
            ∙ ap (get_elem? (grown entry)) (omega arith)
            ∙ get_elem?-append_ge rf.log_store (entry ∷ []) 0,
      )

  -- The compaction of an index that the log holds drops all entries up to it.
  snapshot_drops :
      (index : ℕ)
      → rf.last_included_index < index
      → i ≤ index
      → index ≤ last
      → (rf' : Raft) × (snapshot rf index ≡ some rf')
        × (rf'.last_included_index ≡ index)
        × (rf'.log_store ≡ drop (suc index - i) rf.log_store)
        × (rf'.state ≡ rf.state)
  unfolding snapshot
  snapshot_drops index new h k =
      let at = get_elem?-Contiguous i rf.log_store (index - i) c (omega arith) in
      let found : get_log rf.log_store index ≡ some at.0 =
        get_log-Contiguous i rf.log_store index c h ∙ at.1 in
      let first = first_index-Contiguous i rf.log_store c (omega arith) in
      let cut = delete_range_prefix i i index rf.log_store c (omega arith) in
      (
        record rf {
          last_included_index = index;
          last_included_term = at.0.term;
          log_store = drop (suc index - i) rf.log_store;
        },
        ground (arith, found, first, cut),
        refl,
        refl,
        refl,
      )

  -- On a log with consecutive entries, compaction up to a new index of the log before the last keeps the
  -- entries behind it, which stay consecutive.
  pub snapshot_keeps :
      (index n : ℕ)
      → rf.last_included_index < index
      → i ≤ index
      → index < last
      → index < n
      → (rf' : Raft) × (snapshot rf index ≡ some rf')
        × (rf'.last_included_index ≡ index)
        × Contiguous (suc index) rf'.log_store
        × (suc index + length rf'.log_store ≡ suc last)
        × (get_log rf'.log_store n ≡ get_log rf.log_store n)
  snapshot_keeps index n new h k more =
      let s = snapshot_drops index new h (omega arith) in
      let there : i + (suc index - i) ≡ suc index = omega arith in
      let kept : Contiguous (suc index) s.0.log_store = subst (Contiguous (suc index)) (sym s.3) (
        subst (λ m. Contiguous m (drop (suc index - i) rf.log_store)) there
          (Contiguous-drop i (suc index - i) rf.log_store c)) in
      (
        s.0,
        s.1,
        s.2,
        kept,
        omega (arith, ap length s.3, length-drop (suc index - i) rf.log_store),
        get_log-Contiguous (suc index) s.0.log_store n kept more
            ∙ ap (λ l. get_elem? l (n - suc index)) s.3
            ∙ get_elem?-drop rf.log_store (suc index - i) (n - suc index)
            ∙ ap (get_elem? rf.log_store) (omega arith)
            ∙ sym (get_log-Contiguous i rf.log_store n c (omega arith)),
      )

  -- On a log with consecutive entries, compaction of a leader up to the last index, not compacted
  -- before, leaves an empty log, and the next proposal panics.
  pub snapshot_last_panics :
      (command : String)
      → rf.last_included_index < last
      → rf.state ≡ leader
      → (rf' : Raft) × (snapshot rf last ≡ some rf')
        × (rf'.log_store ≡ [])
        × (propose rf' command ≡ none)
  unfolding propose last_index
  snapshot_last_panics command new lead =
      let s = snapshot_drops last new low (omega arith) in
      let empty : s.0.log_store ≡ [] = s.3 ∙ drop_all (suc last - i) rf.log_store (omega arith) in
      (s.0, s.1, empty, ground (arith, empty, s.4))
