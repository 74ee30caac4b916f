-- ===== src/Raft/Replication/Safety.antt =====
-- internal/raft/rpc.go: what `AppendEntries` promises on a log with consecutive entries from i to
-- last, for a request whose previous entry stands at p, not before i, and whose entries follow it.
use raft_recovery.Prelude.{
  ℕ, suc, ◌+◌, ◌-◌, ◌∙◌, get_elem?-lt, ◌≤◌, ◌<◌, ◌≡◌, subst, sym, true, false, none, some, List,
  length, get_elem?, arith, pos, ◌↔◌, ◌⊎◌, inl, inr, Option-cases, is_some, ◌||◌,
}
use raft_recovery.Raft.Log.{LogEntry, last_index, get_log}
use raft_recovery.Raft.Log.Contiguous.{
  Contiguous, last_index_eq, last_index-is_some, get_log-Contiguous, get_elem?-Contiguous,
}
use raft_recovery.Raft.Node.{Raft, After, AppendEntriesArgs, AppendEntriesReply}
use raft_recovery.Raft.Replication.{append_entries, append_loop, prev_conflicts, lt_ℤ}
use raft_recovery.Raft.Replication.Matching.{Merged, append_loop-Merged}
use raft_recovery.Raft.Replication.Append.{
  Appended, append_entries-Appended, append_entries-total, append_entries-success_eq,
  append_loop_nonempty,
}

-- The log holds, at p, an entry of the term.
abbrev pub Holds : List LogEntry → ℕ → ℕ → Type 0
Holds es p term = (e : LogEntry) × (get_log es p ≡ some e) × (e.term ≡ term)

-- A refused request leaves the log as it was.
pub append_entries-refused :
    (rf : Raft) (args : AppendEntriesArgs) (last : ℕ) (after : After) (reply : AppendEntriesReply)
    → last_index rf.log_store ≡ some last
    → append_entries rf args ≡ some (after, reply)
    → reply.success ≡ false
    → after.node.log_store ≡ rf.log_store
append_entries-refused rf args last after reply l e s =
    elim (append_entries-Appended rf last l args after reply e) [
      | inl h ↦ h.1
      | inr a ↦ absurd (refute a.succeeded)
    ]
  where
    refute : reply.success ≡ true → ⊥
    refute h = cc

-- On a log that is not empty every request is answered: no access of the log panics.
pub append_entries_answers :
    (rf : Raft) (args : AppendEntriesArgs)
    → 0 < length rf.log_store
    → (r : After × AppendEntriesReply) × (append_entries rf args ≡ some r)
append_entries_answers rf args h =
    let l = last_index-is_some rf.log_store h in
    let l' =
      last_index-is_some (append_loop l.0 rf.log_store args.entries)
        (append_loop_nonempty l.0 rf.log_store args.entries h) in
    let t = append_entries-total rf args l.0 l'.0 l.1 l'.1 in
    elim (Option-cases (append_entries rf args)) [ inl panic ↦ absurd (refute t panic) | inr r ↦ r ]
  where
    refute : is_some (append_entries rf args) ≡ true → append_entries rf args ≡ none → ⊥
    refute t panic = ground arith

module _ (rf : Raft) (args : AppendEntriesArgs) (i p last : ℕ) (c : Contiguous i rf.log_store)
    (len : i + length rf.log_store ≡ suc last) (prev : args.prev_log_index ≡ pos p) (low : i ≤ p)
    (d : Contiguous (suc p) args.entries) (now : i ≤ last) where
  reached : lt_ℤ last args.prev_log_index ≡ false → p ≤ last
  reached h = ground arith

  merged :
      p ≤ last → Merged i p rf.log_store args.entries (append_loop last rf.log_store args.entries)
  merged h = append_loop-Merged i p last rf.log_store args.entries c len low h d

  module _ (after : After) (reply : AppendEntriesReply)
      (e : append_entries rf args ≡ some (after, reply)) where
    appended :
        ((reply.success ≡ false) × (after.node.log_store ≡ rf.log_store))
        ⊎ Appended last rf after.node args reply.success
    appended =
        append_entries-Appended rf last (last_index_eq i last rf.log_store c len now) args after
          reply e

    -- On a log with consecutive entries, for a request whose previous entry is not before the first and
    -- whose entries follow it one by one: whatever the answer, the entries of the log stay consecutive,
    -- from the same first index.
    pub append_entries-Contiguous : Contiguous i after.node.log_store
    append_entries-Contiguous = elim appended [
      | inl (bad, same) ↦ subst (Contiguous i) (sym same) c
      | inr a ↦ subst (Contiguous i) (sym a.appended) (merged (reached a.prev_reached)).contiguous
    ]

    -- The entry at p is held exactly as the two tests of the code find.
    tests_Holds :
        ((lt_ℤ last args.prev_log_index
            || prev_conflicts rf.log_store args.prev_log_index args.prev_log_term)
          ≡ false)
        ↔ Holds rf.log_store p args.prev_log_term
    unfolding prev_conflicts
    tests_Holds = (
      (λ t.
          let at = get_elem?-Contiguous i rf.log_store (p - i) c (ground arith) in
          let found = get_log-Contiguous i rf.log_store p c low ∙ at.1 in
          (at.0, found, ground (arith, found))),
      λ h.
          let short =
            get_elem?-lt rf.log_store (p - i)
              (sym (get_log-Contiguous i rf.log_store p c low) ∙ h.1) in
          ground (arith, h.1, h.2, short),
    )

    -- On a log with consecutive entries, for a request whose previous entry is not before the first and
    -- whose entries follow it one by one: the answer is success exactly when the request's term is not
    -- below the node's and the log holds an entry of the given term at the previous index.
    pub append_entries-success_iff :
        (reply.success ≡ true)
        ↔ ((rf.current_term ≤ args.term) × Holds rf.log_store p args.prev_log_term)
    append_entries-success_iff =
        let eq =
          append_entries-success_eq rf args last after reply
            (last_index_eq i last rf.log_store c len now) e in
        (
          (λ s. (ground (arith, eq), tests_Holds.0 (ground (arith, eq)))),
          λ h. let t = tests_Holds.1 h.1 in ground (arith, eq, t, h.0),
        )

    module _ (ok : reply.success ≡ true) where
      success_Merged : (p ≤ last) × Merged i p rf.log_store args.entries after.node.log_store
      success_Merged = elim appended [
        | inl h ↦ absurd (refute h.0)
        | inr a ↦
            let r = reached a.prev_reached in
            (r, subst (Merged i p rf.log_store args.entries) (sym a.appended) (merged r))
      ]
        where
          refute : reply.success ≡ false → ⊥
          refute h = cc

      -- On a log with consecutive entries, after success on a request whose previous entry is not before
      -- the first and whose entries follow it one by one: the log keeps all entries up to the previous
      -- one, and reaches at least to the last of the request.
      pub append_entries-kept :
          (n : ℕ)
          → i ≤ n
          → n ≤ p
          → (get_log after.node.log_store n ≡ get_log rf.log_store n)
            × (suc p + length args.entries ≤ i + length after.node.log_store)
      append_entries-kept n h k = (success_Merged.1.kept n h k, success_Merged.1.reaches)

      -- On a log with consecutive entries, after success on a request whose previous entry is not before
      -- the first and whose entries follow it one by one: the log holds, at the index of each entry of
      -- the request, an entry of its term.
      pub append_entries-Holds :
          (j : ℕ) (entry : LogEntry)
          → get_elem? args.entries j ≡ some entry
          → Holds after.node.log_store entry.index entry.term
      append_entries-Holds j entry h = success_Merged.1.held j entry h
