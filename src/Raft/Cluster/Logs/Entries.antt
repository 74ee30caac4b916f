-- ===== src/Raft/Cluster/Logs/Entries.antt =====
-- internal/raft/rpc.go and raft.go: the entries that `replicateToPeer` reads out of a log, and what
-- `AppendEntries` makes of them at another log, both from index 0 on.
use raft_recovery.Prelude.{
  ℕ, zero, suc, ◌+◌, ◌≤◌, ◌≡◌, refl, sym, ap, subst, ◌∙◌, some, [], ◌∷◌, ◌++◌, length, get_elem?,
  take, drop, arith, length-append, length-take, get_elem?-append_ge, get_elem?-lt, leb, ◌==◌,
  Bool-cases, inl, inr, ◌⊎◌, drop_all,
}
use raft_recovery.Raft.Log.{Log, LogEntry, get_log, store_logs, delete_range}
use raft_recovery.Raft.Log.Contiguous.{
  Contiguous, get_log-Contiguous, get_elem?-Contiguous, delete_range_suffix,
}
use raft_recovery.Raft.Replication.{append_loop, entries_from}
use raft_recovery.Raft.Replication.Request.{entries_from-suc}
use raft_recovery.Raft.Cluster.Logs.Agreement.{take-append_le, take_whole, take_snoc}

-- Two logs are the same up to each index at which they have entries of the same term.
abbrev pub Matches : Log → Log → Type 0
Matches es fs =
    (i : ℕ) (e f : LogEntry)
    → get_elem? es i ≡ some e
    → get_elem? fs i ≡ some f
    → e.term ≡ f.term
    → take (suc i) es ≡ take (suc i) fs

pub get_log_zero : (es : Log) (n : ℕ) → Contiguous 0 es → get_log es n ≡ get_elem? es n
get_log_zero es n c = get_log-Contiguous 0 es n c (omega arith) ∙ ap (get_elem? es) (omega arith)

drop-get_elem? :
    (k : ℕ) (es : Log) (e : LogEntry) → get_elem? es k ≡ some e → drop k es ≡ e ∷ drop (suc k) es
drop-get_elem? k [] e h = cc
drop-get_elem? zero (x ∷ es) e h = ground arith
drop-get_elem? (suc k) (x ∷ es) e h = drop-get_elem? k es e h

-- The entries from an index to the end of the log.
pub entries_from-drop :
    (es : Log) (from count : ℕ)
    → Contiguous 0 es
    → from + count ≡ length es
    → entries_from es from count ≡ drop from es
entries_from-drop es from zero c len = unfold entries_from in sym (drop_all from es (omega arith))
entries_from-drop es from (suc count) c len =
    let at = get_elem?-Contiguous 0 es from c (omega arith) in
    let found : get_log es from ≡ some at.0 = get_log_zero es from c ∙ at.1 in
    let next : from + 1 ≡ suc from = omega arith in
    entries_from-suc es from count at.0 found
    ∙ ap (λ n. at.0 ∷ entries_from es n count) next
    ∙ ap (λ l. at.0 ∷ l) (entries_from-drop es (suc from) count c (omega arith))
    ∙ sym (drop-get_elem? from es at.0 at.1)

middle :
    (pre new rest : Log) (x : LogEntry)
    → get_elem? (pre ++ ((x ∷ new) ++ rest)) (length pre) ≡ some x
middle pre new rest x =
    let e : length pre + 0 ≡ length pre = omega arith in
    ap (get_elem? (pre ++ ((x ∷ new) ++ rest))) (sym e)
    ∙ get_elem?-append_ge pre ((x ∷ new) ++ rest) 0

shift :
    (pre new rest : Log) (x : LogEntry)
    → pre ++ ((x ∷ new) ++ rest) ≡ (pre ++ x ∷ []) ++ (new ++ rest)
shift [] new rest x = refl
shift (p ∷ pre) new rest x = ap (λ l. p ∷ l) (shift pre new rest x)

shift_new : (pre new : Log) (x : LogEntry) → (pre ++ x ∷ []) ++ new ≡ pre ++ x ∷ new
shift_new [] new x = refl
shift_new (p ∷ pre) new x = ap (λ l. p ∷ l) (shift_new pre new x)

pub start_of : (whole pre more : Log) → whole ≡ pre ++ more → take (length pre) whole ≡ pre
start_of whole pre more parts =
    ap (take (length pre)) parts
    ∙ take-append_le (length pre) pre more (omega arith)
    ∙ take_whole pre

-- The loop over a part `new` of a log, on another log that is the same before that part: it leaves its
-- log as it was, or makes it the start of the first log that ends with the part.
pub append_loop-start :
    (last : ℕ) (es whole pre new rest : Log)
    → Contiguous 0 es
    → Contiguous 0 whole
    → length es ≡ suc last
    → Matches es whole
    → take (length pre) es ≡ pre
    → whole ≡ pre ++ (new ++ rest)
    → (append_loop last es new ≡ es) ⊎ (append_loop last es new ≡ pre ++ new)
unfolding append_loop store_logs
append_loop-start last es whole pre [] rest c d len m same parts = inl refl
append_loop-start last es whole pre (entry ∷ new) rest c d len m same parts =
    let there : get_elem? whole (length pre) ≡ some entry =
      ap (λ l. get_elem? l (length pre)) parts ∙ middle pre new rest entry in
    let place =
      get_elem?-Contiguous 0 whole (length pre) d (get_elem?-lt whole (length pre) there) in
    let at : entry.index ≡ length pre = ground (arith, place.1, place.2) in
    let held : length pre ≤ length es =
      omega (arith, ap length same, length-take (length pre) es) in
    elim (Bool-cases (leb entry.index last)) [
      | inr beyond ↦
          let all : es ≡ pre = sym (take_whole es) ∙ ap (λ n. take n es) (ground arith) ∙ same in
          rw beyond (inr (ap (λ l. l ++ entry ∷ new) all))
      | inl within ↦
          let old = get_elem?-Contiguous 0 es (length pre) c (ground arith) in
          let found : get_log es entry.index ≡ some old.0 =
            ap (get_log es) at ∙ get_log_zero es (length pre) c ∙ old.1 in
          elim (Bool-cases (old.0.term == entry.term)) [
            | inl equal ↦
                let longer : take (length (pre ++ entry ∷ [])) es ≡ pre ++ entry ∷ [] =
                  ap (λ n. take n es) {y = suc (length pre)}
                    (omega (arith, length-append pre (entry ∷ [])))
                  ∙ m (length pre) old.0 entry old.1 there (ground arith)
                  ∙ take_snoc (length pre) whole entry there
                  ∙ ap (λ l. l ++ entry ∷ []) (start_of whole pre ((entry ∷ new) ++ rest) parts) in
                rw (within, found, equal)
                  (subst (λ l. (append_loop last es new ≡ es) ⊎ (append_loop last es new ≡ l))
                    (shift_new pre new entry)
                    (append_loop-start last es whole (pre ++ entry ∷ []) new rest c d len m longer
                      (parts ∙ shift pre new rest entry)))
            | inr differs ↦
                let cut : delete_range entry.index last es ≡ pre =
                  ap (λ n. delete_range n last es) at
                  ∙ delete_range_suffix 0 (length pre) last es c (omega arith) (omega arith)
                  ∙ ap (λ n. take n es) (omega arith)
                  ∙ same in
                rw (within, found, differs) (inr (ap (λ l. l ++ entry ∷ new) cut))
          ]
    ]
