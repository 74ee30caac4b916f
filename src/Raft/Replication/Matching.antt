-- ===== src/Raft/Replication/Matching.antt =====
-- internal/raft/rpc.go: what `AppendEntries` leaves in a log whose entries are consecutive.
use raft_recovery.Prelude.{
  ℕ, zero, suc, ◌+◌, ◌-◌, ◌≤◌, ◌<◌, ◌≡◌, refl, sym, ap, subst, ◌∙◌, some, [], ◌∷◌, ◌++◌, length,
  get_elem?, take, arith, ◌==◌, leb, length-append, length-take, get_elem?-append_lt,
  get_elem?-append_ge, get_elem?-take, get_elem?-lt, Bool-cases, inl, inr,
}
use raft_recovery.Raft.Log.{Log, LogEntry, get_log, store_logs, delete_range}
use raft_recovery.Raft.Log.Contiguous.{
  Contiguous, Contiguous-append, Contiguous-take, get_log-Contiguous, get_elem?-Contiguous,
  delete_range_suffix,
}
use raft_recovery.Raft.Replication.{append_loop}

-- Entries stored behind a log that ends at p.
module _ (i p : ℕ) (pre new : Log) (c : Contiguous i pre) (len : i + length pre ≡ suc p)
    (d : Contiguous (suc p) new) where
  stored-Contiguous : Contiguous i (pre ++ new)
  stored-Contiguous = Contiguous-append i pre new c (rw len d)

  get_log-stored_below : (n : ℕ) → i ≤ n → n ≤ p → get_log (pre ++ new) n ≡ get_log pre n
  get_log-stored_below n h k =
      rw (get_log-Contiguous i (pre ++ new) n stored-Contiguous h, get_log-Contiguous i pre n c h)
        (get_elem?-append_lt pre new (n - i) (omega arith))

  get_log-stored :
      (j : ℕ) (e : LogEntry) → get_elem? new j ≡ some e → get_log (pre ++ new) e.index ≡ some e
  get_log-stored j e h =
      let r = get_elem?-Contiguous (suc p) new j d (get_elem?-lt new j h) in
      let at : e.index ≡ suc p + j = ground (arith, r.1, r.2) in
      let off : suc p + j - i ≡ length pre + j = omega arith in
      ap (get_log (pre ++ new)) at
      ∙ get_log-Contiguous i (pre ++ new) (suc p + j) stored-Contiguous (omega arith)
      ∙ ap (get_elem? (pre ++ new)) off
      ∙ get_elem?-append_ge pre new j
      ∙ h

-- What the loop leaves of a log from i on, for entries that follow the index p.
pub record Merged (i p : ℕ) (es new out : Log) : Type 0 where
  pub contiguous : Contiguous i out
  pub reaches : suc p + length new ≤ i + length out
  pub kept : (n : ℕ) → i ≤ n → n ≤ p → get_log out n ≡ get_log es n
  pub held :
      (j : ℕ) (e : LogEntry)
      → get_elem? new j ≡ some e
      → (f : LogEntry) × (get_log out e.index ≡ some f) × (f.term ≡ e.term)

stored-Merged :
    (i p : ℕ) (es pre new : Log)
    → Contiguous i pre
    → i + length pre ≡ suc p
    → Contiguous (suc p) new
    → ((n : ℕ) → i ≤ n → n ≤ p → get_log pre n ≡ get_log es n)
    → Merged i p es new (pre ++ new)
stored-Merged i p es pre new c len d same = record {
  contiguous = stored-Contiguous i p pre new c len d;
  reaches = omega (arith, length-append pre new);
  kept = λ n h k. get_log-stored_below i p pre new c len d n h k ∙ same n h k;
  held = λ j e h. (e, get_log-stored i p pre new c len d j e h, refl);
}

-- An entry whose term is already in the log is passed over.
skip-Merged :
    (i p : ℕ) (es new out : Log) (entry f : LogEntry)
    → i ≤ p
    → entry.index ≡ suc p
    → get_log es entry.index ≡ some f
    → f.term ≡ entry.term
    → Merged i (suc p) es new out
    → Merged i p es (entry ∷ new) out
skip-Merged i p es new out entry f low at found same m = record {
  contiguous = m.contiguous;
  reaches = omega (arith, m.reaches);
  kept = λ n h k. m.kept n h (omega arith);
  held = held;
}
  where
    held :
        (j : ℕ) (e : LogEntry)
        → get_elem? (entry ∷ new) j ≡ some e
        → (g : LogEntry) × (get_log out e.index ≡ some g) × (g.term ≡ e.term)
    held zero e h = (
      f,
      subst (λ x. get_log out x ≡ some f) (ground arith)
          (m.kept entry.index (omega arith) (omega arith) ∙ found),
      ground arith,
    )
    held (suc j) e h = m.held j e h

-- An entry with another term goes, with all that follow it.
clash-Merged :
    (i p last : ℕ) (es new : Log) (entry : LogEntry)
    → Contiguous i es
    → i + length es ≡ suc last
    → i ≤ p
    → p < last
    → entry.index ≡ suc p
    → Contiguous (suc p) (entry ∷ new)
    → Merged i p es (entry ∷ new) (delete_range entry.index last es ++ entry ∷ new)
clash-Merged i p last es new entry c len low high at d =
    let cut : delete_range entry.index last es ≡ take (suc p - i) es =
      ap (λ x. delete_range x last es) at
      ∙ delete_range_suffix i (suc p) last es c (omega arith) (omega arith) in
    subst (λ pre. Merged i p es (entry ∷ new) (pre ++ entry ∷ new)) (sym cut)
      (stored-Merged i p es (take (suc p - i) es) (entry ∷ new) (Contiguous-take i (suc p - i) es c)
        (omega (arith, length-take (suc p - i) es)) d
        λ n h k.
          get_log-Contiguous i (take (suc p - i) es) n (Contiguous-take i (suc p - i) es c) h
          ∙ get_elem?-take es (suc p - i) (n - i) (omega arith)
          ∙ sym (get_log-Contiguous i es n c h))

pub append_loop-Merged :
    (i p last : ℕ) (es new : Log)
    → Contiguous i es
    → i + length es ≡ suc last
    → i ≤ p
    → p ≤ last
    → Contiguous (suc p) new
    → Merged i p es new (append_loop last es new)
unfolding append_loop store_logs
append_loop-Merged i p last es [] c len low high d = record {
  contiguous = c;
  reaches = omega arith;
  kept = λ n h k. refl;
  held = λ j e h. cc;
}
append_loop-Merged i p last es (entry ∷ new) c len low high d =
    elim (Bool-cases (leb entry.index last)) [
      | inr beyond ↦
          rw beyond (stored-Merged i p es es (entry ∷ new) c (ground arith) d (λ n h k. refl))
      | inl within ↦
          let at = get_elem?-Contiguous i es (entry.index - i) c (ground arith) in
          let found : get_log es entry.index ≡ some at.0 =
            get_log-Contiguous i es entry.index c (omega (arith, d.0)) ∙ at.1 in
          elim (Bool-cases (at.0.term == entry.term)) [
            | inl same ↦
                rw (within, found, same)
                  (skip-Merged i p es new _ entry at.0 low d.0 found (ground arith) (
                    append_loop-Merged i (suc p) last es new c len (omega arith) (ground arith)
                      d.1))
            | inr differs ↦
                rw (within, found, differs)
                  (clash-Merged i p last es new entry c len low (ground arith) d.0 d)
          ]
    ]
