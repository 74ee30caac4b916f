-- ===== src/Raft/Cluster/Logs/Matching.antt =====
-- internal/raft: the logs of the nodes of a cluster match.
use raft_recovery.Prelude.{
  ℕ, zero, suc, ◌≤◌, ◌≡◌, refl, sym, ap, ◌∙◌, some, false, get_elem?, arith, inl, inr, List, String,
  contains, Bool-cases, take, get_elem?-take, ◌==◌,
}
use mathlib.Core.Option.{some-injective}
use raft_recovery.Raft.Log.{Log, LogEntry, get_log, new_memory_log_store}
use raft_recovery.Raft.Log.Contiguous.{Contiguous}
use raft_recovery.Raft.Node.{new_raft}
use raft_recovery.Raft.Cluster.{Cluster, Step, Steps, here, next, fresh}
use raft_recovery.Raft.Cluster.Safety.{Steps-Led}
use raft_recovery.Raft.Cluster.Logs.{
  World, act, send, Moves, start, then_move, fresh_world, mover, moved,
}
use raft_recovery.Raft.Cluster.Logs.Agreement.{Agrees, Agrees-matching}
use raft_recovery.Raft.Cluster.Logs.Entries.{get_log_zero}
use raft_recovery.Raft.Cluster.Logs.Invariant.{Matched}
use raft_recovery.Raft.Node.{leader}
use raft_recovery.Raft.Cluster.Logs.Keeping.{acted, requested}

then_step :
    (peers : List String) (w : World) {s' : Cluster} (st : Step peers w.cluster s')
    → Steps peers (fresh peers) w.cluster
    → Steps peers (fresh peers) (moved w s' (mover st)).cluster
unfolding moved
then_step peers w st run = next run st

module _ (peers : List String) (names : contains "" peers ≡ false) where
  fresh-Agrees : Agrees (fresh_world peers).log_of new_memory_log_store
  unfolding new_memory_log_store
  fresh-Agrees zero e h =
      ap (take 1) (
        ap (fresh_world peers).log_of {x = 0}
          (ap (λ (x : LogEntry). x.term) (some-injective _ _ h)))
  fresh-Agrees (suc i) e h = cc

  fresh-whole :
      (t : ℕ)
      → Contiguous 0 ((fresh_world peers).log_of t)
        × Agrees (fresh_world peers).log_of ((fresh_world peers).log_of t)
  fresh-whole t = elim (Bool-cases (t == 0)) [
    | inl first ↦ rw first (unfold new_memory_log_store in (refl, tt), fresh-Agrees)
    | inr later ↦ rw later (tt, λ i e h. cc)
  ]

  fresh-Matched : Matched peers (fresh_world peers)
  unfolding new_raft
  fresh-Matched = record {
    contiguous = λ p. unfold new_memory_log_store in (refl, tt);
    agrees = λ p. fresh-Agrees;
    whole = fresh-whole;
    current = λ c lead. cc;
    owner = λ t h. inl (ground arith);
    role = λ p. inl refl;
    fits = λ i peer args h. cc;
  }

  Moves-Matched :
      {w : World}
      → Moves peers (fresh_world peers) w
      → Matched peers w × Steps peers (fresh peers) w.cluster
  Moves-Matched start = (fresh-Matched, here)
  Moves-Matched (then_move {v = w} r (act st closed)) =
      let (k, run) = Moves-Matched r in
      let (v, led) = Steps-Led peers names run in
      (acted peers names w k v led st closed, then_step peers w st run)
  Moves-Matched (then_move {v = w} r (send c peer {args} m e)) =
      let (k, run) = Moves-Matched r in
      let (v, led) = Steps-Led peers names run in
      (requested peers names w k v led c peer {args = args} m e, run)

start_get_log :
    (es fs : Log) (i n : ℕ)
    → Contiguous 0 es
    → Contiguous 0 fs
    → n ≤ i
    → take (suc i) es ≡ take (suc i) fs
    → get_log es n ≡ get_log fs n
start_get_log es fs i n c d low same =
    get_log_zero es n c
    ∙ sym (get_elem?-take es (suc i) n (omega arith))
    ∙ ap (λ l. get_elem? l n) same
    ∙ get_elem?-take fs (suc i) n (omega arith)
    ∙ sym (get_log_zero fs n d)

-- A cluster of new nodes with the same peers, none of which has the empty name, in which every node that
-- asks for votes is a peer, no log is compacted, and a node gets only requests that a leader sent to it,
-- in any order, late, twice or never: where two nodes hold entries of the same index and term, they hold
-- the same entries at that index and at all before it.
pub log_matching :
    (peers : List String) {w : World} (a b : String) (i n : ℕ) (e f : LogEntry)
    → contains "" peers ≡ false
    → Moves peers (fresh_world peers) w
    → get_log (w.cluster.node a).log_store i ≡ some e
    → get_log (w.cluster.node b).log_store i ≡ some f
    → e.term ≡ f.term
    → n ≤ i
    → get_log (w.cluster.node a).log_store n ≡ get_log (w.cluster.node b).log_store n
log_matching peers {w} a b i n e f names run h g same low =
    let k = (Moves-Matched peers names run).0 in
    let es = (w.cluster.node a).log_store in
    let fs = (w.cluster.node b).log_store in
    let one =
      Agrees-matching w.log_of es fs i e f (k.agrees a) (k.agrees b)
        (sym (get_log_zero es i (k.contiguous a)) ∙ h)
        (sym (get_log_zero fs i (k.contiguous b)) ∙ g) same in
    start_get_log es fs i n (k.contiguous a) (k.contiguous b) low one

-- In such a cluster, where a node holds an entry of the term in which another node leads, it holds at the
-- entry's index and at all before it what the leader holds there.
pub leader_has :
    (peers : List String) {w : World} (c a : String) (i n : ℕ) (e : LogEntry)
    → contains "" peers ≡ false
    → Moves peers (fresh_world peers) w
    → (w.cluster.node c).state ≡ leader
    → get_log (w.cluster.node a).log_store i ≡ some e
    → e.term ≡ (w.cluster.node c).current_term
    → n ≤ i
    → get_log (w.cluster.node a).log_store n ≡ get_log (w.cluster.node c).log_store n
leader_has peers {w} c a i n e names run lead h same low =
    let k = (Moves-Matched peers names run).0 in
    let es = (w.cluster.node a).log_store in
    let fs = (w.cluster.node c).log_store in
    start_get_log es fs i n (k.contiguous a) (k.contiguous c) low (
      k.agrees a i e (sym (get_log_zero es i (k.contiguous a)) ∙ h)
      ∙ ap (λ t. take (suc i) (w.log_of t)) same
      ∙ ap (take (suc i)) (k.current c lead))
