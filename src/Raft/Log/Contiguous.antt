-- ===== src/Raft/Log/Contiguous.antt =====
-- internal/raft/log.go: logs whose entries stand at consecutive indexes.
use raft_recovery.Prelude.{
  ℕ, zero, suc, ◌+◌, ◌-◌, ◌≤◌, ◌<◌, ◌≡◌, refl, ap, ◌∙◌, none, some, [], ◌∷◌, ◌++◌, length,
  get_elem?, take, drop, arith, take-nil, drop-nil, take_zero, drop_zero, take-suc, drop-suc,
}
use raft_recovery.Raft.Log.{Log, LogEntry, last_index, get_log, delete_range}

-- The entries stand at i, i + 1, ….
abbrev pub Contiguous : ℕ → Log → Type 0
Contiguous i [] = Unit {0}
Contiguous i (e ∷ es) = (e.index ≡ i) × Contiguous (suc i) es

pub Contiguous-append :
    (i : ℕ) (es new : Log)
    → Contiguous i es
    → Contiguous (i + length es) new
    → Contiguous i (es ++ new)
Contiguous-append i [] new c d = let e : i + 0 ≡ i = omega arith in ground (arith, e)
Contiguous-append i (e ∷ es) new c d =
    let k : i + suc (length es) ≡ suc i + length es = omega arith in
    (c.0, Contiguous-append (suc i) es new c.1 (rw k at d))

pub Contiguous-take : (i k : ℕ) (es : Log) → Contiguous i es → Contiguous i (take k es)
Contiguous-take i zero es c = tt
Contiguous-take i (suc k) [] c = tt
Contiguous-take i (suc k) (e ∷ es) c = (c.0, Contiguous-take (suc i) k es c.1)

pub Contiguous-drop : (i k : ℕ) (es : Log) → Contiguous i es → Contiguous (i + k) (drop k es)
Contiguous-drop i zero es c = let e : i + 0 ≡ i = omega arith in rw e c
Contiguous-drop i (suc k) [] c = tt
Contiguous-drop i (suc k) (e ∷ es) c =
    let h : i + suc k ≡ suc i + k = omega arith in rw h (Contiguous-drop (suc i) k es c.1)

pub last_index-Contiguous :
    (i : ℕ) (e : LogEntry) (es : Log)
    → Contiguous i (e ∷ es)
    → last_index (e ∷ es) ≡ some (i + length es)
unfolding last_index
last_index-Contiguous i e [] c = ground arith
last_index-Contiguous i e (f ∷ es) c = ground (arith, last_index-Contiguous (suc i) f es c.1)

pub get_log-Contiguous :
    (i : ℕ) (es : Log) (n : ℕ) → Contiguous i es → i ≤ n → get_log es n ≡ get_elem? es (n - i)
unfolding get_log
get_log-Contiguous i [] n c h = refl
get_log-Contiguous i (e ∷ es) n c h = ground arith

pub get_log_below : (i : ℕ) (es : Log) (n : ℕ) → Contiguous i es → n < i → get_log es n ≡ none
unfolding get_log
get_log_below i [] n c h = refl
get_log_below i (e ∷ es) n c h = ground arith

pub get_elem?-Contiguous :
    (i : ℕ) (es : Log) (k : ℕ)
    → Contiguous i es
    → k < length es
    → (e : LogEntry) × (get_elem? es k ≡ some e) × (e.index ≡ i + k)
get_elem?-Contiguous i [] k c h = absurd (omega arith)
get_elem?-Contiguous i (e ∷ es) zero c h = (e, refl, omega arith)
get_elem?-Contiguous i (e ∷ es) (suc k) c h =
    let r = get_elem?-Contiguous (suc i) es k c.1 (omega arith) in (r.0, r.1, omega arith)

pub delete_range_all :
    (i low high : ℕ) (es : Log)
    → Contiguous i es
    → low ≤ i
    → i + length es ≤ suc high
    → delete_range low high es ≡ []
unfolding delete_range
delete_range_all i low high [] c h k = refl
delete_range_all i low high (e ∷ es) c h k =
    ground (arith, delete_range_all (suc i) low high es c.1)

-- Deleting from an index to the end keeps the entries before it.
pub delete_range_suffix :
    (i low high : ℕ) (es : Log)
    → Contiguous i es
    → i ≤ low
    → i + length es ≤ suc high
    → delete_range low high es ≡ take (low - i) es
unfolding delete_range
delete_range_suffix i low high [] c h k = rw take-nil
delete_range_suffix i low high (e ∷ es) c h k = ground (
  arith,
  delete_range_all (suc i) low high es c.1,
  delete_range_suffix (suc i) low high es c.1,
  take_zero (low - i) (e ∷ es),
  take-suc (low - i) (low - suc i) e es,
)

-- Deleting from the start up to an index keeps the entries behind it.
pub delete_range_prefix :
    (i low high : ℕ) (es : Log)
    → Contiguous i es
    → low ≤ i
    → delete_range low high es ≡ drop (suc high - i) es
unfolding delete_range
delete_range_prefix i low high [] c h = rw drop-nil
delete_range_prefix i low high (e ∷ es) c h = ground (
  arith,
  delete_range_prefix (suc i) low high es c.1,
  drop_zero (suc high - i) (e ∷ es),
  drop_zero (suc high - suc i) es,
  drop-suc (suc high - i) (suc high - suc i) e es,
)

pub last_index-is_some : (es : Log) → 0 < length es → (l : ℕ) × (last_index es ≡ some l)
unfolding last_index
last_index-is_some [] h = elim h [ ]
last_index-is_some (e ∷ []) h = (e.index, refl)
last_index-is_some (e ∷ f ∷ es) h = last_index-is_some (f ∷ es) (omega arith)

-- The last index of consecutive entries.
pub last_index_eq :
    (i last : ℕ) (es : Log)
    → Contiguous i es
    → i + length es ≡ suc last
    → i ≤ last
    → last_index es ≡ some last
last_index_eq i last [] c len h = absurd (omega arith)
last_index_eq i last (e ∷ es) c len h = last_index-Contiguous i e es c ∙ ap some (omega arith)
