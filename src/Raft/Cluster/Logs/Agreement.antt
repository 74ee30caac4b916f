-- ===== src/Raft/Cluster/Logs/Agreement.antt =====
-- internal/raft: logs that agree, up to each of their entries, with the log of the entry's term.
use raft_recovery.Prelude.{
  ℕ, zero, suc, ◌+◌, ◌≤◌, ◌<◌, ◌≡◌, refl, sym, ap, ◌∙◌, some, [], ◌∷◌, ◌++◌, length, get_elem?,
  take, arith, length-append, get_elem?-append_lt, get_elem?-append_ge, get_elem?-lt, length-take,
  get_elem?-take, inl, inr, ◌⊎◌,
}
use mathlib.Core.Option.{some-injective}
use raft_recovery.Raft.Log.{Log, LogEntry}

abbrev pub Agrees : (ℕ → Log) → Log → Type 0
Agrees log_of es =
    (i : ℕ) (e : LogEntry)
    → get_elem? es i ≡ some e
    → take (suc i) es ≡ take (suc i) (log_of e.term)

-- Each log is the start of what it is afterwards.
abbrev pub Extends : (ℕ → Log) → (ℕ → Log) → Type 0
Extends log_of log_of' = (t : ℕ) → (more : Log) × (log_of' t ≡ log_of t ++ more)

pub append_nil : (es : Log) → es ≡ es ++ []
append_nil [] = refl
append_nil (e ∷ es) = ap (λ l. e ∷ l) (append_nil es)

pub take-append_le : (n : ℕ) (xs ys : Log) → n ≤ length xs → take n (xs ++ ys) ≡ take n xs
take-append_le zero xs ys h = refl
take-append_le (suc n) [] ys h = absurd (omega arith)
take-append_le (suc n) (x ∷ xs) ys h = ap (λ l. x ∷ l) (take-append_le n xs ys (omega arith))

pub take_whole : (xs : Log) → take (length xs) xs ≡ xs
take_whole [] = refl
take_whole (x ∷ xs) = ap (λ l. x ∷ l) (take_whole xs)

pub take-take_le : (m n : ℕ) (xs : Log) → m ≤ n → take m (take n xs) ≡ take m xs
take-take_le zero n xs h = refl
take-take_le (suc m) zero xs h = absurd (omega arith)
take-take_le (suc m) (suc n) [] h = refl
take-take_le (suc m) (suc n) (x ∷ xs) h = ap (λ l. x ∷ l) (take-take_le m n xs (omega arith))

-- One more entry of a log.
pub take_snoc :
    (k : ℕ) (xs : Log) (x : LogEntry)
    → get_elem? xs k ≡ some x
    → take (suc k) xs ≡ take k xs ++ x ∷ []
take_snoc k [] x h = cc
take_snoc zero (y ∷ xs) x h = ap (λ z. z ∷ []) (some-injective _ _ h)
take_snoc (suc k) (y ∷ xs) x h = ap (λ l. y ∷ l) (take_snoc k xs x h)

-- An equal start that is complete in one log is complete in the other.
pub take_reaches : (k : ℕ) (xs ys : Log) → k ≤ length xs → take k xs ≡ take k ys → k ≤ length ys
take_reaches k xs ys h e = omega (arith, length-take k xs, length-take k ys, ap length e)

pub Agrees-extended :
    (log_of log_of' : ℕ → Log) (es : Log)
    → Extends log_of log_of'
    → Agrees log_of es
    → Agrees log_of' es
Agrees-extended log_of log_of' es x a i e h =
    let below = get_elem?-lt es i h in
    let reach = take_reaches (suc i) es (log_of e.term) (omega arith) (a i e h) in
    a i e h
    ∙ sym (take-append_le (suc i) (log_of e.term) (x e.term).0 reach)
    ∙ sym (ap (take (suc i)) (x e.term).1)

-- Two logs that agree with the logs of their terms have the same entries up to an index at which they
-- have entries of the same term.
pub Agrees-matching :
    (log_of : ℕ → Log) (es fs : Log) (i : ℕ) (e f : LogEntry)
    → Agrees log_of es
    → Agrees log_of fs
    → get_elem? es i ≡ some e
    → get_elem? fs i ≡ some f
    → e.term ≡ f.term
    → take (suc i) es ≡ take (suc i) fs
Agrees-matching log_of es fs i e f a b h k same =
    a i e h ∙ ap (λ t. take (suc i) (log_of t)) same ∙ sym (b i f k)

-- The start of a log that agrees.
pub Agrees-take :
    (log_of : ℕ → Log) (n : ℕ) (es : Log) → Agrees log_of es → Agrees log_of (take n es)
Agrees-take log_of n es a i e h =
    let below = get_elem?-lt (take n es) i h in
    let short : i < n = omega (arith, length-take n es) in
    take-take_le (suc i) n es (omega arith) ∙ a i e (sym (get_elem?-take es n i (omega arith)) ∙ h)

-- A leader's log agrees also with a new entry of the leader's term.
pub Agrees-snoc :
    (log_of : ℕ → Log) (es : Log) (x : LogEntry)
    → Agrees log_of es
    → log_of x.term ≡ es ++ x ∷ []
    → Agrees log_of (es ++ x ∷ [])
Agrees-snoc log_of es x a own i e h = elim (split (get_elem?-lt (es ++ x ∷ []) i h)) [
  | inl below ↦
      take-append_le (suc i) es (x ∷ []) (omega arith)
      ∙ a i e (sym (get_elem?-append_lt es (x ∷ []) i below) ∙ h)
  | inr at ↦
      let new : e ≡ x =
        some-injective _ _ (
          sym h
          ∙ ap (get_elem? (es ++ x ∷ [])) (at ∙ zeroed)
          ∙ get_elem?-append_ge es (x ∷ []) 0) in
      ap (take (suc i)) (sym own ∙ ap (λ (y : LogEntry). log_of y.term) (sym new))
]
  where
    zeroed : length es ≡ length es + 0
    zeroed = omega arith

    split : i < length (es ++ x ∷ []) → (i < length es) ⊎ (i ≡ length es)
    split low = ground (arith, length-append es (x ∷ []))
