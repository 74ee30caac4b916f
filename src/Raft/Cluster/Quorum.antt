-- ===== src/Raft/Cluster/Quorum.antt =====
-- Majorities: two of them share a peer.
use raft_recovery.Prelude.{
  ℕ, suc, ◌+◌, ◌≤◌, ◌<◌, ◌≡◌, Bool, true, false, List, [], ◌∷◌, String, length, eq_iff, contains,
  if◌then◌else◌, arith, Bool-cases, inl, inr, ◌⊎◌,
}

-- How many of the peers pass the test.
unfoldable pub count : (String → Bool) → List String → ℕ
count test [] = 0
count test (p ∷ ps) = let rest = count test ps in if test p then suc rest else rest

pub count-le :
    (f g : String → Bool) (peers : List String)
    → ((p : String) → (f p ≡ false) ⊎ (g p ≡ true))
    → count f peers ≤ count g peers
unfolding count
count-le f g [] h = omega arith
count-le f g (p ∷ ps) h = ground (arith, h p, count-le f g ps h)

-- A peer more.
pub count-lt :
    (f g : String → Bool) (peers : List String) (p : String)
    → ((q : String) → (f q ≡ false) ⊎ (g q ≡ true))
    → contains p peers ≡ true
    → f p ≡ false
    → g p ≡ true
    → count f peers + 1 ≤ count g peers
unfolding count contains
count-lt f g [] p h m a b = cc
count-lt f g (q ∷ ps) p h m a b =
    ground (arith, h q, eq_iff q p, count-le f g ps h, count-lt f g ps p h)

pub count_pos :
    (f : String → Bool) (peers : List String) (p : String)
    → contains p peers ≡ true
    → f p ≡ true
    → 0 < count f peers
unfolding count contains
count_pos f [] p m a = cc
count_pos f (q ∷ ps) p m a = ground (arith, eq_iff q p, count_pos f ps p)

-- Two tests that together pass more often than there are peers pass at the same peer.
pub count_meet :
    (f g : String → Bool) (peers : List String)
    → length peers < count f peers + count g peers
    → (p : String) × (f p ≡ true) × (g p ≡ true)
unfolding count
count_meet f g [] h = absurd (omega arith)
count_meet f g (p ∷ ps) h = elim (Bool-cases (f p)) [
  | inr no_f ↦ count_meet f g ps (ground arith)
  | inl yes_f ↦ elim (Bool-cases (g p)) [
    | inl yes_g ↦ (p, yes_f, yes_g)
    | inr no_g ↦ count_meet f g ps (ground arith)
  ]
]
