-- ===== src/Raft/Cluster/Logs/Acting.antt =====
-- internal/raft: a critical section of one node keeps the tie of logs and requests to the leaders' logs.
use raft_recovery.Prelude.{
  ℕ, ◌<◌, ◌≡◌, sym, ap, subst, ◌∙◌, some, false, [], get_elem?, arith, inl, inr, ◌⊎◌, List, String,
  str_eq, contains,
}
use raft_recovery.Raft.Log.{Log}
use raft_recovery.Raft.Log.Contiguous.{Contiguous}
use raft_recovery.Raft.Node.{Raft, AppendEntriesArgs, leader, follower}
use raft_recovery.Raft.Steps.Terms.{RoleMove}
use raft_recovery.Raft.Cluster.{Cluster}
use raft_recovery.Raft.Cluster.Invariant.{Won}
use raft_recovery.Raft.Cluster.Invariant.Elections.{Led}
use raft_recovery.Raft.Cluster.Safety.{Won-unique}
use raft_recovery.Raft.Cluster.Logs.{World, note_leader, moved}
use raft_recovery.Raft.Cluster.Logs.Agreement.{Agrees, Extends, Agrees-extended}
use raft_recovery.Raft.Cluster.Logs.Invariant.{
  Part, Part-extended, Owned, Matched, Fitting, noted, note_leader-Extends,
}

role_later :
    (rf rf' : Raft)
    → RoleMove rf rf'
    → (rf.state ≡ follower) ⊎ (0 < rf.current_term)
    → (rf'.state ≡ follower) ⊎ (0 < rf'.current_term)
role_later rf rf' move h = ground arith

owner_later :
    (rf rf' : Raft) (t : ℕ)
    → RoleMove rf rf'
    → (t < rf.current_term) ⊎ ((rf.current_term ≡ t) × (rf.state ≡ leader))
    → (t < rf'.current_term) ⊎ ((rf'.current_term ≡ t) × (rf'.state ≡ leader))
owner_later rf rf' t move h = ground arith

-- The node p has moved, and the others have not.
module _ (peers : List String) (names : contains "" peers ≡ false) (w : World) (k : Matched peers w)
    (s' : Cluster) (p : String)
    (rest_stay : (q : String) → (q ≡ p) ⊎ (s'.node q ≡ w.cluster.node q)) (led' : Led peers s')
    (won : (a : String) (t : ℕ) → Won peers w.cluster a t → Won peers s' a t)
    (move : RoleMove (w.cluster.node p) (s'.node p)) (fit : Fitting w (s'.node p)) where
  extends : Extends w.log_of (note_leader w.log_of (s'.node p))
  extends = note_leader-Extends w.log_of (s'.node p) fit.grown

  -- What holds of the node that moved, and held of the others, holds of all.
  each :
      (P : Raft → Type 0)
      → P (s'.node p)
      → ((q : String) → P (w.cluster.node q))
      → (q : String) → P (s'.node q)
  each P new old q = elim (rest_stay q) [
    | inl at ↦ subst (λ x. P (s'.node x)) (sym at) new
    | inr same ↦ subst P (sym same) (old q)
  ]

  whole_after :
      (t : ℕ)
      → Contiguous 0 (note_leader w.log_of (s'.node p) t)
        × Agrees (note_leader w.log_of (s'.node p)) (note_leader w.log_of (s'.node p) t)
  whole_after t =
      let P = λ (l : Log). Contiguous 0 l × Agrees (note_leader w.log_of (s'.node p)) l in
      elim (noted w.log_of (s'.node p) t) [
        | inl (lead, at, new) ↦ subst P (sym new) (fit.contiguous, fit.agrees)
        | inr (apart, same) ↦ subst P (sym same) (
          (k.whole t).0,
          Agrees-extended w.log_of (note_leader w.log_of (s'.node p)) (w.log_of t) extends
              (k.whole t).1,
        )
      ]

  current_after :
      (c : String)
      → (s'.node c).state ≡ leader
      → note_leader w.log_of (s'.node p) (s'.node c).current_term ≡ (s'.node c).log_store
  current_after c lead = elim (noted w.log_of (s'.node p) (s'.node c).current_term) [
    | inl (leads, at, new) ↦
        let one : c ≡ p =
          Won-unique peers names s' c p (s'.node c).current_term (led' c lead)
            (subst (Won peers s' p) (sym at) (led' p leads)) in
        new ∙ ap (λ x. (s'.node x).log_store) (sym one)
    | inr (apart, same) ↦ elim (rest_stay c) [
      | inl at ↦ absurd (
          apart (
            subst (λ x. (s'.node x).state ≡ leader) at lead,
            ap (λ x. (s'.node x).current_term) at,
          ))
      | inr stays ↦
          same
          ∙ ap (λ (n : Raft). w.log_of n.current_term) stays
          ∙ k.current c (ap (λ (n : Raft). n.state) (sym stays) ∙ lead)
          ∙ ap (λ (n : Raft). n.log_store) (sym stays)
    ]
  ]

  keeps_owner : (t : ℕ) → Owned peers w.cluster t → Owned peers s' t
  keeps_owner t (c, w0, h) = (
    c,
    won c t w0,
    elim (rest_stay c) [
      | inl at ↦
          subst
            (λ x.
              (t < (s'.node x).current_term)
              ⊎ (((s'.node x).current_term ≡ t) × ((s'.node x).state ≡ leader)))
            (sym at)
            (owner_later (w.cluster.node p) (s'.node p) t move (
              subst
                (λ x.
                  (t < (w.cluster.node x).current_term)
                  ⊎ (((w.cluster.node x).current_term ≡ t) × ((w.cluster.node x).state ≡ leader)))
                at h))
      | inr stays ↦
          subst (λ (n : Raft). (t < n.current_term) ⊎ ((n.current_term ≡ t) × (n.state ≡ leader)))
            (sym stays) h
    ],
  )

  owner_after : (t : ℕ) → 0 < t → (note_leader w.log_of (s'.node p) t ≡ []) ⊎ Owned peers s' t
  owner_after t some_term = elim (noted w.log_of (s'.node p) t) [
    | inl (lead, at, new) ↦
        inr (p, subst (Won peers s' p) (sym at) (led' p lead), inr (sym at, lead))
    | inr (apart, same) ↦ elim (k.owner t some_term) [
      | inl none_yet ↦ inl (same ∙ none_yet)
      | inr o ↦ inr (keeps_owner t o)
    ]
  ]

  fits_after :
      (i : ℕ) (peer : String) (args : AppendEntriesArgs)
      → get_elem? w.sent i ≡ some (peer, args)
      → Won peers s' args.leader_id args.term
        × (str_eq peer args.leader_id ≡ false)
        × Part (note_leader w.log_of (s'.node p) args.term) args
  fits_after i peer args h =
      let (w0, apart, part) = k.fits i peer args h in
      (
        won args.leader_id args.term w0,
        apart,
        Part-extended (w.log_of args.term) (note_leader w.log_of (s'.node p) args.term)
            (extends args.term).0 args (k.whole args.term).0 (whole_after args.term).0
            (extends args.term).1 part,
      )

  pub moved-Matched : Matched peers (moved w s' p)
  unfolding moved
  moved-Matched = record {
    contiguous = each (λ (n : Raft). Contiguous 0 n.log_store) fit.contiguous k.contiguous;
    agrees =
        each (λ (n : Raft). Agrees (note_leader w.log_of (s'.node p)) n.log_store) fit.agrees
          (λ q.
            Agrees-extended w.log_of (note_leader w.log_of (s'.node p)) (w.cluster.node q).log_store
              extends (k.agrees q));
    whole = whole_after;
    current = current_after;
    owner = owner_after;
    role =
        each (λ (n : Raft). (n.state ≡ follower) ⊎ (0 < n.current_term))
          (role_later (w.cluster.node p) (s'.node p) move (k.role p)) k.role;
    fits = fits_after;
  }
