-- ===== src/Tss/Dkg/Rules/Keep.antt =====
-- What the rules keep: the settings of the epoch, whose messages wait, and that every share was
-- checked.
use aequa_network.Base.{
  ℕ, ◌≡◌, ◌∙◌, ap, sym, subst, true, false, List, [], none, some, ◌==◌, nat_eq, lookup, insert,
  arith, Bool-cases, inl, inr, Values, insert-Values, remove_key-Values, lookup-insert,
  lookup_or-insert, lookup_or,
}
use aequa_network.Tss.Dkg.Curve.{Bytes}
use aequa_network.Tss.Dkg.Feldman.{verify_feldman_share}
use aequa_network.Tss.Dkg.Runner.{Crypto, Runner, entries_of}
use aequa_network.Tss.Dkg.Handlers.{fits}
use aequa_network.Tss.Dkg.Core.{core}
use aequa_network.Tss.Dkg.Rules.{
  Move, gossip, hold_share, hold_open, let_go, let_open_go, disqualify, commit, accept, Moves, stay,
  one, both,
}

module _ {S : Type 0} where
  -- The part of the state that no rule touches.
  abbrev pub frame : Runner S → Runner S
  frame r = record (core r) {
    commitments = [];
    shares = [];
    pending_share = [];
    pending_open = [];
    acks = [];
    complaints = [];
    bad_dealers = [];
  }

module _ {S P : Type 0} (e : Crypto S P) (Heard : ℕ → Type 0) where
  Move-frame : {r s : Runner S} → Move e Heard r s → frame s ≡ frame r
  Move-frame (gossip _ _ h) = ap frame h
  Move-frame (hold_share _ _ _ h) = ap frame h
  Move-frame (hold_open _ _ _ h) = ap frame h
  Move-frame (let_go _ h) = ap frame h
  Move-frame (let_open_go _ h) = ap frame h
  Move-frame (disqualify _ _ h) = ap frame h
  Move-frame (commit _ _ _ _ _ h) = ap frame h
  Move-frame (accept _ _ _ _ _ h) = ap frame h

  pub Moves-frame : {r s : Runner S} → Moves e Heard r s → frame s ≡ frame r
  Moves-frame (stay h) = ap frame h
  Moves-frame (one m) = Move-frame m
  Moves-frame (both ms ns) = Moves-frame ns ∙ Moves-frame ms

  -- The messages that wait came from dealers that the node hears.
  abbrev pub Waiting : Runner S → Type 0
  Waiting r =
      Values (λ m. Heard m.from_index) r.pending_share
      × Values (λ m. Heard m.from_index) r.pending_open

  Move-Waiting : {r s : Runner S} → Move e Heard r s → Waiting r → Waiting s
  Move-Waiting (gossip _ _ h) w = subst Waiting (sym h) w
  Move-Waiting (hold_share d m x h) w =
      subst Waiting (sym h) (insert-Values (λ m. Heard m.from_index) d m _ x w.0, w.1)
  Move-Waiting (hold_open d m x h) w =
      subst Waiting (sym h) (w.0, insert-Values (λ m. Heard m.from_index) d m _ x w.1)
  Move-Waiting (let_go d h) w =
      subst Waiting (sym h) (remove_key-Values (λ m. Heard m.from_index) d _ w.0, w.1)
  Move-Waiting (let_open_go d h) w =
      subst Waiting (sym h) (w.0, remove_key-Values (λ m. Heard m.from_index) d _ w.1)
  Move-Waiting (disqualify _ _ h) w = subst Waiting (sym h) w
  Move-Waiting (commit _ _ _ _ _ h) w = subst Waiting (sym h) w
  Move-Waiting (accept _ _ _ _ _ h) w = subst Waiting (sym h) w

  pub Moves-Waiting : {r s : Runner S} → Moves e Heard r s → Waiting r → Waiting s
  Moves-Waiting (stay h) w = subst Waiting (sym h) w
  Moves-Waiting (one m) w = Move-Waiting m w
  Moves-Waiting (both ms ns) w = Moves-Waiting ns (Moves-Waiting ms w)

  -- Every share held was checked against the commitments held.
  abbrev pub Sound : Runner S → Type 0
  Sound r =
      (d : ℕ) (s : S)
      → lookup d r.shares ≡ some s
      → fits e s r.cfg.index (entries_of d r.commitments) ≡ true

  fits-none : (s : S) (x : ℕ) → fits e s x [] ≡ false
  unfolding verify_feldman_share
  fits-none s x = ground arith

  commit-Sound :
      (r : Runner S) (d : ℕ) (points : List Bytes)
      → lookup d r.commitments ≡ none
      → Sound r
      → Sound (record r { commitments = insert d points r.commitments })
  unfolding lookup_or
  commit-Sound r d points new q c s held =
      let old : fits e s r.cfg.index (entries_of c r.commitments) ≡ true = q c s held in
      elim (Bool-cases (d == c)) [
        | inl same ↦
            let bare : entries_of c r.commitments ≡ [] =
              ground (arith, same, new, nat_eq.same_iff d c) in
            absurd
              (cc (fits-none s r.cfg.index, subst (λ l. fits e s r.cfg.index l ≡ true) bare old))
        | inr other ↦
            let kept : entries_of c (insert d points r.commitments) ≡ entries_of c r.commitments =
              ground (arith, other, lookup_or-insert [] d c points r.commitments) in
            subst (λ l. fits e s r.cfg.index l ≡ true) (sym kept) old
      ]

  accept-Sound :
      (r : Runner S) (d : ℕ) (share : S)
      → fits e share r.cfg.index (entries_of d r.commitments) ≡ true
      → Sound r
      → Sound (record r { shares = insert d share r.shares })
  accept-Sound r d share fit q c s held = elim (Bool-cases (d == c)) [
    | inl same ↦
        let where_at : d ≡ c = (nat_eq.same_iff d c).0 same in
        let what : share ≡ s = ground (arith, same, held, lookup-insert d c share r.shares) in
        subst (λ x. fits e x r.cfg.index (entries_of c r.commitments) ≡ true) what
          (subst (λ x. fits e share r.cfg.index (entries_of x r.commitments) ≡ true) where_at fit)
    | inr other ↦ q c s (ground (arith, other, held, lookup-insert d c share r.shares))
  ]

  Move-Sound : {r s : Runner S} → Move e Heard r s → Sound r → Sound s
  Move-Sound (gossip _ _ h) q = subst Sound (sym h) q
  Move-Sound (hold_share _ _ _ h) q = subst Sound (sym h) q
  Move-Sound (hold_open _ _ _ h) q = subst Sound (sym h) q
  Move-Sound (let_go _ h) q = subst Sound (sym h) q
  Move-Sound (let_open_go _ h) q = subst Sound (sym h) q
  Move-Sound (disqualify _ _ h) q = subst Sound (sym h) q
  Move-Sound {r} (commit d points _ new _ h) q = subst Sound (sym h) (commit-Sound r d points new q)
  Move-Sound {r} (accept d share _ _ fit h) q = subst Sound (sym h) (accept-Sound r d share fit q)

  pub Moves-Sound : {r s : Runner S} → Moves e Heard r s → Sound r → Sound s
  Moves-Sound (stay h) q = subst Sound (sym h) q
  Moves-Sound (one m) q = Move-Sound m q
  Moves-Sound (both ms ns) q = Moves-Sound ns (Moves-Sound ms q)
