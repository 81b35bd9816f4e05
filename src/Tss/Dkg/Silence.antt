-- ===== src/Tss/Dkg/Silence.antt =====
-- One committee member that never speaks keeps a node from finishing.
use aequa_network.Base.{
  ℕ, zero, suc, ◌+◌, ◌≤◌, ◌<◌, ◌≡◌, ◌≢◌, refl, ◌∙◌, ap, sym, subst, true, false, List, [], ◌∷◌,
  none, some, nat_eq, lookup, lookup_or, arith, All, lookup-insert, contains,
}
use aequa_network.Tss.Dkg.Config.{Config}
use aequa_network.Tss.Dkg.Runner.{Crypto, Runner, new_runner, reset_for_epoch}
use aequa_network.Tss.Dkg.Sending.{up_to_from, seats}
use aequa_network.Tss.Dkg.Finalize.{Pending, save, is_ready, qualified_of, verdict}
use aequa_network.Tss.Dkg.Dispatch.{Event, run}
use aequa_network.Tss.Dkg.Fresh.{IsFresh, new_runner-IsFresh}
use aequa_network.Tss.Dkg.Rules.{
  Move, gossip, hold_share, hold_open, let_go, let_open_go, disqualify, commit, accept, Moves, stay,
  one, both,
}
use aequa_network.Tss.Dkg.Rules.Deal.{Deal, idle, dealt}
use aequa_network.Tss.Dkg.Rules.Steps.{HeardEvent, run-Kept}

contains-up_to_from :
    (start n d : ℕ) → start ≤ d → d < start + n → contains (up_to_from start n) d ≡ true
unfolding contains up_to_from
contains-up_to_from start zero d low high = absurd (omega arith)
contains-up_to_from start (suc n) d low high = ground (arith, contains-up_to_from (start + 1) n d)

module _ {S P : Type 0} (e : Crypto S P) where
  -- A dealer that is neither disqualified nor ready blocks the others.
  qualified_of-blocked :
      (r : Runner S) (dealers : List ℕ) (d : ℕ)
      → contains dealers d ≡ true
      → contains r.bad_dealers d ≡ false
      → is_ready r d ≡ false
      → qualified_of r dealers ≡ none
  unfolding qualified_of contains
  qualified_of-blocked r [] d i good unready = absurd (ground arith)
  qualified_of-blocked r (x ∷ dealers) d i good unready =
      ground (arith, nat_eq.same_iff x d, qualified_of-blocked r dealers d)

  module _ (c : Config) (quiet : ℕ) where
    abbrev NotQuiet : ℕ → Type 0
    NotQuiet d = d ≢ quiet

    -- Nothing is known of the dealer.
    abbrev Blocked : Runner S → Type 0
    Blocked r =
        (r.cfg ≡ c)
        × (lookup quiet r.commitments ≡ none)
        × (contains r.bad_dealers quiet ≡ false)
        × (r.done ≡ false)

    Move-Blocked : {r s : Runner S} → Move e NotQuiet r s → Blocked r → Blocked s
    unfolding contains
    Move-Blocked (gossip _ _ h) q = subst Blocked (sym h) q
    Move-Blocked (hold_share _ _ _ h) q = subst Blocked (sym h) q
    Move-Blocked (hold_open _ _ _ h) q = subst Blocked (sym h) q
    Move-Blocked (let_go _ h) q = subst Blocked (sym h) q
    Move-Blocked (let_open_go _ h) q = subst Blocked (sym h) q
    Move-Blocked (disqualify d heard h) (q, p, b, l) =
        subst Blocked (sym h) (q, p, ground (arith, b, heard), l)
    Move-Blocked {r} (commit d points heard _ _ h) (q, p, b, l) =
        subst Blocked (sym h)
          (q, ground (arith, p, heard, lookup-insert d quiet points r.commitments), b, l)
    Move-Blocked (accept _ _ _ _ _ h) q = subst Blocked (sym h) q

    Moves-Blocked : {r s : Runner S} → Moves e NotQuiet r s → Blocked r → Blocked s
    Moves-Blocked (stay h) q = subst Blocked (sym h) q
    Moves-Blocked (one m) q = Move-Blocked m q
    Moves-Blocked (both ms ns) q = Moves-Blocked ns (Moves-Blocked ms q)

    Deal-Blocked : {r s : Runner S} → quiet ≢ c.index → Deal e r s → Blocked r → Blocked s
    Deal-Blocked other (idle h) q = subst Blocked (sym h) q
    Deal-Blocked {r} other (dealt coeffs points share _ _ h) (q, p, b, l) =
        let apart : r.cfg.index ≢ quiet = λ x. other (sym (sym (ap (λ y. y.index) q) ∙ x)) in
        subst Blocked (sym h)
          (q, ground (arith, p, apart, lookup-insert r.cfg.index quiet points r.commitments), b, l)

    reset-Blocked : (n : ℕ) (r : Runner S) → Blocked r → Blocked (reset_for_epoch n r)
    unfolding reset_for_epoch lookup contains
    reset-Blocked n r (q, _, _, _) = (q, refl, refl, refl)

    fresh-Blocked : (r : Runner S) → IsFresh c r → Blocked r
    unfolding lookup contains
    fresh-Blocked r f = ground (arith, f.settled)

    -- The end needs every dealer that was not disqualified.
    verdict-Blocked :
        (p : Pending) (r : Runner S) → 1 ≤ quiet → quiet ≤ c.n → Blocked r → verdict e r ≢ save p
    unfolding verdict is_ready lookup_or
    verdict-Blocked p r low high (q, unknown, good, _) h =
        let seated : contains (seats r.cfg.n) quiet ≡ true =
          contains-up_to_from 1 r.cfg.n quiet low (omega (arith, ap (λ y. y.n) q)) in
        let unready : is_ready r quiet ≡ false = ground (arith, unknown) in
        absurd (ground (arith, h, qualified_of-blocked r (seats r.cfg.n) quiet seated good unready))

  -- As long as a node receives nothing from one other member of the committee, it does not finish the
  -- key generation, whatever the threshold is and whatever else it receives: there is no log of such
  -- events after which it is done.
  pub silent_member_blocks :
      (c : Config) (r : Runner S) (quiet : ℕ) (log : List Event)
      → new_runner c none none ≡ some r
      → 1 ≤ quiet
      → quiet ≤ c.n
      → quiet ≢ c.index
      → All (HeardEvent e (λ d. d ≢ quiet)) log
      → (run e r log).done ≡ false
  silent_member_blocks c r quiet log h low high other heard =
      let f = new_runner-IsFresh c r h in
      let blocked =
        run-Kept e (NotQuiet c quiet) (Blocked c quiet) (λ r s _ ms. Moves-Blocked c quiet ms)
          (λ n r s _ _ d q. Deal-Blocked c quiet other d (reset-Blocked c quiet n r q))
          (λ p r v q. absurd (verdict-Blocked c quiet p r low high q v)) c r f
          (λ s d. Deal-Blocked c quiet other d (fresh-Blocked c quiet r f)) log heard in
      blocked.0.3
