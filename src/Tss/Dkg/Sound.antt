-- ===== src/Tss/Dkg/Sound.antt =====
-- Every share that a node holds was checked against the commitments that it holds.
use aequa_network.Base.{
  ℕ, ◌≡◌, refl, ◌∙◌, ap, sym, subst, Bool, true, false, List, [], ◌∷◌, none, some, ◌==◌, nat_eq,
  insert, lookup, arith, Bool-cases, inl, inr, All, lookup-insert, lookup_or-insert, ==_self,
  bytes_eq, not, ◌||◌,
}
use aequa_network.Tss.Dkg.Curve.{Bytes, IsGroup}
use aequa_network.Tss.Dkg.Feldman.{
  eval_poly_at, commitments_from_poly, verify_feldman_share, commit, Result, ok, err,
}
use aequa_network.Tss.Dkg.Feldman.Honest.{verify-commit}
use aequa_network.Tss.Dkg.Config.{Config}
use aequa_network.Tss.Dkg.Runner.{Crypto, Runner, new_runner, reset_for_epoch, entries_of}
use aequa_network.Tss.Dkg.Handlers.{fits}
use aequa_network.Tss.Dkg.Finalize.{Pending, save_key_share, complete}
use aequa_network.Tss.Dkg.Dispatch.{Event, received, retried, run}
use aequa_network.Tss.Dkg.Fresh.{new_runner-IsFresh}
use aequa_network.Tss.Dkg.Core.{persist-core}
use aequa_network.Tss.Dkg.Rules.Keep.{Sound, Moves-Sound}
use aequa_network.Tss.Dkg.Rules.Deal.{Deal, idle, dealt}
use aequa_network.Tss.Dkg.Rules.Steps.{HeardEvent, run-Kept}

-- Every dealer is heard here.
abbrev pub Anyone : ℕ → Type 0
Anyone d = Unit

pub All-Anyone : {S P : Type 0} (e : Crypto S P) (log : List Event) → All (HeardEvent e Anyone) log
All-Anyone e [] = tt
All-Anyone e (received m ∷ log) = (tt, All-Anyone e log)
All-Anyone e (retried late ∷ log) = (tt, All-Anyone e log)

fits-ok :
    {S P : Type 0} (e : Crypto S P) (s : S) (x : ℕ) (points : List Bytes)
    → fits e s x points ≡ true
    → verify_feldman_share e.curve s x points ≡ ok true
fits-ok e s x points h = ground arith

module _ {S P : Type 0} (e : Crypto S P) (g : IsGroup e.curve) where
  pub fits-own :
      (coeffs : List S) (points : List Bytes) (x : ℕ) (share : S)
      → commitments_from_poly e.curve coeffs ≡ ok points
      → eval_poly_at e.curve coeffs x ≡ ok share
      → fits e share x points ≡ true
  fits-own coeffs points x share a b =
      let checked = verify-commit e.curve g coeffs x share share points b a in
      ap {A = Result Bool} {B = Bool} (λ v. elim v [ ok b ↦ b | err _ ↦ false ])
        (checked ∙ ap ok (==_self (commit e.curve share)))

  polynomial-Sound :
      (r : Runner S) (points : List Bytes) (share : S)
      → fits e share r.cfg.index points ≡ true
      → Sound e Anyone r
      → Sound e Anyone (record r {
        commitments = insert r.cfg.index points r.commitments;
        shares = insert r.cfg.index share r.shares;
      })
  polynomial-Sound r points share fit q c s held = elim (Bool-cases (r.cfg.index == c)) [
    | inl same ↦
        let what : share ≡ s =
          ground (arith, same, held, lookup-insert r.cfg.index c share r.shares) in
        let whose : entries_of c (insert r.cfg.index points r.commitments) ≡ points =
          ground (arith, same, lookup_or-insert [] r.cfg.index c points r.commitments) in
        subst (λ l. fits e s r.cfg.index l ≡ true) (sym whose)
          (subst (λ x. fits e x r.cfg.index points ≡ true) what fit)
    | inr other ↦
        let kept : entries_of c (insert r.cfg.index points r.commitments)
            ≡ entries_of c r.commitments =
          ground (arith, other, lookup_or-insert [] r.cfg.index c points r.commitments) in
        subst (λ l. fits e s r.cfg.index l ≡ true) (sym kept)
          (q c s (ground (arith, other, held, lookup-insert r.cfg.index c share r.shares)))
  ]

  Deal-Sound : {r s : Runner S} → Deal e r s → Sound e Anyone r → Sound e Anyone s
  Deal-Sound (idle k) q = subst (Sound e Anyone) (sym k) q
  Deal-Sound {r} (dealt coeffs points share a b k) q =
      subst (Sound e Anyone) (sym k)
        (polynomial-Sound r points share (fits-own coeffs points r.cfg.index share a b) q)

  empty-Sound : (r : Runner S) → r.shares ≡ [] → Sound e Anyone r
  unfolding lookup
  empty-Sound r h d s held = absurd (ground arith)

  reset-Sound : (n : ℕ) (r : Runner S) → Sound e Anyone (reset_for_epoch n r)
  unfolding reset_for_epoch
  reset-Sound n r = empty-Sound (reset_for_epoch n r) refl

  complete-Sound :
      (p : Pending) (r : Runner S)
      → Sound e Anyone r
      → Sound e Anyone (complete e p (save_key_share p r))
  unfolding complete save_key_share
  complete-Sound p r q = elim (Bool-cases (r.done || not (r.epoch == p.epoch))) [
    | inl k ↦ rw k q
    | inr k ↦ rw k (subst (Sound e Anyone) (sym (persist-core e _)) q)
  ]

  -- Whatever messages a node receives after it was made over empty stores, each share that it holds
  -- passes the Feldman check at the node's index against the commitments that it holds for the
  -- dealer. This takes the group laws for the node's own share.
  pub run-Sound :
      (c : Config) (r : Runner S) (log : List Event)
      → new_runner c none none ≡ some r
      → (d : ℕ) (s : S) → lookup d (run e r log).shares ≡ some s
      → verify_feldman_share e.curve s
          (run e r log).cfg.index
          (entries_of d (run e r log).commitments)
        ≡ ok true
  run-Sound c r log h d s held =
      let f = new_runner-IsFresh c r h in
      fits-ok e s _ _ (
        (run-Kept e Anyone (Sound e Anyone) (λ r s _ ms. Moves-Sound e Anyone ms)
            (λ n r s _ _ deal _. Deal-Sound deal (reset-Sound n r)) (λ p r _. complete-Sound p r) c
            r f (λ s deal. Deal-Sound deal (empty-Sound r f.shareless)) log (All-Anyone e log)).0
          d s held)
