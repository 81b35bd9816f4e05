-- ===== src/Tss/Dkg/Rules/Deal.antt =====
-- The two ways into an epoch, as rules: the state is emptied, or left; then a polynomial is dealt, or
-- not.
use aequa_network.Base.{
  ℕ, ◌+◌, ◌≡◌, refl, ◌∙◌, ap, subst, true, false, ◌||◌, ◌&&◌, not, List, ◌==◌, nat_eq, insert,
  Bool-cases, Option-cases, inl, inr, length, leb, ◌⊎◌,
}
use aequa_network.Tss.Dkg.Curve.{Bytes}
use aequa_network.Tss.Dkg.Feldman.{
  is_empty, eval_poly_at, commitments_from_poly, Error, Result, ok, err,
}
use aequa_network.Tss.Dkg.Runner.{Crypto, Runner, persist, reset_for_epoch}
use aequa_network.Tss.Dkg.Epoch.{draw_scalars, deal, ensure_local_poly, bump_epoch}
use aequa_network.Tss.Dkg.Core.{core, persist-core, broadcast_commitments-core}

module _ {S P : Type 0} (e : Crypto S P) where
  pub data Deal : Runner S → Runner S → Type 0 where
    idle : {r s : Runner S} → core s ≡ core r → Deal r s
    dealt :
        {r s : Runner S} (coeffs : List S) (points : List Bytes) (share : S)
        → commitments_from_poly e.curve coeffs ≡ ok points
        → eval_poly_at e.curve coeffs r.cfg.index ≡ ok share
        → core s
          ≡ core (record r {
            coeffs = coeffs;
            self_commitments = points;
            commitments = insert r.cfg.index points r.commitments;
            shares = insert r.cfg.index share r.shares;
          })
        → Deal r s

  Result-cases {ℓ} : {A : Type ℓ} (x : Result A) → ((a : A) × (x ≡ ok a)) ⊎ ((f : _) × (x ≡ err f))
  Result-cases (ok a) = inl (a, refl)
  Result-cases (err f) = inr (f, refl)

  pub Deal-core : {r s t : Runner S} → core t ≡ core s → Deal r s → Deal r t
  Deal-core h (idle k) = idle (h ∙ k)
  Deal-core h (dealt coeffs points share a b k) = dealt coeffs points share a b (h ∙ k)

  deal-Deal : (coeffs : List S) (r : Runner S) → Deal r (deal e coeffs r).0
  unfolding deal
  deal-Deal coeffs r = elim (Result-cases (commitments_from_poly e.curve coeffs)) [
    | inr (_, h) ↦ idle (ap (λ x. core x.0) (unmade h))
    | inl (points, h) ↦ elim (Result-cases (eval_poly_at e.curve coeffs r.cfg.index)) [
      | inr (_, k) ↦ idle (ap (λ x. core x.0) (unshared h k))
      | inl (share, k) ↦
          dealt coeffs points share h k
            (ap (λ x. core x.0) (made h k) ∙ persist-core e (polynomial points share))
    ]
  ]
    where
      polynomial : List Bytes → S → Runner S
      polynomial points share = record r {
        coeffs = coeffs;
        self_commitments = points;
        commitments = insert r.cfg.index points r.commitments;
        shares = insert r.cfg.index share r.shares;
      }

      unmade :
          {f : Error} → commitments_from_poly e.curve coeffs ≡ err f → deal e coeffs r ≡ (r, false)
      unmade h = rw (h, deal) refl

      unshared :
          {points : List Bytes} {f : Error}
          → commitments_from_poly e.curve coeffs ≡ ok points
          → eval_poly_at e.curve coeffs r.cfg.index ≡ err f
          → deal e coeffs r ≡ (r, false)
      unshared h k = rw (h, k, deal) refl

      made :
          {points : List Bytes} {share : S}
          → commitments_from_poly e.curve coeffs ≡ ok points
          → eval_poly_at e.curve coeffs r.cfg.index ≡ ok share
          → deal e coeffs r ≡ (persist e (polynomial points share), true)
      made h k = rw (h, k, deal) refl

  Deal-start : {s : Runner S} (q r : Runner S) → core q ≡ core r → Deal q s → Deal r s
  Deal-start q r h (idle k) = idle (k ∙ h)
  Deal-start q r h (dealt coeffs points share a b k) =
      dealt coeffs points share a
        (subst (λ x. eval_poly_at e.curve coeffs x ≡ ok share) (ap (λ x. x.cfg.index) h) b)
        (k
          ∙ ap {A = Runner S} {B = Runner S}
              (λ x. record x {
                coeffs = coeffs;
                self_commitments = points;
                commitments = insert x.cfg.index points x.commitments;
                shares = insert x.cfg.index share x.shares;
              })
              h)

  pub ensure_local_poly-Deal : (r : Runner S) → Deal r (ensure_local_poly e r).0
  unfolding ensure_local_poly
  ensure_local_poly-Deal r =
      elim (Bool-cases (not (is_empty r.coeffs) && not (is_empty r.self_commitments))) [
        | inl k ↦ idle (rw k refl)
        | inr k ↦
            elim (Bool-cases
              (not (length r.cfg.sig_priv == 64) || not (length r.cfg.enc_priv == 32))) [
                | inl h ↦ idle (rw (k, h) refl)
                | inr h ↦ elim (Option-cases (draw_scalars e r.cfg.threshold r.draws)) [
                  | inl d ↦ idle (rw (k, h, d) refl)
                  | inr (coeffs, d) ↦
                      rw (k, h, d)
                        (Deal-start (record r { draws = r.draws + r.cfg.threshold }) r refl
                          (deal-Deal coeffs (record r { draws = r.draws + r.cfg.threshold })))
                ]
              ]
      ]

  -- A bump is refused, or the emptied state deals.
  pub bump_epoch-cases :
      (epoch : ℕ) (r : Runner S)
      → ((((epoch == 0) || r.done || leb epoch r.epoch) ≡ true) × (bump_epoch e epoch r ≡ r))
        ⊎ ((((epoch == 0) || r.done || leb epoch r.epoch) ≡ false)
            × Deal (reset_for_epoch epoch r) (bump_epoch e epoch r))
  unfolding bump_epoch reset_for_epoch
  bump_epoch-cases epoch r = elim (Bool-cases ((epoch == 0) || r.done || leb epoch r.epoch)) [
    | inl k ↦ inl (k, rw k refl)
    | inr k ↦ inr (
      k,
      rw k (
          Deal-core (broadcast_commitments-core e _) (
            Deal-start _ _ (persist-core e (reset_for_epoch epoch r))
              (ensure_local_poly-Deal (persist e (reset_for_epoch epoch r))))),
    )
  ]
