-- ===== src/Tss/Dkg/Feldman/Honest.antt =====
-- A share is accepted exactly if it is the value of the committed polynomial.
use aequa_network.Base.{
  ℕ, ◌≡◌, ap, ◌∙◌, ◌≢◌, ◌⊎◌, inl, inr, true, false, List, [], ◌∷◌, map, Bool-cases, Option-cases,
  ◌==◌, nat_eq, bytes_eq, arith, list_beq_iff, ==_self,
}
use aequa_network.Store.{put_uint}
use aequa_network.Tss.Dkg.Curve.{Bytes, Curve, IsGroup, IsFaithful, zeros}
use aequa_network.Tss.Dkg.Feldman.{
  ok, scalar_from_int, eval_loop, eval_poly_at, commit, commitments_from_poly, combine_loop,
  verify_feldman_share,
}

module _ {S P : Type 0} (c : Curve S P) (g : IsGroup c) where
  -- The sum over the commitments is the commitment to the value.
  combine_loop-commit :
      (xs : S) (coeffs : List S) (acc pow total : S)
      → eval_loop c xs coeffs acc pow ≡ ok total
      → combine_loop c xs (map (commit c) coeffs) (c.mult c.generator acc) pow
        ≡ ok (c.mult c.generator total)
  unfolding eval_loop combine_loop
  combine_loop-commit xs [] acc pow total h = cc
  combine_loop-commit xs (a ∷ coeffs) acc pow total h = elim (Option-cases (c.mul a pow)) [
    | inl e ↦ absurd (ground (arith, e))
    | inr (term, e) ↦ elim (Option-cases (c.add acc term)) [
      | inl f ↦ absurd (ground (arith, e, f))
      | inr (sum, f) ↦ elim (Option-cases (c.mul pow xs)) [
        | inl k ↦ absurd (ground (arith, e, f, k))
        | inr (nxt, k) ↦ ground (
          arith,
          e,
          f,
          k,
          g.uncompress-compress (c.mult c.generator a),
          g.mult-mul a pow term,
          g.plus-add acc term sum,
          combine_loop-commit xs coeffs sum nxt total,
        )
      ]
    ]
  ]

  pub mult-scalar_zero : c.mult c.generator (scalar_from_int c 0) ≡ c.infinity
  unfolding scalar_from_int put_uint zeros
  mult-scalar_zero = g.mult-zero

  -- The code's check, as the equation that it tests.
  pub verify-commit :
      (coeffs : List S) (x : ℕ) (value share : S) (commitments : List Bytes)
      → eval_poly_at c coeffs x ≡ ok value
      → commitments_from_poly c coeffs ≡ ok commitments
      → verify_feldman_share c share x commitments ≡ ok (commit c share == commit c value)
  unfolding eval_poly_at commitments_from_poly verify_feldman_share
  verify-commit [] x value share commitments h k = absurd (ground arith)
  verify-commit (a ∷ coeffs) x value share commitments h k = ground (
    arith,
    mult-scalar_zero,
    combine_loop-commit (scalar_from_int c x) (a ∷ coeffs) (scalar_from_int c 0)
        (scalar_from_int c 1) value,
  )

  commit-injective : IsFaithful c → (a b : S) → commit c a ≡ commit c b → a ≡ b
  commit-injective f a b e = f a b (
      ground (
        arith,
        e,
        g.uncompress-compress (c.mult c.generator a),
        g.uncompress-compress (c.mult c.generator b),
      ))

  -- Against the commitments to a polynomial whose value at the index is computed without an error,
  -- the check of a share gives true if the share is that value, and false if it is another scalar,
  -- provided that the group laws hold and that a scalar is determined by its multiple of the
  -- generator.
  pub verify_decides_value :
      IsFaithful c
      → (coeffs : List S) (x : ℕ) (value share : S) (commitments : List Bytes)
      → eval_poly_at c coeffs x ≡ ok value
      → commitments_from_poly c coeffs ≡ ok commitments
      → ((share ≡ value) × (verify_feldman_share c share x commitments ≡ ok true))
        ⊎ ((share ≢ value) × (verify_feldman_share c share x commitments ≡ ok false))
  verify_decides_value f coeffs x value share commitments h k =
      elim (Bool-cases (commit c share == commit c value)) [
        | inl e ↦ inl (
          commit-injective f share value ((list_beq_iff (commit c share) (commit c value)).0 e),
          verify-commit coeffs x value share commitments h k ∙ ap ok e,
        )
        | inr e ↦ inr (
          λ same. cc (e, same, ==_self (commit c value)),
          verify-commit coeffs x value share commitments h k ∙ ap ok e,
        )
      ]
