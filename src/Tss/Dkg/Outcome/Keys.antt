-- ===== src/Tss/Dkg/Outcome/Keys.antt =====
-- The keys of a node that is done, against the public commitments.
use aequa_network.Base.{
  ℕ, zero, suc, ◌+◌, ◌-◌, ◌≤◌, ◌≡◌, refl, ◌∙◌, ap, sym, subst, true, false, ◌||◌, List, [], ◌∷◌,
  Option, none, some, nat_eq, lookup, arith, Bool-cases, Option-cases, inl, inr, All, contains,
  length, list_beq_iff, bytes_eq, ◌⊎◌,
}
use aequa_network.Tss.Dkg.Curve.{Bytes, IsGroup}
use aequa_network.Tss.Dkg.Feldman.{
  Error, Result, ok, err, is_empty, scalar_from_int, combine_loop, verify_feldman_share, commit,
}
use aequa_network.Tss.Dkg.Feldman.Honest.{mult-scalar_zero}
use aequa_network.Tss.Dkg.Config.{Config}
use aequa_network.Tss.Dkg.Runner.{Crypto, Runner, new_runner, entries_of}
use aequa_network.Tss.Dkg.Sending.{up_to_from, seats}
use aequa_network.Tss.Dkg.Finalize.{is_ready, qualified_of, sum_commitments, sum_shares}
use aequa_network.Tss.Dkg.Dispatch.{Event, run}
use aequa_network.Tss.Dkg.Outcome.{run-Finished, run-cfg}
use aequa_network.Tss.Dkg.Sound.{run-Sound}

Result-cases {ℓ} :
    {A : Type ℓ} (x : Result A) → ((a : A) × (x ≡ ok a)) ⊎ ((f : Error) × (x ≡ err f))
Result-cases (ok a) = inl (a, refl)
Result-cases (err f) = inr (f, refl)

is_empty-nil {ℓ} : {A : Type ℓ} (l : List A) → is_empty l ≡ true → l ≡ []
is_empty-nil [] h = refl
is_empty-nil (x ∷ l) h = cc

module _ {S P : Type 0} (e : Crypto S P) where
  -- The value at `x` of the polynomial that a dealer committed to, in the exponent.
  unfoldable pub public_value : List Bytes → ℕ → Result P
  public_value points x =
      combine_loop e.curve (scalar_from_int e.curve x) points e.curve.infinity
        (scalar_from_int e.curve 1)

  -- The sum of these values over dealers; `none` where one of them is not defined.
  unfoldable pub sum_public : Runner S → List ℕ → P → Option P
  sum_public r [] acc = some acc
  sum_public r (d ∷ ds) acc = elim (public_value (entries_of d r.commitments) r.cfg.index) [
    | err _ ↦ none
    | ok p ↦ sum_public r ds (e.curve.plus acc p)
  ]

  module _ (g : IsGroup e.curve) where
    -- A share that passes the check is the public value.
    public-of_verified :
        (points : List Bytes) (x : ℕ) (s : S)
        → verify_feldman_share e.curve s x points ≡ ok true
        → public_value points x ≡ ok (e.curve.mult e.curve.generator s)
    unfolding verify_feldman_share public_value
    public-of_verified points x s h =
        elim (Result-cases (
          combine_loop e.curve (scalar_from_int e.curve x) points e.curve.infinity
            (scalar_from_int e.curve 1))) [
              | inr (f, k) ↦ absurd (ground (arith, h, k))
              | inl (p, k) ↦
                  let same : commit e.curve s ≡ e.curve.compress p =
                    (list_beq_iff (commit e.curve s) (e.curve.compress p)).0
                      (ground (arith, h, k)) in
                  ground (
                    arith,
                    k,
                    same,
                    g.uncompress-compress p,
                    g.uncompress-compress (e.curve.mult e.curve.generator s),
                  )
            ]

    sum_public-of_shares :
        (r : Runner S) (ds : List ℕ) (a total : S)
        → ((d : ℕ) (s : S)
            → lookup d r.shares ≡ some s
            → verify_feldman_share e.curve s r.cfg.index (entries_of d r.commitments) ≡ ok true)
        → sum_shares e r ds a ≡ some total
        → sum_public r ds (e.curve.mult e.curve.generator a)
          ≡ some (e.curve.mult e.curve.generator total)
    unfolding sum_shares sum_public
    sum_public-of_shares r [] a total q h = ground (arith, h)
    sum_public-of_shares r (d ∷ ds) a total q h = elim (Option-cases (lookup d r.shares)) [
      | inl k ↦ absurd (ground (arith, h, k))
      | inr (s, k) ↦ elim (Option-cases (e.curve.add a s)) [
        | inl t ↦ absurd (ground (arith, h, k, t))
        | inr (sum, t) ↦ ground (
          arith,
          h,
          k,
          t,
          public-of_verified (entries_of d r.commitments) r.cfg.index s (q d s k),
          g.plus-add a s sum,
          sum_public-of_shares r ds sum total q,
        )
      ]
    ]

  -- What speaks for a dealer that a node relied on.
  pub record Backed (r : Runner S) (d : ℕ) : Type 0 where
    pub low : 1 ≤ d
    pub high : d ≤ r.cfg.n
    pub unspoiled : contains r.bad_dealers d ≡ false
    pub unquestioned : entries_of d r.complaints ≡ []
    pub acknowledged : r.cfg.n - 1 ≤ length (entries_of d r.acks)
    pub shared :
        (s : S) × (lookup d r.shares ≡ some s)
        × (verify_feldman_share e.curve s r.cfg.index (entries_of d r.commitments) ≡ ok true)

  Backed-of_ready :
      (r : Runner S) (d : ℕ)
      → ((d : ℕ) (s : S)
          → lookup d r.shares ≡ some s
          → verify_feldman_share e.curve s r.cfg.index (entries_of d r.commitments) ≡ ok true)
      → 1 ≤ d
      → d ≤ r.cfg.n
      → contains r.bad_dealers d ≡ false
      → is_ready r d ≡ true
      → Backed r d
  unfolding is_ready
  Backed-of_ready r d q low high good ready = elim (Option-cases (lookup d r.shares)) [
    | inl k ↦ absurd (ground (arith, ready, k))
    | inr (s, k) ↦ record {
      low = low;
      high = high;
      unspoiled = good;
      unquestioned = is_empty-nil (entries_of d r.complaints) (ground (arith, ready, k));
      acknowledged = ground (arith, ready, k);
      shared = (s, k, q d s k);
    }
  ]

  qualified_of-Backed :
      (r : Runner S) (start n : ℕ) (qual : List ℕ)
      → ((d : ℕ) (s : S)
          → lookup d r.shares ≡ some s
          → verify_feldman_share e.curve s r.cfg.index (entries_of d r.commitments) ≡ ok true)
      → 1 ≤ start
      → start + n ≤ r.cfg.n + 1
      → qualified_of r (up_to_from start n) ≡ some qual
      → All (Backed r) qual
  unfolding qualified_of up_to_from
  qualified_of-Backed r start zero qual q low high h =
      let bare : [] ≡ qual = ground (arith, h) in subst (All (Backed r)) bare tt
  qualified_of-Backed r start (suc n) qual q low high h =
      let later = λ (rest : List ℕ) (k : qualified_of r (up_to_from (start + 1) n) ≡ some rest).
        qualified_of-Backed r (start + 1) n rest q (omega arith) (omega arith) k in
      elim (Bool-cases (contains r.bad_dealers start)) [
        | inl bad ↦ later qual (ground (arith, h, bad))
        | inr good ↦ elim (Bool-cases (is_ready r start)) [
          | inr unready ↦ absurd (ground (arith, h, good, unready))
          | inl ready ↦ elim (Option-cases (qualified_of r (up_to_from (start + 1) n))) [
            | inl k ↦ absurd (ground (arith, h, good, ready, k))
            | inr (rest, k) ↦
                let whole : start ∷ rest ≡ qual = ground (arith, h, good, ready, k) in
                subst (All (Backed r)) whole
                  (Backed-of_ready r start q low (omega arith) good ready, later rest k)
          ]
        ]
      ]

  -- A dealer is relied on or was disqualified.
  abbrev pub Placed : Runner S → List ℕ → ℕ → Type 0
  Placed r qual d = (contains qual d || contains r.bad_dealers d) ≡ true

  Placed-cons :
      (r : Runner S) (d : ℕ) (qual ds : List ℕ)
      → All (Placed r qual) ds
      → All (Placed r (d ∷ qual)) ds
  unfolding contains
  Placed-cons r d qual [] h = tt
  Placed-cons r d qual (x ∷ ds) h = (ground (arith, h.0), Placed-cons r d qual ds h.1)

  qualified_of-Placed :
      (r : Runner S) (ds qual : List ℕ) → qualified_of r ds ≡ some qual → All (Placed r qual) ds
  unfolding qualified_of contains
  qualified_of-Placed r [] qual h = tt
  qualified_of-Placed r (d ∷ ds) qual h = elim (Bool-cases (contains r.bad_dealers d)) [
    | inl bad ↦ (ground (arith, bad), qualified_of-Placed r ds qual (ground (arith, h, bad)))
    | inr good ↦ elim (Option-cases (qualified_of r ds)) [
      | inl k ↦ absurd (ground (arith, h, good, k))
      | inr (rest, k) ↦
          let whole : d ∷ rest ≡ qual = ground (arith, h, good, k) in
          subst (λ l. All (Placed r l) (d ∷ ds)) whole
            (
              ground (arith, nat_eq.same_iff d d),
              Placed-cons r d rest ds (qualified_of-Placed r ds rest k),
            )
    ]
  ]

  -- The keys of a node that is done, with the dealers that they come from.
  abbrev pub MatchesCommitments : Config → Runner S → Type 0
  MatchesCommitments c r =
      (qual : List ℕ) × (key : P) × (share : S) × (c.threshold ≤ length qual)
      × All (Backed r) qual
      × All (Placed r qual) (seats c.n)
      × (sum_commitments e r qual e.curve.infinity ≡ some key)
      × (sum_shares e r qual (scalar_from_int e.curve 0) ≡ some share)
      × (sum_public r qual e.curve.infinity ≡ some (e.curve.mult e.curve.generator share))
      × (r.result.group_pub_key ≡ e.curve.compress key)
      × (r.result.share_scalar ≡ e.curve.serialize share)

  -- A node that is done relied on at least a threshold of dealers, each within the committee, not
  -- disqualified, without an open complaint, acknowledged by n - 1 nodes, and with a share that
  -- passed the check; every member of the committee was relied on or disqualified. Its group key is
  -- the sum of their first commitments, its key share the sum of their shares, and the multiple of
  -- the generator by that key share is the sum of their public polynomials at the node's index. The
  -- node was made over empty stores, the log is any, and the group laws hold.
  pub done-MatchesCommitments :
      IsGroup e.curve
      → (c : Config) (r : Runner S) (log : List Event) → new_runner c none none ≡ some r
      → (run e r log).done ≡ true
      → MatchesCommitments c (run e r log)
  done-MatchesCommitments g c r log h over =
      let (qual, key, share, q, enough, k, s, gk, ss) = run-Finished e c r log h over in
      let held = run-Sound e g c r log h in
      let whose = run-cfg e c r log h in
      (
        qual,
        key,
        share,
        subst (λ x. x.threshold ≤ length qual) whose enough,
        qualified_of-Backed (run e r log) 1 (run e r log).cfg.n qual held (omega arith)
            (omega arith) q,
        subst (λ x. All (Placed (run e r log) qual) (seats x.n)) whose
            (qualified_of-Placed (run e r log) (seats (run e r log).cfg.n) qual q),
        k,
        s,
        ap (sum_public (run e r log) qual) (sym (mult-scalar_zero e.curve g))
            ∙ sum_public-of_shares g (run e r log) qual (scalar_from_int e.curve 0) share held s,
        gk,
        ss,
      )
