-- ===== src/Tss/Dkg/Outcome.antt =====
-- What a node has when it is done.
pub mod Keys
use aequa_network.Base.{
  ℕ, zero, suc, ◌+◌, ◌-◌, ◌≤◌, ◌<◌, ◌≡◌, ◌≢◌, refl, ◌∙◌, ap, sym, subst, Bool, true, false, ◌||◌,
  ◌&&◌, not, List, [], ◌∷◌, Option, none, some, ◌==◌, nat_eq, if◌then◌else◌, lookup, lookup_or,
  arith, Bool-cases, Option-cases, inl, inr, ◌⊎◌, All, contains, ltb, length, list_beq_iff,
  bytes_eq,
}
use aequa_network.Tss.Dkg.Curve.{Bytes, Curve, IsGroup}
use aequa_network.Tss.Dkg.Feldman.{
  Result, ok, err, is_empty, scalar_from_int, combine_loop, verify_feldman_share, commit,
}
use aequa_network.Tss.Dkg.Config.{Config}
use aequa_network.Tss.Dkg.Runner.{
  Message, Crypto, Runner, new_runner, reset_for_epoch, entries_of, Session, KeyShare, DkgResult,
  empty_result, persist,
}
use aequa_network.Tss.Dkg.Sending.{up_to_from, seats}
use aequa_network.Tss.Dkg.Finalize.{
  Pending, Verdict, wait, reshare, save, is_ready, qualified_of, sum_commitments, sum_shares,
  derive, verdict, save_key_share, complete,
}
use aequa_network.Tss.Dkg.Dispatch.{Event, run}
use aequa_network.Tss.Dkg.Fresh.{IsFresh, new_runner-IsFresh}
use aequa_network.Tss.Dkg.Core.{core, persist-core}
use aequa_network.Tss.Dkg.Rules.{Moves}
use aequa_network.Tss.Dkg.Rules.Keep.{frame, Moves-frame}
use aequa_network.Tss.Dkg.Rules.Deal.{Deal, idle, dealt}
use aequa_network.Tss.Dkg.Rules.Steps.{HeardEvent, Kept, run-Kept}
use aequa_network.Tss.Dkg.Sound.{Anyone, All-Anyone, run-Sound}

module _ {S : Type 0} where
  -- The part of the state that the verdict reads.
  abbrev ledger : Runner S → Runner S
  ledger r = record (core r) {
    done = false;
    finalizing = false;
    result = empty_result;
    key_share = none;
  }

  qualified_of-ledger :
      (r : Runner S) (ds : List ℕ) → qualified_of (ledger r) ds ≡ qualified_of r ds
  unfolding qualified_of is_ready
  qualified_of-ledger r [] = refl
  qualified_of-ledger r (d ∷ ds) = rw (qualified_of-ledger r ds) refl

List-cases {ℓ} : {A : Type ℓ} (l : List A) → (l ≡ []) ⊎ ((x : A) × (xs : List A) × (l ≡ x ∷ xs))
List-cases [] = inl refl
List-cases (x ∷ xs) = inr (x, xs, refl)

module _ {S P : Type 0} (e : Crypto S P) where
  sum_commitments-ledger :
      (r : Runner S) (ds : List ℕ) (acc : P)
      → sum_commitments e (ledger r) ds acc ≡ sum_commitments e r ds acc
  unfolding sum_commitments
  sum_commitments-ledger r [] acc = refl
  sum_commitments-ledger r (d ∷ ds) acc = elim (List-cases (entries_of d r.commitments)) [
    | inl k ↦ ground (arith, k)
    | inr (first, rest, k) ↦ elim (Option-cases (e.curve.uncompress first)) [
      | inl u ↦ ground (arith, k, u)
      | inr (p, u) ↦ ground (arith, k, u, sum_commitments-ledger r ds (e.curve.plus acc p))
    ]
  ]

  sum_shares-ledger :
      (r : Runner S) (ds : List ℕ) (acc : S)
      → sum_shares e (ledger r) ds acc ≡ sum_shares e r ds acc
  unfolding sum_shares
  sum_shares-ledger r [] acc = refl
  sum_shares-ledger r (d ∷ ds) acc = elim (Option-cases (lookup d r.shares)) [
    | inl k ↦ ground (arith, k)
    | inr (s, k) ↦ elim (Option-cases (e.curve.add acc s)) [
      | inl a ↦ ground (arith, k, a)
      | inr (sum, a) ↦ ground (arith, k, a, sum_shares-ledger r ds sum)
    ]
  ]

  -- The keys that a state gives rise to.
  abbrev pub Derives : Runner S → List ℕ → P → S → Type 0
  Derives r qual key share =
      (qualified_of r (seats r.cfg.n) ≡ some qual)
      × (r.cfg.threshold ≤ length qual)
      × (sum_commitments e r qual e.curve.infinity ≡ some key)
      × (sum_shares e r qual (scalar_from_int e.curve 0) ≡ some share)

  pub qualified-of_verdict :
      (r : Runner S) (p : Pending)
      → verdict e r ≡ save p
      → (r.done ≡ false)
        × ((qual : List ℕ) × (qualified_of r (seats r.cfg.n) ≡ some qual)
            × (r.cfg.threshold ≤ length qual)
            × (derive e r qual ≡ some p))
  unfolding verdict
  qualified-of_verdict r p h = elim (Option-cases (qualified_of r (seats r.cfg.n))) [
    | inl k ↦ absurd (ground (arith, h, k))
    | inr (qual, k) ↦ elim (Option-cases (derive e r qual)) [
      | inl d ↦ absurd (ground (arith, h, k, d))
      | inr (q, d) ↦
          (ground (arith, h), (qual, k, ground (arith, h, k, d), ground (arith, h, k, d)))
    ]
  ]

  pub keys-of_derive :
      (r : Runner S) (qual : List ℕ) (p : Pending)
      → derive e r qual ≡ some p
      → (p.epoch ≡ r.epoch)
        × ((key : P) × (share : S) × (sum_commitments e r qual e.curve.infinity ≡ some key)
            × (sum_shares e r qual (scalar_from_int e.curve 0) ≡ some share)
            × (p.group_pub_key ≡ e.curve.compress key)
            × (p.share_scalar ≡ e.curve.serialize share))
  unfolding derive
  keys-of_derive r qual p h = elim (Option-cases (sum_commitments e r qual e.curve.infinity)) [
    | inl k ↦ absurd (ground (arith, h, k))
    | inr (key, k) ↦ elim (Option-cases (sum_shares e r qual (scalar_from_int e.curve 0))) [
      | inl s ↦ absurd (ground (arith, h, k, s))
      | inr (share, s) ↦ (
        ground (arith, h, k, s),
        (key, share, k, s, ground (arith, h, k, s), ground (arith, h, k, s)),
      )
    ]
  ]

  -- The state that a node finishes in.
  closed : Pending → Runner S → Runner S
  closed p r = record (save_key_share p r) {
    done = true;
    result = record {
      index = r.cfg.index;
      threshold = r.cfg.threshold;
      group_pub_key = p.group_pub_key;
      share_scalar = p.share_scalar;
    };
  }

  complete-closed :
      (p : Pending) (r : Runner S)
      → r.done ≡ false
      → p.epoch ≡ r.epoch
      → complete e p (save_key_share p r) ≡ persist e (closed p r)
  unfolding complete save_key_share closed
  complete-closed p r live same = ground arith

  -- A node that is done has the keys that its state gives rise to.
  abbrev pub Finished : Runner S → Type 0
  Finished r =
      (qual : List ℕ) × (key : P) × (share : S) × (qualified_of r (seats r.cfg.n) ≡ some qual)
      × (r.cfg.threshold ≤ length qual)
      × (sum_commitments e r qual e.curve.infinity ≡ some key)
      × (sum_shares e r qual (scalar_from_int e.curve 0) ≡ some share)
      × (r.result.group_pub_key ≡ e.curve.compress key)
      × (r.result.share_scalar ≡ e.curve.serialize share)

  Finished-ledger :
      (r t : Runner S)
      → ledger t ≡ ledger r
      → (qual : List ℕ) (key : P) (share : S) → qualified_of r (seats r.cfg.n) ≡ some qual
      → r.cfg.threshold ≤ length qual
      → sum_commitments e r qual e.curve.infinity ≡ some key
      → sum_shares e r qual (scalar_from_int e.curve 0) ≡ some share
      → t.result.group_pub_key ≡ e.curve.compress key
      → t.result.share_scalar ≡ e.curve.serialize share
      → Finished t
  Finished-ledger r t h qual key share q l k s gk ss = (
    qual,
    key,
    share,
    sym (qualified_of-ledger t (seats t.cfg.n))
        ∙ ap (λ x. qualified_of x (seats x.cfg.n)) h
        ∙ qualified_of-ledger r (seats r.cfg.n)
        ∙ q,
    subst (λ x. x.cfg.threshold ≤ length qual) (sym h) l,
    sym (sum_commitments-ledger t qual e.curve.infinity)
        ∙ ap (λ x. sum_commitments e x qual e.curve.infinity) h
        ∙ sum_commitments-ledger r qual e.curve.infinity
        ∙ k,
    sym (sum_shares-ledger t qual (scalar_from_int e.curve 0))
        ∙ ap (λ x. sum_shares e x qual (scalar_from_int e.curve 0)) h
        ∙ sum_shares-ledger r qual (scalar_from_int e.curve 0)
        ∙ s,
    gk,
    ss,
  )

  -- What holds after every log.
  abbrev Settled : Runner S → Type 0
  Settled r = r.done ≡ true → Finished r

  complete-Settled :
      (p : Pending) (r : Runner S)
      → verdict e r ≡ save p
      → Settled (complete e p (save_key_share p r))
  unfolding closed save_key_share
  complete-Settled p r h _ =
      let (live, (qual, q, l, d)) = qualified-of_verdict r p h in
      let (same, (key, share, k, s, gk, ss)) = keys-of_derive r qual p d in
      let whole = complete-closed p r live same in
      let kernel = ap core whole ∙ persist-core e (closed p r) in
      Finished-ledger r _ (ap ledger kernel) qual key share q l k s
        (ap (λ x. x.result.group_pub_key) kernel ∙ gk) (ap (λ x. x.result.share_scalar) kernel ∙ ss)

  Moves-Settled : (r s : Runner S) → r.done ≡ false → Moves e Anyone r s → Settled r → Settled s
  Moves-Settled r s live ms q h = absurd (cc (live, h, ap (λ x. x.done) (Moves-frame e Anyone ms)))

  reset-Settled : (n : ℕ) (r s : Runner S) → Deal e (reset_for_epoch n r) s → Settled s
  unfolding reset_for_epoch
  reset-Settled n r s (idle k) h = absurd (cc (h, ap (λ x. x.done) k))
  reset-Settled n r s (dealt _ _ _ _ _ k) h = absurd (cc (h, ap (λ x. x.done) k))

  fresh-Settled :
      (c : Config) (r : Runner S) → IsFresh c r → (s : Runner S) → Deal e r s → Settled s
  fresh-Settled c r f s (idle k) h = absurd (cc (h, f.live, ap (λ x. x.done) k))
  fresh-Settled c r f s (dealt _ _ _ _ _ k) h = absurd (cc (h, f.live, ap (λ x. x.done) k))

  pub run-Finished :
      (c : Config) (r : Runner S) (log : List Event)
      → new_runner c none none ≡ some r
      → (run e r log).done ≡ true
      → Finished (run e r log)
  run-Finished c r log h over =
      let f = new_runner-IsFresh c r h in
      (run-Kept e Anyone Settled Moves-Settled (λ n r s _ _ d _. reset-Settled n r s d)
          (λ p r v _. complete-Settled p r v) c r f (fresh-Settled c r f) log (All-Anyone e log)).0
        over

  -- No event changes the configuration.
  complete-cfg : (p : Pending) (r : Runner S) → (complete e p (save_key_share p r)).cfg ≡ r.cfg
  unfolding complete save_key_share persist
  complete-cfg p r = ground arith

  Deal-cfg : {r s : Runner S} → Deal e r s → s.cfg ≡ r.cfg
  Deal-cfg (idle k) = ap (λ x. x.cfg) k
  Deal-cfg (dealt _ _ _ _ _ k) = ap (λ x. x.cfg) k

  reset-cfg : (n : ℕ) (r : Runner S) → (reset_for_epoch n r).cfg ≡ r.cfg
  unfolding reset_for_epoch
  reset-cfg n r = refl

  pub run-cfg :
      (c : Config) (r : Runner S) (log : List Event)
      → new_runner c none none ≡ some r
      → (run e r log).cfg ≡ c
  run-cfg c r log h =
      let f = new_runner-IsFresh c r h in
      (run-Kept e Anyone (λ x. x.cfg ≡ c)
        (λ r s _ ms q. ap (λ x. x.cfg) (Moves-frame e Anyone ms) ∙ q)
        (λ n r s _ _ d q. Deal-cfg d ∙ reset-cfg n r ∙ q) (λ p r _ q. complete-cfg p r ∙ q) c r f
        (λ s d. Deal-cfg d ∙ f.settled) log (All-Anyone e log)).0
