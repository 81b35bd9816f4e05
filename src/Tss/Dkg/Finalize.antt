-- ===== src/Tss/Dkg/Finalize.antt =====
-- internal/tss/dkg/beast_runner_blst.go: `maybeFinalize`. It saves the key share without the lock, so
-- it has two halves, before and after the save, and other messages may come between them.
use aequa_network.Base.{
  ℕ, ◌+◌, ◌-◌, ◌%◌, ◌^◌, Bool, true, false, ◌||◌, ◌&&◌, not, List, [], ◌∷◌, Option, none, some,
  ◌==◌, nat_eq, if◌then◌else◌, length, ltb, contains, lookup,
}
use aequa_network.Tss.Dkg.Curve.{Bytes}
use aequa_network.Tss.Dkg.Feldman.{is_empty, scalar_from_int}
use aequa_network.Tss.Dkg.Runner.{Crypto, Runner, persist, entries_of}
use aequa_network.Tss.Dkg.Sending.{seats}
use aequa_network.Tss.Dkg.Epoch.{bump_epoch}

-- What the first half hands to the second.
pub record Pending : Type 0 where
  pub epoch : ℕ
  pub group_pub_key : Bytes
  pub share_scalar : Bytes

pub data Verdict : Type 0 where
  wait reshare : Verdict
  save : Pending → Verdict

module _ {S : Type 0} (r : Runner S) where
  -- The tests that a dealer has to pass.
  unfoldable pub is_ready : ℕ → Bool
  is_ready dealer =
      not (is_empty (entries_of dealer r.commitments))
      && is_empty (entries_of dealer r.complaints)
      && not (ltb (length (entries_of dealer r.acks)) (r.cfg.n - 1))
      && elim (lookup dealer r.shares) [ none ↦ false | some _ ↦ true ]

  -- The dealers that are not disqualified; `none` where one of them is not ready.
  unfoldable pub qualified_of : List ℕ → Option (List ℕ)
  unfolding is_ready
  qualified_of [] = some []
  qualified_of (dealer ∷ dealers) =
      let rest = qualified_of dealers in
      if contains r.bad_dealers dealer
      then rest
      else if is_ready dealer
      then elim rest [ none ↦ none | some qual ↦ some (dealer ∷ qual) ]
      else none

module _ {S : Type 0} where
  -- The lock is released with `finalizing` set, and the key share is saved.
  unfoldable pub save_key_share : Pending → Runner S → Runner S
  save_key_share p r = record r {
    finalizing = true;
    key_share = some (record {
      index = r.cfg.index;
      public_key = p.group_pub_key;
      private_key = p.share_scalar;
    });
  }

module _ {S P : Type 0} (e : Crypto S P) where
  -- The loops over the qualified dealers: the sum of the first commitments, and of the shares.
  unfoldable pub sum_commitments : Runner S → List ℕ → P → Option P
  sum_commitments r [] acc = some acc
  sum_commitments r (dealer ∷ dealers) acc = elim (entries_of dealer r.commitments) [
    | [] ↦ none
    | first ∷ _ ↦ elim (e.curve.uncompress first) [
      | none ↦ none
      | some p ↦ sum_commitments r dealers (e.curve.plus acc p)
    ]
  ]

  unfoldable pub sum_shares : Runner S → List ℕ → S → Option S
  sum_shares r [] acc = some acc
  sum_shares r (dealer ∷ dealers) acc = elim (lookup dealer r.shares) [
    | none ↦ none
    | some s ↦ elim (e.curve.add acc s) [ none ↦ none | some sum ↦ sum_shares r dealers sum ]
  ]

  -- The keys that a node with these qualified dealers derives.
  unfoldable pub derive : Runner S → List ℕ → Option Pending
  unfolding sum_commitments sum_shares
  derive r qual = elim (sum_commitments r qual e.curve.infinity) [
    | none ↦ none
    | some key ↦ elim (sum_shares r qual (scalar_from_int e.curve 0)) [
      | none ↦ none
      | some share ↦ some (record {
        epoch = r.epoch;
        group_pub_key = e.curve.compress key;
        share_scalar = e.curve.serialize share;
      })
    ]
  ]

  -- What the code does under its first lock: nothing, a new epoch, or the keys to save.
  unfoldable pub verdict : Runner S → Verdict
  unfolding derive
  verdict r =
      if r.done || r.finalizing
      then wait
      else if ltb (r.cfg.n - length r.bad_dealers) r.cfg.threshold
      then reshare
      else elim (qualified_of r (seats r.cfg.n)) [
        | none ↦ wait
        | some qual ↦
            if ltb (length qual) r.cfg.threshold
            then wait
            else elim (derive r qual) [ none ↦ wait | some p ↦ save p ]
      ]

  -- Under the second lock.
  unfoldable pub complete : Pending → Runner S → Runner S
  complete p r =
      if r.done || not (r.epoch == p.epoch)
      then record r { finalizing = false }
      else persist e (record r {
        done = true;
        result = record {
          index = r.cfg.index;
          threshold = r.cfg.threshold;
          group_pub_key = p.group_pub_key;
          share_scalar = p.share_scalar;
        };
      })

  -- `maybeFinalize` where nothing comes between the halves.
  unfoldable pub maybe_finalize : Runner S → Runner S
  unfolding verdict save_key_share complete
  maybe_finalize r = elim (verdict r) [
    | wait ↦ r
    | reshare ↦ bump_epoch e ((r.epoch + 1) % 2 ^ 64) r
    | save p ↦ complete p (save_key_share p r)
  ]
