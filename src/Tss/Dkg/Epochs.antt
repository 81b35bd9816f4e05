-- ===== src/Tss/Dkg/Epochs.antt =====
-- Epochs only grow, a node that is done stays as it is, and what an epoch leaves behind.
use aequa_network.Base.{
  ℕ, ◌≤◌, ◌<◌, ◌≡◌, ◌≢◌, refl, ◌∙◌, ap, true, false, List, [], ◌∷◌, ◌++◌, some, nat_eq, string_eq,
  arith, inl, inr, length, Values,
}
use aequa_network.Tss.Dkg.Runner.{Message, Crypto, Runner, reset_for_epoch, KeyShare, persist}
use aequa_network.Tss.Dkg.Epoch.{start, retry, bump_epoch, finished}
use aequa_network.Tss.Dkg.Finalize.{Pending, save, verdict, save_key_share, complete}
use aequa_network.Tss.Dkg.Dispatch.{Event, received, retried, is_admitted, on_message, step, run}
use aequa_network.Tss.Dkg.Rules.Keep.{Moves-frame}
use aequa_network.Tss.Dkg.Rules.Deal.{Deal, idle, dealt, bump_epoch-cases}
use aequa_network.Tss.Dkg.Rules.Steps.{on_message-Kept, retry-Kept}
use aequa_network.Tss.Dkg.Outcome.{qualified-of_verdict, keys-of_derive}
use aequa_network.Tss.Dkg.Sound.{Anyone}

module _ {S P : Type 0} (e : Crypto S P) where
  Values-Anyone : (m : List (ℕ × Message)) → Values (λ m. Anyone m.from_index) m
  Values-Anyone [] = tt
  Values-Anyone ((k, v) ∷ m) = (tt, Values-Anyone m)

  Deal-epoch : {r s : Runner S} → Deal e r s → s.epoch ≡ r.epoch
  Deal-epoch (idle k) = ap (λ x. x.epoch) k
  Deal-epoch (dealt _ _ _ _ _ k) = ap (λ x. x.epoch) k

  reset-epoch : (n : ℕ) (r : Runner S) → (reset_for_epoch n r).epoch ≡ n
  unfolding reset_for_epoch
  reset-epoch n r = refl

  bump_epoch_le : (n : ℕ) (r : Runner S) → r.epoch ≤ (bump_epoch e n r).epoch
  bump_epoch_le n r = elim (bump_epoch-cases e n r) [
    | inl (_, same) ↦ omega (arith, ap (λ x. x.epoch) same)
    | inr (k, d) ↦ ground (arith, k, Deal-epoch d ∙ reset-epoch n r)
  ]

  complete-epoch :
      (p : Pending) (r : Runner S) → (complete e p (save_key_share p r)).epoch ≡ r.epoch
  unfolding complete save_key_share persist
  complete-epoch p r = ground arith

  -- No event takes a node back to an earlier epoch.
  pub step-epoch_le : (r : Runner S) (ev : Event) → r.epoch ≤ (step e r ev).epoch
  unfolding step
  step-epoch_le r (received m) =
      (on_message-Kept e Anyone (λ x. r.epoch ≤ x.epoch)
        (λ q s _ ms h. omega (arith, h, ap (λ x. x.epoch) (Moves-frame e Anyone ms)))
        (λ n q s _ more d h. omega (arith, h, more, Deal-epoch d, reset-epoch n q))
        (λ p q _ h. omega (arith, h, complete-epoch p q)) m r tt
        (omega arith, (Values-Anyone r.pending_share, Values-Anyone r.pending_open))).0
  step-epoch_le r (retried late) =
      (retry-Kept e Anyone (λ x. r.epoch ≤ x.epoch)
        (λ q s _ ms h. omega (arith, h, ap (λ x. x.epoch) (Moves-frame e Anyone ms)))
        (λ n q s _ more d h. omega (arith, h, more, Deal-epoch d, reset-epoch n q))
        (λ p q _ h. omega (arith, h, complete-epoch p q)) late r
        (omega arith, (Values-Anyone r.pending_share, Values-Anyone r.pending_open))).0

  step_done : (r : Runner S) (ev : Event) → r.done ≡ true → step e r ev ≡ r
  unfolding step on_message is_admitted retry
  step_done r (received m) h = ground arith
  step_done r (retried late) h = ground arith

  -- Once a node is done no event changes it: later messages and rounds of the retry loop leave the
  -- whole state, the result and the stored key share as they are.
  pub done_is_final :
      (r : Runner S) (log later : List Event)
      → (run e r log).done ≡ true
      → run e r (later ++ log) ≡ run e r log
  unfolding run
  done_is_final r log [] h = refl
  done_is_final r log (ev ∷ later) h =
      let same = done_is_final r log later h in
      ap (λ x. step e x ev) same ∙ step_done (run e r log) ev h

  Deal-key_share : {r s : Runner S} → Deal e r s → s.key_share ≡ r.key_share
  Deal-key_share (idle k) = ap (λ x. x.key_share) k
  Deal-key_share (dealt _ _ _ _ _ k) = ap (λ x. x.key_share) k

  Deal-done : {r s : Runner S} → Deal e r s → s.done ≡ r.done
  Deal-done (idle k) = ap (λ x. x.done) k
  Deal-done (dealt _ _ _ _ _ k) = ap (λ x. x.done) k

  -- The state that the second half of the end finds when another epoch began.
  overtaken :
      (r : Runner S) (p : Pending) (epoch : ℕ)
      → r.done ≡ false
      → r.epoch < epoch
      → let t = bump_epoch e epoch (save_key_share p r) in
        (t.done ≡ false)
        × (t.epoch ≡ epoch)
        × (t.key_share
            ≡ some (record {
              index = r.cfg.index;
              public_key = p.group_pub_key;
              private_key = p.share_scalar;
            }))
  unfolding save_key_share reset_for_epoch
  overtaken r p epoch live more = elim (bump_epoch-cases e epoch (save_key_share p r)) [
    | inl (k, _) ↦ absurd (ground (arith, k, live, more))
    | inr (_, d) ↦ (Deal-done d, Deal-epoch d, Deal-key_share d)
  ]

  complete-overtaken :
      (t : Runner S) (p : Pending)
      → p.epoch ≢ t.epoch
      → complete e p t ≡ record t { finalizing = false }
  unfolding complete
  complete-overtaken t p other = ground arith

  start-of_key_share :
      (r : Runner S) (k : KeyShare)
      → r.key_share ≡ some k
      → length k.private_key ≡ 32
      → start e r ≡ finished e k r
  unfolding start
  start-of_key_share r k h long = ground arith

  -- If another epoch begins while the key share is being saved, the node is not done in that epoch,
  -- and the saved share, of the epoch that was left, stays in the key store: a start over that store
  -- takes it for the final result. The share is of 32 bytes, as the key store wants.
  pub abandoned_share_is_taken :
      (r later : Runner S) (p : Pending) (epoch : ℕ)
      → verdict e r ≡ save p
      → r.epoch < epoch
      → length p.share_scalar ≡ 32
      → later.key_share ≡ (complete e p (bump_epoch e epoch (save_key_share p r))).key_share
      → ((complete e p (bump_epoch e epoch (save_key_share p r))).done ≡ false)
        × ((complete e p (bump_epoch e epoch (save_key_share p r))).epoch ≡ epoch)
        × ((start e later).done ≡ true)
        × ((start e later).result.share_scalar ≡ p.share_scalar)
  unfolding finished
  abandoned_share_is_taken r later p epoch v more long kept =
      let (live, (qual, _, _, d)) = qualified-of_verdict e r p v in
      let old = (keys-of_derive e r qual p d).0 in
      let (waits, now, stored) = overtaken r p epoch live more in
      let moved =
        complete-overtaken (bump_epoch e epoch (save_key_share p r)) p
          (λ x. absurd (omega (arith, x, old, now, more))) in
      let begun = start-of_key_share later _ (kept ∙ ap (λ x. x.key_share) moved ∙ stored) long in
      (
        ap (λ x. x.done) moved ∙ waits,
        ap (λ x. x.epoch) moved ∙ now,
        ap (λ x. x.done) begun,
        ap (λ x. x.result.share_scalar) begun,
      )
