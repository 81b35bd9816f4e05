-- ===== src/Payload/Builder/Parts.antt =====
-- The two paths of `PrepareProposal`, which `UseDFBA` tells apart.
use aequa_network.Base.{◌≡◌, ap, Bool, true, false, if◌then◌else◌}
use aequa_network.Payload.Types.{Digest}
use aequa_network.Payload.Container.{Container}
use aequa_network.Payload.Builder.{
  BuilderPolicy, BlockHeader, StandardBlock, Env, prepare_by_types, prepare_proposal_dfba,
  prepare_proposal,
}

either {ℓ κ} :
    {A : Type ℓ} (P : A → Type κ) (b : Bool) {x y : A} → P x → P y → P (if b then x else y)
either P true hx hy = hx
either P false hx hy = hy

module _ ⦃d : Digest⦄ (env : Env) (c : Container) (hdr : BlockHeader) (pol : BuilderPolicy) where
  -- What holds of the blocks of both paths holds of the block.
  pub prepared {κ} :
      (P : StandardBlock → Type κ)
      → P (prepare_proposal_dfba env c hdr pol)
      → P (prepare_by_types env c hdr pol)
      → P (prepare_proposal env c hdr pol)
  unfolding prepare_proposal
  prepared P x y = either P pol.use_dfba x y

  pub prepared_by_types :
      pol.use_dfba ≡ false → prepare_proposal env c hdr pol ≡ prepare_by_types env c hdr pol
  unfolding prepare_proposal
  prepared_by_types h =
      ap (λ b. if b then prepare_proposal_dfba env c hdr pol else prepare_by_types env c hdr pol) h
