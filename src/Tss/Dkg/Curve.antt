-- ===== src/Tss/Dkg/Curve.antt =====
-- The group of BLS12-381 as github.com/supranational/blst offers it, which the key generation only
-- calls: its operations as an interface, and the laws that blst documents.
use aequa_network.Base.{ℕ, zero, suc, ◌≡◌, List, [], ◌∷◌, Option, some}

abbrev pub Bytes : Type 0
Bytes = List ℕ

-- `S` are the scalars, the numbers below the group order, and `P` the points of G1. `mul` and `add` are `none` where blst reports
-- failure; `deserialize` and `uncompress` are `none` where blst returns nil.
pub record Curve (S P : Type 0) : Type 0 where
  pub from_bendian : Bytes → S
  pub serialize : S → Bytes
  pub deserialize : Bytes → Option S
  pub mul : S → S → Option S
  pub add : S → S → Option S
  pub sub : S → S → Option S
  pub inverse : S → S
  pub generator : P
  pub infinity : P
  pub mult : P → S → P
  pub plus : P → P → P
  pub compress : P → Bytes
  pub uncompress : Bytes → Option P

unfoldable pub zeros : ℕ → Bytes
zeros zero = []
zeros (suc n) = 0 ∷ zeros n

module _ {S P : Type 0} (c : Curve S P) where
  -- The encoding of a point can be read back, and multiplying the generator turns sums and products
  -- of scalars into sums and multiples of points.
  pub record IsGroup : Type 0 where
    pub uncompress-compress : (p : P) → c.uncompress (c.compress p) ≡ some p
    pub mult-mul :
        (a b d : S) → c.mul a b ≡ some d → c.mult (c.mult c.generator a) b ≡ c.mult c.generator d
    pub plus-add :
        (a b d : S)
        → c.add a b ≡ some d
        → c.plus (c.mult c.generator a) (c.mult c.generator b) ≡ c.mult c.generator d
    pub mult-zero : c.mult c.generator (c.from_bendian (zeros 32)) ≡ c.infinity

  -- A scalar is determined by its multiple of the generator.
  abbrev pub IsFaithful : Type 0
  IsFaithful = (a b : S) → c.mult c.generator a ≡ c.mult c.generator b → a ≡ b
