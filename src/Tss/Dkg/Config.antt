-- ===== src/Tss/Dkg/Config.antt =====
-- internal/tss/dkg/beast_dkg_config.go: the committee of a key generation. An `int` is a number, with
-- 0 for all that is not positive.
pub mod Seats
use aequa_network.Base.{
  ℕ, String, Bool, true, false, ◌||◌, List, [], ◌∷◌, Option, none, some, not, ltb, ◌==◌, string_eq,
  nat_eq, if◌then◌else◌, length, contains,
}
use aequa_network.Tss.Dkg.Curve.{Bytes}

pub record Member : Type 0 where
  pub index : ℕ
  pub sig_pub : Bytes
  pub enc_pub : Bytes

pub record Config : Type 0 where
  pub session_id : String
  pub epoch : ℕ
  pub n : ℕ
  pub threshold : ℕ
  pub index : ℕ
  pub session_dir : String
  pub sig_priv : Bytes
  pub enc_priv : Bytes
  pub committee : List Member

-- The loop of `Validate` over the committee; `seen` are the indices that came before.
unfoldable pub validate_members : ℕ → List ℕ → List Member → Option String
validate_members n seen [] = none
validate_members n seen (m ∷ ms) =
    let rest = validate_members n (m.index ∷ seen) ms in
    if m.index == 0 || ltb n m.index
    then some "invalid committee index"
    else if contains seen m.index
    then some "duplicate committee index"
    else if not (length m.sig_pub == 32)
    then some "invalid committee sig_pub"
    else if not (length m.enc_pub == 32)
    then some "invalid committee enc_pub"
    else rest

-- `none` where `Validate` returns nil, and the text of its error otherwise.
unfoldable pub validate : Config → Option String
validate c =
    if c.session_id == ""
    then some "missing session_id"
    else if c.n == 0
    then some "invalid n"
    else if c.threshold == 0 || ltb c.n c.threshold
    then some "invalid threshold"
    else if c.index == 0 || ltb c.n c.index
    then some "invalid index"
    else if not (length c.sig_priv == 64)
    then some "invalid sig_priv"
    else if not (length c.enc_priv == 32)
    then some "invalid enc_priv"
    else if not (length c.committee == c.n)
    then some "committee size mismatch"
    else validate_members c.n [] c.committee

-- `BeastDKGRunner.member`: the first member with an index.
unfoldable pub member : List Member → ℕ → Option Member
member [] i = none
member (m ∷ ms) i = if m.index == i then some m else member ms i
