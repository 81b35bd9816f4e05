-- ===== src/Tss/Dkg/Feldman.antt =====
-- internal/tss/dkg/feldman_crypto_blst.go: polynomials over the scalars, the commitments to them and
-- the check of a share. An `int` that the code tests for being positive is a number with 0 for all
-- the rest; a pointer to a scalar is never nil here.
pub mod Honest
use aequa_network.Base.{
  ℕ, zero, suc, ◌+◌, Bool, true, false, ◌||◌, String, List, [], ◌∷◌, ◌++◌, map, Option, none, some,
  ◌==◌, nat_eq, bytes_eq, if◌then◌else◌,
}
use aequa_network.Store.{put_uint}
use aequa_network.Tss.Dkg.Curve.{Bytes, Curve, zeros}

pub data Error : Type 0 where
  invalid_params invalid_point invalid_share : Error

pub data Result {ℓ} (A : Type ℓ) : Type ℓ where
  ok : A → Result A
  err : Error → Result A

infixl 5 ◌>>=◌
abbrev pub ◌>>=◌ {ℓ κ} : {A : Type ℓ} {B : Type κ} → Result A → (A → Result B) → Result B
ok a >>= f = f a
err e >>= f = err e

-- What a call of blst gives, or the error that the code returns in its place.
abbrev pub or_err {ℓ} : {A : Type ℓ} → Error → Option A → Result A
or_err e (some a) = ok a
or_err e none = err e

abbrev pub is_empty {ℓ} : {A : Type ℓ} → List A → Bool
is_empty [] = true
is_empty (x ∷ xs) = false

module _ {S P : Type 0} (c : Curve S P) where
  unfoldable pub scalar_from_int : ℕ → S
  scalar_from_int v = c.from_bendian (zeros 24 ++ put_uint 8 v)

  unfoldable pub eval_loop : S → List S → S → S → Result S
  eval_loop xs [] acc pow = ok acc
  eval_loop xs (a ∷ coeffs) acc pow = do
    term ← or_err invalid_share (c.mul a pow)
    sum ← or_err invalid_share (c.add acc term)
    nxt ← or_err invalid_share (c.mul pow xs)
    eval_loop xs coeffs sum nxt

  unfoldable pub eval_poly_at : List S → ℕ → Result S
  eval_poly_at coeffs x =
      if is_empty coeffs || x == 0
      then err invalid_params
      else eval_loop (scalar_from_int x) coeffs (scalar_from_int 0) (scalar_from_int 1)

  abbrev pub commit : S → Bytes
  commit a = c.compress (c.mult c.generator a)

  unfoldable pub commitments_from_poly : List S → Result (List Bytes)
  commitments_from_poly [] = err invalid_params
  commitments_from_poly (a ∷ coeffs) = ok (map commit (a ∷ coeffs))

  -- The right side of the check: the sum of `commitments[j] * x^j`.
  unfoldable pub combine_loop : S → List Bytes → P → S → Result P
  combine_loop xs [] acc pow = ok acc
  combine_loop xs (b ∷ commitments) acc pow = do
    p ← or_err invalid_point (c.uncompress b)
    nxt ← or_err invalid_share (c.mul pow xs)
    combine_loop xs commitments (c.plus acc (c.mult p pow)) nxt

  unfoldable pub verify_feldman_share : S → ℕ → List Bytes → Result Bool
  verify_feldman_share share x commitments =
      if x == 0 || is_empty commitments
      then err invalid_params
      else combine_loop (scalar_from_int x) commitments c.infinity (scalar_from_int 1) >>= λ rhs.
          ok (commit share == c.compress rhs)
