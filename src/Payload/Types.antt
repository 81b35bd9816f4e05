-- ===== src/Payload/Types.antt =====
-- The transactions of internal/payload/plaintext_v1, auction_bid_v1 and private_v1, behind the
-- interface of internal/payload/interface.go. Numbers are uint64; bytes are numbers below 256.
use aequa_network.Base.{
  ℕ, ◌%◌, String, Bool, ◌||◌, not, List, [], ◌∷◌, ◌++◌, Option, none, some, ltb, ◌==◌, string_eq,
  nat_eq, length,
}

-- crypto/sha256 and the bytes of a text, which the code only calls.
pub record Digest : Type 0 where
  pub sha256 : List ℕ → List ℕ
  pub bytes : String → List ℕ

-- `h`, the cached hash, is `none` until the first call of `Hash`.
pub record PlaintextTx : Type 0 where
  pub sender : String
  pub nonce : ℕ
  pub gas : ℕ
  pub fee : ℕ
  pub sig : List ℕ
  pub h : Option (List ℕ)

pub record AuctionBidTx : Type 0 where
  pub sender : String
  pub nonce : ℕ
  pub gas : ℕ
  pub bid : ℕ
  pub fee_recipient : String
  pub sig : List ℕ
  pub h : Option (List ℕ)

pub record PrivateTx : Type 0 where
  pub sender : String
  pub nonce : ℕ
  pub ciphertext : List ℕ
  pub ephemeral_key : List ℕ
  pub target_height : ℕ
  pub batch_index : ℕ
  pub punctured_key : List ℕ
  pub h : Option (List ℕ)

-- The implementations of the interface `Payload` that the repository has.
pub data Payload : Type 0 where
  plaintext : PlaintextTx → Payload
  auction : AuctionBidTx → Payload
  private : PrivateTx → Payload

abbrev pub type_of : Payload → String
type_of (plaintext t) = "plaintext_v1"
type_of (auction t) = "auction_bid_v1"
type_of (private t) = "private_v1"

abbrev pub sort_key : Payload → ℕ
sort_key (plaintext t) = t.fee
sort_key (auction t) = t.bid
sort_key (private t) = 0

unfoldable pub plaintext_valid : PlaintextTx → Bool
plaintext_valid t = not (t.sender == "" || t.gas == 0 || ltb (length t.sig) 32)

unfoldable pub auction_valid : AuctionBidTx → Bool
auction_valid t =
    not
      (t.sender == "" || t.fee_recipient == "" || t.gas == 0 || t.bid == 0 || ltb (length t.sig) 32)

unfoldable pub private_valid : PrivateTx → Bool
private_valid t = not (t.sender == "" || length t.ciphertext == 0 || length t.ephemeral_key == 0)

abbrev pub or_hash : Option (List ℕ) → List ℕ → List ℕ
or_hash (some h) fresh = h
or_hash none fresh = fresh

-- `byte(x)` keeps the low eight bits.
abbrev pub byte : ℕ → ℕ
byte x = x % 256

module _ ⦃d : Digest⦄ where
  unfoldable pub plaintext_hash : PlaintextTx → List ℕ
  plaintext_hash t =
      or_hash t.h (d.sha256 (d.bytes t.sender ++ byte t.nonce ∷ byte t.gas ∷ byte t.fee ∷ []))

  unfoldable pub auction_hash : AuctionBidTx → List ℕ
  auction_hash t = or_hash t.h (
      d.sha256 (
        (d.bytes t.sender ++ d.bytes t.fee_recipient)
        ++ byte t.nonce ∷ byte t.gas ∷ byte t.bid ∷ []))

  unfoldable pub private_hash : PrivateTx → List ℕ
  private_hash t = or_hash t.h (d.sha256 ((d.bytes t.sender ++ byte t.nonce ∷ []) ++ t.ciphertext))

  unfoldable pub hash_of : Payload → List ℕ
  hash_of (plaintext t) = plaintext_hash t
  hash_of (auction t) = auction_hash t
  hash_of (private t) = private_hash t
