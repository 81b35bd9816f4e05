-- ===== src/Payload/Decrypters.antt =====
-- internal/payload/private_v1/blst_decrypter.go, json_decrypter.go, pending_decrypter_blst.go and
-- decode.go: the decrypters of private payloads. What they call of internal/beast and of
-- encoding/json is an interface here.
pub mod Release
pub mod Batches
pub mod Loading
use aequa_network.Base.{
  ℕ, ◌^◌, String, Bool, true, false, ◌||◌, ◌&&◌, not, List, [], ◌∷◌, Option, none, some, ltb, leb,
  ◌==◌, string_eq, nat_eq, if◌then◌else◌, length, take, drop,
}
use aequa_network.Payload.Types.{
  PlaintextTx, AuctionBidTx, PrivateTx, Payload, plaintext, auction, private,
}
use aequa_network.Payload.Builder.{
  BlockHeader, DecryptError, private_invalid, private_early, private_not_ready, private_cipher,
  private_empty, private_decode, Decrypted, clear, failed,
}
use aequa_network.Payload.Threshold.{
  Bytes, Shares, Ibe, enable_threshold, record_batched, batch_of, publish_once, maybe_ensure_share,
  threshold_private_key, handle_share,
}

pub record Envelope : Type 0 where
  pub kind : String
  pub sender : String
  pub nonce : ℕ
  pub gas : ℕ
  pub fee : ℕ
  pub bid : ℕ
  pub fee_recipient : String

pub record Config : Type 0 where
  pub mode : String
  pub group_pub_key : Bytes
  pub threshold : ℕ
  pub index : ℕ
  pub share : Bytes
  pub batch_n : ℕ

-- What `ibe.Decrypt` returns.
pub data Opened : Type 0 where
  opened : Bytes → Opened
  bad_point other_error : Opened

-- The called operations: `unmarshal` of encoding/json; the symmetric engine of internal/beast;
-- `Decrypt` of ibe; `PartialDecrypt`, `DecryptKeyG` and, from the setup of pprf on, `RecoverPRFAt`
-- and `RecoverXOR` of bte, where `none` is an error.
pub record Beast : Type 0 where
  pub unmarshal : Bytes → Option Envelope
  pub symmetric : Bytes → Option Bytes
  pub ibe_decrypt : Bytes → Bytes → Bytes → Opened
  pub partial_decrypt : Bytes → Bytes → ℕ → Option Bytes
  pub decrypt_key : Bytes → Bytes → List (ℕ × Bytes) → ℕ → Option Bytes
  pub setup : ℕ → Bytes → Option Bytes
  pub recover_prf : Bytes → Bytes → ℕ → Bytes → Option Bytes
  pub recover_xor : Bytes → Bytes → Bytes

pub data Event : Type 0 where
  heard : ℕ → ℕ → Bytes → Event
  asked : BlockHeader → Payload → Event

module _ ⦃b : Beast⦄ where
  of_envelope : Envelope → Option Payload
  of_envelope v =
      if (v.kind == "") || (v.kind == "plaintext_v1")
      then some (
          plaintext (record {
            sender = v.sender;
            nonce = v.nonce;
            gas = v.gas;
            fee = v.fee;
            sig = [];
            h = none;
          }))
      else if v.kind == "auction_bid_v1"
      then some (
          auction (record {
            sender = v.sender;
            nonce = v.nonce;
            gas = v.gas;
            bid = v.bid;
            fee_recipient = v.fee_recipient;
            sig = [];
            h = none;
          }))
      else none

  unfoldable pub decode_envelope_bytes : Bytes → Option Payload
  unfolding of_envelope
  decode_envelope_bytes bs = elim (b.unmarshal bs) [ none ↦ none | some v ↦ of_envelope v ]

  -- The end of each path: what the plaintext bytes decode to.
  unfoldable pub decode_plain : Bytes → Decrypted
  decode_plain pt =
      if length pt == 0
      then failed private_empty
      else elim (decode_envelope_bytes pt) [ none ↦ failed private_decode | some p ↦ clear p ]

  -- The gate that every decrypter starts with; the rest of its body is `body`.
  unfoldable pub gated {ℓ} :
      {A : Type ℓ} → (Decrypted → A) → (PrivateTx → A) → BlockHeader → Payload → A
  gated ret body hdr (private tx) =
      if tx.target_height == 0
      then ret (failed private_invalid)
      else if ltb hdr.height tx.target_height
      then ret (failed private_early)
      else body tx
  gated ret body hdr p = ret (clear p)

  unfoldable pub json_decrypt : BlockHeader → Payload → Decrypted
  unfolding gated
  json_decrypt =
      gated (λ d. d)
        λ tx. elim (decode_envelope_bytes tx.ciphertext) [
          | none ↦ failed private_decode
          | some p ↦ clear p
        ]

  unfoldable pub pending_decrypt : BlockHeader → Payload → Decrypted
  unfolding gated
  pending_decrypt = gated (λ d. d) (λ tx. failed private_not_ready)

  module _ ⦃i : Ibe⦄ where
    unfoldable pub decrypt_threshold_ibe : PrivateTx → Shares → Shares × Decrypted
    decrypt_threshold_ibe tx s =
        if (length tx.ephemeral_key == 0) || (length tx.ciphertext == 0)
        then (s, failed private_invalid)
        else let (s', key) =
            threshold_private_key tx.target_height (maybe_ensure_share tx.target_height s) in
          elim key [
            | none ↦ (s', failed private_not_ready)
            | some pk ↦ (
              s',
              elim (b.ibe_decrypt pk tx.ephemeral_key tx.ciphertext) [
                | opened pt ↦ decode_plain pt
                | bad_point ↦ failed private_invalid
                | other_error ↦ failed private_cipher
              ],
            )
          ]

    -- The configuration and the transaction that the batched path takes. A batch index from 2 ^ 63 on
    -- is negative as an `int`, and so not above the limit.
    unfoldable pub batched_fits : Config → PrivateTx → Bool
    batched_fits c tx =
        not (c.batch_n == 0)
        && (length c.share == 32)
        && not (c.index == 0)
        && not (length tx.ciphertext == 0)
        && (length tx.ephemeral_key == 96)
        && not (tx.batch_index == 0)
        && (length tx.punctured_key == 48)
        && not (ltb c.batch_n tx.batch_index && ltb tx.batch_index (2 ^ 63))

    -- From the shares of a batch to the payload.
    unfoldable pub combine_batch : Config → PrivateTx → Bytes → List (ℕ × Bytes) → Decrypted
    combine_batch c tx params shared =
        if ltb (length shared) c.threshold
        then failed private_not_ready
        else elim (b.decrypt_key (take 48 tx.ephemeral_key) (drop 48 tx.ephemeral_key) shared
            c.threshold) [
              | none ↦ failed private_cipher
              | some gk ↦ elim (b.recover_prf params gk tx.batch_index tx.punctured_key) [
                | none ↦ failed private_cipher
                | some prf ↦ decode_plain (b.recover_xor tx.ciphertext prf)
              ]
            ]

    -- The local share is recorded, and published if the threshold state says so.
    unfoldable pub offer_batched : Config → PrivateTx → Bytes → Shares → Shares
    offer_batched c tx own s =
        let kept = record_batched tx.target_height tx.batch_index c.index own s in
        if kept.enabled then publish_once tx.target_height c.index own kept else kept

    unfoldable pub decrypt_batched : Config → PrivateTx → Shares → Shares × Decrypted
    decrypt_batched c tx s =
        if not (batched_fits c tx)
        then (s, failed private_invalid)
        else elim (b.setup c.batch_n c.group_pub_key) [
          | none ↦ (s, failed private_cipher)
          | some params ↦ elim (b.partial_decrypt (take 48 tx.ephemeral_key) c.share c.index) [
            | none ↦ (s, failed private_cipher)
            | some own ↦
                let kept = offer_batched c tx own s in
                (kept, combine_batch c tx params (batch_of tx.target_height tx.batch_index kept))
          ]
        ]

    unfoldable pub decrypt_symmetric : PrivateTx → Decrypted
    decrypt_symmetric tx = elim (b.symmetric tx.ciphertext) [
      | none ↦ failed private_cipher
      | some pt ↦ decode_plain pt
    ]

    unfoldable pub open_by_mode : Config → Shares → PrivateTx → Shares × Decrypted
    open_by_mode c s tx =
        if c.mode == "threshold"
        then decrypt_threshold_ibe tx s
        else if c.mode == "batched"
        then decrypt_batched c tx s
        else (s, decrypt_symmetric tx)

    unfoldable pub blst_decrypt : Config → Shares → BlockHeader → Payload → Shares × Decrypted
    unfolding gated open_by_mode
    blst_decrypt c s = gated (λ d. (s, d)) (open_by_mode c s)

    -- `none` where `EnableBLSTDecrypt` returns an error.
    unfoldable pub enable_blst_decrypt : Config → Shares → Option Shares
    enable_blst_decrypt c s =
        if length c.group_pub_key == 0
        then none
        else if c.mode == "threshold"
        then (if (c.threshold == 0) || (c.index == 0) || not (length c.share == 32)
            then none
            else some (enable_threshold c.index c.threshold c.share s))
        else some s

    -- What can happen to a node that runs with one configuration: a share comes from the network, or
    -- a block is built and a payload is handed to the decrypter.
    unfoldable pub step : Config → Shares → Event → Shares
    unfolding blst_decrypt
    step c s (heard height index share) = handle_share height index share s
    step c s (asked hdr p) = (blst_decrypt c s hdr p).0

    -- The state after a log of events, newest first.
    unfoldable pub run : Config → Shares → List Event → Shares
    unfolding step
    run c s [] = s
    run c s (ev ∷ log) = step c (run c s log) ev
