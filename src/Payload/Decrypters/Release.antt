-- ===== src/Payload/Decrypters/Release.antt =====
-- When a node releases its share of a height.
use aequa_network.Base.{
  ℕ, ◌≤◌, ◌≡◌, refl, ap, sym, subst, ◌||◌, not, List, [], ◌∷◌, ltb, ◌==◌, string_eq, nat_eq, length,
  All, Distinct, arith, Bool-cases, Option-cases, inl, inr, ◌⊎◌, take,
}
use aequa_network.Payload.Types.{PrivateTx, Payload, plaintext, auction, private}
use aequa_network.Payload.Builder.{
  BlockHeader, failed, DecryptError, private_invalid, private_cipher,
}
use aequa_network.Payload.Threshold.{
  Bytes, Publication, Shares, Ibe, handle_share, put_share, record_local, record_batched,
  put_batched, batch_of, publish_once, maybe_ensure_share, threshold_private_key, get_share,
}
use aequa_network.Payload.Decrypters.{
  Beast, Config, Event, heard, asked, gated, decrypt_threshold_ibe, decrypt_batched, offer_batched,
  combine_batch, batched_fits, open_by_mode, blst_decrypt, step, run,
}

abbrev pub heights : List Publication → List ℕ
heights [] = []
heights (p ∷ ps) = p.height ∷ heights ps

-- Every height was published at most once, and none above `top`.
abbrev pub Released : ℕ → Shares → Type 0
Released top s =
    (heights s.published ≡ s.sent_heights)
    × Distinct (heights s.published)
    × All (λ p. p.height ≤ top) s.published

publish_once-Released :
    (top height index : ℕ) (share : Bytes) (s : Shares)
    → height ≤ top
    → Released top s
    → Released top (publish_once height index share s)
unfolding publish_once
publish_once-Released top height index share s low q = ground (arith, q, low)

handle_share-Released :
    (top height index : ℕ) (share : Bytes) (s : Shares)
    → Released top s
    → Released top (handle_share height index share s)
unfolding handle_share put_share
handle_share-Released top height index share s q = ground (arith, q)

record_batched-Released :
    (top height batch index : ℕ) (share : Bytes) (s : Shares)
    → Released top s
    → Released top (record_batched height batch index share s)
unfolding record_batched put_batched
record_batched-Released top height batch index share s q = ground (arith, q)

module _ ⦃b : Beast⦄ ⦃i : Ibe⦄ where
  ensure-Released :
      (top height : ℕ) (s : Shares)
      → height ≤ top
      → Released top s
      → Released top (maybe_ensure_share height s)
  unfolding maybe_ensure_share record_local put_share
  ensure-Released top height s low q =
      elim (Bool-cases
        ((height == 0) || not s.enabled || (s.index == 0) || (length s.share == 0))) [
          | inl k ↦ rw k q
          | inr k ↦ elim (Option-cases (get_share height s.index s)) [
            | inr (own, o) ↦ rw (k, o) (publish_once-Released top height s.index own s low q)
            | inl o ↦ elim (Option-cases (i.derive_share s.share (i.identity_for_height height))) [
              | inl d ↦ rw (k, o, d) q
              | inr (own, d) ↦ elim (Bool-cases (length own == 0)) [
                | inl z ↦ rw (k, o, d, z) q
                | inr z ↦
                    rw (k, o, d, z)
                      (publish_once-Released top height s.index own (put_share height s.index own s)
                        low q)
              ]
            ]
          ]
        ]

  key-Released :
      (top height : ℕ) (s : Shares)
      → Released top s
      → Released top (threshold_private_key height s).0
  unfolding threshold_private_key
  key-Released top height s q = ground (arith, q)

  threshold-Released :
      (top : ℕ) (tx : PrivateTx) (s : Shares)
      → tx.target_height ≤ top
      → Released top s
      → Released top (decrypt_threshold_ibe tx s).0
  unfolding decrypt_threshold_ibe
  threshold-Released top tx s low q =
      let ensured = ensure-Released top tx.target_height s low q in
      let keyed =
        key-Released top tx.target_height (maybe_ensure_share tx.target_height s) ensured in
      ground (arith, q, keyed)

  offer-Released :
      (top : ℕ) (c : Config) (tx : PrivateTx) (own : Bytes) (s : Shares)
      → tx.target_height ≤ top
      → Released top s
      → Released top (offer_batched c tx own s)
  unfolding offer_batched
  offer-Released top c tx own s low q =
      let kept = record_batched-Released top tx.target_height tx.batch_index c.index own s q in
      ground (
        arith,
        kept,
        publish_once-Released top tx.target_height c.index own
            (record_batched tx.target_height tx.batch_index c.index own s) low kept,
      )

  -- The batched path fails with the state as it was, or records and combines.
  pub decrypt_batched-cases :
      (c : Config) (tx : PrivateTx) (s : Shares)
      → ((d : DecryptError) × (decrypt_batched c tx s ≡ (s, failed d)))
        ⊎ ((params : Bytes) × (own : Bytes) × (decrypt_batched c tx s ≡ (
          offer_batched c tx own s,
          combine_batch c tx params
              (batch_of tx.target_height tx.batch_index (offer_batched c tx own s)),
        )))
  unfolding decrypt_batched
  decrypt_batched-cases c tx s = elim (Bool-cases (batched_fits c tx)) [
    | inr k ↦ inl (private_invalid, rw k refl)
    | inl k ↦ elim (Option-cases (b.setup c.batch_n c.group_pub_key)) [
      | inl p ↦ inl (private_cipher, rw (k, p) refl)
      | inr (params, p) ↦
          elim (Option-cases (b.partial_decrypt (take 48 tx.ephemeral_key) c.share c.index)) [
            | inl o ↦ inl (private_cipher, rw (k, p, o) refl)
            | inr (own, o) ↦ inr (params, own, rw (k, p, o) refl)
          ]
    ]
  ]

  batched-Released :
      (top : ℕ) (c : Config) (tx : PrivateTx) (s : Shares)
      → tx.target_height ≤ top
      → Released top s
      → Released top (decrypt_batched c tx s).0
  batched-Released top c tx s low q = elim (decrypt_batched-cases c tx s) [
    | inl (d, h) ↦ subst (Released top) (sym (ap (λ x. x.0) h)) q
    | inr (params, own, h) ↦
        subst (Released top) (sym (ap (λ x. x.0) h)) (offer-Released top c tx own s low q)
  ]

  mode-Released :
      (top : ℕ) (c : Config) (tx : PrivateTx) (s : Shares)
      → tx.target_height ≤ top
      → Released top s
      → Released top (open_by_mode c s tx).0
  unfolding open_by_mode
  mode-Released top c tx s low q = elim (Bool-cases (c.mode == "threshold")) [
    | inl k ↦ rw k (threshold-Released top tx s low q)
    | inr k ↦ elim (Bool-cases (c.mode == "batched")) [
      | inl l ↦ rw (k, l) (batched-Released top c tx s low q)
      | inr l ↦ rw (k, l) q
    ]
  ]

  blst-Released :
      (top : ℕ) (c : Config) (s : Shares) (hdr : BlockHeader) (p : Payload)
      → hdr.height ≤ top
      → Released top s
      → Released top (blst_decrypt c s hdr p).0
  unfolding blst_decrypt gated
  blst-Released top c s hdr (plaintext t) low q = q
  blst-Released top c s hdr (auction t) low q = q
  blst-Released top c s hdr (private tx) low q = elim (Bool-cases (tx.target_height == 0)) [
    | inl k ↦ rw k q
    | inr k ↦ elim (Bool-cases (ltb hdr.height tx.target_height)) [
      | inl l ↦ rw (k, l) q
      | inr l ↦ rw (k, l) (mode-Released top c tx s (ground (arith, l, low)) q)
    ]
  ]

  -- The blocks of a log are not above `top`.
  abbrev pub Below : ℕ → Event → Type 0
  Below top (heard height index share) = Unit
  Below top (asked hdr p) = hdr.height ≤ top

  -- A decrypter of any mode that starts with nothing published hands the publisher at most one share
  -- for each height, and none for a height above the highest block for which it was asked, whatever
  -- shares and payloads come in which order. The early release when a transaction enters the pool,
  -- which is off by default, is not part of this.
  pub run-Released :
      (top : ℕ) (c : Config) (s : Shares) (log : List Event)
      → s.published ≡ []
      → s.sent_heights ≡ []
      → All (Below top) log
      → Distinct (heights (run c s log).published)
        × All (λ p. p.height ≤ top) (run c s log).published
  unfolding run step
  run-Released top c s log none_published none_sent below = let q = keeps log below in (q.1, q.2)
    where
      keeps : (log : List Event) → All (Below top) log → Released top (run c s log)
      keeps [] h = ground (arith, none_published, none_sent)
      keeps (heard height index share ∷ log) h =
          handle_share-Released top height index share (run c s log) (keeps log h.1)
      keeps (asked hdr p ∷ log) h = blst-Released top c (run c s log) hdr p h.0 (keeps log h.1)
