-- ===== src/Payload/Decrypters/Batches.antt =====
-- The batched path never has more than the own share of a batch.
use aequa_network.Base.{
  ℕ, ◌≤◌, ◌≡◌, ◌⊎◌, refl, ◌∙◌, ap, sym, subst, Bool, true, false, ◌||◌, not, List, [], ◌∷◌, none,
  ltb, ◌==◌, string_eq, nat_eq, if◌then◌else◌, length, lookup, insert, lookup_or, arith, Bool-cases,
  Option-cases, inl, inr, lookup_or-insert, ==_self,
}
use aequa_network.Payload.Types.{PrivateTx, Payload, plaintext, auction, private}
use aequa_network.Payload.Builder.{
  BlockHeader, failed, DecryptError, private_not_ready, private_invalid, private_early,
}
use aequa_network.Payload.Threshold.{
  Bytes, Shares, Ibe, handle_share, put_share, record_batched, put_batched, batch_of, publish_once,
}
use aequa_network.Payload.Decrypters.{
  Beast, Config, Event, heard, asked, gated, decrypt_batched, offer_batched, combine_batch,
  open_by_mode, blst_decrypt, step, run,
}
use aequa_network.Payload.Decrypters.Release.{decrypt_batched-cases}

-- No share, or only that of the index `i`.
abbrev pub Alone : ℕ → List (ℕ × Bytes) → Type 0
Alone i m = (m ≡ []) ⊎ ((v : Bytes) × (m ≡ (i, v) ∷ []))

abbrev pub AllAlone : ℕ → Shares → Type 0
AllAlone i s = (height batch : ℕ) → Alone i (batch_of height batch s)

insert-Alone :
    (i : ℕ) (v : Bytes) (m : List (ℕ × Bytes))
    → lookup i m ≡ none
    → Alone i m
    → Alone i (insert i v m)
unfolding insert lookup
insert-Alone i v m new (inl h) = inr (v, ap (insert i v) h)
insert-Alone i v m new (inr (w, h)) = absurd (ground (arith, ap (lookup i) h, new, ==_self i))

-- A batch after a share entered a batch.
batch_of-put_batched :
    (height batch i : ℕ) (share : Bytes) (s : Shares) (h k : ℕ)
    → batch_of h k (put_batched height batch i share s) ≡ (
        if height == h
        then (if batch == k then insert i share (batch_of height batch s) else batch_of h k s)
        else batch_of h k s)
unfolding put_batched batch_of
batch_of-put_batched height batch i share s h k =
    let inner =
      insert batch (insert i share (batch_of height batch s)) (lookup_or [] height s.batches) in
    rw (lookup_or-insert [] height h inner s.batches) (elim (Bool-cases (height == h)) [
      | inr x ↦ rw x refl
      | inl x ↦ rw x (
          lookup_or-insert [] batch k (insert i share (batch_of height batch s))
            (lookup_or [] height s.batches)
          ∙ ap
              (λ z. if batch == k then insert i share (batch_of height batch s) else batch_of z k s)
              ((nat_eq.same_iff height h).0 x))
    ])

put_batched-AllAlone :
    (height batch i : ℕ) (share : Bytes) (s : Shares)
    → lookup i (batch_of height batch s) ≡ none
    → AllAlone i s
    → AllAlone i (put_batched height batch i share s)
put_batched-AllAlone height batch i share s new q h k =
    subst (Alone i) (sym (batch_of-put_batched height batch i share s h k))
      (elim (Bool-cases (height == h)) [
        | inr x ↦ rw x (q h k)
        | inl x ↦ elim (Bool-cases (batch == k)) [
          | inr y ↦ rw (x, y) (q h k)
          | inl y ↦ rw (x, y) (insert-Alone i share _ new (q height batch))
        ]
      ])

record_batched-AllAlone :
    (height batch i : ℕ) (share : Bytes) (s : Shares)
    → AllAlone i s
    → AllAlone i (record_batched height batch i share s)
unfolding record_batched
record_batched-AllAlone height batch i share s q =
    elim (Bool-cases ((height == 0) || (batch == 0) || (i == 0) || not (length share == 48))) [
      | inl g ↦ rw g q
      | inr g ↦ elim (Option-cases (lookup i (batch_of height batch s))) [
        | inr (v, o) ↦ rw (g, o) q
        | inl o ↦ rw (g, o) (put_batched-AllAlone height batch i share s o q)
      ]
    ]

publish_once-batch_of :
    (height index : ℕ) (share : Bytes) (s : Shares) (h k : ℕ)
    → batch_of h k (publish_once height index share s) ≡ batch_of h k s
unfolding publish_once batch_of
publish_once-batch_of height index share s h k = ground arith

handle_share-batch_of :
    (height index : ℕ) (share : Bytes) (s : Shares) (h k : ℕ)
    → batch_of h k (handle_share height index share s) ≡ batch_of h k s
unfolding handle_share put_share batch_of
handle_share-batch_of height index share s h k = ground arith

Alone-short : (i : ℕ) (m : List (ℕ × Bytes)) → Alone i m → length m ≤ 1
Alone-short i m (inl h) = omega (arith, ap length h)
Alone-short i m (inr (v, h)) = omega (arith, ap length h)

module _ ⦃b : Beast⦄ ⦃i : Ibe⦄ where
  offer_batched-AllAlone :
      (c : Config) (tx : PrivateTx) (own : Bytes) (s : Shares)
      → AllAlone c.index s
      → AllAlone c.index (offer_batched c tx own s)
  unfolding offer_batched
  offer_batched-AllAlone c tx own s q h k =
      let kept : Shares = record_batched tx.target_height tx.batch_index c.index own s in
      let alone = record_batched-AllAlone tx.target_height tx.batch_index c.index own s q h k in
      subst (Alone c.index) (sym (offered kept.enabled kept)) alone
    where
      offered :
          (e : Bool) (kept : Shares)
          → batch_of h k (if e then publish_once tx.target_height c.index own kept else kept)
            ≡ batch_of h k kept
      offered true kept = publish_once-batch_of tx.target_height c.index own kept h k
      offered false kept = refl

  -- Too few shares for the threshold.
  combine_batch-short :
      (c : Config) (tx : PrivateTx) (params : Bytes) (shared : List (ℕ × Bytes))
      → 2 ≤ c.threshold
      → length shared ≤ 1
      → combine_batch c tx params shared ≡ failed private_not_ready
  unfolding combine_batch
  combine_batch-short c tx params shared many short = ground (arith, many, short)

  open_by_mode-batched :
      (c : Config) (s : Shares) (tx : PrivateTx)
      → c.mode ≡ "batched"
      → open_by_mode c s tx ≡ decrypt_batched c tx s
  unfolding open_by_mode
  open_by_mode-batched c s tx h =
      let other : (c.mode == "threshold") ≡ false =
        subst (λ m. (m == "threshold") ≡ false) (sym h) refl in
      let same : (c.mode == "batched") ≡ true = subst (λ m. (m == "batched") ≡ true) (sym h) refl in
      ground (arith, other, same)

  -- What a call of the decrypter in batched mode does.
  blst_decrypt-batched :
      (c : Config) (s : Shares) (hdr : BlockHeader) (p : Payload)
      → c.mode ≡ "batched"
      → ((blst_decrypt c s hdr p).0 ≡ s)
        ⊎ ((tx : PrivateTx) × ((blst_decrypt c s hdr p).0 ≡ (decrypt_batched c tx s).0))
  unfolding blst_decrypt gated
  blst_decrypt-batched c s hdr (plaintext t) h = inl refl
  blst_decrypt-batched c s hdr (auction t) h = inl refl
  blst_decrypt-batched c s hdr (private tx) h = elim (Bool-cases (tx.target_height == 0)) [
    | inl k ↦ inl (rw k refl)
    | inr k ↦ elim (Bool-cases (ltb hdr.height tx.target_height)) [
      | inl l ↦ inl (rw (k, l) refl)
      | inr l ↦ inr (tx, rw (k, l) (ap (λ x. x.0) (open_by_mode-batched c s tx h)))
    ]
  ]

  decrypt_batched-AllAlone :
      (c : Config) (tx : PrivateTx) (s : Shares)
      → AllAlone c.index s
      → AllAlone c.index (decrypt_batched c tx s).0
  decrypt_batched-AllAlone c tx s q = elim (decrypt_batched-cases c tx s) [
    | inl (d, h) ↦ subst (AllAlone c.index) (sym (ap (λ x. x.0) h)) q
    | inr (params, own, h) ↦
        subst (AllAlone c.index) (sym (ap (λ x. x.0) h)) (offer_batched-AllAlone c tx own s q)
  ]

  run-AllAlone :
      (c : Config) (s : Shares) (log : List Event)
      → c.mode ≡ "batched"
      → AllAlone c.index s
      → AllAlone c.index (run c s log)
  unfolding run step
  run-AllAlone c s [] mode q h k = q h k
  run-AllAlone c s (heard height index share ∷ log) mode q h k =
      subst (Alone c.index) (sym (handle_share-batch_of height index share (run c s log) h k))
        (run-AllAlone c s log mode q h k)
  run-AllAlone c s (asked hdr p ∷ log) mode q h k =
      let before = run-AllAlone c s log mode q in
      let after : AllAlone c.index (blst_decrypt c (run c s log) hdr p).0 =
        elim (blst_decrypt-batched c (run c s log) hdr p mode) [
          | inl same ↦ subst (AllAlone c.index) (sym same) before
          | inr (tx, path) ↦
              subst (AllAlone c.index) (sym path)
                (decrypt_batched-AllAlone c tx (run c s log) before)
        ] in
      after h k

  decrypt_batched-closed :
      (c : Config) (tx : PrivateTx) (s : Shares)
      → 2 ≤ c.threshold
      → AllAlone c.index s
      → (d : DecryptError) × ((decrypt_batched c tx s).1 ≡ failed d)
  decrypt_batched-closed c tx s many q = elim (decrypt_batched-cases c tx s) [
    | inl (d, h) ↦ (d, ap (λ x. x.1) h)
    | inr (params, own, h) ↦ (
      private_not_ready,
      ap (λ x. x.1) h
          ∙ combine_batch-short c tx params _ many (
              Alone-short c.index _
                (offer_batched-AllAlone c tx own s q tx.target_height tx.batch_index)),
    )
  ]

  no_batches-AllAlone : (j : ℕ) (s : Shares) → s.batches ≡ [] → AllAlone j s
  unfolding batch_of lookup_or lookup
  no_batches-AllAlone j s h x y = inl (ground (arith, h))

  -- In batched mode with a threshold of two or more no private payload is ever decrypted: the shares
  -- that come from the network never enter a batch, so after any log of shares and blocks, from a
  -- state without batches, a call fails for every block and every private payload.
  pub batched_never_decrypts :
      (c : Config) (s : Shares) (log : List Event) (hdr : BlockHeader) (tx : PrivateTx)
      → c.mode ≡ "batched"
      → 2 ≤ c.threshold
      → s.batches ≡ []
      → (d : DecryptError) × ((blst_decrypt c (run c s log) hdr (private tx)).1 ≡ failed d)
  unfolding blst_decrypt gated
  batched_never_decrypts c s log hdr tx mode many empty =
      elim (Bool-cases (tx.target_height == 0)) [
        | inl k ↦ (private_invalid, rw k refl)
        | inr k ↦ elim (Bool-cases (ltb hdr.height tx.target_height)) [
          | inl l ↦ (private_early, rw (k, l) refl)
          | inr l ↦
              let (d, h) =
                decrypt_batched-closed c tx (run c s log) many
                  (run-AllAlone c s log mode (no_batches-AllAlone c.index s empty)) in
              (d, rw (k, l) (ap (λ x. x.1) (open_by_mode-batched c (run c s log) tx mode) ∙ h))
        ]
      ]
