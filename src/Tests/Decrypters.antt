-- ===== src/Tests/Decrypters.antt =====
-- Runs of the decrypters of internal/payload/private_v1 on fixed inputs: shares are bytes of the
-- right length, and a key is the first share of its height.
use aequa_network.Base.{
  ℕ, zero, suc, ◌≤◌, ◌≡◌, refl, String, true, List, [], ◌∷◌, none, some, arith, All, Distinct,
  contains, lookup, insert, lookup_or, string_eq, nat_eq,
}
use aequa_network.Payload.Types.{PrivateTx, private}
use aequa_network.Payload.Builder.{BlockHeader, DecryptError, failed}
use aequa_network.Payload.Threshold.{
  Bytes, Shares, Ibe, no_shares, enable_threshold, set_publisher, handle_share, put_share,
  record_local, publish_once, get_share, maybe_ensure_share, threshold_private_key,
}
use aequa_network.Payload.Decrypters.{
  Beast, Config, Envelope, opened, Event, heard, asked, blst_decrypt, step, run, gated,
  open_by_mode, decrypt_threshold_ibe,
}
use aequa_network.Payload.Decrypters.Release.{heights, run-Released}
use aequa_network.Payload.Decrypters.Batches.{batched_never_decrypts}

fill : ℕ → Bytes
fill zero = []
fill (suc n) = 7 ∷ fill n

instance abbrev toy_ibe : Ibe
unfolding fill
toy_ibe = record {
  identity_for_height = λ h. h ∷ [];
  derive_share = λ s id. some (fill 96);
  combine_shares = λ held k. some (fill 96);
}

abbrev pays : Envelope
pays = record {
  kind = "plaintext_v1";
  sender = "alice";
  nonce = 0;
  gas = 1;
  fee = 5;
  bid = 0;
  fee_recipient = "";
}

instance abbrev toy_beast : Beast
unfolding fill
toy_beast = record {
  unmarshal = λ b. some pays;
  symmetric = λ b. some b;
  ibe_decrypt = λ k e c. opened c;
  partial_decrypt = λ e s i. some (fill 48);
  decrypt_key = λ a b shared k. some (fill 48);
  setup = λ n k. some [];
  recover_prf = λ p g i k. some [];
  recover_xor = λ c p. c;
}

abbrev by_mode : String → Config
unfolding fill
by_mode mode = record {
  mode = mode;
  group_pub_key = fill 48;
  threshold = 2;
  index = 1;
  share = fill 32;
  batch_n = 8;
}

abbrev sealed : PrivateTx
unfolding fill
sealed = record {
  sender = "alice";
  nonce = 0;
  ciphertext = 1 ∷ [];
  ephemeral_key = fill 96;
  target_height = 5;
  batch_index = 1;
  punctured_key = fill 48;
  h = none;
}

abbrev block : ℕ → BlockHeader
block n = record { height = n; round = 0 }

abbrev holding : Shares
unfolding fill no_shares enable_threshold set_publisher
holding = set_publisher true (enable_threshold 1 2 (fill 32) no_shares)

-- The payload comes a block early, then in time, and once more after the share of another node.
abbrev history : List Event
unfolding fill
history =
    asked (block 6) (private sealed)
    ∷ heard 5 2 (fill 96)
    ∷ asked (block 5) (private sealed)
    ∷ asked (block 4) (private sealed)
    ∷ []

released_once : heights (run (by_mode "threshold") holding history).published ≡ 5 ∷ []
unfolding run step blst_decrypt gated open_by_mode decrypt_threshold_ibe maybe_ensure_share
    get_share record_local put_share publish_once threshold_private_key handle_share lookup insert
    lookup_or contains by_mode sealed holding history fill no_shares enable_threshold set_publisher
    toy_ibe toy_beast
released_once = refl

run-Released_example :
    Distinct (heights (run (by_mode "threshold") holding history).published)
    × All (λ p. p.height ≤ 6) (run (by_mode "threshold") holding history).published
unfolding holding no_shares enable_threshold set_publisher history
run-Released_example =
    run-Released 6 (by_mode "threshold") holding history refl refl
      (omega arith, (tt, (omega arith, (omega arith, tt))))

batched_never_decrypts_example :
    (d : DecryptError) × ((blst_decrypt
        (by_mode "batched")
        (run (by_mode "batched") holding history)
        (block 9)
        (private sealed)).1
      ≡ failed d)
unfolding holding no_shares enable_threshold set_publisher by_mode
batched_never_decrypts_example =
    batched_never_decrypts (by_mode "batched") holding history (block 9) sealed refl (omega arith)
      refl
