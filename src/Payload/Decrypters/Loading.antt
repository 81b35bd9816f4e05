-- ===== src/Payload/Decrypters/Loading.antt =====
-- `LoadConfig` of internal/payload/private_v1/config.go: the configuration file and the checks on it.
-- Reading the file and decoding its JSON are arguments.
use aequa_network.Base.{
  ◌≡◌, refl, ◌∙◌, ap, sym, ◌||◌, ◌&&◌, not, Option, none, some, ◌==◌, string_eq, nat_eq, String,
  if◌then◌else◌, length, arith, Bool-cases, Option-cases, inl, inr,
}
use aequa_network.Payload.Threshold.{Bytes, Shares, Ibe}
use aequa_network.Payload.Decrypters.{Beast, Config, enable_blst_decrypt}
use aequa_network.Payload.Threshold.{enable_threshold}

-- The mode that an old file leaves out.
infer_mode : Config → Config
infer_mode c =
    if (c.mode == "") && (not (c.threshold == 0) || not (c.index == 0) || not (length c.share == 0))
    then record c { mode = "threshold" }
    else c

check_mode : Config → Option Config
check_mode c =
    if c.mode == "threshold"
    then (if (c.threshold == 0) || (c.index == 0) || not (length c.share == 32)
        then none
        else some c)
    else if c.mode == "batched"
    then (if (c.batch_n == 0) || (c.index == 0) || not (length c.share == 32) then none else some c)
    else some c

load_config : (String → Option Bytes) → (Bytes → Option Config) → String → Option Config
unfolding infer_mode check_mode
load_config read parse path = if path == "" then none else elim (read path) [
  | none ↦ none
  | some bs ↦ elim (parse bs) [
    | none ↦ none
    | some c ↦ if not (length c.group_pub_key == 48) then none else check_mode (infer_mode c)
  ]
]

infer_mode-group_pub_key : (c : Config) → (infer_mode c).group_pub_key ≡ c.group_pub_key
unfolding infer_mode
infer_mode-group_pub_key c = ground arith

module _ ⦃b : Beast⦄ ⦃i : Ibe⦄ where
  -- The decrypter takes what the checks let pass.
  enables :
      (c : Config) (s : Shares)
      → length c.group_pub_key ≡ 48
      → check_mode c ≡ some c
      → (t : Shares) × (enable_blst_decrypt c s ≡ some t)
  unfolding check_mode enable_blst_decrypt
  enables c s key h = elim (Bool-cases (length c.group_pub_key == 0)) [
    | inl k ↦ absurd (ground (arith, key, k))
    | inr k ↦ elim (Bool-cases (c.mode == "threshold")) [
      | inr m ↦ (s, rw (k, m) refl)
      | inl m ↦
          elim (Bool-cases ((c.threshold == 0) || (c.index == 0) || not (length c.share == 32))) [
            | inl g ↦ absurd (ground (arith, h, m, g))
            | inr g ↦ (enable_threshold c.index c.threshold c.share s, rw (k, m, g) refl)
          ]
    ]
  ]

check_mode-same : (c d : Config) → check_mode c ≡ some d → c ≡ d
unfolding check_mode
check_mode-same c d h = elim (Bool-cases (c.mode == "threshold")) [
  | inl m ↦ ground (arith, h, m)
  | inr m ↦ ground (arith, h, m)
]

-- A configuration that loads is one that the checks return unchanged, with a key of 48 bytes.
load_config-checked :
    (read : String → Option Bytes) (parse : Bytes → Option Config) (path : String) (c : Config)
    → load_config read parse path ≡ some c
    → (length c.group_pub_key ≡ 48) × (check_mode c ≡ some c)
unfolding load_config
load_config-checked read parse path c h = elim (Bool-cases (path == "")) [
  | inl p ↦ absurd (ground (arith, h, p))
  | inr p ↦ elim (Option-cases (read path)) [
    | inl r ↦ absurd (ground (arith, h, p, r))
    | inr (bs, r) ↦ elim (Option-cases (parse bs)) [
      | inl q ↦ absurd (ground (arith, h, p, r, q))
      | inr (raw, q) ↦ elim (Bool-cases (length raw.group_pub_key == 48)) [
        | inr k ↦ absurd (ground (arith, h, p, r, q, k))
        | inl k ↦
            let passed : check_mode (infer_mode raw) ≡ some c = ground (arith, h, p, r, q, k) in
            let same = check_mode-same (infer_mode raw) c passed in
            (
              sym (ap (λ d. length d.group_pub_key) same)
                  ∙ ap length (infer_mode-group_pub_key raw)
                  ∙ (nat_eq.same_iff (length raw.group_pub_key) 48).0 k,
              ap check_mode (sym same) ∙ passed,
            )
      ]
    ]
  ]
]

module _ ⦃b : Beast⦄ ⦃i : Ibe⦄ where
  -- A configuration that loads is one that the blst decrypter accepts, in every state.
  loaded_config_enables :
      (read : String → Option Bytes) (parse : Bytes → Option Config) (path : String) (c : Config)
      (s : Shares)
      → load_config read parse path ≡ some c
      → (t : Shares) × (enable_blst_decrypt c s ≡ some t)
  loaded_config_enables read parse path c s h =
      let (key, kept) = load_config-checked read parse path c h in enables c s key kept
