-- ===== src/Payload/Threshold.antt =====
-- internal/payload/private_v1/threshold_state.go, threshold_share_blst.go, threshold_key_blst.go: the
-- shares of the committee for each height, and the key that they give. An `int` is a number, with 0
-- for all that is not positive. What the code calls of internal/beast/ibe is an interface here.
use aequa_network.Base.{
  ℕ, Bool, true, false, ◌||◌, ◌&&◌, not, List, [], ◌∷◌, Option, none, some, ltb, ◌==◌, nat_eq,
  if◌then◌else◌, length, contains, lookup, insert, lookup_or,
}

abbrev pub Bytes : Type 0
Bytes = List ℕ

-- A share, with its height and the index of its holder, as it was handed to the publisher.
pub record Publication : Type 0 where
  pub height : ℕ
  pub index : ℕ
  pub share : Bytes

-- The variables of the package. `publishing` is whether a publisher is set, `published` what it was
-- called with, newest first.
pub record Shares : Type 0 where
  pub enabled : Bool
  pub index : ℕ
  pub k : ℕ
  pub share : Bytes
  pub publishing : Bool
  pub by_height : List (ℕ × List (ℕ × Bytes))
  pub sent_heights : List ℕ
  pub priv_keys : List (ℕ × Bytes)
  pub batches : List (ℕ × List (ℕ × List (ℕ × Bytes)))
  pub published : List Publication

unfoldable pub no_shares : Shares
no_shares = record {
  enabled = false;
  index = 0;
  k = 0;
  share = [];
  publishing = false;
  by_height = [];
  sent_heights = [];
  priv_keys = [];
  batches = [];
  published = [];
}

unfoldable pub enable_threshold : ℕ → ℕ → Bytes → Shares → Shares
enable_threshold index k share s = record s { enabled = true; index = index; k = k; share = share }

unfoldable pub set_publisher : Bool → Shares → Shares
set_publisher publishing s = record s { publishing = publishing }

-- A share enters the map of its height.
unfoldable pub put_share : ℕ → ℕ → Bytes → Shares → Shares
put_share height index share s = record s {
  by_height = insert height (insert index share (lookup_or [] height s.by_height)) s.by_height;
}

-- The first share of an index stays.
unfoldable pub handle_share : ℕ → ℕ → Bytes → Shares → Shares
unfolding put_share
handle_share height index share s =
    if (height == 0) || (index == 0) || not (length share == 96)
    then s
    else elim (lookup index (lookup_or [] height s.by_height)) [
      | some _ ↦ s
      | none ↦ put_share height index share s
    ]

unfoldable pub record_local : ℕ → ℕ → Bytes → Shares → Shares
unfolding put_share
record_local height index share s = put_share height index share s

unfoldable pub batch_of : ℕ → ℕ → Shares → List (ℕ × Bytes)
batch_of height batch s = lookup_or [] batch (lookup_or [] height s.batches)

-- A share enters the map of its batch.
unfoldable pub put_batched : ℕ → ℕ → ℕ → Bytes → Shares → Shares
unfolding batch_of
put_batched height batch index share s = record s {
  batches =
      insert height
        (insert batch (insert index share (batch_of height batch s))
          (lookup_or [] height s.batches))
        s.batches;
}

unfoldable pub record_batched : ℕ → ℕ → ℕ → Bytes → Shares → Shares
unfolding put_batched
record_batched height batch index share s =
    if (height == 0) || (batch == 0) || (index == 0) || not (length share == 48)
    then s
    else elim (lookup index (batch_of height batch s)) [
      | some _ ↦ s
      | none ↦ put_batched height batch index share s
    ]

-- `pub != nil && markShareSent(height)`, then the call of the publisher.
unfoldable pub publish_once : ℕ → ℕ → Bytes → Shares → Shares
publish_once height index share s =
    if s.publishing && not (contains s.sent_heights height)
    then record s {
      sent_heights = height ∷ s.sent_heights;
      published = record { height = height; index = index; share = share } ∷ s.published;
    }
    else s

-- `getShare`; an empty share counts as none.
unfoldable pub get_share : ℕ → ℕ → Shares → Option Bytes
get_share height index s = elim (lookup index (lookup_or [] height s.by_height)) [
  | none ↦ none
  | some b ↦ if length b == 0 then none else some b
]

-- The part of internal/beast/ibe that is called.
pub record Ibe : Type 0 where
  pub identity_for_height : ℕ → Bytes
  pub derive_share : Bytes → Bytes → Option Bytes
  pub combine_shares : List (ℕ × Bytes) → ℕ → Option Bytes

module _ ⦃b : Ibe⦄ where
  unfoldable pub maybe_ensure_share : ℕ → Shares → Shares
  maybe_ensure_share height s =
      if (height == 0) || not s.enabled || (s.index == 0) || (length s.share == 0)
      then s
      else elim (get_share height s.index s) [
        | some own ↦ publish_once height s.index own s
        | none ↦ elim (b.derive_share s.share (b.identity_for_height height)) [
          | none ↦ s
          | some own ↦
              if length own == 0
              then s
              else publish_once height s.index own (record_local height s.index own s)
        ]
      ]

  -- The key of a height, if it is known or enough shares are there to combine.
  unfoldable pub threshold_private_key : ℕ → Shares → Shares × Option Bytes
  threshold_private_key height s =
      if height == 0
      then (s, none)
      else if not (length (lookup_or [] height s.priv_keys) == 0)
      then (s, some (lookup_or [] height s.priv_keys))
      else if not s.enabled || (s.k == 0)
      then (s, none)
      else let held = lookup_or [] height s.by_height in
        if ltb (length held) s.k then (s, none) else elim (b.combine_shares held s.k) [
          | none ↦ (s, none)
          | some key ↦
              if length key == 0
              then (s, none)
              else (record s { priv_keys = insert height key s.priv_keys }, some key)
        ]
