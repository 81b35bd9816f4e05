-- ===== src/Payload/Builder.antt =====
-- internal/payload/builder.go: the deterministic selection of a block. Log lines and metrics are left out. An `int` limit is only tested for
-- being positive before it is used, so 0 stands for every value that is not.
pub mod Grouped
pub mod Selection
pub mod Acceptance
pub mod Agreement
pub mod Nodes
pub mod Parts
pub mod DualFlow
use aequa_network.Base.{
  ◌^◌, ◌%◌, ℕ, zero, suc, ◌+◌, ◌-◌, ◌*◌, String, Bool, true, false, ◌&&◌, ◌||◌, not, List, [], ◌∷◌,
  ◌++◌, Option, none, some, ltb, leb, ◌==◌, if◌then◌else◌, string_eq, nat_eq, length, take, map,
}
use aequa_network.Sorting.{sort_by}
use aequa_network.Dfba
use aequa_network.Dfba.{Item, solve}
use aequa_network.Payload.Types.{Digest, Payload, type_of, sort_key, hash_of}
use aequa_network.Payload.Container.{Container, MapOrder, ArrivalMeta, get_all, arrival}

pub record BuilderPolicy : Type 0 where
  pub order : List String
  pub max_n : ℕ
  pub budget_bytes : ℕ
  pub min_bid : ℕ
  pub min_fee : ℕ
  pub window : ℕ
  pub batch_ticks : ℕ
  pub use_dfba : Bool

pub record BlockHeader : Type 0 where
  pub height : ℕ
  pub round : ℕ

pub record BlockStats : Type 0 where
  pub total_fees : ℕ
  pub total_bids : ℕ
  pub items : ℕ

pub record StandardBlock : Type 0 where
  pub header : BlockHeader
  pub items : List Payload
  pub stats : BlockStats

abbrev pub no_stats : BlockStats
no_stats = record { total_fees = 0; total_bids = 0; items = 0 }

-- The errors of beast.go that a decrypter returns; `unknown` is any other, or a nil payload.
pub data DecryptError : Type 0 where
  private_invalid private_early private_not_ready private_cipher private_empty private_decode
        unknown :
      DecryptError

pub data Decrypted : Type 0 where
  clear : Payload → Decrypted
  failed : DecryptError → Decrypted

-- What the builder reads besides its arguments: the map order, the clock in nanoseconds, the
-- switch `AEQUA_ENABLE_BEAST` and the installed decrypter.
pub record Env : Type 0 where
  pub map_order : MapOrder
  pub now : ℕ
  pub beast : Bool
  pub decrypt : BlockHeader → Payload → Decrypted

-- The no-op decrypter, which the package installs by default.
abbrev pub noop_decrypt : BlockHeader → Payload → Decrypted
noop_decrypt hdr p = clear p

unfoldable pub max_of : ℕ → ℕ
max_of n = if n == 0 then 1024 else n

unfoldable pub window_of : ℕ → ℕ → ℕ
window_of window max = if window == 0 || ltb max window then max else window

-- Whether `belowThreshold` names a reason.
unfoldable pub below_threshold : String → Payload → BuilderPolicy → Bool
below_threshold typ p pol =
    if typ == "auction_bid_v1"
    then ltb 0 pol.min_bid && ltb (sort_key p) pol.min_bid
    else if typ == "plaintext_v1"
    then ltb 0 pol.min_fee && ltb (sort_key p) pol.min_fee
    else false

-- A product of two `int64`, with 0 where it wraps to a negative number.
abbrev to_duration : ℕ → ℕ
to_duration n = if ltb (n % 2 ^ 64) (2 ^ 63) then n % 2 ^ 64 else 0

-- Nanoseconds in `BatchTicks` milliseconds, as a `time.Duration`; only a positive one counts.
-- `BatchTicks` is not negative.
abbrev pub window_dur : BuilderPolicy → ℕ
window_dur pol = to_duration (pol.batch_ticks * 1_000_000)

-- `meta.TS.Before(now.Add(-windowDur))`.
abbrev pub is_late : ℕ → ℕ → Option ArrivalMeta → Bool
is_late now dur none = false
is_late now dur (some meta) = ltb (meta.ts + dur) now

-- The inner loops of the byte comparison, and the length test behind them.
unfoldable pub bytes_less : List ℕ → List ℕ → Bool
bytes_less [] [] = false
bytes_less [] (y ∷ ys) = true
bytes_less (x ∷ xs) [] = false
bytes_less (x ∷ xs) (y ∷ ys) = if x == y then bytes_less xs ys else ltb x y

decrypted : Decrypted → List Payload → List Payload
decrypted (clear p) out = p ∷ out
decrypted (failed e) out = out

unfoldable pub decrypt_and_map :
    (BlockHeader → Payload → Decrypted) → BlockHeader → List Payload → List Payload
unfolding decrypted
decrypt_and_map dec hdr [] = []
decrypt_and_map dec hdr (p ∷ ps) = decrypted (dec hdr p) (decrypt_and_map dec hdr ps)

module _ ⦃d : Digest⦄ where
  -- The comparison of `takeDeterministic`: sort key descending, then hash ascending.
  unfoldable pub comes_before : Payload → Payload → Bool
  unfolding bytes_less
  comes_before p q =
      if not (sort_key p == sort_key q)
      then ltb (sort_key q) (sort_key p)
      else bytes_less (hash_of p) (hash_of q)

  unfoldable pub take_deterministic : List Payload → ℕ → ℕ → List Payload
  take_deterministic cands need budget =
      let sorted = sort_by comes_before cands in
      let capped = if ltb budget need then budget else need in
      let n = if capped == 0 || ltb (length cands) capped then length cands else capped in
      take n sorted

  -- The test of one candidate in `filterByWindowAndThreshold`.
  unfoldable pub passes : Env → Container → String → BuilderPolicy → Payload → Bool
  unfolding below_threshold
  passes env c typ pol p =
      not (ltb 0 (window_dur pol) && is_late env.now (window_dur pol) (arrival c p))
      && not (below_threshold typ p pol)

  unfoldable pub filter_candidates :
      Env → Container → String → BuilderPolicy → List Payload → List Payload
  unfolding passes
  filter_candidates env c typ pol [] = []
  filter_candidates env c typ pol (p ∷ ps) =
      let rest = filter_candidates env c typ pol ps in
      if passes env c typ pol p then p ∷ rest else rest

  -- The candidates of one type that reach the selection.
  unfoldable pub candidates : Env → Container → BlockHeader → BuilderPolicy → String → List Payload
  unfolding filter_candidates decrypt_and_map
  candidates env c hdr pol typ =
      let filtered = filter_candidates env c typ pol (get_all env.map_order c typ) in
      if env.beast && typ == "private_v1"
      then decrypt_and_map env.decrypt hdr filtered
      else filtered

  -- The loop over the types; `remain` is always `max - len(res)`.
  unfoldable pub select_types :
      (String → List Payload) → ℕ → ℕ → List String → List Payload → List Payload
  unfolding take_deterministic
  select_types cands max window [] res = res
  select_types cands max window (typ ∷ types) res =
      let remain = max - length res in
      let need = if ltb remain window then remain else window in
      let rest =
        select_types cands max window types (res ++ take_deterministic (cands typ) need remain) in
      if remain == 0 then res else rest

  -- `PrepareProposal` without the DFBA switch.
  unfoldable pub prepare_by_types : Env → Container → BlockHeader → BuilderPolicy → StandardBlock
  unfolding select_types max_of window_of
  prepare_by_types env c hdr pol =
      let max = max_of pol.max_n in
      record {
        header = hdr;
        items = select_types (candidates env c hdr pol) max (window_of pol.window max) pol.order [];
        stats = no_stats;
      }

  abbrev pub as_item : String → Payload → Item Payload
  as_item typ p = record { payload = p; type = typ; key = sort_key p; hash = hash_of p }

  -- Every candidate, under the type whose pool it comes from.
  unfoldable pub dfba_items : (String → List Payload) → List String → List (Item Payload)
  dfba_items cands [] = []
  dfba_items cands (typ ∷ types) = map (as_item typ) (cands typ) ++ dfba_items cands types

  abbrev pub dfba_policy : BuilderPolicy → Dfba.Policy
  dfba_policy pol = record {
    order = pol.order;
    max_n = max_of pol.max_n;
    min_bid = pol.min_bid;
    min_fee = pol.min_fee;
    window = window_of pol.window (max_of pol.max_n);
    batch_ticks = pol.batch_ticks;
  }

  -- `prepareProposalDFBA`.
  unfoldable pub prepare_proposal_dfba :
      Env → Container → BlockHeader → BuilderPolicy → StandardBlock
  unfolding dfba_items
  prepare_proposal_dfba env c hdr pol =
      let out = solve (dfba_items (candidates env c hdr pol) pol.order) (dfba_policy pol) in
      record { header = hdr; items = map (λ it. it.payload) out; stats = no_stats }

  unfoldable pub prepare_proposal : Env → Container → BlockHeader → BuilderPolicy → StandardBlock
  unfolding prepare_proposal_dfba prepare_by_types
  prepare_proposal env c hdr pol =
      if pol.use_dfba then prepare_proposal_dfba env c hdr pol else prepare_by_types env c hdr pol
