-- ===== src/Tss/Dkg/Runner.antt =====
-- internal/tss/dkg/beast_runner_blst.go: the state of a node in the key generation, what it saves and
-- what it starts from. The wire message is internal/p2p/wire/tss_dkg.go, the saved session
-- internal/tss/dkg/beast_session_store.go. Epochs wrap at 2 ^ 64. A save of the session or of the key
-- share succeeds here, the code ignores its error; retry times are left out.
use aequa_network.Base.{
  ℕ, String, Bool, true, false, ◌&&◌, List, [], ◌∷◌, map, Option, none, some, ◌==◌, string_eq,
  nat_eq, if◌then◌else◌, length, add_key, lookup, insert, lookup_or, remove_key,
}
use aequa_network.Tss.Dkg.Curve.{Bytes, Curve}
use aequa_network.Tss.Dkg.Feldman.{is_empty, eval_poly_at, ok, err}
use aequa_network.Tss.Dkg.Config.{Config, validate}

pub record Message : Type 0 where
  pub session_id : String
  pub epoch : ℕ
  pub kind : String
  pub from_index : ℕ
  pub to_index : ℕ
  pub commitments : List Bytes
  pub nonce : Bytes
  pub ciphertext : Bytes
  pub share : Bytes
  pub sig : Bytes

-- What the code only calls: encoding/json, crypto/ed25519, X25519 of crypto/ecdh, crypto/sha256,
-- AES-GCM, and the random draws, each named by its number.
pub record Crypto (S P : Type 0) : Type 0 where
  pub curve : Curve S P
  pub marshal : Message → Option Bytes
  pub ed_sign : Bytes → Bytes → Bytes
  pub ed_verify : Bytes → Bytes → Bytes → Bool
  pub x25519 : Bytes → Bytes → Option Bytes
  pub sha256 : Bytes → Bytes
  pub text_bytes : String → Bytes
  pub nonce_size : ℕ
  pub seal : Bytes → Bytes → Bytes → Bytes
  pub unseal : Bytes → Bytes → Bytes → Option Bytes
  pub rand_scalar : ℕ → Option S
  pub rand_nonce : ℕ → Option Bytes

pub record DkgResult : Type 0 where
  pub index : ℕ
  pub threshold : ℕ
  pub group_pub_key : Bytes
  pub share_scalar : Bytes

pub record KeyShare : Type 0 where
  pub index : ℕ
  pub public_key : Bytes
  pub private_key : Bytes

-- `beastSessionState`.
pub record Session : Type 0 where
  pub epoch : ℕ
  pub coeffs : List Bytes
  pub self_commitments : List Bytes
  pub commitments : List (ℕ × List Bytes)
  pub shares : List (ℕ × Bytes)
  pub acks : List (ℕ × List ℕ)
  pub complaints : List (ℕ × List ℕ)
  pub disqualified : List ℕ
  pub done : Bool
  pub group_pub_key : Bytes
  pub share_scalar : Bytes

-- `saved` is what the session store holds, `key_share` what the key store holds, `sent` the
-- messages that were broadcast, newest first, and `draws` how often randomness was drawn.
pub record Runner (S : Type 0) : Type 0 where
  pub cfg : Config
  pub epoch : ℕ
  pub coeffs : List S
  pub self_commitments : List Bytes
  pub commitments : List (ℕ × List Bytes)
  pub shares : List (ℕ × S)
  pub pending_share : List (ℕ × Message)
  pub pending_open : List (ℕ × Message)
  pub acks : List (ℕ × List ℕ)
  pub complaints : List (ℕ × List ℕ)
  pub bad_dealers : List ℕ
  pub done : Bool
  pub finalizing : Bool
  pub result : DkgResult
  pub saved : Option Session
  pub key_share : Option KeyShare
  pub sent : List Message
  pub draws : ℕ

abbrev pub empty_result : DkgResult
empty_result = record { index = 0; threshold = 0; group_pub_key = []; share_scalar = [] }

-- The commitments, acks or complaints of a dealer; Go reads nil under a missing key.
abbrev pub entries_of {ℓ} : {A : Type ℓ} → ℕ → List (ℕ × List A) → List A
entries_of dealer m = lookup_or [] dealer m

-- `bucket[from] = struct{}{}`, with the bucket made where it is missing.
unfoldable pub note : ℕ → ℕ → List (ℕ × List ℕ) → List (ℕ × List ℕ)
note dealer from m = insert dealer (add_key from (entries_of dealer m)) m

unfoldable pub without : ℕ → List ℕ → List ℕ
without a [] = []
without a (x ∷ xs) = let rest = without a xs in if x == a then rest else x ∷ rest

-- A complaint is taken out of its bucket, and an empty bucket out of the map.
unfoldable pub clear : ℕ → ℕ → List (ℕ × List ℕ) → List (ℕ × List ℕ)
clear dealer from m = elim (lookup dealer m) [
  | none ↦ m
  | some bucket ↦
      let left = without from bucket in
      if is_empty left then remove_key dealer m else insert dealer left m
]

-- The loops of `restore` over the saved maps, onto the maps of the runner.
unfoldable pub restore_commitments :
    List (ℕ × List Bytes) → List (ℕ × List Bytes) → List (ℕ × List Bytes)
restore_commitments [] m = m
restore_commitments ((d, points) ∷ saved) m = restore_commitments saved (insert d points m)

unfoldable pub note_all : ℕ → List ℕ → List (ℕ × List ℕ) → List (ℕ × List ℕ)
note_all dealer [] m = m
note_all dealer (from ∷ froms) m = note_all dealer froms (note dealer from m)

unfoldable pub restore_sets : List (ℕ × List ℕ) → List (ℕ × List ℕ) → List (ℕ × List ℕ)
restore_sets [] m = m
restore_sets ((dealer, froms) ∷ saved) m = restore_sets saved (note_all dealer froms m)

unfoldable pub restore_bad : List ℕ → List ℕ → List ℕ
restore_bad [] bad = bad
restore_bad (d ∷ ds) bad = restore_bad ds (if d == 0 then bad else add_key d bad)

module _ {S : Type 0} where
  -- `NewBeastDKGRunner` with what the two stores hold; `none` where the configuration is refused.
  unfoldable pub new_runner : Config → Option Session → Option KeyShare → Option (Runner S)
  new_runner c saved key_share = elim (validate c) [
    | some _ ↦ none
    | none ↦ some (record {
      cfg = c;
      epoch = if c.epoch == 0 then 1 else c.epoch;
      coeffs = [];
      self_commitments = [];
      commitments = [];
      shares = [];
      pending_share = [];
      pending_open = [];
      acks = [];
      complaints = [];
      bad_dealers = [];
      done = false;
      finalizing = false;
      result = empty_result;
      saved = saved;
      key_share = key_share;
      sent = [];
      draws = 0;
    })
  ]

  unfoldable pub reset_for_epoch : ℕ → Runner S → Runner S
  reset_for_epoch epoch r = record r {
    epoch = epoch;
    coeffs = [];
    self_commitments = [];
    commitments = [];
    shares = [];
    pending_share = [];
    pending_open = [];
    acks = [];
    complaints = [];
    bad_dealers = [];
    done = false;
    finalizing = false;
    result = empty_result;
  }

module _ {S P : Type 0} (e : Crypto S P) where
  -- `scalarsToBytes` and `cloneScalarMap`.
  unfoldable pub scalar_map : List (ℕ × S) → List (ℕ × Bytes)
  scalar_map [] = []
  scalar_map ((k, v) ∷ m) = (k, e.curve.serialize v) ∷ scalar_map m

  unfoldable pub snapshot : Runner S → Session
  unfolding scalar_map
  snapshot r = record {
    epoch = r.epoch;
    coeffs = map e.curve.serialize r.coeffs;
    self_commitments = r.self_commitments;
    commitments = r.commitments;
    shares = scalar_map r.shares;
    acks = r.acks;
    complaints = r.complaints;
    disqualified = r.bad_dealers;
    done = r.done;
    group_pub_key = r.result.group_pub_key;
    share_scalar = r.result.share_scalar;
  }

  -- `persistLocked`: without a session directory there is no session store.
  unfoldable pub persist : Runner S → Runner S
  unfolding snapshot
  persist r = if r.cfg.session_dir == "" then r else record r { saved = some (snapshot r) }

  -- The scalars of the saved coefficients; `none` where one cannot be read.
  unfoldable pub read_scalars : List Bytes → Option (List S)
  read_scalars [] = some []
  read_scalars (b ∷ bs) = elim (e.curve.deserialize b) [
    | none ↦ none
    | some s ↦ elim (read_scalars bs) [ none ↦ none | some rest ↦ some (s ∷ rest) ]
  ]

  -- The loop of `restore` over the saved shares; one that cannot be read is left out.
  unfoldable pub restore_shares : List (ℕ × Bytes) → List (ℕ × S) → List (ℕ × S)
  restore_shares [] m = m
  restore_shares ((d, b) ∷ saved) m =
      restore_shares saved (elim (e.curve.deserialize b) [ none ↦ m | some s ↦ insert d s m ])

  -- `restore` after the epoch and the coefficients.
  restore_rest : Session → Runner S → Runner S
  unfolding restore_commitments restore_shares restore_sets restore_bad
  restore_rest st r =
      let own = if is_empty st.self_commitments then r else record r {
        self_commitments = st.self_commitments;
        commitments = insert r.cfg.index st.self_commitments r.commitments;
      } in
      let gossip = record own {
        commitments = restore_commitments st.commitments own.commitments;
        shares = restore_shares st.shares own.shares;
        acks = restore_sets st.acks own.acks;
        complaints = restore_sets st.complaints own.complaints;
        bad_dealers = restore_bad st.disqualified own.bad_dealers;
      } in
      if is_empty gossip.coeffs then gossip else elim (lookup gossip.cfg.index gossip.shares) [
        | some _ ↦ gossip
        | none ↦ elim (eval_poly_at e.curve gossip.coeffs gossip.cfg.index) [
          | ok s ↦ record gossip { shares = insert gossip.cfg.index s gossip.shares }
          | err _ ↦ gossip
        ]
      ]

  unfoldable pub restore : Session → Runner S → Runner S
  unfolding restore_rest read_scalars
  restore st r =
      if st.epoch == 0
      then r
      else if st.done && (length st.share_scalar == 32)
      then record r {
        epoch = st.epoch;
        done = true;
        result = record {
          index = r.cfg.index;
          threshold = r.cfg.threshold;
          group_pub_key = st.group_pub_key;
          share_scalar = st.share_scalar;
        };
      }
      else elim (read_scalars st.coeffs) [
        | none ↦ record r { epoch = st.epoch }
        | some coeffs ↦
            restore_rest st
              (record r { epoch = st.epoch; coeffs = if is_empty coeffs then r.coeffs else coeffs })
      ]
