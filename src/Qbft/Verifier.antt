-- ===== src/Qbft/Verifier.antt =====
-- internal/consensus/qbft/verifier.go: the basic verifier and its replay guards. A nil map reads as
-- an empty one. The `qbft_msg_verified_total` label is a function of the verdict (`label`).
pub mod Admission
pub mod Replays
use aequa_network.Base.{
  ℕ, ◌-◌, ◌≡◌, ◌↔◌, String, Bool, true, false, ◌&&◌, ◌||◌, not, List, [], ◌∷◌, Option, none, some,
  ltb, leb, ◌==◌, Eq, if◌then◌else◌, string_eq, nat_eq, length, contains, add_key, insert, lookup,
  lookup_or, arith, eq_iff,
}
use aequa_network.Qbft.Message.{
  MsgType, Message, preprepare, prepare, commit, view_change, new_view, other, is_preprepare,
  is_prepare, is_commit,
}

unfoldable pub type_beq : MsgType → MsgType → Bool
type_beq preprepare preprepare = true
type_beq prepare prepare = true
type_beq commit commit = true
type_beq view_change view_change = true
type_beq new_view new_view = true
type_beq (other s) (other t) = s == t
type_beq _ _ = false

pub type_beq_iff : (a b : MsgType) → (type_beq a b ≡ true) ↔ (a ≡ b)
unfolding type_beq
type_beq_iff (other s) (other t) = ground (arith, eq_iff s t)
type_beq_iff preprepare b = ground arith
type_beq_iff prepare b = ground arith
type_beq_iff commit b = ground arith
type_beq_iff view_change b = ground arith
type_beq_iff new_view b = ground arith
type_beq_iff _ _ = ground arith

instance abbrev pub type_eq : Eq MsgType
type_eq = record { same = type_beq; same_iff = type_beq_iff }

pub record AntiReplay : Type 0 where
  pub seen : List String
  pub h_seen : List (String × ℕ)

abbrev pub new_anti_replay : AntiReplay
new_anti_replay = record { seen = []; h_seen = [] }

-- `Seen`: the empty id is never recorded.
pub seen_id : AntiReplay → String → AntiReplay × Bool
seen_id r id =
    if id == ""
    then (r, false)
    else if contains r.seen id
    then (r, true)
    else (record r { seen = add_key id r.seen }, false)

within : Option ℕ → ℕ → ℕ → Bool
within none h window = false
within (some last) h window = leb last h && leb (h - last) window

-- `SeenWithin`: a height outside the window replaces the recorded one.
pub seen_within : AntiReplay → String → ℕ → ℕ → AntiReplay × Bool
unfolding within
seen_within r id h window =
    if id == "" || window == 0
    then (r, false)
    else if within (lookup id r.h_seen) h window
    then (r, true)
    else (record r { h_seen = insert id h r.h_seen }, false)

pub record Verifier : Type 0 where
  pub replay : Option AntiReplay
  pub min_height : ℕ
  pub round_window : ℕ
  pub allowed : List String
  pub replay_window : ℕ
  pub type_min_height : List (MsgType × ℕ)
  pub type_round_max : List (MsgType × ℕ)

pub record Policy : Type 0 where
  pub min_height : ℕ
  pub round_window : ℕ
  pub replay_window : ℕ
  pub type_min_height : List (MsgType × ℕ)
  pub type_round_max : List (MsgType × ℕ)
  pub allowed : List String

abbrev pub default_policy : Policy
default_policy = record {
  min_height = 0;
  round_window = 0;
  replay_window = 0;
  type_min_height = [];
  type_round_max = [];
  allowed = [];
}

abbrev pub new_basic_verifier : Verifier
new_basic_verifier = record {
  replay = some new_anti_replay;
  min_height = 0;
  round_window = 0;
  allowed = [];
  replay_window = 0;
  type_min_height = [];
  type_round_max = [];
}

add_all : List String → List String → List String
add_all [] set = set
add_all (id ∷ ids) set = add_all ids (add_key id set)

unfoldable pub set_allowed : Verifier → List String → Verifier
unfolding add_all
set_allowed v ids = record v { allowed = add_all ids v.allowed }

unfoldable pub set_type_min_height : Verifier → MsgType → ℕ → Verifier
set_type_min_height v t h = record v { type_min_height = insert t h v.type_min_height }

unfoldable pub set_type_round_max : Verifier → MsgType → ℕ → Verifier
set_type_round_max v t r = record v { type_round_max = insert t r v.type_round_max }

-- A field that is 0 or empty in the policy is 0 or empty in a new verifier anyway.
unfoldable pub new_with_policy : Policy → Verifier
unfolding set_allowed
new_with_policy p =
    set_allowed
      (record new_basic_verifier {
        min_height = p.min_height;
        round_window = p.round_window;
        replay_window = p.replay_window;
        type_min_height = p.type_min_height;
        type_round_max = p.type_round_max;
      })
      p.allowed

abbrev pub valid_type : MsgType → Bool
valid_type (other t) = false
valid_type _ = true

pub data Rejection : Type 0 where
  invalid unauthorized sig_invalid preprepare_round old_height round_oob replayed vote_round
        type_old type_round_oob :
      Rejection

-- The `result` label that each rejection counts under.
abbrev pub label : Rejection → String
label invalid = "error"
label unauthorized = "unauthorized"
label sig_invalid = "sig_invalid"
label preprepare_round = "error"
label old_height = "old"
label round_oob = "round_oob"
label replayed = "replay"
label vote_round = "error"
label type_old = "old"
label type_round_oob = "round_oob"

abbrev is_empty {ℓ} : {A : Type ℓ} → List A → Bool
is_empty [] = true
is_empty (x ∷ xs) = false

-- The checks above the replay guard; `none` goes on.
pub before_replay : Verifier → Message → Option Rejection
before_replay v m =
    if m.id == "" || m.sender == "" || not (valid_type m.type)
    then some invalid
    else if not (is_empty v.allowed) && not (contains v.allowed m.sender)
    then some unauthorized
    else if ltb 0 (length m.sig) && ltb (length m.sig) 32
    then some sig_invalid
    else if is_preprepare m.type && not (m.round == 0)
    then some preprepare_round
    else if ltb 0 v.min_height && ltb m.height v.min_height
    then some old_height
    else if ltb 0 v.round_window && ltb v.round_window m.round
    then some round_oob
    else none

-- The replay guard, with the record that it leaves behind.
pub guard_replay : Verifier → Message → Option AntiReplay → Verifier × Bool
unfolding seen_id seen_within
guard_replay v m none = (v, false)
guard_replay v m (some r) =
    let (r', hit) =
      if ltb 0 v.replay_window
      then seen_within r m.id m.height v.replay_window
      else seen_id r m.id in
    (record v { replay = some r' }, hit)

-- The checks below the replay guard.
pub after_replay : Verifier → Message → Option Rejection
after_replay v m =
    let min = lookup_or 0 m.type v.type_min_height in
    let max = lookup_or 0 m.type v.type_round_max in
    if is_preprepare m.type && not (m.round == 0)
    then some preprepare_round
    else if (is_prepare m.type || is_commit m.type) && ltb m.round 1
    then some vote_round
    else if ltb 0 min && ltb m.height min
    then some type_old
    else if ltb 0 max && ltb max m.round
    then some type_round_oob
    else none

after_guard : Message → Verifier × Bool → Verifier × Option Rejection
unfolding after_replay
after_guard m (v, hit) = if hit then (v, some replayed) else (v, after_replay v m)

-- `Verify`: `none` is acceptance.
unfoldable pub verify : Verifier → Message → Verifier × Option Rejection
unfolding before_replay guard_replay after_guard
verify v m = elim (before_replay v m) [
  | some e ↦ (v, some e)
  | none ↦ after_guard m (guard_replay v m v.replay)
]

-- The verifier after a run of messages, in the order of their arrival.
unfoldable pub verify_all : Verifier → List Message → Verifier
verify_all v [] = v
verify_all v (m ∷ ms) = verify_all (verify v m).0 ms
