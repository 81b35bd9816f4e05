-- ===== src/Qbft/State.antt =====
-- internal/consensus/qbft/state.go: the QBFT state and `Process`. Log lines are left out; metric
-- increments are listed in the order in which the code makes them.
pub mod Early
pub mod Errors
pub mod Evidence
pub mod Idempotent
pub mod History
use aequa_network.Base.{
  ℕ, ◌+◌, ◌%◌, ◌^◌, String, Bool, true, false, ◌&&◌, ◌||◌, not, List, [], ◌∷◌, ◌++◌, Option, none,
  some, ltb, leb, ◌==◌, if◌then◌else◌, string_eq, nat_eq, length, contains, add_key, insert,
  lookup_or,
}
use aequa_network.Qbft.Message.{
  MsgType, Message, preprepare, prepare, commit, view_change, new_view, other,
}

-- The texts that the code assigns to `Phase`; `idle` is the empty text.
pub data Phase : Type 0 where
  idle preprepared prepared committed : Phase

-- `none` is a nil map: it reads as empty, and a write to it panics.
abbrev pub Votes : Type 0
Votes = Option (List String)

pub record State : Type 0 where
  pub height : ℕ
  pub round : ℕ
  pub phase : Phase
  pub leader : String
  pub proposal_id : String
  pub prepare_votes : Votes
  pub commit_votes : Votes
  pub view_votes : List (ℕ × List String)

pub data Error : Type 0 where
  unauthorized_leader prepare_before_preprepared commit_before_prepared proposal_mismatch : Error

pub data Verdict : Type 0 where
  accepted : Verdict
  refused : Error → Verdict
  panicked : Verdict

pub data Metric : Type 0 where
  msg_total state_transitions : MsgType → Metric
  qc_prepare qc_commit view_changes : Metric

pub record Outcome : Type 0 where
  pub state : State
  pub verdict : Verdict
  pub metrics : List Metric
  pub changed : Bool

-- The zero value `State{}` with a leader.
abbrev pub initial : String → State
initial l = record {
  height = 0;
  round = 0;
  phase = idle;
  leader = l;
  proposal_id = "";
  prepare_votes = none;
  commit_votes = none;
  view_votes = [];
}

voted : Votes → String → Bool
voted none f = false
voted (some vs) f = contains vs f

abbrev votes_len : Votes → ℕ
votes_len none = 0
votes_len (some vs) = length vs

-- An error return: the label `END` is not reached.
refuse : State → Message → Error → Outcome
refuse s m e = record {
  state = s;
  verdict = refused e;
  metrics = msg_total m.type ∷ [];
  changed = false;
}

-- The code from the label `END`, after the metrics of the transition itself.
finish : State → Message → Bool → List Metric → Outcome
finish s m changed built = record {
  state = s;
  verdict = accepted;
  metrics = (msg_total m.type ∷ built) ++ state_transitions m.type ∷ [];
  changed = changed;
}

panic : State → Message → Outcome
panic s m = record {
  state = s;
  verdict = panicked;
  metrics = msg_total m.type ∷ [];
  changed = false;
}

-- The height always follows the message; the round does unless the message is about views.
coordinates : State → Message → MsgType → State
coordinates s m view_change = record s { height = m.height }
coordinates s m new_view = record s { height = m.height }
coordinates s m _ = record s { height = m.height; round = m.round }

on_preprepare : State → Message → Outcome
unfolding refuse finish
on_preprepare s m =
    if not (s.leader == "") && not (m.sender == s.leader)
    then refuse s m unauthorized_leader
    else finish
        (record s {
          phase = preprepared;
          proposal_id = m.id;
          prepare_votes = some [];
          commit_votes = some [];
        })
        m true []

abbrev takes_prepare : Phase → Bool
takes_prepare preprepared = true
takes_prepare prepared = true
takes_prepare _ = false

abbrev is_preprepared : Phase → Bool
is_preprepared preprepared = true
is_preprepared _ = false

-- After a prepare vote is stored: two distinct votes build the prepare certificate.
count_prepare : State → Message → Outcome
unfolding finish
count_prepare s m =
    if is_preprepared s.phase && leb 2 (votes_len s.prepare_votes)
    then finish (record s { phase = prepared }) m true (qc_prepare ∷ [])
    else finish s m false []

store_prepare : State → Message → Votes → Outcome
unfolding panic count_prepare add_key
store_prepare s m none = panic s m
store_prepare s m (some vs) =
    count_prepare (record s { prepare_votes = some (add_key m.sender vs) }) m

on_prepare : State → Message → Outcome
unfolding refuse finish voted store_prepare
on_prepare s m =
    if s.proposal_id == "" || not (takes_prepare s.phase)
    then refuse s m prepare_before_preprepared
    else if not (m.id == s.proposal_id)
    then refuse s m proposal_mismatch
    else if voted s.prepare_votes m.sender
    then finish s m false []
    else store_prepare s m s.prepare_votes

abbrev takes_commit : Phase → Bool
takes_commit prepared = true
takes_commit committed = true
takes_commit _ = false

abbrev is_committed : Phase → Bool
is_committed committed = true
is_committed _ = false

count_commit : State → Message → Outcome
unfolding finish
count_commit s m =
    if not (is_committed s.phase) && leb 1 (votes_len s.commit_votes)
    then finish (record s { phase = committed }) m true (qc_commit ∷ [])
    else finish s m false []

store_commit : State → Message → Votes → Outcome
unfolding panic count_commit add_key
store_commit s m none = panic s m
store_commit s m (some vs) = count_commit (record s { commit_votes = some (add_key m.sender vs) }) m

on_commit : State → Message → Outcome
unfolding refuse finish voted store_commit
on_commit s m =
    if not (takes_commit s.phase)
    then refuse s m commit_before_prepared
    else if not (m.id == s.proposal_id)
    then refuse s m proposal_mismatch
    else if voted s.commit_votes m.sender
    then finish s m false []
    else store_commit s m s.commit_votes

-- The reset that both view messages make when they advance the round.
enter_round : State → ℕ → State
enter_round s r = record s {
  round = r;
  phase = idle;
  proposal_id = "";
  prepare_votes = none;
  commit_votes = none;
}

-- `s` already holds the bucket with the new vote.
count_view : State → Message → List String → Outcome
unfolding enter_round finish
count_view s m bucket =
    if leb 2 (length bucket) && ltb s.round m.round
    then finish (enter_round s m.round) m true (view_changes ∷ [])
    else finish s m false []

-- A missing bucket is created empty, and stays.
on_view_change : State → Message → Outcome
unfolding finish count_view add_key
on_view_change s m =
    let bucket = lookup_or [] m.round s.view_votes in
    if contains bucket m.sender
    then finish s m false []
    else let bucket' = add_key m.sender bucket in
      count_view (record s { view_votes = insert m.round bucket' s.view_votes }) m bucket'

on_new_view : State → Message → Outcome
unfolding enter_round finish
on_new_view s m =
    if ltb s.round m.round
    then finish (enter_round s m.round) m true (view_changes ∷ [])
    else finish s m false []

-- The `switch`; `s` has its coordinates set.
dispatch : State → Message → MsgType → Outcome
unfolding on_preprepare on_prepare on_commit on_view_change on_new_view finish
dispatch s m preprepare = on_preprepare s m
dispatch s m prepare = on_prepare s m
dispatch s m commit = on_commit s m
dispatch s m view_change = on_view_change s m
dispatch s m new_view = on_new_view s m
dispatch s m (other t) = finish s m false []

unfoldable pub process : State → Message → Outcome
unfolding dispatch coordinates
process s m = dispatch (coordinates s m m.type) m m.type

-- `OnTimeout`: the view-change message for the next round (`uint64`).
unfoldable pub on_timeout : State → Message
on_timeout s = record {
  sender = "self";
  height = s.height;
  round = (s.round + 1) % 2 ^ 64;
  type = view_change;
  payload = [];
  id = "vc";
  trace_id = "";
  sig = [];
}

unfoldable pub restore : State → ℕ → ℕ → State
restore s h r = record s { height = h; round = r }

-- The state after a log of processed messages, newest first.
unfoldable pub replay_log : State → List Message → State
replay_log s [] = s
replay_log s (m ∷ ms) = (process (replay_log s ms) m).state
