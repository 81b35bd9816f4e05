-- ===== src/Qbft/Message.antt =====
-- internal/consensus/qbft/message.go. A text type that is none of the five constants is `other`.
use aequa_network.Base.{ℕ, String, Bool, true, false, List}

pub data MsgType : Type 0 where
  preprepare prepare commit view_change new_view : MsgType
  other : String → MsgType

-- `trace_id` is only logged; `payload` and `sig` are byte slices.
pub record Message : Type 0 where
  pub sender : String
  pub height : ℕ
  pub round : ℕ
  pub type : MsgType
  pub payload : List ℕ
  pub id : String
  pub trace_id : String
  pub sig : List ℕ

abbrev pub is_prepare : MsgType → Bool
is_prepare prepare = true
is_prepare _ = false

abbrev pub is_commit : MsgType → Bool
is_commit commit = true
is_commit _ = false

abbrev pub is_preprepare : MsgType → Bool
is_preprepare preprepare = true
is_preprepare _ = false
