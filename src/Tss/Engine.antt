-- ===== src/Tss/Engine.antt =====
-- internal/tss/dkg/engine.go: the small engine that counts the phases of a session. A saved snapshot
-- has the fields of a session, its sets as lists of keys, so `saved` is a map of sessions as well;
-- saves succeed. `N`, which nothing reads, and the counters of metrics are left out.
pub mod Reports
use aequa_network.Base.{
  ℕ, ◌+◌, ◌^◌, ◌%◌, String, Bool, true, false, ◌&&◌, List, [], ◌∷◌, Option, none, some, ltb, leb,
  ◌==◌, if◌then◌else◌, string_eq, nat_eq, not, length, add_key, lookup, insert,
}

pub data MessageType : Type 0 where
  propose commit reveal ack complaint unknown : MessageType

pub record Message : Type 0 where
  pub kind : MessageType
  pub session_id : String
  pub epoch : ℕ
  pub sender : String

pub record Config : Type 0 where
  pub t : ℕ
  pub store : Bool
  pub sess : Bool

pub record Session : Type 0 where
  pub epoch : ℕ
  pub propose : List String
  pub commit : List String
  pub reveal : List String
  pub ack : List String
  pub done : Bool

-- `key_shares` counts the calls of `SaveKeyShare`.
pub record Engine : Type 0 where
  pub cfg : Config
  pub sessions : List (String × Session)
  pub saved : List (String × Session)
  pub key_shares : ℕ

-- A threshold that is not positive becomes 2.
unfoldable pub new_engine : Config → Engine
new_engine c = record {
  cfg = record c { t = if c.t == 0 then 2 else c.t };
  sessions = [];
  saved = [];
  key_shares = 0;
}

unfoldable pub new_session : ℕ → Session
new_session epoch = record {
  epoch = epoch;
  propose = [];
  commit = [];
  reveal = [];
  ack = [];
  done = false;
}

unfoldable pub session_of : Message → Engine → Session
unfolding new_session
session_of m e = elim (lookup m.session_id e.sessions) [ none ↦ new_session m.epoch | some s ↦ s ]

-- The case of an ack, where a session can come to its end.
unfoldable pub take_ack : ℕ → String → Session → Session × Bool
take_ack t sender s =
    let acks = add_key sender s.ack in
    if not s.done && leb t (length acks)
    then (record s { ack = acks; done = true }, true)
    else (record s { ack = acks }, false)

-- The switch on the type of the message.
unfoldable pub advance : ℕ → MessageType → String → Session → Session × Bool
unfolding take_ack
advance t propose sender s = (record s { propose = add_key sender s.propose }, false)
advance t commit sender s = (record s { commit = add_key sender s.commit }, false)
advance t reveal sender s = (record s { reveal = add_key sender s.reveal }, false)
advance t ack sender s = take_ack t sender s
advance t complaint sender s = (
  record s { epoch = (s.epoch + 1) % 2 ^ 64; propose = []; commit = []; reveal = []; ack = [] },
  false,
)
advance t unknown sender s = (s, false)

unfoldable pub catch_up : ℕ → Session → Session
catch_up epoch s = if ltb s.epoch epoch then record s { epoch = epoch } else s

-- The session enters the map, and a snapshot of it the store.
unfoldable pub keep : String → Session → Bool → Engine → Engine
keep id s advanced e = record e {
  sessions = insert id s e.sessions;
  saved = if e.cfg.sess then insert id s e.saved else e.saved;
  key_shares = if advanced && e.cfg.store then e.key_shares + 1 else e.key_shares;
}

unfoldable pub on_message : Message → Engine → Engine × Bool
unfolding advance catch_up keep session_of
on_message m e =
    let s = session_of m e in
    if ltb m.epoch s.epoch
    then (e, false)
    else let (s', advanced) = advance e.cfg.t m.kind m.sender (catch_up m.epoch s) in
      (keep m.session_id s' advanced e, advanced)

-- `none` is an error.
unfoldable pub resume : String → Engine → Option Engine
resume id e = if not e.cfg.sess then none else elim (lookup id e.saved) [
  | none ↦ none
  | some s ↦ some (record e { sessions = insert id s e.sessions })
]

-- The engine after a log of messages, newest first, and the sessions for which it returned true.
unfoldable pub run : Config → List Message → Engine × List String
unfolding new_engine on_message
run c [] = (new_engine c, [])
run c (m ∷ log) =
    let (e, ended) = run c log in
    let (e', advanced) = on_message m e in (e', if advanced then m.session_id ∷ ended else ended)
