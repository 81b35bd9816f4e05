-- ===== src/Net/Wire.antt =====
-- internal/p2p/wire/message.go and internal/p2p/wire/tx.go: the forms in which messages and
-- transactions travel. The JSON encoding is left out.
use aequa_network.Base.{
  ℕ, ◌≡◌, refl, String, ◌||◌, List, [], Option, none, some, ◌==◌, if◌then◌else◌, string_eq, arith,
  eq_iff,
}
use aequa_network.Qbft.Message.{
  MsgType, Message, preprepare, prepare, commit, view_change, new_view, other,
}
use aequa_network.Payload.Types.{Payload, plaintext, auction, private, type_of}

pub record Qbft : Type 0 where
  pub id : String
  pub sender : String
  pub height : ℕ
  pub round : ℕ
  pub type : String
  pub payload : List ℕ
  pub trace_id : String
  pub sig : List ℕ

-- `string(msg.Type)` and `qbft.Type(w.Type)`: the texts of the five constants.
unfoldable pub type_text : MsgType → String
type_text preprepare = "preprepare"
type_text prepare = "prepare"
type_text commit = "commit"
type_text view_change = "view_change"
type_text new_view = "new_view"
type_text (other t) = t

unfoldable pub text_type : String → MsgType
text_type t =
    if t == "preprepare"
    then preprepare
    else if t == "prepare"
    then prepare
    else if t == "commit"
    then commit
    else if t == "view_change"
    then view_change
    else if t == "new_view"
    then new_view
    else other t

unfoldable pub from_internal : Message → Qbft
unfolding type_text
from_internal msg = record {
  id = msg.id;
  sender = msg.sender;
  height = msg.height;
  round = msg.round;
  type = type_text msg.type;
  payload = msg.payload;
  trace_id = msg.trace_id;
  sig = msg.sig;
}

unfoldable pub to_internal : Qbft → Message
unfolding text_type
to_internal w = record {
  id = w.id;
  sender = w.sender;
  height = w.height;
  round = w.round;
  type = text_type w.type;
  payload = w.payload;
  trace_id = w.trace_id;
  sig = w.sig;
}

type_text-text_type : (t : String) → type_text (text_type t) ≡ t
unfolding type_text text_type
type_text-text_type t = ground (
  arith,
  eq_iff t "preprepare",
  eq_iff t "prepare",
  eq_iff t "commit",
  eq_iff t "view_change",
  eq_iff t "new_view",
)

-- Every message in wire form survives the way in and out again, whatever the text of its type is.
pub from_internal-to_internal : (w : Qbft) → from_internal (to_internal w) ≡ w
unfolding from_internal to_internal
from_internal-to_internal w = rw (type_text-text_type w.type) refl

pub record TxEnvelope : Type 0 where
  pub type : String
  pub sender : String
  pub nonce : ℕ
  pub gas : ℕ
  pub fee : ℕ
  pub bid : ℕ
  pub fee_recipient : String
  pub ciphertext : List ℕ
  pub ephemeral_key : List ℕ
  pub target_height : ℕ
  pub batch_index : ℕ
  pub punctured_key : List ℕ
  pub sig : List ℕ

abbrev empty_envelope : TxEnvelope
empty_envelope = record {
  type = "";
  sender = "";
  nonce = 0;
  gas = 0;
  fee = 0;
  bid = 0;
  fee_recipient = "";
  ciphertext = [];
  ephemeral_key = [];
  target_height = 0;
  batch_index = 0;
  punctured_key = [];
  sig = [];
}

-- Each payload has the type that its case asks for, so the second result is always true.
unfoldable pub tx_from_internal : Payload → TxEnvelope
tx_from_internal (plaintext tx) = record empty_envelope {
  type = "plaintext_v1";
  sender = tx.sender;
  nonce = tx.nonce;
  gas = tx.gas;
  fee = tx.fee;
  sig = tx.sig;
}
tx_from_internal (auction tx) = record empty_envelope {
  type = "auction_bid_v1";
  sender = tx.sender;
  nonce = tx.nonce;
  gas = tx.gas;
  bid = tx.bid;
  fee_recipient = tx.fee_recipient;
  sig = tx.sig;
}
tx_from_internal (private tx) = record empty_envelope {
  type = "private_v1";
  sender = tx.sender;
  nonce = tx.nonce;
  ciphertext = tx.ciphertext;
  ephemeral_key = tx.ephemeral_key;
  target_height = tx.target_height;
  batch_index = tx.batch_index;
  punctured_key = tx.punctured_key;
}

-- An empty type is read as plaintext_v1; `none` is the nil payload.
unfoldable pub tx_to_internal : TxEnvelope → Option Payload
tx_to_internal w =
    if w.type == "" || w.type == "plaintext_v1"
    then some (
        plaintext (record {
          sender = w.sender;
          nonce = w.nonce;
          gas = w.gas;
          fee = w.fee;
          sig = w.sig;
          h = none;
        }))
    else if w.type == "auction_bid_v1"
    then some (
        auction (record {
          sender = w.sender;
          nonce = w.nonce;
          gas = w.gas;
          bid = w.bid;
          fee_recipient = w.fee_recipient;
          sig = w.sig;
          h = none;
        }))
    else if w.type == "private_v1"
    then some (
        private (record {
          sender = w.sender;
          nonce = w.nonce;
          ciphertext = w.ciphertext;
          ephemeral_key = w.ephemeral_key;
          target_height = w.target_height;
          batch_index = w.batch_index;
          punctured_key = w.punctured_key;
          h = none;
        }))
    else none

-- The payload without its cached hash.
unfoldable pub uncached : Payload → Payload
uncached (plaintext tx) = plaintext (record tx { h = none })
uncached (auction tx) = auction (record tx { h = none })
uncached (private tx) = private (record tx { h = none })

-- A transaction that travels in an envelope comes out with all its fields, of the same type, and
-- without the cached hash.
pub tx_to_internal-tx_from_internal :
    (p : Payload)
    → (tx_to_internal (tx_from_internal p) ≡ some (uncached p)) × (type_of (uncached p) ≡ type_of p)
unfolding tx_to_internal tx_from_internal uncached
tx_to_internal-tx_from_internal (plaintext tx) = (refl, refl)
tx_to_internal-tx_from_internal (auction tx) = (refl, refl)
tx_to_internal-tx_from_internal (private tx) = (refl, refl)
