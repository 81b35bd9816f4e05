-- ===== src/Tss/Dkg/Sending.antt =====
-- internal/tss/dkg/beast_runner_blst.go: the messages that a node signs and broadcasts.
use aequa_network.Base.{
  ℕ, zero, suc, ◌+◌, String, Bool, false, ◌||◌, ◌&&◌, not, List, [], ◌∷◌, ◌++◌, Option, none, some,
  ◌==◌, string_eq, nat_eq, if◌then◌else◌, length, contains, ltb,
}
use aequa_network.Store.{put_uint}
use aequa_network.Tss.Dkg.Curve.{Bytes}
use aequa_network.Tss.Dkg.Feldman.{is_empty, eval_poly_at, ok, err}
use aequa_network.Tss.Dkg.Config.{member}
use aequa_network.Tss.Dkg.Runner.{Message, Crypto, Runner, entries_of, note, clear, persist}

-- The numbers from 1 to `n`.
unfoldable pub up_to_from : ℕ → ℕ → List ℕ
up_to_from start zero = []
up_to_from start (suc n) = start ∷ up_to_from (start + 1) n

abbrev pub seats : ℕ → List ℕ
seats n = up_to_from 1 n

module _ {S : Type 0} (r : Runner S) where
  -- A message of this node, with the fields that are not set left empty.
  abbrev pub message : String → ℕ → Message
  message kind to = record {
    session_id = r.cfg.session_id;
    epoch = r.epoch;
    kind = kind;
    from_index = r.cfg.index;
    to_index = to;
    commitments = [];
    nonce = [];
    ciphertext = [];
    share = [];
    sig = [];
  }

-- The other end of a share, or 0 where the own index is not exactly one of the two.
unfoldable pub peer_of : ℕ → ℕ → ℕ → ℕ
peer_of self from to =
    if (from == self) && not (to == self)
    then to
    else if (to == self) && not (from == self)
    then from
    else 0

module _ {S P : Type 0} (e : Crypto S P) where
  unfoldable pub sign_message : Runner S → Message → Option Message
  sign_message r m =
      if not (length r.cfg.sig_priv == 64) then none else elim (e.marshal (record m { sig = [] })) [
        | none ↦ none
        | some b ↦ some (record m { sig = e.ed_sign r.cfg.sig_priv b })
      ]

  -- `signMessage` and `BroadcastTSSDKG`, whose error is ignored.
  unfoldable pub send : Message → Runner S → Runner S
  send m r = elim (sign_message r m) [
    | none ↦ r
    | some signed ↦ record r { sent = signed ∷ r.sent }
  ]

  unfoldable pub verify_sig : Runner S → Message → Bool
  verify_sig r m = elim (member r.cfg.committee m.from_index) [
    | none ↦ false
    | some peer ↦
        if not (length peer.sig_pub == 32)
        then false
        else elim (e.marshal (record m { sig = [] })) [
          | none ↦ false
          | some b ↦ e.ed_verify peer.sig_pub b m.sig
        ]
  ]

  unfoldable pub derive_share_key : Runner S → ℕ → ℕ → Option Bytes
  unfolding peer_of
  derive_share_key r from to =
      let peer = peer_of r.cfg.index from to in
      if peer == 0 then none else elim (member r.cfg.committee peer) [
        | none ↦ none
        | some m ↦
            if not (length m.enc_pub == 32)
            then none
            else elim (e.x25519 r.cfg.enc_priv m.enc_pub) [
              | none ↦ none
              | some shared ↦ some (
                  e.sha256 (
                    e.text_bytes "EQS/BEAST/DKG/v1"
                    ++ shared
                    ++ e.text_bytes r.cfg.session_id
                    ++ put_uint 8 r.epoch
                    ++ put_uint 4 from
                    ++ put_uint 4 to))
            ]
      ]

  -- The nonce and the ciphertext; the draw is named by its number.
  unfoldable pub encrypt_share : Bytes → Bytes → ℕ → Option (Bytes × Bytes)
  encrypt_share key pt draw =
      if not (length key == 32)
      then none
      else elim (e.rand_nonce draw) [ none ↦ none | some nonce ↦ some (nonce, e.seal key nonce pt) ]

  unfoldable pub decrypt_share : Bytes → Bytes → Bytes → Option Bytes
  decrypt_share key nonce ct =
      if not (length key == 32) || not (length nonce == e.nonce_size)
      then none
      else e.unseal key nonce ct

  unfoldable pub broadcast_commitments : Runner S → Runner S
  unfolding send
  broadcast_commitments r =
      send (record (message r "commitments" 0) { commitments = r.self_commitments }) r

  -- The share for one receiver, sent if it can be computed and sealed.
  unfoldable pub send_share : List S → ℕ → Runner S → Runner S
  unfolding send encrypt_share derive_share_key
  send_share coeffs i r = elim (eval_poly_at e.curve coeffs i) [
    | err _ ↦ r
    | ok s ↦ elim (derive_share_key r r.cfg.index i) [
      | none ↦ r
      | some key ↦ elim (encrypt_share key (e.curve.serialize s) r.draws) [
        | none ↦ record r { draws = r.draws + 1 }
        | some (nonce, ct) ↦
            send (record (message r "share" i) { nonce = nonce; ciphertext = ct })
              (record r { draws = r.draws + 1 })
      ]
    ]
  ]

  -- The loop of `broadcastMissingShares`; `acks` are the nodes that acknowledged already.
  unfoldable pub send_shares : List S → List ℕ → List ℕ → Runner S → Runner S
  unfolding send_share
  send_shares coeffs acks [] r = r
  send_shares coeffs acks (i ∷ is) r = send_shares coeffs acks is (
      if (i == r.cfg.index) || contains acks i || is_empty coeffs then r else send_share coeffs i r)

  unfoldable pub broadcast_missing_shares : Runner S → Runner S
  unfolding send_shares
  broadcast_missing_shares r =
      send_shares r.coeffs (entries_of r.cfg.index r.acks) (seats r.cfg.n) r

  unfoldable pub broadcast_ack : ℕ → Runner S → Runner S
  unfolding send
  broadcast_ack dealer r =
      let noted = persist e (record r {
        acks = note dealer r.cfg.index r.acks;
        complaints = clear dealer r.cfg.index r.complaints;
      }) in
      send (message noted "ack" dealer) noted

  unfoldable pub broadcast_complaint : ℕ → Runner S → Runner S
  unfolding send
  broadcast_complaint dealer r =
      let noted = persist e (record r { complaints = note dealer r.cfg.index r.complaints }) in
      send (message noted "complaint" dealer) noted

  unfoldable pub broadcast_share_open : ℕ → Runner S → Runner S
  unfolding send
  broadcast_share_open to r =
      if (to == 0) || ltb r.cfg.n to || (to == r.cfg.index) || is_empty r.coeffs
      then r
      else elim (eval_poly_at e.curve r.coeffs to) [
        | err _ ↦ r
        | ok s ↦ send (record (message r "share_open" to) { share = e.curve.serialize s }) r
      ]
