-- ===== src/Tss/Dkg/Exchange.antt =====
-- The share that a dealer sends is the share that the receiver holds.
pub mod Arrival
use aequa_network.Base.{
  ℕ, zero, suc, ◌+◌, ◌≡◌, ◌≢◌, refl, ◌∙◌, ap, sym, subst, Bool, true, false, ◌||◌, ◌&&◌, not, List,
  [], ◌∷◌, ◌++◌, Option, none, some, ◌==◌, nat_eq, string_eq, bytes_eq, if◌then◌else◌, arith,
  Bool-cases, Option-cases, inl, inr, length, lookup, insert, lookup-insert, lookup-insert_self,
  lookup_or-insert_self, contains-add_key_self, add_key, remove_key, lookup_or, contains, ==_self,
  ltb, String,
}
use mathlib.Core.Path.{ap₂}
use aequa_network.Store.{put_uint}
use aequa_network.Tss.Dkg.Curve.{Bytes, Curve, IsGroup, zeros}
use aequa_network.Tss.Dkg.Feldman.{
  Result, ok, err, is_empty, eval_poly_at, commitments_from_poly, verify_feldman_share, commit,
}
use aequa_network.Tss.Dkg.Feldman.Honest.{verify-commit}
use aequa_network.Tss.Dkg.Config.{Member, Config, member}
use aequa_network.Tss.Dkg.Runner.{
  Message, Crypto, Runner, Session, KeyShare, persist, entries_of, note, clear,
}
use aequa_network.Tss.Dkg.Sending.{
  message, sign_message, send, peer_of, derive_share_key, encrypt_share, decrypt_share, send_share,
  broadcast_ack, verify_sig,
}
use aequa_network.Tss.Dkg.Handlers.{fits, open_share, accept_share, judge_share, on_share}
use aequa_network.Tss.Dkg.Core.{core, persist-core, broadcast_ack-core}

module _ {S P : Type 0} (e : Crypto S P) where
  -- What the called packages document: what was sealed with a key and a nonce of the right lengths
  -- is opened with them, and a scalar is serialized to 32 bytes from which it is read back, unless it
  -- is zero, which `Deserialize` refuses.
  pub record IsSealed : Type 0 where
    pub opened :
        (key nonce pt : Bytes)
        → length key ≡ 32
        → length nonce ≡ e.nonce_size
        → e.unseal key nonce (e.seal key nonce pt) ≡ some pt
    pub sized : (n : ℕ) (nonce : Bytes) → e.rand_nonce n ≡ some nonce → length nonce ≡ e.nonce_size
    pub read :
        (s : S)
        → s ≢ e.curve.from_bendian (zeros 32)
        → e.curve.deserialize (e.curve.serialize s) ≡ some s
    pub short : (s : S) → length (e.curve.serialize s) ≡ 32

  pub decrypt-encrypt :
      IsSealed
      → (key pt nonce ct : Bytes) (draw : ℕ) → encrypt_share e key pt draw ≡ some (nonce, ct)
      → decrypt_share e key nonce ct ≡ some pt
  unfolding encrypt_share decrypt_share
  decrypt-encrypt q key pt nonce ct draw h = elim (Bool-cases (length key == 32)) [
    | inr long ↦ absurd (ground (arith, h, long))
    | inl fine ↦ elim (Option-cases (e.rand_nonce draw)) [
      | inl k ↦ absurd (ground (arith, h, fine, k))
      | inr (n, k) ↦ ground (arith, h, fine, k, q.opened key n pt, q.sized draw n)
    ]
  ]

  -- The key for a share, seen from one of its ends.
  derive_share_key-end :
      (r : Runner S) (from to peer : ℕ) (m : Member) (z : Bytes)
      → peer_of r.cfg.index from to ≡ peer
      → peer ≢ 0
      → member r.cfg.committee peer ≡ some m
      → length m.enc_pub ≡ 32
      → e.x25519 r.cfg.enc_priv m.enc_pub ≡ some z
      → derive_share_key e r from to
        ≡ some (
            e.sha256 (
              e.text_bytes "EQS/BEAST/DKG/v1"
              ++ z
              ++ e.text_bytes r.cfg.session_id
              ++ put_uint 8 r.epoch
              ++ put_uint 4 from
              ++ put_uint 4 to))
  unfolding derive_share_key
  derive_share_key-end r from to peer m z p nonzero known fine agreed =
      ground (arith, p, nonzero, known, fine, agreed)

  peer_of-from : (self to : ℕ) → self ≢ to → peer_of self self to ≡ to
  unfolding peer_of
  peer_of-from self to h = ground arith

  peer_of-to : (self from : ℕ) → self ≢ from → peer_of self from self ≡ from
  unfolding peer_of
  peer_of-to self from h = ground arith

  longer : {A : Type 0} (x : A) (xs : List A) → xs ≢ x ∷ xs
  longer x xs h = absurd (omega (arith, ap length h))

  sign_message-fields :
      (r : Runner S) (m signed : Message)
      → sign_message e r m ≡ some signed
      → (signed.from_index ≡ m.from_index)
        × (signed.nonce ≡ m.nonce)
        × (signed.ciphertext ≡ m.ciphertext)
  unfolding sign_message
  sign_message-fields r m signed h = ground arith

  send-fields :
      (r : Runner S) (m signed : Message)
      → (send e m r).sent ≡ signed ∷ r.sent
      → (signed.from_index ≡ m.from_index)
        × (signed.nonce ≡ m.nonce)
        × (signed.ciphertext ≡ m.ciphertext)
  unfolding send
  send-fields r m signed h = elim (Option-cases (sign_message e r m)) [
    | inl k ↦ absurd (longer signed r.sent (ground (arith, k, h)))
    | inr (x, k) ↦
        let head : x ≡ signed = ground (arith, k, h) in
        sign_message-fields r m signed (k ∙ ap some head)
  ]

  -- What a dealer has sent if it has sent a share.
  pub send_share-fields :
      (dealer : Runner S) (coeffs : List S) (i : ℕ) (share : S) (signed : Message)
      → eval_poly_at e.curve coeffs i ≡ ok share
      → (send_share e coeffs i dealer).sent ≡ signed ∷ dealer.sent
      → (key : Bytes) × (nonce : Bytes) × (ct : Bytes) × (derive_share_key e dealer dealer.cfg.index
            i
          ≡ some key)
        × (encrypt_share e key (e.curve.serialize share) dealer.draws ≡ some (nonce, ct))
        × (signed.from_index ≡ dealer.cfg.index)
        × (signed.nonce ≡ nonce)
        × (signed.ciphertext ≡ ct)
  unfolding send_share
  send_share-fields dealer coeffs i share signed v h =
      elim (Option-cases (derive_share_key e dealer dealer.cfg.index i)) [
        | inl k ↦ absurd (longer signed dealer.sent (ground (arith, v, k, h)))
        | inr (key, k) ↦
            elim (Option-cases (encrypt_share e key (e.curve.serialize share) dealer.draws)) [
              | inl c ↦ absurd (longer signed dealer.sent (ground (arith, v, k, c, h)))
              | inr ((nonce, ct), c) ↦
                  let (f, n, t) =
                    send-fields (record dealer { draws = dealer.draws + 1 })
                      (record (message dealer "share" i) { nonce = nonce; ciphertext = ct }) signed
                      (ground (arith, v, k, c, h)) in
                  (key, nonce, ct, k, c, f, n, t)
            ]
      ]

  -- Two members of one session and epoch that know each other's keys, and for whom X25519 gives the
  -- same secret `z` at both ends.
  pub record IsPaired (dealer receiver : Runner S) (m n : Member) (z : Bytes) : Type 0 where
    pub session : dealer.cfg.session_id ≡ receiver.cfg.session_id
    pub epoch : dealer.epoch ≡ receiver.epoch
    pub apart : dealer.cfg.index ≢ receiver.cfg.index
    pub dealer_seat : dealer.cfg.index ≢ 0
    pub receiver_seat : receiver.cfg.index ≢ 0
    pub receiver_known : member dealer.cfg.committee receiver.cfg.index ≡ some m
    pub dealer_known : member receiver.cfg.committee dealer.cfg.index ≡ some n
    pub receiver_key : length m.enc_pub ≡ 32
    pub dealer_key : length n.enc_pub ≡ 32
    pub sent_secret : e.x25519 dealer.cfg.enc_priv m.enc_pub ≡ some z
    pub read_secret : e.x25519 receiver.cfg.enc_priv n.enc_pub ≡ some z

  pub derive_share_key-agree :
      (dealer receiver : Runner S) (m n : Member) (z : Bytes)
      → IsPaired dealer receiver m n z
      → derive_share_key e dealer dealer.cfg.index receiver.cfg.index
        ≡ derive_share_key e receiver dealer.cfg.index receiver.cfg.index
  derive_share_key-agree dealer receiver m n z w =
      derive_share_key-end dealer dealer.cfg.index receiver.cfg.index receiver.cfg.index m z
        (peer_of-from dealer.cfg.index receiver.cfg.index w.apart) w.receiver_seat w.receiver_known
        w.receiver_key w.sent_secret
      ∙ ap
          (λ (x : String × ℕ). some (
            e.sha256 (
              e.text_bytes "EQS/BEAST/DKG/v1"
              ++ z
              ++ e.text_bytes x.0
              ++ put_uint 8 x.1
              ++ put_uint 4 dealer.cfg.index
              ++ put_uint 4 receiver.cfg.index)))
          (ap₂ (λ a b. (a, b)) w.session w.epoch)
      ∙ sym (
          derive_share_key-end receiver dealer.cfg.index receiver.cfg.index dealer.cfg.index n z
            (peer_of-to receiver.cfg.index dealer.cfg.index (λ x. w.apart (sym x))) w.dealer_seat
            w.dealer_known w.dealer_key w.read_secret)

  pub accept_share-shares :
      (m : Message) (s : S) (r : Runner S)
      → (lookup m.from_index (accept_share e m s r).shares ≡ some s)
        × (contains (entries_of m.from_index (accept_share e m s r).acks) r.cfg.index ≡ true)
  unfolding accept_share note
  accept_share-shares m s r =
      let held : Runner S = record r {
        pending_share = remove_key m.from_index r.pending_share;
        shares = insert m.from_index s r.shares;
      } in
      let saved = persist-core e held in
      let acked = broadcast_ack-core e m.from_index (persist e held) in
      (
        ap (λ x. lookup m.from_index x.shares) acked
            ∙ ap (λ x. lookup m.from_index x.shares) saved
            ∙ lookup-insert_self m.from_index s r.shares,
        ap (λ x. contains (entries_of m.from_index x.acks) r.cfg.index) acked
            ∙ ap
                (λ x.
                  contains
                    (entries_of m.from_index (
                      insert m.from_index (add_key x.cfg.index (entries_of m.from_index x.acks))
                        x.acks))
                    r.cfg.index)
                saved
            ∙ ap (λ x. contains x r.cfg.index)
                (lookup_or-insert_self [] m.from_index
                  (add_key r.cfg.index (entries_of m.from_index r.acks)) r.acks)
            ∙ contains-add_key_self r.cfg.index (entries_of m.from_index r.acks),
      )

  -- The handler on a share that opens and fits.
  pub on_share-accepts :
      (m : Message) (r : Runner S) (d : ℕ) (points : List Bytes) (key pt : Bytes) (s : S)
      → m.from_index ≡ d
      → contains r.bad_dealers d ≡ false
      → entries_of d r.commitments ≡ points
      → is_empty points ≡ false
      → lookup d r.shares ≡ none
      → derive_share_key e r d r.cfg.index ≡ some key
      → decrypt_share e key m.nonce m.ciphertext ≡ some pt
      → length pt ≡ 32
      → e.curve.deserialize pt ≡ some s
      → fits e s r.cfg.index points ≡ true
      → on_share e m r ≡ accept_share e m s r
  unfolding on_share judge_share open_share
  on_share-accepts m r d points key pt s whose good known filled new keyed opened sized read fit =
      ground (arith, whose, good, known, filled, new, keyed, opened, sized, read, fit)
