-- ===== src/Payload/Builder/Nodes.antt =====
-- The block does not depend on the order in which a node walks its maps.
use mathlib.Core.List.{Perm}
use mathlib.Core.List.Perm
use aequa_network.Base.{
  ℕ, ◌-◌, ◌≡◌, refl, sym, ◌∙◌, ap, inl, inr, String, false, ◌&&◌, List, [], ◌∷◌, ◌++◌, Option, none,
  some, ltb, ◌==◌, if◌then◌else◌, string_eq, nat_eq, length, lookup, arith, Bool-cases,
}
use aequa_network.Sorting.{sort_by}
use aequa_network.Sorting.Laws.{sort_by-perm, length-sort_by}
use aequa_network.Sorting.Members.{perm_pieces, length-perm}
use aequa_network.Payload.Types.{Digest, Payload, PlaintextTx, AuctionBidTx, plaintext, auction}
use aequa_network.Payload.NoncePool.{Pool, NonceTx, plaintext_tx, auction_tx, flatten, get, len}
use aequa_network.Payload.Container.{
  Container, Mempool, plaintexts, auctions, privates, MapOrder, pool_len, pool_get, get_every,
  get_all,
}
use aequa_network.Payload.Builder.{
  Env, BuilderPolicy, BlockHeader, Decrypted, clear, failed, passes, filter_candidates,
  decrypt_and_map, candidates, take_deterministic, select_types, prepare_by_types, prepare_proposal,
  max_of, window_of, no_stats,
}
use aequa_network.Payload.Builder.Parts.{prepared_by_types}
use aequa_network.Payload.Builder.Agreement.{DistinctHashes, take_deterministic_agree}

-- A walk over a map meets every entry once.
pub record Walks (o : MapOrder) : Type 0 where
  pub plaintext_walk : (m : List (String × List PlaintextTx)) → Perm (o.plaintext_order m) m
  pub auction_walk : (m : List (String × List AuctionBidTx)) → Perm (o.auction_order m) m

abbrev pub walked_by : Env → MapOrder → Env
walked_by env o = record env { map_order = o }

flatten-perm : {T : Type 0} {l r : List (String × List T)} → Perm l r → Perm (flatten l) (flatten r)
unfolding flatten
flatten-perm p = perm_pieces (λ e. e.1) flatten (λ e l. refl) p

module _ {T : Type 0} ⦃x : NonceTx T⦄ where
  get_everything :
      (p : Pool T) (order : List (String × List T))
      → Perm order p.pend_by_sender
      → Perm (get order (len p)) (flatten p.pend_by_sender)
  unfolding get len
  get_everything p order w =
      let less = λ (a b : T). ltb (x.key b) (x.key a) in
      let whole : ltb (length (flatten p.pend_by_sender)) (length (sort_by less (flatten order)))
          ≡ false =
        ground (arith, length-sort_by less (flatten order), length-perm (flatten-perm w)) in
      let enough : (ltb 0 (length (flatten p.pend_by_sender))
            && ltb (length (flatten p.pend_by_sender)) (length (sort_by less (flatten order))))
          ≡ false =
        ground arith in
      rw enough (Perm.trans (sort_by-perm less (flatten order)) (flatten-perm w))

module _ (o o' : MapOrder) (w : Walks o) (w' : Walks o') where
  pool_get-perm :
      (pool : Mempool) → Perm (pool_get o pool (pool_len pool)) (pool_get o' pool (pool_len pool))
  unfolding pool_get pool_len
  pool_get-perm (plaintexts p) = Perm.map plaintext (
      Perm.trans
        (get_everything p (o.plaintext_order p.pend_by_sender) (w.plaintext_walk p.pend_by_sender))
        (Perm.symm (
          get_everything p (o'.plaintext_order p.pend_by_sender)
            (w'.plaintext_walk p.pend_by_sender))))
  pool_get-perm (auctions p) = Perm.map auction (
      Perm.trans
        (get_everything p (o.auction_order p.pend_by_sender) (w.auction_walk p.pend_by_sender))
        (Perm.symm (
          get_everything p (o'.auction_order p.pend_by_sender) (w'.auction_walk p.pend_by_sender))))
  pool_get-perm (privates p) = Perm.rfl

  get_every-perm : (r : Option Mempool) → Perm (get_every o r) (get_every o' r)
  unfolding get_every
  get_every-perm none = Perm.rfl
  get_every-perm (some pool) = elim (Bool-cases (pool_len pool == 0)) [
    | inl e ↦ rw e Perm.rfl
    | inr e ↦ rw e (pool_get-perm pool)
  ]

  pub get_all-perm : (c : Container) (typ : String) → Perm (get_all o c typ) (get_all o' c typ)
  unfolding get_all
  get_all-perm c typ = get_every-perm (lookup typ c.impl)

module _ ⦃d : Digest⦄ where
  filter_candidates-perm :
      (env : Env) (c : Container) (typ : String) (pol : BuilderPolicy) {l r : List Payload}
      → Perm l r
      → Perm (filter_candidates env c typ pol l) (filter_candidates env c typ pol r)
  unfolding filter_candidates
  filter_candidates-perm env c typ pol p =
      perm_pieces (λ q. if passes env c typ pol q then q ∷ [] else [])
        (filter_candidates env c typ pol) (λ q l. ground arith) p

  clear_piece : Decrypted → List Payload
  clear_piece (clear p) = p ∷ []
  clear_piece (failed e) = []

  decrypt_and_map-perm :
      (dec : BlockHeader → Payload → Decrypted) (hdr : BlockHeader) {l r : List Payload}
      → Perm l r
      → Perm (decrypt_and_map dec hdr l) (decrypt_and_map dec hdr r)
  unfolding decrypt_and_map clear_piece
  decrypt_and_map-perm dec hdr p =
      perm_pieces (λ q. clear_piece (dec hdr q)) (decrypt_and_map dec hdr) (λ q l. ground arith) p

  select_types_agree :
      (cands cands' : String → List Payload) (max window : ℕ) (types : List String)
      (res : List Payload)
      → ((t : String) → DistinctHashes (cands t))
      → ((t : String) → Perm (cands t) (cands' t))
      → select_types cands max window types res ≡ select_types cands' max window types res
  unfolding select_types
  select_types_agree cands cands' max window [] res distinct same = refl
  select_types_agree cands cands' max window (t ∷ ts) res distinct same =
      let remain = max - length res in
      let need = if ltb remain window then remain else window in
      elim (Bool-cases (remain == 0)) [
        | inl e ↦ rw e refl
        | inr e ↦
            rw (e, take_deterministic_agree (cands t) (cands' t) need remain (distinct t) (same t))
              (select_types_agree cands cands' max window ts
                (res ++ take_deterministic (cands' t) need remain) distinct same)
      ]

  module _ (env : Env) (o : MapOrder) (c : Container) (hdr : BlockHeader)
      (pol : BuilderPolicy) where
    candidates-perm :
        (typ : String)
        → Walks env.map_order
        → Walks o
        → Perm (candidates env c hdr pol typ) (candidates (walked_by env o) c hdr pol typ)
    unfolding candidates
    candidates-perm typ w w' =
        let filtered =
          filter_candidates-perm env c typ pol (get_all-perm env.map_order o w w' c typ) in
        elim (Bool-cases (env.beast && typ == "private_v1")) [
          | inl e ↦ rw e (decrypt_and_map-perm env.decrypt hdr filtered)
          | inr e ↦ rw e filtered
        ]

    -- Without the DFBA switch, two nodes with the same pools, arrivals, clock and decrypter build the
    -- same block, whatever the orders are in which they walk the maps of their pools, provided that
    -- the hash tells the candidates of each type apart.
    pub nodes_agree :
        pol.use_dfba ≡ false
        → Walks env.map_order
        → Walks o
        → ((typ : String) → DistinctHashes (candidates env c hdr pol typ))
        → prepare_proposal env c hdr pol ≡ prepare_proposal (walked_by env o) c hdr pol
    unfolding prepare_by_types
    nodes_agree off w w' distinct =
        prepared_by_types env c hdr pol off
        ∙ ap (λ sel. record { header = hdr; items = sel; stats = no_stats })
            (select_types_agree (candidates env c hdr pol) (candidates (walked_by env o) c hdr pol)
              (max_of pol.max_n) (window_of pol.window (max_of pol.max_n)) pol.order [] distinct
              (λ typ. candidates-perm typ w w'))
        ∙ sym (prepared_by_types (walked_by env o) c hdr pol off)
