-- ===== src/Qbft/State/Idempotent.antt =====
-- A message that is delivered twice in a row.
use aequa_network.Base.{
  ◌≤◌, ◌≡◌, refl, ap, ◌⊎◌, inl, inr, Bool, true, [], some, arith, contains, add_key, string_eq,
  nat_eq, ==_self, lookup_or, lookup_or-insert_self, contains-add_key_self,
}
use aequa_network.Qbft.Message.{
  MsgType, Message, preprepare, prepare, commit, view_change, new_view, other,
}
use aequa_network.Qbft.State.{State, preprepared, voted, process, dispatch, coordinates}

-- A step that changes nothing, or reaches a state that it leaves alone, may be made twice.
settles :
    (f : State → State) (P : State → Type 0) (s : State)
    → ((t : State) → P t → f t ≡ t)
    → (f s ≡ s) ⊎ P (f s)
    → f (f s) ≡ f s
settles f P s fixed (inl e) = ap f e
settles f P s fixed (inr p) = fixed (f s) p

module _ (m : Message) where
  -- `dispatch` as a function of states.
  abbrev act : MsgType → State → State
  act t s = (dispatch s m t).state

  preprepare_fixed :
      (s : State)
      → (s.phase ≡ preprepared)
        × (s.proposal_id ≡ m.id)
        × (s.prepare_votes ≡ some [])
        × (s.commit_votes ≡ some [])
      → act preprepare s ≡ s
  unfolding dispatch
  preprepare_fixed s h = ground arith

  preprepare_lands :
      (s : State)
      → (act preprepare s ≡ s)
        ⊎ (((act preprepare s).phase ≡ preprepared)
            × ((act preprepare s).proposal_id ≡ m.id)
            × ((act preprepare s).prepare_votes ≡ some [])
            × ((act preprepare s).commit_votes ≡ some []))
  unfolding dispatch
  preprepare_lands s = ground arith

  prepare_fixed : (s : State) → voted s.prepare_votes m.sender ≡ true → act prepare s ≡ s
  unfolding dispatch
  prepare_fixed s h = ground arith

  prepare_lands :
      (s : State) → (act prepare s ≡ s) ⊎ (voted (act prepare s).prepare_votes m.sender ≡ true)
  unfolding dispatch contains
  prepare_lands s = ground (arith, ==_self m.sender)

  commit_fixed : (s : State) → voted s.commit_votes m.sender ≡ true → act commit s ≡ s
  unfolding dispatch
  commit_fixed s h = ground arith

  commit_lands :
      (s : State) → (act commit s ≡ s) ⊎ (voted (act commit s).commit_votes m.sender ≡ true)
  unfolding dispatch contains
  commit_lands s = ground (arith, ==_self m.sender)

  abbrev in_bucket : State → Bool
  in_bucket s = contains (lookup_or [] m.round s.view_votes) m.sender

  view_change_fixed : (s : State) → in_bucket s ≡ true → act view_change s ≡ s
  unfolding dispatch
  view_change_fixed s h = ground arith

  view_change_lands : (s : State) → (act view_change s ≡ s) ⊎ (in_bucket (act view_change s) ≡ true)
  unfolding dispatch
  view_change_lands s =
      let bucket = add_key m.sender (lookup_or [] m.round s.view_votes) in
      ground (
        arith,
        contains-add_key_self m.sender (lookup_or [] m.round s.view_votes),
        lookup_or-insert_self [] m.round bucket s.view_votes,
      )

  new_view_fixed : (s : State) → m.round ≤ s.round → act new_view s ≡ s
  unfolding dispatch
  new_view_fixed s h = ground arith

  new_view_lands : (s : State) → (act new_view s ≡ s) ⊎ (m.round ≤ (act new_view s).round)
  unfolding dispatch
  new_view_lands s = ground arith

  act_twice : (s : State) (t : MsgType) → act t (act t s) ≡ act t s
  unfolding dispatch
  act_twice s preprepare = settles (act preprepare) _ s preprepare_fixed (preprepare_lands s)
  act_twice s prepare = settles (act prepare) _ s prepare_fixed (prepare_lands s)
  act_twice s commit = settles (act commit) _ s commit_fixed (commit_lands s)
  act_twice s view_change = settles (act view_change) _ s view_change_fixed (view_change_lands s)
  act_twice s new_view = settles (act new_view) _ s new_view_fixed (new_view_lands s)
  act_twice s (other t) = refl

  -- A handler leaves the height alone, and the round too unless the message is about views.
  Aligned : MsgType → State → Type 0
  Aligned view_change s = s.height ≡ m.height
  Aligned new_view s = s.height ≡ m.height
  Aligned _ s = (s.height ≡ m.height) × (s.round ≡ m.round)

  coordinates-Aligned : (s : State) (t : MsgType) → Aligned t (coordinates s m t)
  unfolding Aligned coordinates
  coordinates-Aligned s view_change = refl
  coordinates-Aligned s new_view = refl
  coordinates-Aligned s _ = (refl, refl)

  act-Aligned : (s : State) (t : MsgType) → Aligned t s → Aligned t (act t s)
  unfolding Aligned dispatch
  act-Aligned s view_change a = ground arith
  act-Aligned s new_view a = ground arith
  act-Aligned s preprepare a = ground arith
  act-Aligned s prepare a = ground arith
  act-Aligned s commit a = ground arith
  act-Aligned s (other t) a = a

  coordinates_fixed : (s : State) (t : MsgType) → Aligned t s → coordinates s m t ≡ s
  unfolding Aligned coordinates
  coordinates_fixed s view_change a = ground arith
  coordinates_fixed s new_view a = ground arith
  coordinates_fixed s _ a = ground arith

-- Delivering the same message twice in a row leaves the state that the first delivery made,
-- whatever the message and the state are, and whether it is accepted or refused.
pub process_idempotent :
    (s : State) (m : Message) → (process (process s m).state m).state ≡ (process s m).state
unfolding process
process_idempotent s m =
    let t = coordinates s m m.type in
    rw
      (coordinates_fixed m (act m m.type t) m.type
        (act-Aligned m t m.type (coordinates-Aligned m s m.type)))
      (act_twice m t m.type)
