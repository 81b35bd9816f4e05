-- ===== src/Qbft/Delivery.antt =====
-- The way of a message through the node: `Verify`, then `Process` if it is accepted
-- (internal/consensus/e2e_server_e2e.go, and the same pair of calls in the consensus service).
use aequa_network.Base.{
  ◌≡◌, ◌≢◌, ◌⊎◌, inl, inr, refl, subst, sym, ◌∙◌, String, List, [], ◌∷◌, Option, none, some,
  string_eq, Option-cases,
}
use aequa_network.Qbft.Message.{Message}
use aequa_network.Qbft.State.{State, initial, process}
use aequa_network.Qbft.State.Early.{Early, process-Early}
use aequa_network.Qbft.Verifier.{Verifier, AntiReplay, Rejection, type_eq, verify}
use aequa_network.Qbft.Verifier.Replays.{
  Recorded, Remembers, verify-Remembers, remembered_rejected, verify_keeps, accepted-Remembers,
}

pub record Node : Type 0 where
  pub verifier : Verifier
  pub state : State

unfoldable pub process_accepted : Option Rejection → State → Message → State
process_accepted none s m = (process s m).state
process_accepted (some e) s m = s

unfoldable pub deliver : Node → Message → Node
unfolding process_accepted
deliver n m =
    let (v, rejection) = verify n.verifier m in
    record { verifier = v; state = process_accepted rejection n.state m }

unfoldable pub deliver_all : Node → List Message → Node
deliver_all n [] = n
deliver_all n (m ∷ ms) = deliver_all (deliver n m) ms

-- Before any certificate, with the proposal's id among those that the replay guard keeps.
pub record Waits (n : Node) : Type 0 where
  pub by_id : n.verifier.replay_window ≡ 0
  pub guarded : n.verifier.replay ≢ none
  pub early : Early n.state.phase
  pub spent : (n.state.proposal_id ≡ "") ⊎ Recorded n.state.proposal_id n.verifier.replay

Recorded-of_spent :
    (id : String) (r : Option AntiReplay) → (id ≡ "") ⊎ Recorded id r → id ≢ "" → Recorded id r
Recorded-of_spent id r (inl e) h = absurd (h e)
Recorded-of_spent id r (inr e) h = e

-- An accepted message is not for the proposal that is held, if that has an id.
accepted_elsewhere :
    (n : Node) (m : Message)
    → Waits n
    → (verify n.verifier m).1 ≡ none
    → (n.state.proposal_id ≡ "") ⊎ (m.id ≢ n.state.proposal_id)
accepted_elsewhere n m w acc = other_id w.spent
  where
    other_id :
        (n.state.proposal_id ≡ "") ⊎ Recorded n.state.proposal_id n.verifier.replay
        → (n.state.proposal_id ≡ "") ⊎ (m.id ≢ n.state.proposal_id)
    other_id (inl e) = inl e
    other_id (inr r) = inr λ e.
        remembered_rejected n.verifier m
          (record {
            by_id = w.by_id;
            recorded = subst (λ x. Recorded x n.verifier.replay) (sym e) r;
          })
          acc

Recorded-later :
    (v : Verifier) (m : Message) (id : String)
    → v.replay_window ≡ 0
    → (id ≡ "") ⊎ Recorded id v.replay
    → (id ≡ "") ⊎ Recorded id (verify v m).0.replay
Recorded-later v m id w (inl e) = inl e
Recorded-later v m id w (inr r) =
    inr (verify-Remembers v m id (record { by_id = w; recorded = r })).recorded

spent_after :
    (v : Verifier) (m : Message) (old new : String)
    → v.replay_window ≡ 0
    → (old ≡ "") ⊎ Recorded old v.replay
    → Remembers m.id (verify v m).0
    → (new ≡ old) ⊎ (new ≡ "") ⊎ (new ≡ m.id)
    → (new ≡ "") ⊎ Recorded new (verify v m).0.replay
spent_after v m old new w s k (inl e) = rw e (Recorded-later v m old w s)
spent_after v m old new w s k (inr (inl e)) = inl e
spent_after v m old new w s k (inr (inr e)) = inr (rw e k.recorded)

deliver-Waits : (n : Node) (m : Message) → Waits n → Waits (deliver n m)
unfolding deliver
deliver-Waits n m w = elim (Option-cases (verify n.verifier m).1) [
  | inl acc ↦
      let (early, id) = process-Early n.state m w.early (accepted_elsewhere n m w acc) in
      let kept = accepted-Remembers n.verifier m w.by_id w.guarded acc in
      rw (acc, deliver)
        (record {
          by_id = (verify_keeps n.verifier m).0 ∙ w.by_id;
          guarded = (verify_keeps n.verifier m).1 w.guarded;
          early = early;
          spent = spent_after n.verifier m n.state.proposal_id _ w.by_id w.spent kept id;
        })
  | inr (e, rej) ↦
      rw (rej, deliver)
        (record {
          by_id = (verify_keeps n.verifier m).0 ∙ w.by_id;
          guarded = (verify_keeps n.verifier m).1 w.guarded;
          early = w.early;
          spent = Recorded-later n.verifier m n.state.proposal_id w.by_id w.spent;
        })
]

deliver_all-Waits : (n : Node) (ms : List Message) → Waits n → Waits (deliver_all n ms)
unfolding deliver_all
deliver_all-Waits n [] w = w
deliver_all-Waits n (m ∷ ms) w = deliver_all-Waits (deliver n m) ms (deliver-Waits n m w)

-- A node whose verifier guards against replays by id, as the default one does, and whose state
-- starts fresh never leaves the phases idle and preprepared, whatever messages are delivered: a
-- vote names the proposal by its id, which the guard spent on the proposal itself.
pub id_guard_blocks_votes :
    (l : String) (v : Verifier) (ms : List Message)
    → v.replay_window ≡ 0
    → v.replay ≢ none
    → Early (deliver_all (record { verifier = v; state = initial l }) ms).state.phase
id_guard_blocks_votes l v ms w g =
    (deliver_all-Waits (record { verifier = v; state = initial l }) ms
      (record { by_id = w; guarded = g; early = inl refl; spent = inl refl })).early
