-- ===== src/Tests/Engine.antt =====
-- Runs of the engine of internal/tss/dkg/engine.go on fixed inputs.
use aequa_network.Base.{
  ℕ, ◌≡◌, refl, String, true, [], ◌∷◌, string_eq, nat_eq, lookup, insert, add_key, contains, length,
}
use aequa_network.Tss.Engine.{
  MessageType, ack, complaint, Message, Config, new_engine, new_session, session_of, take_ack,
  advance, catch_up, keep, on_message, run,
}

abbrev says : MessageType → ℕ → String → Message
says kind epoch sender = record { kind = kind; session_id = "s"; epoch = epoch; sender = sender }

abbrev two_acks : Config
two_acks = record { t = 2; store = true; sess = true }

-- The acks of two epochs end a session together.
mixed_epochs : (run two_acks (says ack 2 "b" ∷ says ack 1 "a" ∷ [])).1 ≡ "s" ∷ []
unfolding run new_engine new_session session_of take_ack advance catch_up keep on_message lookup
    insert add_key contains length
mixed_epochs = refl

-- After a complaint a session that has ended is not ended again.
once_after_complaint :
    (run two_acks (
      says ack 2 "b"
      ∷ says ack 2 "a"
      ∷ says complaint 1 "c"
      ∷ says ack 1 "b"
      ∷ says ack 1 "a"
      ∷ [])).1
    ≡ "s" ∷ []
unfolding run new_engine new_session session_of take_ack advance catch_up keep on_message lookup
    insert add_key contains length
once_after_complaint = refl
