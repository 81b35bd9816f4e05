-- ===== src/Tss/Engine/Reports.antt =====
-- When the engine reports the end of a session, and what a restart keeps.
use aequa_network.Base.{
  ℕ, ◌≡◌, refl, ◌∙◌, ap, sym, subst, String, Bool, true, false, ◌||◌, ◌&&◌, List, [], ◌∷◌, none,
  some, ltb, ◌==◌, if◌then◌else◌, string_eq, contains, Distinct, lookup, insert, lookup-insert,
  arith, Bool-cases, Option-cases, inl, inr,
}
use aequa_network.Tss.Engine.{
  MessageType, propose, commit, reveal, ack, complaint, unknown, Message, Config, Session, Engine,
  new_engine, new_session, session_of, take_ack, advance, catch_up, keep, on_message, resume, run,
}

unfoldable pub is_done : String → Engine → Bool
is_done id e = elim (lookup id e.sessions) [ none ↦ false | some s ↦ s.done ]

-- The ended sessions are those that are done, each once.
abbrev pub Reported : Engine × List String → Type 0
Reported (e, ended) = ((id : String) → contains ended id ≡ is_done id e) × Distinct ended

-- A session is done afterwards if it was or if this message ends it, and never both.
advance-done :
    (t : ℕ) (k : MessageType) (sender : String) (s : Session)
    → ((advance t k sender s).0.done ≡ s.done || (advance t k sender s).1)
      × ((s.done && (advance t k sender s).1) ≡ false)
unfolding advance take_ack
advance-done t propose sender s = ground arith
advance-done t commit sender s = ground arith
advance-done t reveal sender s = ground arith
advance-done t ack sender s = ground arith
advance-done t complaint sender s = ground arith
advance-done t unknown sender s = ground arith

catch_up-done : (epoch : ℕ) (s : Session) → (catch_up epoch s).done ≡ s.done
unfolding catch_up
catch_up-done epoch s = ground arith

session_of-done : (m : Message) (e : Engine) → (session_of m e).done ≡ is_done m.session_id e
unfolding session_of is_done new_session
session_of-done m e = ground arith

keep-done :
    (id j : String) (s : Session) (advanced : Bool) (e : Engine)
    → is_done j (keep id s advanced e) ≡ (if id == j then s.done else is_done j e)
unfolding keep is_done
keep-done id j s advanced e =
    ap (λ o. elim o [ none ↦ false | some v ↦ v.done ]) (lookup-insert id j s e.sessions)
    ∙ elim (Bool-cases (id == j)) [ inl k ↦ rw k refl | inr k ↦ rw k refl ]

-- Afterwards the session of the message is done as `r` says, another as before.
end_step :
    (same ended was now after old : Bool)
    → now ≡ was || ended
    → after ≡ (if same then now else old)
    → (same ≡ true → was ≡ old)
    → after ≡ (old || (same && ended))
end_step true ended was now after old r k h = k ∙ r ∙ ap (λ x. x || ended) (h refl)
end_step false ended was now after true r k h = k
end_step false ended was now after false r k h = k

-- What one message does to the end of each session.
on_message-done :
    (m : Message) (e : Engine) (j : String)
    → (is_done j (on_message m e).0 ≡ (is_done j e || ((m.session_id == j) && (on_message m e).1)))
      × ((is_done m.session_id e && (on_message m e).1) ≡ false)
unfolding on_message
on_message-done m e j = elim (Bool-cases (ltb m.epoch (session_of m e).epoch)) [
  | inl k ↦ rw k (ground arith)
  | inr k ↦
      let s = catch_up m.epoch (session_of m e) in
      let was = catch_up-done m.epoch (session_of m e) ∙ session_of-done m e in
      let r = advance-done e.cfg.t m.kind m.sender s in
      let kept =
        keep-done m.session_id j (advance e.cfg.t m.kind m.sender s).0
          (advance e.cfg.t m.kind m.sender s).1 e in
      rw k (
        end_step (m.session_id == j) (advance e.cfg.t m.kind m.sender s).1 s.done _ _ (is_done j e)
            r.0 kept (λ h. was ∙ ap (λ z. is_done z e) ((string_eq.same_iff m.session_id j).0 h)),
        subst (λ d. (d && (advance e.cfg.t m.kind m.sender s).1) ≡ false) was r.1,
      )
]

-- After any log the sessions for which the engine returned true are those that are done, and it
-- returned true once for each.
pub run-Reported : (c : Config) (log : List Message) → Reported (run c log)
unfolding run contains new_engine is_done lookup
run-Reported c [] = (λ id. refl, tt)
run-Reported c (m ∷ log) =
    let (same, once) = run-Reported c log in
    let e : Engine = (run c log).0 in
    elim (Bool-cases (on_message m e).1) [
      | inr k ↦ rw k (λ j. ground (arith, same j, (on_message-done m e j).0, k), once)
      | inl k ↦ rw k (
        λ j. ground (arith, same j, (on_message-done m e j).0, k),
        (ground (arith, same m.session_id, (on_message-done m e m.session_id).1, k), once),
      )
    ]

-- A session store is there, and the saved sessions are those in memory.
abbrev pub Mirrors : Engine → Type 0
Mirrors e = (e.cfg.sess ≡ true) × (e.saved ≡ e.sessions)

keep-Mirrors :
    (id : String) (s : Session) (advanced : Bool) (e : Engine)
    → Mirrors e
    → Mirrors (keep id s advanced e)
unfolding keep
keep-Mirrors id s advanced e (c, q) =
    (c, ap (λ b. if b then insert id s e.saved else e.saved) c ∙ ap (insert id s) q)

on_message-Mirrors : (m : Message) (e : Engine) → Mirrors e → Mirrors (on_message m e).0
unfolding on_message
on_message-Mirrors m e q = elim (Bool-cases (ltb m.epoch (session_of m e).epoch)) [
  | inl k ↦ rw k q
  | inr k ↦ rw k (
      keep-Mirrors m.session_id
        (advance e.cfg.t m.kind m.sender (catch_up m.epoch (session_of m e))).0
        (advance e.cfg.t m.kind m.sender (catch_up m.epoch (session_of m e))).1 e q)
]

run-Mirrors : (c : Config) (log : List Message) → c.sess ≡ true → Mirrors (run c log).0
unfolding run new_engine
run-Mirrors c [] h = (h, refl)
run-Mirrors c (m ∷ log) h = on_message-Mirrors m (run c log).0 (run-Mirrors c log h)

resume-same :
    (id j : String) (d e : Engine)
    → Mirrors d
    → resume id d ≡ some e
    → lookup j e.sessions ≡ lookup j d.sessions
unfolding resume
resume-same id j d e (c, q) r = elim (Option-cases (lookup id d.saved)) [
  | inl o ↦ absurd (ground (arith, r, o, c))
  | inr (s, o) ↦
      let new : record d { sessions = insert id s d.sessions } ≡ e = ground (arith, r, o, c) in
      ap (λ x. lookup j x.sessions) (sym new)
      ∙ lookup-insert id j s d.sessions
      ∙ elim (Bool-cases (id == j)) [
        | inr k ↦ rw k refl
        | inl k ↦ rw k (
            sym o
            ∙ ap (lookup id) q
            ∙ ap (λ z. lookup z d.sessions) ((string_eq.same_iff id j).0 k))
      ]
]

-- With a session store a session that is resumed, at any time, is as it was, and so are the others.
pub resumed_session_is_same :
    (c : Config) (log : List Message) (id j : String) (e : Engine)
    → c.sess ≡ true
    → resume id (run c log).0 ≡ some e
    → lookup j e.sessions ≡ lookup j (run c log).0.sessions
resumed_session_is_same c log id j e h r = resume-same id j (run c log).0 e (run-Mirrors c log h) r
