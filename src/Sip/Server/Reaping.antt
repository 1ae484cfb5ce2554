-- ===== src/Sip/Server/Reaping.antt =====
-- sip/server.go: what the endings of calls leave in the table and at the modem.
use dontmove_kit.Prelude.{
  ◌≡◌, refl, sym, true, List, [], ◌∷◌, arith, inl, inr, Bool-cases, any-append, any, All,
}
use mathlib.Core.Path.{subst}
use dontmove_kit.Text.{text_eq}
use dontmove_kit.Text.Laws.{text_eq_refl, text_eq_sym}
use dontmove_kit.Calls.{Control, ActiveCall}
use dontmove_kit.Calls
use dontmove_kit.Sip.Session.{Session}
use dontmove_kit.Sip.Server.{Env, delete, modify, claim_session, is_live}
use dontmove_kit.Sip.Server.Table.{claim_wins, claim_session_once}
use dontmove_kit.Sip.Server.Ending.{
  Server, hung, hangup_session, reap_sessions, reap_stale_sessions, maybe_reap_ghosts,
}

-- Whether the table has a session under the id of each of these.
abbrev Covers : List Session → List Session → Type 0
Covers todo sessions = All (λ t. any (λ s. text_eq s.id t.id) todo ≡ true) sessions

pub delete-modify :
    (s : Session) (sessions : List Session)
    → delete s.id (modify (hung s) sessions) ≡ delete s.id sessions
unfolding delete modify
delete-modify s [] = refl
delete-modify s (t ∷ rest) = ground (arith, delete-modify s rest, text_eq_refl s.id)

pub modify_deleted :
    (s : Session) (sessions : List Session)
    → modify (hung s) (delete s.id sessions) ≡ delete s.id sessions
unfolding delete modify
modify_deleted s [] = refl
modify_deleted s (t ∷ rest) = ground (arith, modify_deleted s rest)

Covers-delete :
    (s : Session) (todo sessions : List Session)
    → Covers (s ∷ todo) sessions
    → Covers todo (delete s.id sessions)
unfolding delete
Covers-delete s todo [] h = tt
Covers-delete s todo (t ∷ rest) h = elim (Bool-cases (text_eq t.id s.id)) [
  | inl e ↦ rw e (Covers-delete s todo rest h.1)
  | inr e ↦ rw e (ground (arith, text_eq_sym s.id t.id), Covers-delete s todo rest h.1)
]

Covers-more :
    (s : Session) (todo sessions : List Session) → Covers todo sessions → Covers (s ∷ todo) sessions
Covers-more s todo [] h = tt
Covers-more s todo (t ∷ rest) h = (ground arith, Covers-more s todo rest h.1)

Covers-refl : (sessions : List Session) → Covers sessions sessions
Covers-refl [] = tt
Covers-refl (s ∷ rest) =
    (ground (arith, text_eq_refl s.id), Covers-more s rest rest (Covers-refl rest))

Covers-none : (sessions : List Session) → Covers [] sessions → sessions ≡ []
Covers-none [] h = refl
Covers-none (s ∷ rest) h = ground arith

module _ {control : Control} ⦃env : Env⦄ where
  reap_sessions_clears :
      (todo : List Session) (srv : Server control)
      → Covers todo srv.sessions
      → ((reap_sessions todo srv).sessions ≡ []) × ((reap_sessions todo srv).outbox ≡ srv.outbox)
  unfolding reap_sessions hangup_session
  reap_sessions_clears [] srv h = (Covers-none srv.sessions h, refl)
  reap_sessions_clears (s ∷ todo) srv h = reap_sessions_clears todo _ (
      subst (Covers todo) (sym (delete-modify s srv.sessions))
        (Covers-delete s todo srv.sessions h))

  -- The modem hung up once for each of these sessions.
  abbrev pub hang_each : List Session → ActiveCall control → ActiveCall control
  hang_each [] modem = modem
  hang_each (s ∷ rest) modem = hang_each rest (Calls.hangup control modem).1

  reap_sessions_modem :
      (todo : List Session) (srv : Server control)
      → (reap_sessions todo srv).modem ≡ hang_each todo srv.modem
  unfolding reap_sessions hangup_session
  reap_sessions_modem [] srv = refl
  reap_sessions_modem (s ∷ todo) srv = reap_sessions_modem todo _

  pub reap_stale_sessions_modem :
      (srv : Server control) → (reap_stale_sessions srv).modem ≡ hang_each srv.sessions srv.modem
  unfolding reap_stale_sessions
  reap_stale_sessions_modem srv = reap_sessions_modem srv.sessions srv

  reap_nothing : (srv : Server control) → srv.sessions ≡ [] → reap_stale_sessions srv ≡ srv
  unfolding reap_stale_sessions reap_sessions
  reap_nothing srv e = rw e refl

  -- The reap of stale sessions leaves no session in the table and sends nothing; a second reap does
  -- not touch the server, the modem included.
  pub reap_stale_sessions-cleared :
      (srv : Server control)
      → ((reap_stale_sessions srv).sessions ≡ [])
        × ((reap_stale_sessions srv).outbox ≡ srv.outbox)
        × (reap_stale_sessions (reap_stale_sessions srv) ≡ reap_stale_sessions srv)
  unfolding reap_stale_sessions
  reap_stale_sessions-cleared srv =
      let r = reap_sessions_clears srv.sessions srv (Covers-refl srv.sessions) in
      (r.0, r.1, reap_nothing (reap_stale_sessions srv) r.0)

  -- A ghost reap that runs behind the claim of a call leaves that call alone: with the claimed
  -- session live, the modem is not touched, and neither is the rest of the server.
  pub maybe_reap_ghosts_claimed :
      (s : Session) (srv : Server control)
      → is_live s ≡ true
      → (claim_session s srv.sessions).0 ≡ true
      → maybe_reap_ghosts (record srv { sessions = (claim_session s srv.sessions).1 })
        ≡ record srv { sessions = (claim_session s srv.sessions).1 }
  unfolding maybe_reap_ghosts
  maybe_reap_ghosts_claimed s srv l h =
      rw
        (
          claim_wins s srv.sessions ((claim_session_once s s srv.sessions refl).0.0 h),
          any-append is_live srv.sessions (s ∷ []),
          l,
        )
        (ground arith)
