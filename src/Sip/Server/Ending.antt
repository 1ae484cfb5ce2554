-- ===== src/Sip/Server/Ending.antt =====
-- sip/server.go: the server's state, and how its sessions end.
use dontmove_kit.Prelude.{
  ℕ, suc, true, false, Option, none, some, List, [], ◌∷◌, ◌++◌, if◌then◌else◌, any,
}
use dontmove_kit.Text.{Text}
use dontmove_kit.At.Adapter.{Event}
use dontmove_kit.Calls.{Control, Outcome, ok, err, ActiveCall}
use dontmove_kit.Calls
use dontmove_kit.Sip.Message.{build_response}
use dontmove_kit.Sip.Session.{Addr, ended, Session}
use dontmove_kit.Sip.Teardown.{Registration, Datagram, send_dialog_teardown}
use dontmove_kit.Sip.Server.{Env, load, delete, modify, is_live, session_for_modem_event}

pub record Server (control : Control) : Type 0 where
  pub sessions : List Session
  pub modem : ActiveCall control
  pub registrations : List Registration  -- (*Registrar).All
  pub outbox : List Datagram
  pub minted : ℕ

-- The session as Hangup leaves it.
abbrev pub hung : Session → Session
hung s = record s { canceled = true; bridging = false; media_open = false; state = ended }

module _ {control : Control} ⦃env : Env⦄ where
  abbrev pub send : Addr → Text → Server control → Server control
  send addr message srv = record srv {
    outbox = srv.outbox ++ record { to_addr = addr; message = message } ∷ [];
  }

  -- sendResponseWithTag. The tag that `buildResponse` may mint is taken from the supply.
  unfoldable pub respond :
      Addr → Text → ℕ → Text → Text → Text → Text → Server control → Server control
  respond addr req code reason extra body tag srv =
      send addr (build_response (env.uuid srv.minted) req code reason extra body tag)
        (record srv { minted = suc srv.minted })

  abbrev pub hang_modem : Server control → Server control
  hang_modem srv = record srv { modem = (Calls.hangup control srv.modem).1 }

  -- (*SIPCallSession).Hangup, of a session that the map holds or not.
  unfoldable pub hangup_session : Session → Server control → Server control
  hangup_session s srv = record (hang_modem srv) { sessions = modify (hung s) srv.sessions }

  abbrev pub remove : Text → Server control → Server control
  remove id srv = record srv { sessions = delete id srv.sessions }

  abbrev pub save : Session → Server control → Server control
  save s srv = record srv { sessions = modify s srv.sessions }

  abbrev pub send_all : List Datagram → Server control → Server control
  send_all ds srv = record srv { outbox = srv.outbox ++ ds }

  -- sendDialogTeardown over the server.
  unfoldable pub tear_down : Session → Server control → Server control
  tear_down s srv =
      send_all
        (send_dialog_teardown env.resolve env.local_ip_for (λ addr. env.uuid srv.minted)
          srv.registrations s)
        (record srv { minted = suc srv.minted })

  abbrev pub end_call : Option Session → Server control → Server control
  end_call none srv = srv
  end_call (some s) srv = hangup_session s (tear_down s (remove s.id srv))

  -- endCallByModem.
  unfoldable pub end_call_by_modem : Event → Server control → Server control
  unfolding hangup_session tear_down
  end_call_by_modem event srv = end_call (session_for_modem_event event.call_id srv.sessions) srv

  -- The ring timeout of `ringClients`.
  unfoldable pub ring_timeout : Session → Server control → Server control
  unfolding hangup_session tear_down
  ring_timeout s srv = elim (load s.id srv.sessions) [
    | none ↦ srv
    | some stored ↦ hangup_session stored (tear_down stored (remove s.id srv))
  ]

  -- reapStaleSessions: every session is hung up and removed, in turn.
  unfoldable pub reap_sessions : List Session → Server control → Server control
  unfolding hangup_session
  reap_sessions [] srv = srv
  reap_sessions (s ∷ rest) srv = reap_sessions rest (remove s.id (hangup_session s srv))

  unfoldable pub reap_stale_sessions : Server control → Server control
  unfolding reap_sessions
  reap_stale_sessions srv = reap_sessions srv.sessions srv

  -- maybeReapGhosts: only with no live session.
  unfoldable pub maybe_reap_ghosts : Server control → Server control
  maybe_reap_ghosts srv =
      if any is_live srv.sessions
      then srv
      else record srv { modem = (Calls.reap_ghosts control srv.modem).1 }
