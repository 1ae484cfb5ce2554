-- ===== src/Sip/Server/Finality.antt =====
-- sip/server.go: a call that has ended is not ended again, whoever says so.
use dontmove_kit.Prelude.{
  ◌≡◌, ◌≢◌, refl, sym, ap, ◌∙◌, false, Option, none, some, List, [], ◌∷◌, arith, inl, inr,
  Bool-cases, is_nil, is_nil-false, if_either, ◌++◌, if◌then◌else◌,
}
use dontmove_kit.Text.{Text, txt, text_eq}
use dontmove_kit.Text.Laws.{eq_of_text_eq}
use dontmove_kit.At.Adapter.{Event}
use dontmove_kit.Calls.{Control, ActiveCall}
use dontmove_kit.Calls
use dontmove_kit.Sip.Message.{parse_header}
use dontmove_kit.Sip.Session.{Addr, Session}
use dontmove_kit.Sip.Server.{Env, load, delete, modify, session_for_modem_event}
use dontmove_kit.Sip.Server.Table.{load-delete, load_other}
use dontmove_kit.Sip.Server.Ending.{
  Server, hung, hangup_session, respond, tear_down, end_call_by_modem, ring_timeout,
}
use dontmove_kit.Sip.Server.Answering.{handle_bye, hang_loaded}
use dontmove_kit.Sip.Server.Reaping.{modify_deleted, delete-modify}
use dontmove_kit.Sip.Server.Told.{Sent, respond-Sent, build_response_200}

load-id :
    (id : Text) (sessions : List Session) (s : Session) → load id sessions ≡ some s → s.id ≡ id
unfolding load
load-id id [] s h = cc
load-id id (t ∷ rest) s h = elim (Bool-cases (text_eq t.id id)) [
  | inl here ↦ ground (arith, eq_of_text_eq t.id id here)
  | inr there ↦ load-id id rest s (rw there at h)
]

apart_lem :
    (id other : Text) (after before : List Session)
    → load id after ≡ none
    → (text_eq id other ≡ false → load other after ≡ load other before)
    → load other after ≡ (if text_eq id other then none else load other before)
apart_lem id other after before gone kept = elim (Bool-cases (text_eq id other)) [
  | inl same ↦ rw same (ap (λ i. load i after) (sym (eq_of_text_eq id other same)) ∙ gone)
  | inr apart ↦ rw apart (kept apart)
]

module _ {control : Control} ⦃env : Env⦄ where
  -- Nothing was done to the table and the modem.
  abbrev pub IsLeft : Server control → Server control → Type 0
  IsLeft before after = (after.sessions ≡ before.sessions) × (after.modem ≡ before.modem)

  -- What a BYE does to the modem, by the session that its Call-ID had.
  abbrev pub modem_after : Option Session → ActiveCall control → ActiveCall control
  modem_after none modem = modem
  modem_after (some s) modem = (Calls.hangup control modem).1

  handle_bye_unknown :
      (msg : Text) (remote : Addr) (srv : Server control)
      → load (parse_header msg (txt "Call-ID")) srv.sessions ≡ none
      → IsLeft srv (handle_bye msg remote srv)
  unfolding handle_bye respond
  handle_bye_unknown msg remote srv unknown =
      elim (Bool-cases (is_nil (parse_header msg (txt "Call-ID")))) [
        | inl e ↦ rw e (refl, refl)
        | inr e ↦ rw (e, unknown) (refl, refl)
      ]

  hang_loaded_lem :
      (id : Text) (o : Option Session) (srv : Server control)
      → load id srv.sessions ≡ o
      → ((hang_loaded o srv).modem ≡ modem_after o srv.modem)
        × (load id (hang_loaded o srv).sessions ≡ none)
        × ((other : Text)
            → load other (hang_loaded o srv).sessions
              ≡ (if text_eq id other then none else load other srv.sessions))
  unfolding hangup_session
  hang_loaded_lem id none srv h =
      (refl, h, λ other. apart_lem id other srv.sessions srv.sessions h (λ apart. refl))
  hang_loaded_lem id (some s) srv h =
      let same = load-id id srv.sessions s h in
      let table : delete s.id (modify (hung s) srv.sessions) ≡ delete id srv.sessions =
        delete-modify s srv.sessions ∙ ap (λ i. delete i srv.sessions) same in
      (
        refl,
        ap (load id) table ∙ load-delete id srv.sessions,
        λ other.
            apart_lem id other (delete s.id (modify (hung s) srv.sessions)) srv.sessions
              (ap (load id) table ∙ load-delete id srv.sessions)
              (λ apart. ap (load other) table ∙ load_other id other srv.sessions apart),
      )

  hang_loaded-outbox :
      (o : Option Session) (srv : Server control) → (hang_loaded o srv).outbox ≡ srv.outbox
  unfolding hangup_session
  hang_loaded-outbox none srv = refl
  hang_loaded-outbox (some s) srv = refl

  told_ok :
      (msg : Text) (remote : Addr) (srv t : Server control)
      → t.outbox ≡ srv.outbox
      → Sent remote (200 ∷ []) srv (respond remote msg 200 (txt "OK") [] [] [] t)
  told_ok msg remote srv t same =
      let (ds, e, h) =
        respond-Sent remote msg 200 (txt "OK") [] [] [] t
          (build_response_200 (env.uuid t.minted) msg [] [] []) in
      (ds, e ∙ ap (λ out. out ++ ds) same, h)

  handle_bye-Sent :
      (msg : Text) (remote : Addr) (srv : Server control)
      → Sent remote (200 ∷ []) srv (handle_bye msg remote srv)
  unfolding handle_bye
  handle_bye-Sent msg remote srv =
      let id = parse_header msg (txt "Call-ID") in
      let closed : Server control =
        if is_nil id then srv else hang_loaded (load id srv.sessions) srv in
      told_ok msg remote srv closed (
        if_either (λ (t : Server control). t.outbox ≡ srv.outbox) (is_nil id) srv
          (hang_loaded (load id srv.sessions) srv) refl
          (hang_loaded-outbox (load id srv.sessions) srv))

  handle_bye_lem :
      (msg : Text) (remote : Addr) (srv : Server control)
      → parse_header msg (txt "Call-ID") ≢ []
      → let id = parse_header msg (txt "Call-ID") in
        let first = handle_bye msg remote srv in
        (first.modem ≡ modem_after (load id srv.sessions) srv.modem)
        × (load id first.sessions ≡ none)
        × ((other : Text)
            → load other first.sessions
              ≡ (if text_eq id other then none else load other srv.sessions))
  unfolding handle_bye respond
  handle_bye_lem msg remote srv n =
      let id = parse_header msg (txt "Call-ID") in
      rw (is_nil-false id n) (hang_loaded_lem id (load id srv.sessions) srv refl)

  -- A BYE or a CANCEL with a Call-ID hangs the modem up if the table has a session under it, and not
  -- otherwise; no session is left under it, and every other Call-ID has what it had. A second one, from
  -- anywhere, changes neither the table nor the modem. Each is answered with one 200, to its sender.
  pub handle_bye_once :
      (msg : Text) (remote sender : Addr) (srv : Server control)
      → parse_header msg (txt "Call-ID") ≢ []
      → let id = parse_header msg (txt "Call-ID") in
        let first = handle_bye msg remote srv in
        (first.modem ≡ modem_after (load id srv.sessions) srv.modem)
        × (load id first.sessions ≡ none)
        × ((other : Text)
            → load other first.sessions
              ≡ (if text_eq id other then none else load other srv.sessions))
        × IsLeft first (handle_bye msg sender first)
        × Sent remote (200 ∷ []) srv first
        × Sent sender (200 ∷ []) first (handle_bye msg sender first)
  handle_bye_once msg remote sender srv n =
      let id = parse_header msg (txt "Call-ID") in
      let first = handle_bye msg remote srv in
      let (modem, gone, others) = handle_bye_lem msg remote srv n in
      (
        modem,
        gone,
        others,
        handle_bye_unknown msg sender first gone,
        handle_bye-Sent msg remote srv,
        handle_bye-Sent msg sender first,
      )

  ended_by_modem :
      (event : Event) (s : Session) (srv : Server control)
      → session_for_modem_event event.call_id srv.sessions ≡ some s
      → load s.id (end_call_by_modem event srv).sessions ≡ none
  unfolding end_call_by_modem hangup_session tear_down
  ended_by_modem event s srv found =
      rw found (ap (load s.id) (modify_deleted s srv.sessions) ∙ load-delete s.id srv.sessions)

  ring_timeout_gone :
      (s : Session) (srv : Server control)
      → load s.id srv.sessions ≡ none
      → ring_timeout s srv ≡ srv
  unfolding ring_timeout
  ring_timeout_gone s srv gone = rw (ring_timeout, gone) refl

  -- The end of a call that an event of the modem is found to be about is final: its session has left
  -- the table, so that the ring timeout that still waits for it finds nothing to do, and a BYE or a
  -- CANCEL for it that comes late leaves the table and the modem alone.
  pub end_call_by_modem-final :
      (event : Event) (s : Session) (msg : Text) (remote : Addr) (srv : Server control)
      → session_for_modem_event event.call_id srv.sessions ≡ some s
      → parse_header msg (txt "Call-ID") ≡ s.id
      → (load s.id (end_call_by_modem event srv).sessions ≡ none)
        × (ring_timeout s (end_call_by_modem event srv) ≡ end_call_by_modem event srv)
        × IsLeft (end_call_by_modem event srv) (handle_bye msg remote (end_call_by_modem event srv))
  end_call_by_modem-final event s msg remote srv found same =
      let gone = ended_by_modem event s srv found in
      (
        gone,
        ring_timeout_gone s (end_call_by_modem event srv) gone,
        handle_bye_unknown msg remote (end_call_by_modem event srv)
            (ap (λ id. load id (end_call_by_modem event srv).sessions) same ∙ gone),
      )
