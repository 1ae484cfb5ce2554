-- ===== src/Sip/Server/Dialing.antt =====
-- sip/server.go: what a client's INVITE leaves in the table of sessions and at the modem.
use dontmove_kit.At.Adapter.{done, failed, Except}
use dontmove_kit.Sip.Server.Told.{
  Sent, Sent-trans, respond-Sent, build_response_100, build_response_180, build_response_200,
  build_response_403, build_response_500, has_status,
}
use dontmove_kit.Prelude.{
  ℕ, ◌≡◌, ◌≢◌, refl, sym, ◌∙◌, Bool, true, false, ◌||◌, Option, none, some, List, [], ◌∷◌, arith,
  inl, inr, Bool-cases, is_nil-false, if◌then◌else◌, ap,
}
use mathlib.Core.Path.{subst}
use dontmove_kit.Text.{Text, txt}
use dontmove_kit.Text.Laws.{text_eq_refl}
use dontmove_kit.Calls
use dontmove_kit.Calls.{Control, Outcome, ok, err, ActiveCall}
use dontmove_kit.Sip.Message.{parse_header, build_response, extract_sip_user}
use dontmove_kit.Sip.Session.{Addr, Session, dialing, active, state_eq, new_session, to_tag}
use dontmove_kit.Sip.Server.{Env, load, delete, modify, claim_session}
use dontmove_kit.Sip.Server.Table.{claim_wins}
use dontmove_kit.Sip.Server.Reaping.{
  reap_stale_sessions-cleared, hang_each, reap_stale_sessions_modem,
}
use dontmove_kit.Sip.Server.Ending.{Server, respond, reap_stale_sessions}
use dontmove_kit.Sip.Server.Ringing.{contact_header, unknown_peer}
use dontmove_kit.Sip.Server.Inviting.{
  dial_session, dialed, start_dial, new_invite, repeat_invite, invite_from, handle_invite,
  invite_as, invite_claimed,
}

-- The table has the session of this one call, dialing over a cellular leg of this id.
abbrev pub IsOneCall : Text → Text → Text → List Session → Type 0
IsOneCall id peer modem_id sessions =
    (s : Session) × (sessions ≡ s ∷ [])
    × (s.id ≡ id)
    × (s.peer ≡ peer)
    × (s.state ≡ dialing)
    × (s.modem_id ≡ modem_id)

load_nothing : (id : Text) → load id [] ≡ none
unfolding load
load_nothing id = refl

modify_single : (u t : Session) → t.id ≡ u.id → modify u (t ∷ []) ≡ u ∷ []
unfolding modify
modify_single u t e = rw (e, text_eq_refl u.id) refl

delete_single : (id : Text) (t : Session) → t.id ≡ id → delete id (t ∷ []) ≡ []
unfolding delete
delete_single id t e = rw (e, text_eq_refl id) refl

-- The status that tells how a call of this session stands, to an INVITE from this account.
abbrev pub status_told : Env → Text → Session → ℕ
status_told env username s =
    if env.known_user username
    then (if env.media_flows s.id || state_eq s.state active then 200 else 180)
    else 403

module _ {control : Control} ⦃env : Env⦄ where
  -- What a dial of a peer comes to at the modem: it waits for the modem, asks for the audio route, and
  -- dials.
  abbrev pub dial_modem : Text → ActiveCall control → Bool × ActiveCall control
  dial_modem peer modem =
      let ready = control.wait_ready modem.line in
      let waited : ActiveCall control = record modem { line = ready.1 } in
      let r = Calls.dial control peer waited in
      elim ready.0 [
        | failed e ↦ (false, waited)
        | done u ↦
            if env.route_ok
            then elim r.0 [ err e ↦ (false, r.1) | ok id ↦ (true, r.1) ]
            else (false, waited)
      ]

  -- A dialed call that went through has the one session; one that did not has none. The client is told
  -- Trying and Ringing, and of a failure a Server Error.
  abbrev pub IsDialed :
      Addr → Text → Text → Server control → Bool × ActiveCall control → Server control → Type 0
  IsDialed remote id peer before (true, modem) after =
      (after.modem ≡ modem)
      × IsOneCall id peer modem.active after.sessions
      × Sent remote (100 ∷ 180 ∷ []) before after
  IsDialed remote id peer before (false, modem) after =
      (after.modem ≡ modem)
      × (after.sessions ≡ [])
      × Sent remote (100 ∷ 180 ∷ 500 ∷ []) before after

  -- The same behind the first two responses.
  abbrev IsFinished :
      Addr → Text → Text → Server control → Bool × ActiveCall control → Server control → Type 0
  IsFinished remote id peer before (true, modem) after =
      (after.modem ≡ modem)
      × IsOneCall id peer modem.active after.sessions
      × (after.outbox ≡ before.outbox)
  IsFinished remote id peer before (false, modem) after =
      (after.modem ≡ modem) × (after.sessions ≡ []) × Sent remote (500 ∷ []) before after

  refused-IsFinished :
      (msg : Text) (remote : Addr) (s : Session) (srv : Server control) (modem : ActiveCall control)
      → srv.sessions ≡ s ∷ []
      → IsFinished remote s.id s.peer srv
          (false, modem)
          (dialed msg remote (false, record s { state = dialing }, record srv { modem = modem }))
  unfolding respond to_tag
  refused-IsFinished msg remote s srv modem h = (
    refl,
    rw h (delete_single s.id s refl),
    (_, refl, (refl, build_response_500 (env.uuid srv.minted) msg [] [] (to_tag s), tt)),
  )

  outcome-IsFinished :
      (msg : Text) (remote : Addr) (s : Session) (srv : Server control) (ready : Except (Unit {0}))
      (route : Bool) (o : Outcome Text) (waited rung : ActiveCall control)
      → srv.sessions ≡ s ∷ []
      → IsFinished remote s.id s.peer srv
          (elim ready [
            | failed e ↦ (false, waited)
            | done u ↦
                if route
                then elim o [ err e ↦ (false, rung) | ok id ↦ (true, rung) ]
                else (false, waited)
          ])
          (dialed msg remote (elim ready [
            | failed e ↦ (false, record s { state = dialing }, record srv { modem = waited })
            | done u ↦
                if route
                then elim o [
                  | err e ↦ (false, record s { state = dialing }, record srv { modem = rung })
                  | ok id ↦ (
                    true,
                    record s { state = dialing; modem_id = rung.active },
                    record srv { modem = rung },
                  )
                ]
                else (false, record s { state = dialing }, record srv { modem = waited })
          ]))
  outcome-IsFinished msg remote s srv (failed e) route o waited rung h =
      refused-IsFinished msg remote s srv waited h
  outcome-IsFinished msg remote s srv (done u) false o waited rung h =
      refused-IsFinished msg remote s srv waited h
  outcome-IsFinished msg remote s srv (done u) true (err e) waited rung h =
      refused-IsFinished msg remote s srv rung h
  outcome-IsFinished msg remote s srv (done u) true (ok id) waited rung h =
      let up : Session = record s { state = dialing; modem_id = rung.active } in
      (refl, (up, rw h (modify_single up s refl), refl, refl, refl, refl), refl)

  dialed-IsFinished :
      (msg : Text) (remote : Addr) (s : Session) (srv : Server control)
      → srv.sessions ≡ s ∷ []
      → IsFinished remote s.id s.peer srv
          (dial_modem s.peer srv.modem)
          (dialed msg remote (dial_session s srv))
  unfolding dial_session
  dialed-IsFinished msg remote s srv h =
      let ready = control.wait_ready srv.modem.line in
      let waited : ActiveCall control = record (srv.modem) { line = ready.1 } in
      let r = Calls.dial control s.peer waited in
      outcome-IsFinished msg remote s srv ready.0 env.route_ok r.0 waited r.1 h

  finished-IsDialed :
      (remote : Addr) (id peer : Text) (a b c : Server control) (r : Bool × ActiveCall control)
      → Sent remote (100 ∷ 180 ∷ []) a b
      → IsFinished remote id peer b r c
      → IsDialed remote id peer a r c
  finished-IsDialed remote id peer a b c (true, modem) (ds, e, h) (m, one, same) =
      (m, one, (ds, same ∙ e, h))
  finished-IsDialed remote id peer a b c (false, modem) sent (m, empty, more) =
      (m, empty, Sent-trans remote (100 ∷ 180 ∷ []) (500 ∷ []) a b c sent more)

  started-IsDialed :
      (msg : Text) (remote : Addr) (s : Session) (before srv : Server control)
      (modem : ActiveCall control)
      → srv.sessions ≡ s ∷ []
      → srv.modem ≡ modem
      → Sent remote (100 ∷ []) before srv
      → IsDialed remote s.id s.peer before (dial_modem s.peer modem) (start_dial msg remote s srv)
  unfolding start_dial respond
  started-IsDialed msg remote s before srv modem h same sent =
      let contact = contact_header (env.local_ip_for remote) in
      let rung : Server control =
        respond remote msg 180 (txt "Ringing") contact [] (to_tag s) srv in
      let ringing =
        respond-Sent remote msg 180 (txt "Ringing") contact [] (to_tag s) srv
          (build_response_180 (env.uuid srv.minted) msg contact [] (to_tag s)) in
      subst
        (λ m.
          IsDialed remote s.id s.peer before (dial_modem s.peer m) (start_dial msg remote s srv))
        same
        (finished-IsDialed remote s.id s.peer before rung (dialed msg remote (dial_session s rung))
          (dial_modem s.peer srv.modem)
          (Sent-trans remote (100 ∷ []) (180 ∷ []) before srv rung sent ringing)
          (dialed-IsFinished msg remote s rung h))

  claimed-IsDialed :
      (msg : Text) (remote : Addr) (s : Session) (sessions : List Session)
      (before srv : Server control) (modem : ActiveCall control)
      → sessions ≡ []
      → srv.modem ≡ modem
      → Sent remote (100 ∷ []) before srv
      → IsDialed remote s.id s.peer before
          (dial_modem s.peer modem)
          (invite_claimed msg remote (claim_session s sessions) s srv)
  claimed-IsDialed msg remote s sessions before srv modem h same sent =
      rw (h, claim_wins s [] (load_nothing s.id))
        (started-IsDialed msg remote s before (record srv { sessions = s ∷ [] }) modem refl same
          sent)

  trying_modem :
      (msg : Text) (remote : Addr) (srv : Server control)
      → (reap_stale_sessions (respond remote msg 100 (txt "Trying") [] [] [] srv)).modem
        ≡ hang_each srv.sessions srv.modem
  unfolding respond
  trying_modem msg remote srv =
      reap_stale_sessions_modem (respond remote msg 100 (txt "Trying") [] [] [] srv)

  reaped-Sent :
      (msg : Text) (remote : Addr) (srv : Server control)
      → Sent remote
          (100 ∷ [])
          srv
          (reap_stale_sessions (respond remote msg 100 (txt "Trying") [] [] [] srv))
  reaped-Sent msg remote srv =
      let trying : Server control = respond remote msg 100 (txt "Trying") [] [] [] srv in
      let (cleared, quiet, again) = reap_stale_sessions-cleared trying in
      let (ds, e, h) =
        respond-Sent remote msg 100 (txt "Trying") [] [] [] srv
          (build_response_100 (env.uuid srv.minted) msg [] [] []) in
      (ds, quiet ∙ e, h)

  -- A new INVITE first hangs the modem up for every call that the table has, and then dials. If the
  -- dial goes through, the table has the session of the new call and no other, dialing under its
  -- Call-ID and to its peer over the leg that the modem reported, and the client was told Trying and
  -- Ringing; if the modem or the audio route refuses, the table is empty, and the client was told a
  -- Server Error behind these. Nothing else is sent.
  pub new_invite_one :
      (msg : Text) (remote : Addr) (peer username call_id : Text) (srv : Server control)
      → IsDialed remote call_id peer srv
          (dial_modem peer (hang_each srv.sessions srv.modem))
          (new_invite msg remote peer username call_id srv)
  unfolding new_invite new_session
  new_invite_one msg remote peer username call_id srv =
      let trying : Server control = respond remote msg 100 (txt "Trying") [] [] [] srv in
      let (cleared, quiet, again) = reap_stale_sessions-cleared trying in
      claimed-IsDialed msg remote _ _ srv _ _ cleared (trying_modem msg remote srv)
        (reaped-Sent msg remote srv)

  -- The sessions and the modem are as they were, and one response of this status was sent.
  abbrev pub IsToldOnce : Addr → ℕ → Server control → Server control → Type 0
  IsToldOnce remote code before after =
      (after.sessions ≡ before.sessions)
      × (after.modem ≡ before.modem)
      × Sent remote (code ∷ []) before after

  respond_told :
      (remote : Addr) (req : Text) (code : ℕ) (reason extra body tag : Text) (srv : Server control)
      → has_status code (build_response (env.uuid srv.minted) req code reason extra body tag) ≡ true
      → IsToldOnce remote code srv (respond remote req code reason extra body tag srv)
  unfolding respond
  respond_told remote req code reason extra body tag srv h = (refl, refl, (_, refl, (refl, h, tt)))

  repeat_invite_told :
      (msg : Text) (remote : Addr) (s : Session) (srv : Server control)
      → IsToldOnce remote
          (if env.media_flows s.id || state_eq s.state active then 200 else 180)
          srv
          (repeat_invite msg remote s srv)
  unfolding repeat_invite
  repeat_invite_told msg remote s srv =
      let fresh = env.uuid srv.minted in
      elim (Bool-cases (env.media_flows s.id || state_eq s.state active)) [
        | inl e ↦
            rw (repeat_invite, e)
              (respond_told _ _ _ _ _ _ _ srv (build_response_200 fresh msg _ _ (to_tag s)))
        | inr e ↦
            rw (repeat_invite, e)
              (respond_told _ _ _ _ _ _ _ srv (build_response_180 fresh msg _ _ (to_tag s)))
      ]

  invite_from_told :
      (msg : Text) (remote : Addr) (peer username : Text) (s : Session) (srv : Server control)
      → parse_header msg (txt "Call-ID") ≢ []
      → load (parse_header msg (txt "Call-ID")) srv.sessions ≡ some s
      → IsToldOnce remote
          (status_told env username s)
          srv
          (invite_from msg remote peer username srv)
  unfolding invite_from
  invite_from_told msg remote peer username s srv n h =
      let id = parse_header msg (txt "Call-ID") in
      elim (Bool-cases (env.known_user username)) [
        | inl e ↦
            rw (invite_from, is_nil-false id n, e) (rw h (repeat_invite_told msg remote s srv))
        | inr e ↦
            rw (invite_from, is_nil-false id n, e)
              (respond_told _ _ _ _ _ _ _ srv (build_response_403 (env.uuid srv.minted) msg _ _ _))
      ]

  invite_as_told :
      (to : Option Text) (user msg : Text) (remote : Addr) (s : Session) (srv srv' : Server control)
      → parse_header msg (txt "Call-ID") ≢ []
      → load (parse_header msg (txt "Call-ID")) srv.sessions ≡ some s
      → invite_as to (some user) msg remote srv ≡ some srv'
      → IsToldOnce remote (status_told env user s) srv srv'
  invite_as_told (some peer) user msg remote s srv srv' n h e =
      subst
        (λ o. elim o [
          | none ↦ Unit {0}
          | some v ↦ IsToldOnce remote (status_told env user s) srv v
        ])
        e (invite_from_told msg remote (unknown_peer peer) user s srv n h)
  invite_as_told none user msg remote s srv srv' n h e = ground arith

  -- An INVITE that comes while the table has a session under its Call-ID: no session is added, changed
  -- or hung up, and the modem is not asked for anything. The client is told how the call stands, by one
  -- response: 200 if the call's media flow or it is active, and 180 if not; and 403 instead, if the
  -- account of From is unknown.
  pub handle_invite_repeated :
      (msg : Text) (remote : Addr) (user : Text) (s : Session) (srv srv' : Server control)
      → parse_header msg (txt "Call-ID") ≢ []
      → load (parse_header msg (txt "Call-ID")) srv.sessions ≡ some s
      → extract_sip_user (parse_header msg (txt "From")) ≡ some user
      → handle_invite msg remote srv ≡ some srv'
      → IsToldOnce remote (status_told env user s) srv srv'
  unfolding handle_invite
  handle_invite_repeated msg remote user s srv srv' n h from e =
      let to = extract_sip_user (parse_header msg (txt "To")) in
      invite_as_told to user msg remote s srv srv' n h
        (ap (λ o. invite_as to o msg remote srv) (sym from) ∙ e)
