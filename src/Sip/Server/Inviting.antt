-- ===== src/Sip/Server/Inviting.antt =====
-- sip/server.go and sip/session.go: how a client's INVITE becomes a cellular call.
use dontmove_kit.Prelude.{
  suc, Bool, true, false, not, ◌||◌, Option, none, some, List, [], ◌++◌, if◌then◌else◌, is_nil,
  take,
}
use dontmove_kit.Prelude.Int.{pos}
use dontmove_kit.Text.{Text, txt}
use dontmove_kit.At.Adapter.{done, failed}
use dontmove_kit.Calls.{Control, Outcome, ok, err, ActiveCall}
use dontmove_kit.Calls
use dontmove_kit.Sip.Message.{parse_header, contact_uri, extract_sip_user, cseq_number}
use dontmove_kit.Sip.Session.{
  Addr, addr_text, outbound, dialing, active, ByePlan, Session, state_eq, new_session, to_tag,
}
use dontmove_kit.Sip.Server.{Env, load, claim_session}
use dontmove_kit.Sip.Server.Ending.{
  Server, respond, hangup_session, remove, save, reap_stale_sessions,
}
use dontmove_kit.Sip.Message.{extract_sdp}
use dontmove_kit.Sip.Server.Answering.{inbound_rtp_target}
use dontmove_kit.Sip.Server.Ringing.{sdp_body, contact_header, answer_headers, unknown_peer}

-- The plan of a dialog that the client opened.
unfoldable pub outbound_plan : Text → Addr → Text → Text → Text → ByePlan
unfolding contact_uri cseq_number
outbound_plan msg remote username call_id tag = record {
  remote = some remote;
  req_uri = contact_uri (parse_header msg (txt "Contact")) (some (addr_text remote)) username;
  from = parse_header msg (txt "To") ++ txt ";tag=" ++ tag;
  to = parse_header msg (txt "From");
  call_id = call_id;
  invite_cseq = cseq_number (parse_header msg (txt "CSeq"));
  invite_branch = [];
  invite_req = msg;
  username = username;
}

abbrev pub outbound_session : Text → Addr → Text → Text → Text → Text → Session
outbound_session msg remote peer username call_id tag =
    let s = new_session call_id peer outbound in
    record s {
      local_tag = tag;
      bye = some (outbound_plan msg remote username call_id tag);
      rtp_target = inbound_rtp_target remote (extract_sdp msg);
    }

module _ {control : Control} ⦃env : Env⦄ where
  -- (*SIPCallSession).Dial of an outbound session: whether it succeeded.
  unfoldable pub dial_session : Session → Server control → Bool × Session × Server control
  dial_session s srv =
      let ready = control.wait_ready srv.modem.line in
      let waited : ActiveCall control = record (srv.modem) { line = ready.1 } in
      let r = Calls.dial control s.peer waited in
      let dialing_s : Session = record s { state = dialing } in
      elim ready.0 [
        | failed e ↦ (false, dialing_s, record srv { modem = waited })
        | done u ↦
            if env.route_ok
            then elim r.0 [
              | err e ↦ (false, dialing_s, record srv { modem = r.1 })
              | ok id ↦
                  (true, record dialing_s { modem_id = r.1.active }, record srv { modem = r.1 })
            ]
            else (false, dialing_s, record srv { modem = waited })
      ]

  abbrev pub dialed : Text → Addr → Bool × Session × Server control → Server control
  dialed msg remote (true, s, srv) = save s srv
  dialed msg remote (false, s, srv) =
      remove s.id (respond remote msg 500 (txt "Server Error") [] [] (to_tag s) srv)

  -- handleInvite behind the claim of the Call-ID.
  unfoldable pub start_dial : Text → Addr → Session → Server control → Server control
  unfolding dial_session
  start_dial msg remote s srv = dialed msg remote (
      dial_session s (
        respond remote msg 180 (txt "Ringing") (contact_header (env.local_ip_for remote)) []
          (to_tag s) srv))

  abbrev pub invite_claimed :
      Text → Addr → Bool × List Session → Session → Server control → Server control
  invite_claimed msg remote (true, sessions) s srv =
      start_dial msg remote s (record srv { sessions = sessions })
  invite_claimed msg remote (false, sessions) s srv =
      respond remote msg 180 (txt "Ringing") (contact_header (env.local_ip_for remote)) []
        (elim (load s.id sessions) [ none ↦ [] | some t ↦ to_tag t ]) srv

  -- A new call of handleInvite: Trying, the reap of what is left, the claim, and the dial.
  unfoldable pub new_invite : Text → Addr → Text → Text → Text → Server control → Server control
  unfolding start_dial outbound_plan claim_session
  new_invite msg remote peer username call_id srv =
      let reaped = reap_stale_sessions (respond remote msg 100 (txt "Trying") [] [] [] srv) in
      let s = outbound_session msg remote peer username call_id (take 8 (env.uuid reaped.minted)) in
      invite_claimed msg remote (claim_session s reaped.sessions) s
        (record reaped { minted = suc reaped.minted })

  -- An INVITE whose Call-ID has a session: its state is told again.
  unfoldable pub repeat_invite : Text → Addr → Session → Server control → Server control
  unfolding sdp_body answer_headers
  repeat_invite msg remote s srv =
      let local = env.local_ip_for remote in
      if env.media_flows s.id || state_eq s.state active
      then respond remote msg 200 (txt "OK") (answer_headers local)
          (sdp_body local (env.media_port s.id)) (to_tag s) srv
      else respond remote msg 180 (txt "Ringing") (contact_header local) [] (to_tag s) srv

  abbrev pub invite_call_id : Text → Server control → Text × Server control
  invite_call_id msg srv =
      let id = parse_header msg (txt "Call-ID") in
      if is_nil id then (env.uuid srv.minted, record srv { minted = suc srv.minted }) else (id, srv)

  abbrev pub invite_loaded :
      Option Session → Text → Addr → Text → Text → Text → Server control → Server control
  invite_loaded (some s) msg remote peer username id srv = repeat_invite msg remote s srv
  invite_loaded none msg remote peer username id srv =
      if env.media_ok
      then new_invite msg remote peer username id srv
      else respond remote msg 500 (txt "Server Error") [] [] [] srv

  -- handleInvite for a peer and an account.
  unfoldable pub invite_from : Text → Addr → Text → Text → Server control → Server control
  unfolding new_invite repeat_invite
  invite_from msg remote peer username srv =
      let (id, srv') = invite_call_id msg srv in
      if not (env.known_user username)
      then respond remote msg 403 (txt "Forbidden") [] [] [] srv
      else invite_loaded (load id srv'.sessions) msg remote peer username id srv'

  abbrev pub invite_as :
      Option Text → Option Text → Text → Addr → Server control → Option (Server control)
  invite_as (some peer) (some username) msg remote srv =
      some (invite_from msg remote (unknown_peer peer) username srv)
  invite_as _ _ msg remote srv = none

  -- handleInvite up to the wait for the answer; `none` is a panic in `extractSIPUser`.
  unfoldable pub handle_invite : Text → Addr → Server control → Option (Server control)
  unfolding invite_from
  handle_invite msg remote srv =
      invite_as (extract_sip_user (parse_header msg (txt "To")))
        (extract_sip_user (parse_header msg (txt "From"))) msg remote srv

  abbrev told_unavailable : Text → Addr → Session → Server control → Server control
  told_unavailable msg remote s srv = elim (load s.id srv.sessions) [
    | none ↦ srv
    | some t ↦ respond remote msg 480 (txt "Temporarily Unavailable") [] [] (to_tag s) srv
  ]

  -- The end of a call that did not come up.
  unfoldable pub unanswered : Text → Addr → Session → Server control → Server control
  unanswered msg remote s srv = remove s.id (hangup_session s (told_unavailable msg remote s srv))

  unfoldable pub answered_ok : Text → Addr → Session → Server control → Server control
  answered_ok msg remote s srv =
      let local = env.local_ip_for remote in
      let up : Session = record s { state = active; bridging = true } in
      respond remote msg 200 (txt "OK") (answer_headers local)
        (sdp_body local (env.media_port s.id)) (to_tag s) (save up srv)

  -- The goroutine of handleInvite: AwaitBridge, and the final response to the INVITE.
  unfoldable pub finish_invite : Text → Addr → Session → Server control → Server control
  unfolding unanswered answered_ok
  finish_invite msg remote s srv =
      let waited = control.wait_active_dir (pos 0) srv.modem.line in
      let srv' : Server control = record srv { modem = record (srv.modem) { line = waited.1 } } in
      elim waited.0 [
        | failed e ↦ unanswered msg remote s srv'
        | done u ↦
            if env.bridge_ok then answered_ok msg remote s srv' else unanswered msg remote s srv'
      ]
