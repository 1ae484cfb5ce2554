-- ===== src/Sip/Server/Ringing.antt =====
-- sip/server.go: how an incoming cellular call rings the registered clients.
use dontmove_kit.Prelude.{
  ℕ, suc, Bool, true, false, none, some, List, [], ◌∷◌, ◌++◌, if◌then◌else◌, is_nil, length, take,
}
use dontmove_kit.Prelude.Int.{pos}
use dontmove_kit.Text.{Text, txt, print_nat, trim_prefix}
use dontmove_kit.At.Adapter.{Event}
use dontmove_kit.Calls.{Control}
use dontmove_kit.Sip.Message.{contact_uri, inbound_caller_headers, unlines}
use dontmove_kit.Sip.Session.{
  Addr, addr_text, inbound, init, ByePlan, Session, state_eq, new_session, remember_invite,
}
use dontmove_kit.Sip.Teardown.{Registration, contact_addr}
use dontmove_kit.Sip.Server.{Env, load, claim_session}
use dontmove_kit.Sip.Server.Ending.{Server, send, save}

-- The session description that the gateway offers and answers with.
unfoldable pub sdp_body : Text → ℕ → Text
unfolding unlines print_nat
sdp_body local port = unlines (
    txt "v=0"
    ∷ (txt "o=cellbridge 0 0 IN IP4 " ++ local)
    ∷ txt "s=CellBridge"
    ∷ (txt "c=IN IP4 " ++ local)
    ∷ txt "t=0 0"
    ∷ (txt "m=audio " ++ print_nat port ++ txt " RTP/AVP 0")
    ∷ txt "a=rtpmap:0 PCMU/8000"
    ∷ [])

unfoldable pub contact_header : Text → Text
unfolding unlines
contact_header local = unlines ((txt "Contact: <sip:cellbridge@" ++ local ++ txt ":5060>") ∷ [])

unfoldable pub answer_headers : Text → Text
unfolding unlines contact_header
answer_headers local =
    contact_header local
    ++ unlines
        (txt "Allow: INVITE, ACK, BYE, CANCEL, OPTIONS" ∷ txt "Content-Type: application/sdp" ∷ [])

-- The id behind "in-", eight bytes at most.
abbrev short_id : Text → Text
short_id call_id = take 8 (trim_prefix call_id (txt "in-"))

-- The INVITE of `ringClients` to one registration.
unfoldable pub invite_message : Text → Text → Text → Text → ℕ → Text
unfolding unlines inbound_caller_headers sdp_body print_nat
invite_message user local call_id peer port =
    let caller = inbound_caller_headers peer local in
    let sdp = sdp_body local port in
    unlines (
      (txt "INVITE sip:" ++ user ++ txt "@" ++ local ++ txt " SIP/2.0")
      ∷ (txt "Via: SIP/2.0/UDP "
          ++ local
          ++ txt ":5060;branch=z9hG4bK"
          ++ short_id call_id
          ++ txt ";rport")
      ∷ (txt "From: " ++ caller.1 ++ txt ";tag=cb" ++ short_id call_id)
      ∷ (txt "To: <sip:" ++ user ++ txt "@" ++ local ++ txt ">")
      ∷ (txt "Call-ID: " ++ call_id)
      ∷ txt "CSeq: 1 INVITE"
      ∷ (txt "Contact: <sip:cellbridge@" ++ local ++ txt ":5060>")
      ∷ txt "Max-Forwards: 70"
      ∷ [])
    ++ caller.0
    ++ unlines (
        txt "Content-Type: application/sdp"
        ∷ (txt "Content-Length: " ++ print_nat (length sdp))
        ∷ []
        ∷ [])
    ++ sdp

unfoldable pub invite_plan : Registration → Addr → Text → Text → Text → Text → ByePlan
unfolding contact_uri inbound_caller_headers
invite_plan reg remote local call_id peer invite = record {
  remote = some remote;
  req_uri = contact_uri reg.contact (some (addr_text remote)) reg.username;
  from = (inbound_caller_headers peer local).1 ++ txt ";tag=cb" ++ short_id call_id;
  to = txt "<sip:" ++ reg.username ++ txt "@" ++ local ++ txt ">";
  call_id = call_id;
  invite_cseq = pos 1;
  invite_branch = txt "z9hG4bK" ++ short_id call_id;
  invite_req = invite;
  username = reg.username;
}

abbrev pub unknown_peer : Text → Text
unknown_peer peer = if is_nil peer then txt "unknown" else peer

module _ {control : Control} ⦃env : Env⦄ where
  -- The invitation of one registration at this address.
  unfoldable pub invite_at :
      Registration → Addr → Session → Server control → Session × Server control
  unfolding invite_message invite_plan
  invite_at reg remote s srv =
      let local = env.local_ip_for remote in
      let invite = invite_message reg.username local s.id s.peer (env.media_port s.id) in
      let tried = remember_invite (record { addr = some remote; req = invite }) s in
      let planned : Session = record (tried.1) {
        bye = some (invite_plan reg remote local s.id s.peer invite);
      } in
      if tried.0 then (planned, send remote invite srv) else (s, srv)

  -- inviteRegistered: a pass over the registrations.
  unfoldable pub invite_registered :
      List Registration → Session → Server control → Session × Server control
  unfolding invite_at
  invite_registered [] s srv = (s, srv)
  invite_registered (reg ∷ regs) s srv = elim (contact_addr env.resolve reg.contact) [
    | none ↦ invite_registered regs s srv
    | some remote ↦
        invite_registered regs (invite_at reg remote s srv).0 (invite_at reg remote s srv).1
  ]

  abbrev pub invite_pass : Session → Server control → Server control
  invite_pass s srv = let r = invite_registered srv.registrations s srv in save r.0 r.1

  -- One sweep of `inviteReregisteredContacts`.
  unfoldable pub invite_sweep : Text → Server control → Server control
  unfolding invite_registered
  invite_sweep id srv = elim (load id srv.sessions) [
    | none ↦ srv
    | some s ↦ if state_eq s.state init then invite_pass s srv else srv
  ]

  abbrev ring_claimed : Bool × List Session → Session → Server control → Server control
  ring_claimed (false, sessions) s srv = srv
  ring_claimed (true, sessions) s srv = invite_pass s (record srv { sessions = sessions })

  -- ringClients, but for the pushes that wake the phone.
  unfoldable pub ring_clients : Event → Server control → Server control
  unfolding invite_registered claim_session
  ring_clients event srv =
      let id = if is_nil event.call_id then take 12 (env.uuid srv.minted) else event.call_id in
      let s = new_session (txt "in-" ++ id) (unknown_peer event.peer) inbound in
      if env.media_ok
      then ring_claimed (claim_session s srv.sessions) s (record srv { minted = suc srv.minted })
      else srv
