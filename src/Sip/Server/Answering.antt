-- ===== src/Sip/Server/Answering.antt =====
-- sip/server.go and sip/session.go: how inbound calls are answered, and the client's own endings.
use dontmove_kit.Prelude.{
  ℕ, suc, Bool, true, false, ◌&&◌, ◌||◌, Option, none, some, [], ◌∷◌, ◌++◌, ◌==◌, leb,
  if◌then◌else◌, is_nil,
}
use dontmove_kit.Prelude.Int.{pos, negsuc}
use dontmove_kit.Text.{Text, txt, contains, to_upper, split, cut, fields, print_nat}
use dontmove_kit.Calls.{Control, Outcome, ok, err, ActiveCall}
use dontmove_kit.Calls
use dontmove_kit.Sip.Message.{
  crlf, parse_header, head_or, before, or_else, scan_number, contact_uri, extract_sip_user,
  extract_sdp, parse_sdp_rtp, unlines,
}
use dontmove_kit.Sip.Session.{Addr, addr_text, active, ByePlan, Session, begin_answer}
use dontmove_kit.Sip.Teardown.{is_inbound}
use dontmove_kit.Sip.Server.{Env, load}
use dontmove_kit.Sip.Server.Ending.{Server, send, respond, hangup_session, remove, save}

unfoldable pub ack_message : ⦃env : Env⦄ → Text → Addr → Text → Text → Text
ack_message ⦃env⦄ resp remote user fresh = unlines (
    (txt "ACK sip:" ++ user ++ txt "@" ++ addr_text remote ++ txt " SIP/2.0")
    ∷ (txt "Via: SIP/2.0/UDP "
        ++ env.local_ip_for remote
        ++ txt ":5060;branch=z9hG4bK"
        ++ fresh
        ++ txt ";rport")
    ∷ txt "Max-Forwards: 70"
    ∷ (txt "From: " ++ parse_header resp (txt "From"))
    ∷ (txt "To: " ++ parse_header resp (txt "To"))
    ∷ (txt "Call-ID: " ++ parse_header resp (txt "Call-ID"))
    ∷ (txt "CSeq: " ++ head_or (txt "1") (fields (parse_header resp (txt "CSeq"))) ++ txt " ACK")
    ∷ txt "Content-Length: 0"
    ∷ []
    ∷ [])

abbrev pub no_plan : ByePlan
no_plan = record {
  remote = none;
  req_uri = [];
  from = [];
  to = [];
  call_id = [];
  invite_cseq = pos 0;
  invite_branch = [];
  invite_req = [];
  username = [];
}

abbrev pub or_user : Option Text → Option Text → Option Text
or_user none o = none
or_user (some []) o = o
or_user (some (c ∷ s)) o = some (c ∷ s)

-- inboundRTPTarget: the port of the answer's SDP at the packet's own address.
unfoldable pub inbound_rtp_target : Addr → Text → Text
inbound_rtp_target remote sdp =
    let port = (parse_sdp_rtp sdp).1 in
    if port == 0 then [] else remote.ip ++ txt ":" ++ print_nat port

abbrev pub plan_to : Text → ByePlan → Text
plan_to header plan = if is_nil header then plan.to else header

abbrev pub plan_uri : Text → ByePlan → Text
plan_uri uri plan = if is_nil uri then plan.req_uri else uri

-- The plan of the established dialog, from the client's 200; `user` is the name in its To.
unfoldable pub answered_plan : Text → Addr → Text → ByePlan → ByePlan
answered_plan msg remote user plan = record plan {
  remote = some remote;
  to = plan_to (parse_header msg (txt "To")) plan;
  req_uri =
      plan_uri (contact_uri (parse_header msg (txt "Contact")) (some (addr_text remote)) user) plan;
}

abbrev pub plan_of : Session → ByePlan
plan_of s = elim s.bye [ none ↦ no_plan | some plan ↦ plan ]

abbrev pub set_target : Text → Session → Session
set_target target s = if is_nil target then s else record s { rtp_target = target }

abbrev pub status_word : Option (Text × Text) → Option Text
status_word none = none
status_word (some (version, rest)) = some (before (cut rest (txt " ")) rest)

-- The status code of a response, if its first line has a second word.
unfoldable pub response_code : Text → Option ℕ
response_code msg = elim (status_word (cut (head_or [] (split msg crlf)) (txt " "))) [
  | none ↦ none
  | some word ↦ some (or_else (scan_number word) 0)
]

abbrev pub is_provisional : ℕ → Bool
is_provisional code = code == 100 || code == 180 || code == 183

module _ {control : Control} ⦃env : Env⦄ where
  abbrev pub active_modem : Server control → Text
  active_modem srv = srv.modem.active

  -- The part of AnswerInbound behind a successful ATA: the wait is not fatal, the bridge is.
  unfoldable pub bridge_inbound : Session → Server control → Bool × Session × Server control
  bridge_inbound s srv =
      let waited = control.wait_active_dir (negsuc 0) srv.modem.line in
      let srv' = record srv { modem = record (srv.modem) { line = waited.1 } } in
      let known = record s { modem_id = srv.modem.active } in
      if env.bridge_ok
      then (true, record known { state = active; bridging = true }, srv')
      else (false, known, srv')

  -- (*SIPCallSession).AnswerInbound.
  unfoldable pub answer_inbound : Session → Server control → Bool × Session × Server control
  unfolding bridge_inbound
  answer_inbound s srv =
      let r = Calls.answer control srv.modem in
      let srv' : Server control = record srv { modem = r.1 } in
      elim r.0 [ err e ↦ (false, s, srv') | ok lines ↦ bridge_inbound s srv' ]

  abbrev pub answered : Bool × Session × Server control → Server control
  answered (true, s, srv) = save s srv
  answered (false, s, srv) = hangup_session s (remove s.id srv)

  -- acceptInbound behind the claim of the pickup: the ACK to this user, the plan, the RTP target,
  -- and the cellular answer.
  unfoldable pub accept_with : Session → Text → Addr → Text → Text → Server control → Server control
  unfolding answered_plan inbound_rtp_target answer_inbound ack_message
  accept_with s msg remote ack_user plan_user srv =
      let planned = record s { bye = some (answered_plan msg remote plan_user (plan_of s)) } in
      let aimed = set_target (inbound_rtp_target remote (extract_sdp msg)) planned in
      let acked =
        send remote (ack_message msg remote ack_user (env.uuid srv.minted))
          (record srv { minted = suc srv.minted }) in
      answered (answer_inbound aimed (save aimed acked))

  abbrev pub accept_as :
      Option Text → Option Text → Session → Text → Addr → Server control → Option (Server control)
  accept_as (some user) (some name) s msg remote srv =
      some (accept_with s msg remote user name (save s srv))
  accept_as _ _ s msg remote srv = none

  -- acceptInbound; `none` is a panic in `extractSIPUser`.
  unfoldable pub accept_inbound : Session → Text → Addr → Server control → Option (Server control)
  unfolding accept_with
  accept_inbound s msg remote srv =
      let to = parse_header msg (txt "To") in
      let ack_user =
        or_user (extract_sip_user to) (extract_sip_user (parse_header msg (txt "From"))) in
      let plan_user = extract_sip_user (plan_to to (plan_of s)) in
      if (begin_answer s).0
      then accept_as ack_user plan_user (begin_answer s).1 msg remote srv
      else some srv

  -- The switch of `handleResponse` for an inbound session.
  unfoldable pub respond_to :
      ℕ → Text → Session → Text → Addr → Server control → Option (Server control)
  respond_to code cseq s msg remote srv =
      if is_provisional code
      then some srv
      else if code == 200 && contains (to_upper cseq) (txt "INVITE")
      then accept_inbound s msg remote srv
      else if leb 300 code
      then some (hangup_session s (remove s.id srv))
      else some srv

  -- handleResponse.
  unfoldable pub handle_response : Text → Addr → Server control → Option (Server control)
  unfolding response_code respond_to
  handle_response msg remote srv =
      let call_id = parse_header msg (txt "Call-ID") in
      let cseq = parse_header msg (txt "CSeq") in
      elim (response_code msg) [
        | none ↦ some srv
        | some code ↦
            if is_nil call_id || contains (to_upper cseq) (txt "CANCEL")
            then some srv
            else elim (load call_id srv.sessions) [
              | none ↦ some srv
              | some s ↦
                  if is_inbound s.direction then respond_to code cseq s msg remote srv else some srv
            ]
      ]

  abbrev pub hang_loaded : Option Session → Server control → Server control
  hang_loaded none srv = srv
  hang_loaded (some s) srv = remove s.id (hangup_session s srv)

  -- handleAckBye, of a BYE or a CANCEL. The reap that it schedules is `maybe_reap_ghosts`, later.
  unfoldable pub handle_bye : Text → Addr → Server control → Server control
  unfolding respond hangup_session
  handle_bye msg remote srv =
      let call_id = parse_header msg (txt "Call-ID") in
      respond remote msg 200 (txt "OK") [] [] []
        (if is_nil call_id then srv else hang_loaded (load call_id srv.sessions) srv)
