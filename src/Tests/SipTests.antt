-- ===== src/Tests/SipTests.antt =====
-- Runs over sip/session.go and sip/server.go.
use dontmove_kit.Prelude.{
  ◌≡◌, refl, true, false, Option, none, some, [], ◌∷◌, ◌++◌, arith, All, ◌↔◌, inl, if◌then◌else◌,
}
use dontmove_kit.Text.{Text, txt, text_eq, cut}
use dontmove_kit.At.Adapter.{Event, ended}
use dontmove_kit.Calls
use dontmove_kit.Sip.Message.{parse_header, extract_sip_user}
use dontmove_kit.Sip.Message.Users.{extract_sip_user-none, IsUnreadable}
use dontmove_kit.Sip.Session.{
  Addr, addr_text, Direction, inbound, outbound, State, init, active, state_eq, Invite, Session,
  new_session, remember_invite, same_addr,
}
use dontmove_kit.Sip.Session.Invites.{IsBounded, IsRecordable, remember_invite-IsBounded}
use dontmove_kit.Sip.Teardown.{contact_addr, add_registrations, send_each}
use dontmove_kit.Sip.Teardown.Targets.{
  AreDistinct, is_target, add_registrations-told, count_to, send_each_twice,
}
use dontmove_kit.Sip.Server.{Env, load, delete, claim_session, session_for_modem_event, is_live}
use dontmove_kit.Sip.Server.Table.{In, IsAbout, claim_session_once, session_for_modem_event_sound}
use dontmove_kit.Sip.Server.Ending.{
  Server, reap_stale_sessions, maybe_reap_ghosts, end_call_by_modem, ring_timeout,
}
use dontmove_kit.Sip.Server.Reaping.{
  reap_stale_sessions-cleared, maybe_reap_ghosts_claimed, hang_each,
}
use dontmove_kit.Sip.Server.Finality.{modem_after, IsLeft, handle_bye_once, end_call_by_modem-final}
use dontmove_kit.Sip.Server.Told.{Sent}
use dontmove_kit.Sip.Server.Answering.{accept_inbound, handle_bye}
use dontmove_kit.Sip.Server.Pickups.{accept_inbound_once}
use dontmove_kit.Sip.Server.Inviting.{new_invite, handle_invite}
use dontmove_kit.Sip.Server.Dialing.{
  IsDialed, dial_modem, IsToldOnce, new_invite_one, handle_invite_repeated,
}
use dontmove_kit.Sip.Server.Ringing.{invite_registered}
use dontmove_kit.Sip.Server.Invitations.{KeptInvites, invite_registered-KeptInvites}
use dontmove_kit.Tests.CallTests.{calm, one_call}

abbrev pub phone : Addr
phone = record { ip = txt "10.0.0.7"; port = 5062 }

abbrev pub home : Env
home = record {
  resolve = λ name. some phone;
  local_ip_for = λ addr. txt "10.0.0.1";
  uuid = λ n. n ∷ txt "a";
  known_user = λ user. true;
  needs_auth = λ msg. false;
  challenge = txt "Digest";
  media_ok = true;
  media_port = λ id. 40000;
  media_flows = λ id. false;
  route_ok = true;
  bridge_ok = true;
}

abbrev ringing : Session
ringing = record (new_session (txt "in-c1") (txt "10086") inbound) { modem_id = txt "c1" }

abbrev invitation : Invite
invitation = record { addr = some phone; req = txt "INVITE" }

remember_invite-IsBounded_run :
    IsBounded (remember_invite invitation ringing).1
    × (((remember_invite invitation ringing).0 ≡ true) ↔ IsRecordable invitation ringing)
    × ((remember_invite invitation ringing).1.invites ≡ (
        if (remember_invite invitation ringing).0
        then ringing.invites ++ invitation ∷ []
        else ringing.invites))
unfolding new_session
remember_invite-IsBounded_run =
    remember_invite-IsBounded invitation ringing (record { few = omega arith; distinct = tt })

claim_session_once_example :
    (((claim_session ringing []).0 ≡ true) ↔ (load ringing.id [] ≡ none))
    × (load ringing.id (claim_session ringing []).1
        ≡ elim (load ringing.id []) [ none ↦ some ringing | some old ↦ some old ])
    × ((claim_session ringing []).1
        ≡ (if (claim_session ringing []).0 then [] ++ ringing ∷ [] else []))
    × (claim_session ringing (claim_session ringing []).1 ≡ (false, (claim_session ringing []).1))
claim_session_once_example = claim_session_once ringing ringing [] refl

session_for_modem_event_sound_run :
    In ringing (ringing ∷ []) × (is_live ringing ≡ true) × IsAbout (txt "c1") ringing
unfolding session_for_modem_event new_session
session_for_modem_event_sound_run =
    session_for_modem_event_sound (txt "c1") (ringing ∷ []) ringing refl

abbrev pub rings : Server calm
rings = record {
  sessions = ringing ∷ [];
  modem = one_call;
  registrations = record { username = txt "me"; contact = txt "<sip:me@10.0.0.7:5062>" } ∷ [];
  outbox = [];
  minted = 0;
}

reap_stale_sessions-cleared_example :
    ((reap_stale_sessions {control = calm} ⦃env = home⦄ rings).sessions ≡ [])
    × ((reap_stale_sessions {control = calm} ⦃env = home⦄ rings).outbox ≡ [])
    × (reap_stale_sessions ⦃env = home⦄ (reap_stale_sessions {control = calm} ⦃env = home⦄ rings)
        ≡ reap_stale_sessions {control = calm} ⦃env = home⦄ rings)
reap_stale_sessions-cleared_example =
    reap_stale_sessions-cleared {control = calm} ⦃env = home⦄ rings

abbrev dialed_one : Session
dialed_one = new_session (txt "d1") (txt "10010") outbound

maybe_reap_ghosts_claimed_run :
    maybe_reap_ghosts {control = calm} ⦃env = home⦄
      (record rings { sessions = (claim_session dialed_one rings.sessions).1 })
    ≡ record rings { sessions = (claim_session dialed_one rings.sessions).1 }
unfolding claim_session new_session text_eq
maybe_reap_ghosts_claimed_run =
    maybe_reap_ghosts_claimed {control = calm} ⦃env = home⦄ dialed_one rings refl refl

abbrev carrier_lost : Event
carrier_lost = record { kind = ended; call_id = txt "c1"; peer = []; raw = txt "NO CARRIER" }

abbrev bye : Text
bye = txt "BYE sip:gw SIP/2.0\r\nCall-ID: in-c1\r\n\r\n"

handle_bye_once_example :
    let id = parse_header bye (txt "Call-ID") in
    let first = handle_bye {control = calm} ⦃env = home⦄ bye phone rings in
    (first.modem ≡ modem_after {control = calm} ⦃env = home⦄ (load id rings.sessions) rings.modem)
    × (load id first.sessions ≡ none)
    × ((other : Text)
        → load other first.sessions
          ≡ (if text_eq id other then none else load other rings.sessions))
    × IsLeft {control = calm} ⦃env = home⦄ first (handle_bye ⦃env = home⦄ bye phone first)
    × Sent {control = calm} ⦃env = home⦄ phone (200 ∷ []) rings first
    × Sent {control = calm} ⦃env = home⦄ phone
        (200 ∷ [])
        first
        (handle_bye ⦃env = home⦄ bye phone first)
unfolding parse_header
handle_bye_once_example =
    handle_bye_once {control = calm} ⦃env = home⦄ bye phone phone rings (λ e. ground (arith, e))

abbrev after_loss : Server calm
after_loss = end_call_by_modem ⦃env = home⦄ carrier_lost rings

end_call_by_modem-final_example :
    (load ringing.id after_loss.sessions ≡ none)
    × (ring_timeout ⦃env = home⦄ ringing after_loss ≡ after_loss)
    × IsLeft {control = calm} ⦃env = home⦄ after_loss (handle_bye ⦃env = home⦄ bye phone after_loss)
unfolding session_for_modem_event new_session parse_header text_eq
end_call_by_modem-final_example =
    end_call_by_modem-final {control = calm} ⦃env = home⦄ carrier_lost ringing bye phone rings refl
      refl

abbrev pickup : Text
pickup =
    txt
      "SIP/2.0 200 OK\r\nTo: <sip:me@h>\r\nFrom: <sip:10086@h>\r\nCall-ID: in-c1\r\nCSeq: 1 INVITE\r\n\r\n"

abbrev invite : Text
invite =
    txt
      "INVITE sip:gw SIP/2.0\r\nTo: <sip:10010@h>\r\nFrom: <sip:me@h>\r\nCall-ID: in-c1\r\nCSeq: 1 INVITE\r\n\r\n"

new_invite_one_example :
    IsDialed {control = calm} ⦃env = home⦄ phone
      (txt "d2")
      (txt "10010")
      rings
      (dial_modem {control = calm} ⦃env = home⦄
        (txt "10010")
        (hang_each {control = calm} ⦃env = home⦄ rings.sessions rings.modem))
      (new_invite {control = calm} ⦃env = home⦄ invite phone
        (txt "10010")
        (txt "me")
        (txt "d2")
        rings)
new_invite_one_example =
    new_invite_one {control = calm} ⦃env = home⦄ invite phone (txt "10010") (txt "me") (txt "d2")
      rings

extract_sip_user-none_run : (extract_sip_user (txt "<sip: ") ≡ none) ↔ IsUnreadable (txt " ")
unfolding cut
extract_sip_user-none_run = extract_sip_user-none (txt "<sip: ") (txt "<") (txt " ") refl

add_registrations-told_run :
    AreDistinct (add_registrations home.resolve (txt "me") rings.registrations (phone ∷ []))
    × (is_target phone (add_registrations home.resolve (txt "me") rings.registrations (phone ∷ []))
        ≡ true)
    × (is_target phone (add_registrations home.resolve (txt "me") rings.registrations (phone ∷ []))
        ≡ true)
unfolding text_eq contact_addr
add_registrations-told_run =
    add_registrations-told home.resolve (txt "me") rings.registrations phone
      (record { username = txt "me"; contact = txt "<sip:me@10.0.0.7:5062>" }) phone (inl refl) refl
      refl

send_each_twice_run :
    All (λ b. count_to b (send_each (λ addr. txt "BYE") (phone ∷ [])) ≡ 2) (phone ∷ [])
send_each_twice_run = send_each_twice (λ addr. txt "BYE") (phone ∷ []) (refl, tt)

abbrev or_server : Option (Server calm) → Server calm
or_server none = rings
or_server (some srv) = srv

abbrev told : Server calm
told = or_server (handle_invite ⦃env = home⦄ invite phone rings)

handle_invite_repeated_example : IsToldOnce {control = calm} ⦃env = home⦄ phone 180 rings told
unfolding load parse_header handle_invite extract_sip_user new_session text_eq
handle_invite_repeated_example =
    handle_invite_repeated {control = calm} ⦃env = home⦄ invite phone (txt "me") ringing rings told
      (λ e. ground (arith, e)) refl refl refl

abbrev picked_up : Server calm
picked_up = or_server (accept_inbound ⦃env = home⦄ ringing pickup phone rings)

-- The session as the pickup leaves it.
abbrev connected : Session
connected = or_session (load ringing.id picked_up.sessions)
  where
    or_session : Option Session → Session
    or_session none = ringing
    or_session (some s) = s

accept_inbound_once_example :
    (connected.state ≡ active)
    × (accept_inbound ⦃env = home⦄ connected pickup phone picked_up ≡ some picked_up)
unfolding load parse_header accept_inbound extract_sip_user new_session text_eq
    dontmove_kit.Sip.Session.begin_answer Calls.answer dontmove_kit.Sip.Server.modify
    dontmove_kit.Sip.Message.parse_sdp_rtp dontmove_kit.Sip.Message.extract_sdp
accept_inbound_once_example =
    accept_inbound_once {control = calm} ⦃env = home⦄ ringing connected pickup pickup phone phone
      rings picked_up refl refl refl refl

invite_registered-KeptInvites_example :
    KeptInvites {control = calm} ⦃env = home⦄ ringing rings
      (invite_registered ⦃env = home⦄ rings.registrations ringing rings)
unfolding new_session
invite_registered-KeptInvites_example =
    invite_registered-KeptInvites {control = calm} ⦃env = home⦄ rings.registrations ringing rings
      (record { few = omega arith; distinct = tt })
