-- ===== src/Sip/Server/Pickups.antt =====
-- sip/server.go and sip/session.go: a client's pickup, and the INVITE of a call it opens.
use dontmove_kit.Prelude.{
  ◌≡◌, refl, sym, ◌∙◌, Bool, true, false, Option, none, some, List, [], ◌∷◌, arith, inl, inr, ◌⊎◌,
}
use mathlib.Core.Path.{subst}
use dontmove_kit.Text.{Text, txt}
use dontmove_kit.Text.Laws.{text_eq_refl}
use dontmove_kit.Calls.{Control}
use dontmove_kit.Sip.Message.{parse_header, extract_sdp, extract_sip_user}
use dontmove_kit.Sip.Session.{Addr, Session, init, answering, active, state_eq, begin_answer}
use dontmove_kit.Sip.Server.{Env, load, modify}
use dontmove_kit.Sip.Server.Table.{load-delete}
use dontmove_kit.Sip.Server.Reaping.{modify_deleted}
use dontmove_kit.Sip.Server.Ending.{Server, hangup_session, save}
use dontmove_kit.Sip.Server.Answering.{
  inbound_rtp_target, set_target, accept_as, or_user, plan_to, plan_of, bridge_inbound,
  answer_inbound, accept_with, accept_inbound, answered,
}

load-modify :
    (u t : Session) (sessions : List Session)
    → load u.id sessions ≡ some t
    → load u.id (modify u sessions) ≡ some u
unfolding load modify
load-modify u t [] h = ground arith
load-modify u t (x ∷ rest) h = ground (arith, load-modify u t rest, text_eq_refl u.id)

modify_absent :
    (u : Session) (sessions : List Session)
    → load u.id sessions ≡ none
    → modify u sessions ≡ sessions
unfolding load modify
modify_absent u [] h = refl
modify_absent u (x ∷ rest) h = ground (arith, modify_absent u rest)

-- A session that the table holds under this id is active.
abbrev pub IsActiveOrGone : Text → List Session → Type 0
IsActiveOrGone id sessions =
    (load id sessions ≡ none) ⊎ ((u : Session) × (load id sessions ≡ some u) × (u.state ≡ active))

set_target_keeps : (target : Text) (s : Session) → (set_target target s).id ≡ s.id
set_target_keeps target s = ground arith

active_found :
    (id : Text) (sessions : List Session) (u : Session)
    → IsActiveOrGone id sessions
    → load id sessions ≡ some u
    → u.state ≡ active
active_found id sessions u h e = ground arith

not_init :
    (id : Text) (sessions : List Session) (u : Session)
    → IsActiveOrGone id sessions
    → load id sessions ≡ some u
    → state_eq u.state init ≡ false
not_init id sessions u h e = ground arith

module _ {control : Control} ⦃env : Env⦄ where
  answered_cases :
      (r : Bool × Session × Server control) (t : Session)
      → load r.1.id r.2.sessions ≡ some t
      → (r.0 ≡ true → r.1.state ≡ active)
      → IsActiveOrGone r.1.id (answered r).sessions
  unfolding hangup_session
  answered_cases (true, s, srv) t h a = inr (s, load-modify s t srv.sessions h, a refl)
  answered_cases (false, s, srv) t h a =
      inl (rw (modify_deleted s srv.sessions) (load-delete s.id srv.sessions))

  -- AnswerInbound keeps the session's id and the table, and leaves the session active if it succeeds.
  answer_inbound_keeps :
      (s : Session) (srv : Server control)
      → ((answer_inbound s srv).1.id ≡ s.id)
        × ((answer_inbound s srv).2.sessions ≡ srv.sessions)
        × ((answer_inbound s srv).0 ≡ true → (answer_inbound s srv).1.state ≡ active)
  unfolding answer_inbound bridge_inbound
  answer_inbound_keeps s srv = ground arith

  picked :
      (aimed : Session) (acked : Server control) (t : Session) (id : Text)
      → aimed.id ≡ id
      → load id acked.sessions ≡ some t
      → IsActiveOrGone id (answered (answer_inbound aimed (save aimed acked))).sessions
  picked aimed acked t id e h =
      let srv : Server control = save aimed acked in
      let r = answer_inbound aimed srv in
      let k = answer_inbound_keeps aimed srv in
      let stored : load aimed.id (modify aimed acked.sessions) ≡ some aimed =
        load-modify aimed t acked.sessions
          (subst (λ i. load i acked.sessions ≡ some t) (sym e) h) in
      subst (λ i. IsActiveOrGone i (answered r).sessions) (k.0 ∙ e)
        (answered_cases r aimed (rw (k.0, k.1) stored) k.2)

  accept_with-active :
      (s : Session) (msg : Text) (remote : Addr) (ack_user plan_user : Text) (srv : Server control)
      (t : Session)
      → load s.id srv.sessions ≡ some t
      → IsActiveOrGone s.id (accept_with s msg remote ack_user plan_user srv).sessions
  unfolding accept_with
  accept_with-active s msg remote ack_user plan_user srv t h =
      picked _ _ t s.id (set_target_keeps (inbound_rtp_target remote (extract_sdp msg)) _) h

  accept_as-active :
      (user name : Option Text) (s : Session) (msg : Text) (remote : Addr)
      (srv srv' : Server control) (t : Session)
      → load s.id srv.sessions ≡ some t
      → accept_as user name s msg remote srv ≡ some srv'
      → IsActiveOrGone s.id srv'.sessions
  accept_as-active (some user) (some name) s msg remote srv srv' t h e =
      subst (λ o. elim o [ none ↦ Unit {0} | some v ↦ IsActiveOrGone s.id v.sessions ]) e
        (accept_with-active s msg remote user name (save s srv) s (load-modify s t srv.sessions h))
  accept_as-active (some user) none s msg remote srv srv' t h e = ground arith
  accept_as-active none name s msg remote srv srv' t h e = ground arith

  accept_inbound_unclaimed :
      (s : Session) (msg : Text) (remote : Addr) (srv : Server control)
      → state_eq s.state init ≡ true
      → accept_inbound s msg remote srv
        ≡ accept_as
            (or_user
              (extract_sip_user (parse_header msg (txt "To")))
              (extract_sip_user (parse_header msg (txt "From"))))
            (extract_sip_user (plan_to (parse_header msg (txt "To")) (plan_of s)))
            (record s { state = answering })
            msg
            remote
            srv
  unfolding accept_inbound begin_answer
  accept_inbound_unclaimed s msg remote srv h = rw (accept_inbound, begin_answer, h) refl

  accept_inbound_claimed :
      (s : Session) (msg : Text) (remote : Addr) (srv : Server control)
      → state_eq s.state init ≡ false
      → accept_inbound s msg remote srv ≡ some srv
  unfolding accept_inbound begin_answer
  accept_inbound_claimed s msg remote srv h = ground arith

  -- After a client's 200 that picks a ringing call up, the call's session is active if the table
  -- still has one; and then a 200 that comes for it again, with any content and from any address,
  -- changes nothing: neither the modem nor the table is touched, and nothing is sent.
  pub accept_inbound_once :
      (s u : Session) (msg msg' : Text) (remote remote' : Addr) (srv srv' : Server control)
      → load s.id srv.sessions ≡ some s
      → s.state ≡ init
      → accept_inbound s msg remote srv ≡ some srv'
      → load s.id srv'.sessions ≡ some u
      → (u.state ≡ active) × (accept_inbound u msg' remote' srv' ≡ some srv')
  unfolding accept_inbound begin_answer
  accept_inbound_once s u msg msg' remote remote' srv srv' h i e l =
      let claimed : Session = record s { state = answering } in
      let found : IsActiveOrGone s.id srv'.sessions =
        accept_as-active _ _ claimed msg remote srv srv' s h
          (sym (accept_inbound_unclaimed s msg remote srv (rw i refl)) ∙ e) in
      (
        active_found s.id srv'.sessions u found l,
        accept_inbound_claimed u msg' remote' srv' (not_init s.id srv'.sessions u found l),
      )
