-- ===== src/Sip/Teardown.antt =====
-- sip/server.go: the messages that end a call at the client, and where they are sent.
pub mod Targets
use dontmove_kit.Prelude.{
  ℕ, zero, suc, ◌+◌, Bool, true, false, not, ◌&&◌, ◌||◌, Option, none, some, List, [], ◌∷◌, ◌++◌,
  ◌==◌, if◌then◌else◌, length, is_nil, any, map,
}
use dontmove_kit.Prelude.Int.{ℤ, pos, negsuc}
use dontmove_kit.Text.{Text, txt, text_eq, cut, after_last}
use dontmove_kit.Sip.Message.{
  before, until_any, unlines, build_response, teardown_lines, cancel_message,
}
use dontmove_kit.Sip.Session.{
  Addr, addr_text, Direction, outbound, inbound, State, init, dialing, answering, active, ended,
  Invite, ByePlan, Session, state_eq,
}

-- n + 1.
abbrev pub next : ℤ → ℤ
next (pos n) = pos (suc n)
next (negsuc zero) = pos 0
next (negsuc (suc n)) = negsuc n

abbrev pub is_inbound : Direction → Bool
is_inbound inbound = true
is_inbound outbound = false

-- The CANCEL of a plan: derived from the INVITE, or rebuilt from the fields.
unfoldable pub cancel_of_plan : ByePlan → Text → Text
cancel_of_plan plan local_ip =
    let derived = cancel_message plan.invite_req local_ip in
    if is_nil derived
    then unlines (
        teardown_lines (txt "CANCEL") plan.req_uri local_ip plan.invite_branch plan.from plan.to
          plan.call_id plan.invite_cseq)
    else derived

unfoldable pub bye_of_plan : Text → ByePlan → Text → Text
bye_of_plan fresh plan local_ip = unlines (
    teardown_lines (txt "BYE") plan.req_uri local_ip (txt "z9hG4bK" ++ fresh) plan.from plan.to
      plan.call_id (next plan.invite_cseq))

unfoldable pub unavailable : Text → ByePlan → Text
unavailable tag plan =
    build_response [] plan.invite_req 480 (txt "Temporarily Unavailable") [] [] (txt ";tag=" ++ tag)

-- teardownMessage: the method and the message, both empty when there is nothing to send. `fresh`
-- is the branch that a BYE mints.
unfoldable pub teardown_message : Text → Direction → State → Text → ByePlan → Text → Text × Text
unfolding cancel_of_plan bye_of_plan unavailable
teardown_message fresh direction state tag plan local_ip = elim plan.remote [
  | none ↦ ([], [])
  | some remote ↦
      if is_nil plan.call_id
      then ([], [])
      else if is_inbound direction && state_eq state init
      then (txt "CANCEL", cancel_of_plan plan local_ip)
      else if state_eq state init || state_eq state dialing
      then (if is_nil plan.invite_req then ([], []) else (txt "480", unavailable tag plan))
      else (txt "BYE", bye_of_plan fresh plan local_ip)
]

-- A registration of the registrar, which is not modelled itself.
pub record Registration : Type 0 where
  pub username : Text
  pub contact : Text

-- The text behind the last `@`, or all of it: strings.LastIndex.
unfoldable pub behind_at : Text → Text
unfolding after_last
behind_at s = elim (after_last b'@' s) [ none ↦ s | some rest ↦ rest ]

abbrev resolve_host : (Text → Option Addr) → Option (Text × Text) → Option Addr
resolve_host resolve none = none
resolve_host resolve (some (skipped, rest)) = resolve (behind_at (until_any rest (txt ">;")))

-- contactAddr, over `net.ResolveUDPAddr`.
unfoldable pub contact_addr : (Text → Option Addr) → Text → Option Addr
unfolding cut until_any behind_at
contact_addr resolve contact = resolve_host resolve (cut contact (txt "sip:"))

pub record Datagram : Type 0 where
  pub to_addr : Addr
  pub message : Text

-- The targets collected so far, each address once.
unfoldable pub add_target : List Addr → Option Addr → List Addr
unfolding addr_text
add_target targets none = targets
add_target targets (some addr) =
    if any (λ a. text_eq (addr_text a) (addr_text addr)) targets
    then targets
    else targets ++ addr ∷ []

unfoldable pub add_registrations :
    (Text → Option Addr) → Text → List Registration → List Addr → List Addr
unfolding add_target contact_addr text_eq
add_registrations resolve username [] targets = targets
add_registrations resolve username (reg ∷ regs) targets = add_registrations resolve username regs (
    if not (is_nil username) && not (text_eq reg.username username)
    then targets
    else add_target targets (contact_addr resolve reg.contact))

-- Each target gets the message twice, unless there is none.
unfoldable pub send_twice : Text → Addr → List Datagram
send_twice message addr =
    let d : Datagram = record { to_addr = addr; message = message } in
    if is_nil message then [] else d ∷ d ∷ []

-- The sends of a dialog's end, to every target.
unfoldable pub send_each : (Addr → Text) → List Addr → List Datagram
unfolding send_twice
send_each message [] = []
send_each message (addr ∷ addrs) = send_twice (message addr) addr ++ send_each message addrs

-- The CANCEL of one invitation.
abbrev pub invite_cancel : (Addr → Text) → Text → ByePlan → Invite → Addr → Text
invite_cancel local_ip_for tag plan a addr =
    let derived = cancel_message a.req (local_ip_for addr) in
    if is_nil derived
    then (teardown_message [] inbound init tag (record plan { remote = some addr })
        (local_ip_for addr)).1
    else derived

unfoldable pub cancel_attempts : (Addr → Text) → Text → ByePlan → List Invite → List Datagram
unfolding send_twice
cancel_attempts local_ip_for tag plan [] = []
cancel_attempts local_ip_for tag plan (a ∷ rest) =
    (elim a.addr [
      | none ↦ []
      | some addr ↦ send_twice (invite_cancel local_ip_for tag plan a addr) addr
    ])
    ++ cancel_attempts local_ip_for tag plan rest

-- cancelInvitations: with no invitation recorded, the plan's own stands for one.
unfoldable pub cancel_invitations : (Addr → Text) → Session → ByePlan → List Datagram
unfolding cancel_attempts
cancel_invitations local_ip_for s plan = cancel_attempts local_ip_for s.local_tag plan (
    if is_nil s.invites
    then record { addr = plan.remote; req = plan.invite_req } ∷ []
    else s.invites)

-- sendDialogTeardown: what is sent. `fresh` names the branch of each target's BYE.
unfoldable pub send_dialog_teardown :
    (Text → Option Addr)
    → (Addr → Text)
    → (Addr → Text)
    → List Registration
    → Session
    → List Datagram
unfolding cancel_invitations send_each add_registrations add_target
send_dialog_teardown resolve local_ip_for fresh regs s = elim s.bye [
  | none ↦ []
  | some plan ↦ elim plan.remote [
    | none ↦ []
    | some remote ↦
        if is_inbound s.direction && state_eq s.state init
        then cancel_invitations local_ip_for s plan
        else send_each
            (λ addr.
              (teardown_message (fresh addr) s.direction s.state s.local_tag
                (record plan { remote = some addr }) (local_ip_for remote)).1)
            (add_registrations resolve plan.username regs (remote ∷ []))
  ]
]
