-- ===== src/Sip/Session.antt =====
-- sip/session.go: one call on the SIP side, and sip/server.go's `teardownMessage` over it.
pub mod Invites
use dontmove_kit.Prelude.{
  ℕ, zero, suc, ◌+◌, Bool, true, false, not, ◌&&◌, ◌||◌, Option, none, some, List, [], ◌∷◌, ◌++◌,
  ◌==◌, ltb, if◌then◌else◌, length, is_nil, any,
}
use dontmove_kit.Prelude.Int.{ℤ, pos}
use dontmove_kit.Text.{Text, txt, text_eq, contains, print_nat}

-- net.UDPAddr.
pub record Addr : Type 0 where
  pub ip : Text
  pub port : ℕ

-- (*UDPAddr).String: an address with a colon stands in brackets.
unfoldable pub addr_text : Addr → Text
unfolding contains print_nat
addr_text a =
    (if contains a.ip (txt ":") then txt "[" ++ a.ip ++ txt "]" else a.ip)
    ++ txt ":"
    ++ print_nat a.port

pub data Direction : Type 0 where
  outbound inbound : Direction

pub data State : Type 0 where
  init dialing answering active ended : State

-- inviteAttempt.
pub record Invite : Type 0 where
  pub addr : Option Addr
  pub req : Text

pub record ByePlan : Type 0 where
  pub remote : Option Addr
  pub req_uri : Text
  pub from : Text
  pub to : Text
  pub call_id : Text
  pub invite_cseq : ℤ
  pub invite_branch : Text
  pub invite_req : Text
  pub username : Text

-- SIPCallSession, without its handles on the modem, the audio and the lock.
pub record Session : Type 0 where
  pub id : Text
  pub peer : Text
  pub direction : Direction
  pub state : State
  pub local_tag : Text
  pub modem_id : Text
  pub bye : Option ByePlan  -- none until SetByePlan: `hasBye`
  pub invites : List Invite
  pub canceled : Bool
  pub bridging : Bool
  pub media_open : Bool
  pub rtp_target : Text  -- what MediaSession.SetRemote was last given

unfoldable pub new_session : Text → Text → Direction → Session
new_session id peer direction = record {
  id = id;
  peer = peer;
  direction = direction;
  state = init;
  local_tag = [];
  modem_id = [];
  bye = none;
  invites = [];
  canceled = false;
  bridging = false;
  media_open = true;
  rtp_target = [];
}

abbrev pub state_eq : State → State → Bool
state_eq init init = true
state_eq dialing dialing = true
state_eq answering answering = true
state_eq active active = true
state_eq ended ended = true
state_eq _ _ = false

-- beginAnswer.
unfoldable pub begin_answer : Session → Bool × Session
begin_answer s =
    if state_eq s.state init then (true, record s { state = answering }) else (false, s)

unfoldable pub to_tag : Session → Text
to_tag s = if is_nil s.local_tag then [] else txt ";tag=" ++ s.local_tag

abbrev pub max_invite_attempts : ℕ
max_invite_attempts = 8

-- An invitation that went to this address.
abbrev pub same_addr : Addr → Invite → Bool
same_addr addr have = elim have.addr [
  | none ↦ false
  | some a ↦ text_eq (addr_text a) (addr_text addr)
]

abbrev remember_at : Option Addr → Invite → Session → Bool × Session
remember_at none a s = (false, s)
remember_at (some addr) a s =
    if is_nil a.req
    then (false, s)
    else if any (same_addr addr) s.invites
    then (false, s)
    else if not (ltb (length s.invites) max_invite_attempts)
    then (false, s)
    else (true, record s { invites = s.invites ++ a ∷ [] })

-- RememberInvite.
unfoldable pub remember_invite : Invite → Session → Bool × Session
remember_invite a s = remember_at a.addr a s
