-- ===== src/Sip/Server.antt =====
-- sip/server.go: the table of sessions and the handlers over it.
--
-- A handler is a function from the server to the server, and its datagrams are appended to
-- `outbox`. UDP writes go through. The registrar, the authenticator, the media sockets, the voice
-- bridge and the address resolution are not part of the repository: `Env` stands for them.
pub mod Told
pub mod Finality
pub mod Table
pub mod Reaping
pub mod Pickups
pub mod Dialing
pub mod Invitations
pub mod Ending
pub mod Answering
pub mod Ringing
pub mod Inviting
pub mod Requests
use dontmove_kit.Prelude.{
  ℕ, suc, ◌+◌, Bool, true, false, not, ◌&&◌, ◌||◌, Option, none, some, List, [], ◌∷◌, ◌++◌, ◌==◌,
  if◌then◌else◌, is_nil, any,
}
use dontmove_kit.Text.{Text, txt, text_eq}
use dontmove_kit.Sip.Session.{Addr, State, ended, active, Session, state_eq}

-- What the handlers ask of code that is not part of the repository.
pub record Env : Type 0 where
  pub resolve : Text → Option Addr  -- net.ResolveUDPAddr
  pub local_ip_for : Addr → Text  -- the address of the interface that reaches this one
  pub uuid : ℕ → Text
  pub known_user : Text → Bool  -- (*Registrar).Get
  pub needs_auth : Text → Bool  -- (*Auth).NeedsAuth
  pub challenge : Text  -- WWWAuthHeader
  pub media_ok : Bool  -- NewMediaSession succeeds
  pub media_port : Text → ℕ
  pub media_flows : Text → Bool  -- a frame was received or sent
  pub route_ok : Bool  -- PrepareRoute succeeds, or the audio has no route
  pub bridge_ok : Bool  -- (*Bridge).Start succeeds

-- sync.Map's Load, by the session's id.
unfoldable pub load : Text → List Session → Option Session
load id [] = none
load id (s ∷ rest) = if text_eq s.id id then some s else load id rest

-- Delete.
unfoldable pub delete : Text → List Session → List Session
delete id [] = []
delete id (s ∷ rest) = let others = delete id rest in if text_eq s.id id then others else s ∷ others

-- A change of the session that a key holds: sessions are shared by reference.
unfoldable pub modify : Session → List Session → List Session
modify s [] = []
modify s (t ∷ rest) = if text_eq t.id s.id then s ∷ rest else t ∷ modify s rest

-- claimSession: LoadOrStore, and whether it stored.
unfoldable pub claim_session : Session → List Session → Bool × List Session
unfolding load
claim_session s sessions = elim (load s.id sessions) [
  | none ↦ (true, sessions ++ s ∷ [])
  | some t ↦ (false, sessions)
]

abbrev pub is_live : Session → Bool
is_live s = not (state_eq s.state ended)

-- The live session whose cellular leg has this id, the first in the map's order.
unfoldable pub by_modem_id : Text → List Session → Option Session
unfolding text_eq
by_modem_id id [] = none
by_modem_id id (s ∷ rest) =
    if is_live s && (not (is_nil s.modem_id) && text_eq s.modem_id id)
    then some s
    else by_modem_id id rest

unfoldable pub by_audio : List Session → Option Session
by_audio [] = none
by_audio (s ∷ rest) = if state_eq s.state active then some s else by_audio rest

abbrev pub live : Option Session → Option Session
live none = none
live (some s) = if is_live s then some s else none

abbrev pub first_of_two : Option Session → Option Session → Option Session
first_of_two (some s) o = some s
first_of_two none o = o

-- sessionForModemEvent, of an event with this call id. The order of the list stands for the order
-- in which `Range` visits the map.
unfoldable pub session_for_modem_event : Text → List Session → Option Session
unfolding load by_modem_id by_audio
session_for_modem_event id sessions =
    first_of_two (live (load (txt "in-" ++ id) sessions))
      (first_of_two (by_modem_id id sessions) (by_audio sessions))
