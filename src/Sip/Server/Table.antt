-- ===== src/Sip/Server/Table.antt =====
-- sip/server.go: what the table of sessions answers.
use dontmove_kit.Prelude.{
  ◌≡◌, ◌≢◌, refl, ap, ◌∙◌, true, false, not, ◌&&◌, none, some, List, [], ◌∷◌, ◌++◌, arith,
  if◌then◌else◌, inl, inr, ◌⊎◌, ◌↔◌, Option-cases, is_nil, All,
}
use dontmove_kit.Text.{Text, txt, text_eq}
use dontmove_kit.Text.Laws.{text_eq_iff, text_eq_refl}
use dontmove_kit.Sip.Session.{Session, State, active, state_eq}
use dontmove_kit.Sip.Server.{
  load, delete, claim_session, is_live, by_modem_id, by_audio, session_for_modem_event,
}

-- A session of the table.
abbrev pub In : Session → List Session → Type 0
In s [] = ⊥
In s (t ∷ rest) = (s ≡ t) ⊎ In s rest

pub load-delete : (id : Text) (sessions : List Session) → load id (delete id sessions) ≡ none
unfolding load delete
load-delete id [] = refl
load-delete id (s ∷ rest) = ground (arith, load-delete id rest)

pub load_other :
    (id other : Text) (sessions : List Session)
    → text_eq id other ≡ false
    → load other (delete id sessions) ≡ load other sessions
unfolding load delete
load_other id other [] h = refl
load_other id other (s ∷ rest) h = ground (
  arith,
  load_other id other rest h,
  text_eq_iff s.id id,
  text_eq_iff s.id other,
  text_eq_iff id other,
)

load_snoc :
    (s : Session) (sessions : List Session)
    → load s.id sessions ≡ none
    → load s.id (sessions ++ s ∷ []) ≡ some s
unfolding load
load_snoc s [] h = ground (arith, text_eq_refl s.id)
load_snoc s (t ∷ rest) h = ground (arith, load_snoc s rest)

pub claim_wins :
    (s : Session) (sessions : List Session)
    → load s.id sessions ≡ none
    → claim_session s sessions ≡ (true, sessions ++ s ∷ [])
unfolding claim_session
claim_wins s sessions h = rw (claim_session, h) refl

claim_loses :
    (t : Session) (sessions : List Session) (x : Session)
    → load t.id sessions ≡ some x
    → claim_session t sessions ≡ (false, sessions)
unfolding claim_session
claim_loses t sessions x h = rw (claim_session, h) refl

-- Of any claims of one id, one wins at most: the first wins exactly if the id is free, its session is
-- then what the id loads, and otherwise the session that was there; a loser leaves the table as it
-- is, and a claim of the same id that comes after another loses.
pub claim_session_once :
    (s t : Session) (sessions : List Session)
    → t.id ≡ s.id
    → (((claim_session s sessions).0 ≡ true) ↔ (load s.id sessions ≡ none))
      × (load s.id (claim_session s sessions).1
          ≡ elim (load s.id sessions) [ none ↦ some s | some old ↦ some old ])
      × ((claim_session s sessions).1
          ≡ (if (claim_session s sessions).0 then sessions ++ s ∷ [] else sessions))
      × (claim_session t (claim_session s sessions).1 ≡ (false, (claim_session s sessions).1))
claim_session_once s t sessions q = elim (Option-cases (load s.id sessions)) [
  | inl e ↦
      rw (claim_wins s sessions e, e)
        (
          ((λ h. refl), (λ h. refl)),
          load_snoc s sessions e,
          refl,
          claim_loses t (sessions ++ s ∷ []) s
              (ap (λ i. load i (sessions ++ s ∷ [])) q ∙ load_snoc s sessions e),
        )
  | inr (x, e) ↦
      rw (claim_loses s sessions x e, e)
        (
          ((λ h. ground arith), (λ h. ground arith)),
          refl,
          refl,
          claim_loses t sessions x (ap (λ i. load i sessions) q ∙ e),
        )
]

-- Whether an event is about this session: by its id with the prefix of inbound calls, by its modem
-- id, or as the call whose audio is up.
abbrev pub IsAbout : Text → Session → Type 0
IsAbout id s = (s.id ≡ txt "in-" ++ id) ⊎ (((s.modem_id ≡ id) × (id ≢ [])) ⊎ (s.state ≡ active))

state_eq_active : (x : State) → state_eq x active ≡ true → x ≡ active
state_eq_active active h = refl
state_eq_active _ h = ground arith

load_sound :
    (id : Text) (sessions : List Session) (s : Session)
    → load id sessions ≡ some s
    → In s sessions × (s.id ≡ id)
unfolding load
load_sound id [] s h = ground arith
load_sound id (t ∷ rest) s h = ground (arith, load_sound id rest s, text_eq_iff t.id id)

by_modem_id_sound :
    (id : Text) (sessions : List Session) (s : Session)
    → by_modem_id id sessions ≡ some s
    → In s sessions × (is_live s ≡ true) × (s.modem_id ≡ id) × (id ≢ [])
unfolding by_modem_id
by_modem_id_sound id [] s h = ground arith
by_modem_id_sound id (t ∷ rest) s h =
    ground (arith, by_modem_id_sound id rest s, text_eq_iff t.modem_id id)

by_audio_sound :
    (sessions : List Session) (s : Session)
    → by_audio sessions ≡ some s
    → In s sessions × (s.state ≡ active)
unfolding by_audio
by_audio_sound [] s h = ground arith
by_audio_sound (t ∷ rest) s h = ground (arith, by_audio_sound rest s, state_eq_active t.state)

-- No session could have been meant by the event.
abbrev pub IsUnrelated : Text → Session → Type 0
IsUnrelated id s =
    ((is_live s && (not (is_nil s.modem_id) && text_eq s.modem_id id)) ≡ false) × (s.state ≢ active)

by_modem_id-none :
    (id : Text) (sessions : List Session)
    → by_modem_id id sessions ≡ none
    → by_audio sessions ≡ none
    → All (IsUnrelated id) sessions
unfolding by_modem_id by_audio
by_modem_id-none id [] h k = tt
by_modem_id-none id (t ∷ rest) h k = (
  (ground arith, (λ e. ground (arith, ap (λ x. state_eq x active) e))),
  by_modem_id-none id rest (ground arith) (ground arith),
)

-- The session that an event of the modem ends or updates is a live session of the table and one
-- that the event is about.
pub session_for_modem_event_sound :
    (id : Text) (sessions : List Session) (s : Session)
    → session_for_modem_event id sessions ≡ some s
    → In s sessions × (is_live s ≡ true) × IsAbout id s
unfolding session_for_modem_event
session_for_modem_event_sound id sessions s h = ground (
  arith,
  load_sound (txt "in-" ++ id) sessions s,
  by_modem_id_sound id sessions s,
  by_audio_sound sessions s,
)

-- If an event of the modem finds no session, no live session has a modem id that is the event's, and
-- no call is active.
pub session_for_modem_event-none :
    (id : Text) (sessions : List Session)
    → session_for_modem_event id sessions ≡ none
    → All (IsUnrelated id) sessions
unfolding session_for_modem_event
session_for_modem_event-none id sessions h =
    by_modem_id-none id sessions (ground arith) (ground arith)
