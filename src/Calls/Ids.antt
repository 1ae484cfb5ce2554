-- ===== src/Calls/Ids.antt =====
-- modem/call_adapter.go: how modem ids and logical ids are matched.
use dontmove_kit.Prelude.{ℕ, ◌<◌, ◌≡◌, ◌≢◌, ap, ◌∙◌, List, [], ◌∷◌, ◌++◌, arith, length}
use dontmove_kit.Text.{Text, text_eq}
use dontmove_kit.Text.Laws.{text_eq_iff, text_eq_refl}
use dontmove_kit.At.Adapter.{ended, Event, event_capacity}
use dontmove_kit.Calls.{
  Control, ok, err, no_active_call, ActiveCall, set_logical_call_id, answer, dtmf, hangup, forward,
  dial,
}

abbrev pub ended_event : Text → Text → Event
ended_event id raw = record { kind = ended; call_id = id; peer = []; raw = raw }

module _ (control : Control) where
  -- With no call up, Answer, DTMF and Hangup fail as such and change nothing: the control's state
  -- is the one before.
  pub no_call_refused :
      (digit : ℕ) (a : ActiveCall control)
      → a.active ≡ []
      → (answer control a ≡ (err no_active_call, a))
        × (dtmf control digit a ≡ (err no_active_call, a))
        × (hangup control a ≡ (err no_active_call, a))
  unfolding answer dtmf hangup
  no_call_refused digit a h = (ground arith, ground arith, ground arith)

  hangup_state :
      (a : ActiveCall control)
      → (hangup control a).0 ≡ ok tt
      → ((hangup control a).1.last_physical ≡ a.active)
        × ((hangup control a).1.last_logical ≡ a.logical)
        × ((hangup control a).1.active ≡ [])
        × ((hangup control a).1.logical ≡ [])
        × ((hangup control a).1.events ≡ a.events)
  unfolding hangup
  hangup_state a h = ground arith

  ended_up :
      (raw : Text) (a : ActiveCall control)
      → a.active ≢ []
      → a.logical ≢ []
      → a.last_physical ≢ a.active
      → length a.events < event_capacity
      → ((forward control (ended_event a.active raw) a).events
          ≡ a.events ++ ended_event a.logical raw ∷ [])
        × ((forward control (ended_event a.active raw) a).active ≡ [])
  unfolding forward
  ended_up raw a p l f r =
      ground (arith, text_eq_iff a.active a.last_physical, text_eq_refl a.active)

  ended_late :
      (id logical raw : Text) (b : ActiveCall control)
      → id ≢ []
      → logical ≢ []
      → b.last_physical ≡ id
      → b.last_logical ≡ logical
      → length b.events < event_capacity
      → (forward control (ended_event id raw) b).events ≡ b.events ++ ended_event logical raw ∷ []
  unfolding forward
  ended_late id logical raw b p l e f r =
      ground (arith, text_eq_iff id b.last_physical, text_eq_refl id)

  -- The end of a call is passed on under its logical id whether the modem reports it while the call
  -- is up or only after a successful Hangup, if the call has both ids, the previous call had
  -- another modem id, and the channel has room.
  pub ended_reported :
      (raw : Text) (a : ActiveCall control)
      → a.active ≢ []
      → a.logical ≢ []
      → a.last_physical ≢ a.active
      → length a.events < event_capacity
      → (hangup control a).0 ≡ ok tt
      → ((forward control (ended_event a.active raw) a).events
          ≡ a.events ++ ended_event a.logical raw ∷ [])
        × ((forward control (ended_event a.active raw) a).active ≡ [])
        × ((forward control (ended_event a.active raw) (hangup control a).1).events
            ≡ a.events ++ ended_event a.logical raw ∷ [])
  ended_reported raw a p l f r h =
      let up = ended_up raw a p l f r in
      let down = hangup_state a h in
      (
        up.0,
        up.1,
        ended_late a.active a.logical raw (hangup control a).1 p l down.0 down.1
              (omega (arith, ap length down.4))
            ∙ ap (λ (es : List Event). es ++ ended_event a.logical raw ∷ []) down.4,
      )

  stray_end :
      (raw : Text) (a : ActiveCall control)
      → a.active ≡ []
      → (forward control (ended_event [] raw) a).logical ≡ []
  unfolding forward text_eq
  stray_end raw a h = ground arith

  dial_logical :
      (peer : Text) (a : ActiveCall control) → (dial control peer a).1.logical ≡ a.logical
  unfolding dial
  dial_logical peer a = ground arith

  -- A stray report of an ended call that names none, as the modem's "NO CARRIER" with no call up,
  -- wipes the logical id that was set for the next call: the dial that follows has none.
  pub stray_end_wipes_logical :
      (logical raw peer : Text) (a : ActiveCall control)
      → a.active ≡ []
      → (dial control peer
          (forward control (ended_event [] raw) (set_logical_call_id control logical a))).1.logical
        ≡ []
  unfolding set_logical_call_id
  stray_end_wipes_logical logical raw peer a h =
      dial_logical peer _ ∙ stray_end raw (record a { logical = logical }) h
