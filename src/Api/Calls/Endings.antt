-- ===== src/Api/Calls/Endings.antt =====
-- api/server.go: what the end of a call leaves on the line and of its media.
use dontmove_kit.Prelude.{
  ℕ, ◌≡◌, refl, ap, ◌∙◌, true, ◌&&◌, none, some, List, inl, inr, Bool-cases, is_some, if_either,
  if_true,
}
use dontmove_kit.Text.{Text, txt}
use dontmove_kit.At.Adapter.{Event, ended}
use dontmove_kit.Api.{Call, Line}
use dontmove_kit.Api.State.{Result, good, bad, Env, Server}
use dontmove_kit.Api.Keys.Frames.{audit_view}
use dontmove_kit.Api.Calls.{
  is_not_active, active_id, without, stopped, stop_recording, publish_call, saved, persist_call,
  close_webrtc, finished, finish_ended, went_down, on_modem_event, handle_modem_event,
}

abbrev pub ended_event : Text → Text → Text → Event
ended_event call_id peer raw = record { kind = ended; call_id = call_id; peer = peer; raw = raw }

-- The line, the calls with media and the controller.
abbrev pub front : {env : Env} → Server env → Line × List Text × env.Control
front s = (s.line, s.media, s.control)

pub active_id-ended : (call : Call) → is_some call.ended_at ≡ true → active_id call ≡ none
unfolding active_id
active_id-ended call over = if_true (is_some call.ended_at) none (some call.id) over

module _ {env : Env} where
  front-stopped :
      (call : Call) (r : Result (Unit {0})) (s : Server env)
      → front (stopped env call r s) ≡ front s
  front-stopped call (good u) s = refl
  front-stopped call (bad e) s = elim (Bool-cases (is_not_active e)) [
    | inl idle ↦ rw idle refl
    | inr other ↦ rw other (
        audit_view (front {env = env}) (λ t store. refl) (txt "system") (txt "recording.stop")
          call.id (txt "failed") s)
  ]

  front-stop_recording :
      (call : Call) (s : Server env) → front (stop_recording env call s) ≡ front s
  unfolding stop_recording
  front-stop_recording call s = elim (Bool-cases (is_some call.ended_at && env.has_recordings)) [
    | inl on ↦
        let r = env.stop_recording call.id call.end_reason s.store in
        rw on (front-stopped call r.0 (record s { store = r.1 }))
    | inr off ↦ rw off refl
  ]

  front-publish_call :
      (sequence : ℕ) (kind : Text) (call : Call) (s : Server env)
      → front (publish_call env sequence kind call s) ≡ front s
  unfolding publish_call
  front-publish_call sequence kind call s = elim (Bool-cases env.has_events) [
    | inl on ↦ rw on refl
    | inr off ↦ rw off refl
  ]

  front-saved :
      (call : Call) (kind : Text) (r : Result ℕ) (s : Server env)
      → front (saved env call kind r s).1 ≡ front s
  front-saved call kind (bad e) s = refl
  front-saved call kind (good sequence) s =
      front-publish_call sequence kind call _ ∙ front-stop_recording call s

  -- Storing a call's state names it as the line's active call, or none if it has ended; whether it is
  -- stored or not.
  pub front-persist_call :
      (call : Call) (kind : Text) (s : Server env)
      → front (persist_call env (call, kind) s).1
        ≡ (record s.line { active_call_id = active_id call }, s.media, s.control)
  unfolding persist_call
  front-persist_call call kind s =
      let line : Line = record s.line { active_call_id = active_id call } in
      let t : Server env = record s { line = line } in
      let r = env.save_call call s.store in
      let u : Server env = record t { store = r.1 } in
      if_either (λ (p : Result ℕ × Server env). front p.1 ≡ (line, s.media, s.control))
        env.has_database (saved env call kind r.0 u) (good 0, t) (front-saved call kind r.0 u) refl

  finish_ended-front :
      (call final : Call) (kind : Text) (control : env.Control) (s : Server env)
      → env.finish call.id s.control ≡ (good (final, kind), control)
      → is_some final.ended_at ≡ true
      → ((finish_ended env call s).line.active_call_id ≡ none)
        × ((finish_ended env call s).media ≡ without final.id s.media)
  unfolding finish_ended close_webrtc
  finish_ended-front call final kind control s done over =
      let change = ap (λ r. finished env r.0 (record s { control = r.1 })) done in
      let stored = front-persist_call final kind (record s { control = control }) in
      (
        ap (λ t. t.line.active_call_id) change
            ∙ ap (λ f. f.0.active_call_id) stored
            ∙ active_id-ended final over,
        ap (λ t. t.media) change ∙ ap (λ f. without final.id f.1) stored,
      )

  -- A call that the modem's own event ends: the line has no active call, and the call has no media,
  -- whatever the database answers. The controller ends the call with that event, and gives it as ended.
  pub handle_modem_event-ended :
      (call_id peer raw : Text) (s : Server env) (call final : Call) (kind last_kind : Text)
      (control control' : env.Control)
      → env.has_control ≡ true
      → env.remote_ended call_id raw s.control ≡ (good (call, kind), control)
      → env.finish call.id control ≡ (good (final, last_kind), control')
      → is_some final.ended_at ≡ true
      → ((handle_modem_event env (ended_event call_id peer raw) s).line.active_call_id ≡ none)
        × ((handle_modem_event env (ended_event call_id peer raw) s).media
            ≡ without final.id s.media)
  unfolding handle_modem_event
  handle_modem_event-ended call_id peer raw s call final kind last_kind control control' on went
        done over =
      let s1 : Server env = record s { control = control } in
      let s2 : Server env = (persist_call env (call, kind) s1).1 in
      let stored = front-persist_call call kind s1 in
      let event = ended_event call_id peer raw in
      let change : handle_modem_event env event s ≡ finish_ended env call s2 =
        if_true env.has_control (on_modem_event env ended event s) s on
        ∙ ap (λ r. went_down env r.0 (record s { control = r.1 })) went in
      let asked : env.finish call.id s2.control ≡ (good (final, last_kind), control') =
        ap (λ f. env.finish call.id f.2) stored ∙ done in
      let front_of = finish_ended-front call final last_kind control' s2 asked over in
      (
        ap (λ t. t.line.active_call_id) change ∙ front_of.0,
        ap (λ t. t.media) change ∙ front_of.1 ∙ ap (λ f. without final.id f.1) stored,
      )
