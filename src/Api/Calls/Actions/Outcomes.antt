-- ===== src/Api/Calls/Actions/Outcomes.antt =====
-- api/server.go: what an action leaves in the controller, on the line and at the modem.
use dontmove_kit.Prelude.{
  ℕ, ◌≡◌, refl, ap, ◌∙◌, Bool, true, false, not, none, inl, inr, Bool-cases, is_some, arith,
}
use dontmove_kit.Text.{Text, txt}
use dontmove_kit.Api.{empty, Call, Line}
use dontmove_kit.Api.State.{Error, Result, good, bad, Env, Server}
use dontmove_kit.Api.Keys.{write_idempotent_error, write_idempotent_call_error}
use dontmove_kit.Api.Keys.Frames.{audit_view, answer_with_view, accept_view}
use dontmove_kit.Api.Calls.{persist_call, close_webrtc}
use dontmove_kit.Api.Calls.Endings.{front-persist_call, active_id-ended}
use dontmove_kit.Api.Calls.Actions.{
  Action, answer, reject, hangup, dtmf, is_tone, op_of, action_name, is_no_active_call, fail_action,
  after_answer, after_hangup, after_modem_answer, after_modem_hangup, do_answer, do_hangup, perform,
  close_if, after_persist, after_finish, finish_hangup, conclude,
}

module _ (env : Env) where
  abbrev failed : Result (Unit {0}) → Bool
  failed (good u) = false
  failed (bad e) = true

  -- A hangup that fails on a modem that is idle is none.
  abbrev pub hangup_failed : Result (Unit {0}) → Bool
  hangup_failed (good u) = false
  hangup_failed (bad e) = not (is_no_active_call e)

  -- Whether the modem refuses the command of an action.
  abbrev pub refuses : Action → env.Modem → Bool
  refuses answer modem = failed (env.modem_answer modem).0
  refuses reject modem = hangup_failed (env.modem_hangup modem).0
  refuses hangup modem = hangup_failed (env.modem_hangup modem).0
  refuses (dtmf digit) modem = false

  -- The controller once it was asked for an action, before the modem is.
  abbrev pub begun : Action → Text → Text → env.Control → env.Control
  begun answer key id control = (env.answer key id control).1
  begun reject key id control = (env.hangup key id (action_name reject) control).1
  begun hangup key id control = (env.hangup key id (action_name hangup) control).1
  begun (dtmf digit) key id control = control

module _ {env : Env} where
  fail_action_control :
      (device key id : Text) (action : Action) (e : Error) (s : Server env)
      → is_tone action ≡ false
      → (fail_action env device key id action false e s).1.control ≡ env.rollback key id s.control
  unfolding fail_action write_idempotent_call_error
  fail_action_control device key id action e s tone =
      let control_of : Server env → env.Control = λ s. s.control in
      answer_with_view control_of (λ s store. refl) device (op_of action) key _ _ _
      ∙ audit_view control_of (λ s store. refl) device (op_of action) id (txt "failed") _
      ∙ rw tone refl

  after_modem_answer_control :
      (device key id : Text) (r : Result (Unit {0})) (s : Server env)
      → failed env r ≡ true
      → (after_modem_answer env device key id r s).1.control ≡ env.rollback key id s.control
  after_modem_answer_control device key id (good u) s h = absurd (ground (arith, h))
  after_modem_answer_control device key id (bad e) s h =
      fail_action_control device key id answer e s refl

  after_answer_control :
      (device key id : Text) (r : Result (Call × Text)) (s : Server env)
      → failed env (env.modem_answer s.modem).0 ≡ true
      → (after_answer env device key id r s).1.control ≡ env.rollback key id s.control
  after_answer_control device key id (bad e) s h = fail_action_control device key id answer e s refl
  after_answer_control device key id (good change) s h =
      after_modem_answer_control device key id _ _ h

  after_modem_hangup_control :
      (device key id : Text) (action : Action) (r : Result (Unit {0})) (s : Server env)
      → is_tone action ≡ false
      → hangup_failed env r ≡ true
      → (after_modem_hangup env device key id action r s).1.control ≡ env.rollback key id s.control
  after_modem_hangup_control device key id action (good u) s tone h = absurd (ground (arith, h))
  after_modem_hangup_control device key id action (bad e) s tone h =
      elim (Bool-cases (is_no_active_call e)) [
        | inl idle ↦ absurd (ground (arith, idle, h))
        | inr other ↦ rw other (fail_action_control device key id action e s tone)
      ]

  after_hangup_control :
      (device key id : Text) (action : Action) (r : Result (Call × Text)) (s : Server env)
      → is_tone action ≡ false
      → hangup_failed env (env.modem_hangup s.modem).0 ≡ true
      → (after_hangup env device key id action r s).1.control ≡ env.rollback key id s.control
  after_hangup_control device key id action (bad e) s tone h =
      fail_action_control device key id action e s tone
  after_hangup_control device key id action (good change) s tone h =
      after_modem_hangup_control device key id action _ _ tone h

  -- An answer, a rejection or a hangup whose command the modem refuses ends with one rollback of the
  -- request in the controller, on top of what the request did there, and nothing else changes the
  -- controller, whatever the database answers.
  pub perform_refused-control :
      (device key id : Text) (action : Action) (s : Server env)
      → refuses env action s.modem ≡ true
      → (perform env device key id action s).1.control
        ≡ env.rollback key id (begun env action key id s.control)
  unfolding perform do_answer do_hangup
  perform_refused-control device key id answer s h = after_answer_control device key id _ _ h
  perform_refused-control device key id reject s h =
      after_hangup_control device key id reject _ _ refl h
  perform_refused-control device key id hangup s h =
      after_hangup_control device key id hangup _ _ refl h
  perform_refused-control device key id (dtmf digit) s h = absurd (ground (arith, h))

  abbrev line_of : Server env → Line
  line_of s = s.line

  close_if_line :
      (action : Action) (id : Text) (s : Server env) → (close_if env action id s).line ≡ s.line
  unfolding close_webrtc
  close_if_line answer id s = refl
  close_if_line reject id s = refl
  close_if_line hangup id s = refl
  close_if_line (dtmf digit) id s = refl

  after_persist_line :
      (device key id : Text) (action : Action) (r : Result ℕ) (s : Server env)
      → (after_persist env device key id action r s).1.line ≡ s.line
  unfolding write_idempotent_error
  after_persist_line device key id action (bad e) s =
      answer_with_view line_of (λ t store. refl) device (op_of action) key 500 _ s
  after_persist_line device key id action (good n) s =
      accept_view line_of (λ t store. refl) device (op_of action) key 204 empty id
        (txt "CB-CALL-004") (λ t. t) (close_if env action id s) (λ t. refl)
      ∙ close_if_line action id s

  finish_hangup_line :
      (device key id : Text) (action : Action) (final : Call) (kind : Text) (control : env.Control)
      (s : Server env)
      → env.finish id s.control ≡ (good (final, kind), control)
      → is_some final.ended_at ≡ true
      → (finish_hangup env device key id action s).1.line.active_call_id ≡ none
  unfolding finish_hangup conclude
  finish_hangup_line device key id action final kind control s done over =
      let t : Server env = record s { control = control } in
      let change =
        ap (λ r. (after_finish env device key id action r.0 (record s { control = r.1 })).1.line)
          done in
      let r = persist_call env (final, kind) t in
      ap (λ line. line.active_call_id)
        (change
          ∙ after_persist_line device key id action r.0 r.1
          ∙ ap (λ f. f.0) (front-persist_call final kind t))
      ∙ active_id-ended final over

  after_modem_hangup_line :
      (device key id : Text) (action : Action) (r : Result (Unit {0})) (final : Call) (kind : Text)
      (control : env.Control) (s : Server env)
      → hangup_failed env r ≡ false
      → env.finish id s.control ≡ (good (final, kind), control)
      → is_some final.ended_at ≡ true
      → (after_modem_hangup env device key id action r s).1.line.active_call_id ≡ none
  after_modem_hangup_line device key id action (good u) final kind control s h done over =
      finish_hangup_line device key id action final kind control s done over
  after_modem_hangup_line device key id action (bad e) final kind control s h done over =
      elim (Bool-cases (is_no_active_call e)) [
        | inl idle ↦
            rw idle (finish_hangup_line device key id action final kind control s done over)
        | inr other ↦ absurd (ground (arith, other, h))
      ]

  -- A hangup that the controller takes and the modem does not refuse, which an idle modem does not,
  -- leaves no active call on the line, whatever the database answers. The controller finishes the call,
  -- and gives it as ended.
  pub do_hangup-line :
      (device key id : Text) (action : Action) (change : Call × Text) (final : Call) (kind : Text)
      (control control' : env.Control) (s : Server env)
      → env.hangup key id (action_name action) s.control ≡ (good change, control)
      → hangup_failed env (env.modem_hangup s.modem).0 ≡ false
      → env.finish id control ≡ (good (final, kind), control')
      → is_some final.ended_at ≡ true
      → (do_hangup env device key id action s).1.line.active_call_id ≡ none
  unfolding do_hangup
  do_hangup-line device key id action change final kind control control' s taken hung done over =
      let r = env.modem_hangup s.modem in
      let t : Server env = record s { control = control; modem = r.1 } in
      ap
        (λ c.
          (after_hangup env device key id action c.0
            (record s { control = c.1 })).1.line.active_call_id)
        taken
      ∙ after_modem_hangup_line device key id action r.0 final kind control' t hung done over
