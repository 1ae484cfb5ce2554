-- ===== src/Api/Calls/Actions/Once.antt =====
-- api/server.go: an action on a call whose key was seen before is not done again.
use dontmove_kit.Prelude.{
  ℕ, ◌≡◌, refl, ◌&&◌, Bool, true, false, not, Option, none, some, List, [], ◌∷◌, inl, inr,
  Bool-cases, arith,
}
use dontmove_kit.Text.{Text, txt, text_eq, runes, trim_space}
use dontmove_kit.Api.{get, post, delete, method_eq, Request, value_of, Call}
use dontmove_kit.Api.State.{Error, Result, good, bad, Env, Server}
use dontmove_kit.Api.Keys.{authorize, idempotency_key, Handler}
use dontmove_kit.Api.Keys.Once.{
  KeyTable, with_claim-IsIdempotent, completions_of, completions_of-IsRecorded,
}
use dontmove_kit.Api.Keys.Settled.{
  Completions, IsSettled, accept-IsSettled, write_idempotent_error-IsSettled,
  write_idempotent_call_error-IsSettled,
}
use dontmove_kit.Api.Keys.Repeats.{
  IsIdempotent, behind-IsIdempotent, require-IsIdempotent, with_json-IsIdempotent,
  reply-IsIdempotent, if-IsIdempotent, unchanged-IsIdempotent, require_keeps, on_result_keeps,
}
use dontmove_kit.Api.Messages.Actions.{parts_below, is_no_rows}
use dontmove_kit.Api.Calls.{persist_call, get_call, get_failed, write_call}
use dontmove_kit.Api.Recordings.Once.{call_recording_action-IsIdempotent}
use dontmove_kit.Api.Calls.Actions.{
  Action, answer, reject, hangup, dtmf, op_of, end_action, after_persist, conclude, fail_action,
  after_ready, after_modem_answer, after_answer, do_answer, after_finish, finish_hangup,
  after_modem_hangup, after_hangup, do_hangup, after_modem_tone, after_tone, do_tone, perform, act,
  tone_of, tone_fields, act_named, close_if, is_call_not_found, is_no_active_call,
}
use dontmove_kit.Api.Calls.Dispatch.{call_route, is_media, call_authorized, call_action}

get_failed_keeps : {env : Env} (e : Error) (s : Server env) → (get_failed env e s).1 ≡ s
get_failed_keeps e s = elim (Bool-cases (is_no_rows e)) [
  | inl gone ↦ rw gone refl
  | inr other ↦ rw other refl
]

pub get_call-IsIdempotent : {env : Env} (id : Text) → IsIdempotent (get_call env id)
unfolding get_call
get_call-IsIdempotent {env} id = unchanged-IsIdempotent (get_call env id) (λ s.
    require_keeps _ _ _ s (
      require_keeps _ _ _ s (
        on_result_keeps (env.get_call id s.store) (get_failed env) (write_call env) s
          (λ e. get_failed_keeps e s) (λ call. refl))))

module _ {env : Env} (table : Completions env) (stored : env.has_database ≡ true) where
  abbrev pub Settled : Text → Text → Action → Handler env → Type 0
  Settled device key action h =
      (s : Server env) → IsSettled table stored device (op_of action) key (h s)

  end_action-IsSettled :
      (device key id : Text) (action : Action)
      → Settled device key action (end_action env device key id action)
  end_action-IsSettled device key id action s =
      accept-IsSettled table stored device _ key 204 _ _ _ _ (λ t. refl) (close_if env action id s)

  after_persist-IsSettled :
      (device key id : Text) (action : Action) (r : Result ℕ)
      → Settled device key action (after_persist env device key id action r)
  after_persist-IsSettled device key id action (bad e) s =
      write_idempotent_error-IsSettled table stored device _ key 500 _ _ s
  after_persist-IsSettled device key id action (good n) s =
      end_action-IsSettled device key id action s

  conclude-IsSettled :
      (device key id : Text) (action : Action) (change : Option (Call × Text))
      → Settled device key action (conclude env device key id action change)
  unfolding conclude
  conclude-IsSettled device key id action none s = end_action-IsSettled device key id action s
  conclude-IsSettled device key id action (some change) s =
      after_persist-IsSettled device key id action _ (persist_call env change s).1

  fail_action-IsSettled :
      (device key id : Text) (action : Action) (modem_ok : Bool) (e : Error)
      → Settled device key action (fail_action env device key id action modem_ok e)
  unfolding fail_action
  fail_action-IsSettled device key id action modem_ok e s =
      write_idempotent_call_error-IsSettled table stored device _ key e _

  after_ready-IsSettled :
      (device key id : Text) (r : Result (Call × Text))
      → Settled device key answer (after_ready env device key id r)
  after_ready-IsSettled device key id (bad e) s =
      fail_action-IsSettled device key id answer true e s
  after_ready-IsSettled device key id (good change) s =
      conclude-IsSettled device key id answer (some change) s

  after_modem_answer-IsSettled :
      (device key id : Text) (r : Result (Unit {0}))
      → Settled device key answer (after_modem_answer env device key id r)
  after_modem_answer-IsSettled device key id (bad e) s =
      fail_action-IsSettled device key id answer false e s
  after_modem_answer-IsSettled device key id (good u) s = after_ready-IsSettled device key id _ _

  after_answer-IsSettled :
      (device key id : Text) (r : Result (Call × Text))
      → Settled device key answer (after_answer env device key id r)
  after_answer-IsSettled device key id (bad e) s =
      fail_action-IsSettled device key id answer false e s
  after_answer-IsSettled device key id (good change) s =
      after_modem_answer-IsSettled device key id _ _

  after_finish-IsSettled :
      (device key id : Text) (action : Action) (r : Result (Call × Text))
      → Settled device key action (after_finish env device key id action r)
  after_finish-IsSettled device key id action (good change) s =
      conclude-IsSettled device key id action (some change) s
  after_finish-IsSettled device key id action (bad e) s = elim (Bool-cases (is_call_not_found e)) [
    | inl gone ↦ rw gone (conclude-IsSettled device key id action none s)
    | inr other ↦ rw other (fail_action-IsSettled device key id action true e s)
  ]

  finish_hangup-IsSettled :
      (device key id : Text) (action : Action)
      → Settled device key action (finish_hangup env device key id action)
  unfolding finish_hangup
  finish_hangup-IsSettled device key id action s = after_finish-IsSettled device key id action _ _

  after_modem_hangup-IsSettled :
      (device key id : Text) (action : Action) (r : Result (Unit {0}))
      → Settled device key action (after_modem_hangup env device key id action r)
  after_modem_hangup-IsSettled device key id action (good u) s =
      finish_hangup-IsSettled device key id action s
  after_modem_hangup-IsSettled device key id action (bad e) s =
      elim (Bool-cases (is_no_active_call e)) [
        | inl idle ↦ rw idle (finish_hangup-IsSettled device key id action s)
        | inr other ↦ rw other (fail_action-IsSettled device key id action false e s)
      ]

  after_hangup-IsSettled :
      (device key id : Text) (action : Action) (r : Result (Call × Text))
      → Settled device key action (after_hangup env device key id action r)
  after_hangup-IsSettled device key id action (bad e) s =
      fail_action-IsSettled device key id action false e s
  after_hangup-IsSettled device key id action (good change) s =
      after_modem_hangup-IsSettled device key id action _ _

  after_modem_tone-IsSettled :
      (device key id : Text) (digit : ℕ) (r : Result (Unit {0}))
      → Settled device key (dtmf digit) (after_modem_tone env device key id digit r)
  after_modem_tone-IsSettled device key id digit (bad e) s =
      fail_action-IsSettled device key id (dtmf digit) false e s
  after_modem_tone-IsSettled device key id digit (good u) s =
      conclude-IsSettled device key id (dtmf digit) none s

  after_tone-IsSettled :
      (device key id : Text) (digit : ℕ) (r : Result (Unit {0}))
      → Settled device key (dtmf digit) (after_tone env device key id digit r)
  after_tone-IsSettled device key id digit (bad e) s =
      fail_action-IsSettled device key id (dtmf digit) false e s
  after_tone-IsSettled device key id digit (good u) s =
      after_modem_tone-IsSettled device key id digit _ _

  -- Whatever the controller, the modem and the database answer to an action, its answer is what the
  -- table holds under the request's key, unless the database failed to complete the key, and nothing
  -- was done to it behind that. A completion that the database takes is found again, and the audit
  -- log is another table.
  pub perform-IsSettled :
      (device key id : Text) (action : Action)
      → Settled device key action (perform env device key id action)
  unfolding perform do_answer do_hangup do_tone
  perform-IsSettled device key id answer s = after_answer-IsSettled device key id _ _
  perform-IsSettled device key id reject s = after_hangup-IsSettled device key id reject _ _
  perform-IsSettled device key id hangup s = after_hangup-IsSettled device key id hangup _ _
  perform-IsSettled device key id (dtmf digit) s = after_tone-IsSettled device key id digit _ _

module _ {env : Env} (table : KeyTable env) (stored : env.has_database ≡ true) where
  act-IsIdempotent :
      (device key id : Text) (action : Action) → IsIdempotent (act env device key id action)
  act-IsIdempotent device key id action =
      with_claim-IsIdempotent table stored device (op_of action) key _
        (perform env device key id action)
        (λ s.
          completions_of-IsRecorded table stored device (op_of action) key
            (perform env device key id action s)
            (perform-IsSettled (completions_of table) stored device key id action s))

  tone_of-IsIdempotent :
      (device key id : Text) (digits : List ℕ) → IsIdempotent (tone_of env device key id digits)
  tone_of-IsIdempotent device key id [] = reply-IsIdempotent _
  tone_of-IsIdempotent device key id (digit ∷ []) = act-IsIdempotent device key id (dtmf digit)
  tone_of-IsIdempotent device key id (digit ∷ more ∷ rest) = reply-IsIdempotent _

  act_named-IsIdempotent :
      (r : Request) (device id name key : Text) → IsIdempotent (act_named env r device id name key)
  unfolding act_named
  act_named-IsIdempotent r device id name key =
      if-IsIdempotent (text_eq name (txt "answer")) _ _
        (require-IsIdempotent _ _ _ (act-IsIdempotent device key id answer))
        (if-IsIdempotent (text_eq name (txt "reject")) _ _
          (require-IsIdempotent _ _ _ (act-IsIdempotent device key id reject))
          (if-IsIdempotent (text_eq name (txt "hangup")) _ _
            (require-IsIdempotent _ _ _ (act-IsIdempotent device key id hangup))
            (if-IsIdempotent (text_eq name (txt "dtmf")) _ _
              (require-IsIdempotent _ _ _ (
                with_json-IsIdempotent r.json _ (tone_fields env device key id) (λ fields.
                  tone_of-IsIdempotent device key id
                    (runes (trim_space (value_of (txt "digit") fields))))))
              (reply-IsIdempotent _))))

  call_route-IsIdempotent :
      (r : Request) (device : Text) (parts : List Text)
      → method_eq r.method delete ≡ false
      → IsIdempotent (call_route env r device parts)
  call_route-IsIdempotent r device [] h = reply-IsIdempotent _
  call_route-IsIdempotent r device (id ∷ []) h = rw h (
      if-IsIdempotent (method_eq r.method get) _ _ (get_call-IsIdempotent id)
        (reply-IsIdempotent _))
  call_route-IsIdempotent r device (id ∷ name ∷ []) h =
      if-IsIdempotent (method_eq r.method post) _ _
        (behind-IsIdempotent (idempotency_key r) (act_named env r device id name)
          (act_named-IsIdempotent r device id name))
        (reply-IsIdempotent _)
  call_route-IsIdempotent r device (id ∷ name ∷ last ∷ []) h =
      if-IsIdempotent (method_eq r.method post && text_eq name (txt "recording")) _ _
        (if-IsIdempotent (text_eq last (txt "start")) _ _
          (call_recording_action-IsIdempotent table stored r id true)
          (if-IsIdempotent (text_eq last (txt "stop")) _ _
            (call_recording_action-IsIdempotent table stored r id false) (reply-IsIdempotent _)))
        (reply-IsIdempotent _)
  call_route-IsIdempotent r device (id ∷ name ∷ last ∷ more ∷ rest) h = reply-IsIdempotent _

  -- A call's action that is neither a deletion nor one of media, again under its key,
  -- is answered the same and changes nothing.
  pub call_action-IsIdempotent :
      (elsewhere : Request → Text → Handler env) (r : Request)
      → not (is_media env r (parts_below (txt "/api/v1/calls/") r.path)) ≡ true
      → method_eq r.method delete ≡ false
      → IsIdempotent (call_action env elsewhere r)
  unfolding call_action
  call_action-IsIdempotent elsewhere r here h =
      behind-IsIdempotent (authorize env r) (call_authorized env elsewhere r) (λ device.
        let parts = parts_below (txt "/api/v1/calls/") r.path in
        elim (Bool-cases (is_media env r parts)) [
          | inl away ↦ absurd (ground (arith, away, here))
          | inr stays ↦ rw stays (call_route-IsIdempotent r device parts h)
        ])
