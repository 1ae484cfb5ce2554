-- ===== src/Api/Keys.antt =====
-- api/server.go: who may call, and the Idempotency-Key: `authorize`, `idempotencyKey`,
-- `claimIdempotency`, `replayIdempotency` and the errors that are recorded under a key.
pub mod Repeats
pub mod Settled
pub mod Once
pub mod Frames
use dontmove_kit.Prelude.{
  ℕ, suc, Bool, true, false, not, ◌&&◌, ◌||◌, Option, none, some, List, [], ◌∷◌, ltb, if◌then◌else◌,
  length, is_nil,
}
use dontmove_kit.Text.{Text, txt, has_prefix, trim_prefix, trim_space}
use dontmove_kit.Api.{
  Method, method_eq, Request, value_of, Body, empty, failure, Response, write, write_error,
}
use dontmove_kit.Api.State.{
  Reason, line_busy, call_not_found, invalid_dtmf, invalid_state, duplicate_event, no_rows, Error,
  Result, good, bad, Saved, pending, answered, Claim, claimed, existing, Env, Server,
}

-- A check that a handler makes first: it refuses with a response or gives a value.
pub data Check {ℓ} (A : Type ℓ) : Type ℓ where
  refuse : Response → Check A
  pass : A → Check A

abbrev pub bearer_header : Request → Text
bearer_header r = trim_space (value_of (txt "Authorization") r.headers)

abbrev pub unauthorized : Text → Response
unauthorized = write_error 401 (txt "CB-AUTH-001")

-- idempotencyKey.
unfoldable pub idempotency_key : Request → Check Text
unfolding trim_space value_of
idempotency_key r =
    let key = trim_space (value_of (txt "Idempotency-Key") r.headers) in
    if is_nil key || ltb 200 (length key)
    then refuse (write_error 400 (txt "CB-API-002") (txt "Idempotency-Key is required"))
    else pass key

-- callErrorStatus.
unfoldable pub call_error_status : Error → ℕ × Text
call_error_status e = elim e.reason [
  | line_busy ↦ (409, txt "CB-CALL-009")
  | call_not_found ↦ (404, txt "CB-CALL-006")
  | invalid_dtmf ↦ (409, txt "CB-CALL-010")
  | invalid_state ↦ (409, txt "CB-CALL-010")
  | duplicate_event ↦ (409, txt "CB-CALL-010")
  | _ ↦ (502, txt "CB-CALL-003")
]

-- replayIdempotency.
unfoldable pub replay_idempotency : Saved → Response
replay_idempotency pending =
    write_error 409 (txt "CB-API-003")
      (txt "request with this Idempotency-Key is still in progress")
replay_idempotency (answered status body) = write status body

module _ (env : Env) where
  -- A handler, or the rest of one.
  abbrev pub Handler : Type 0
  Handler = Server env → Response × Server env

  abbrev pub reply : Response → Handler
  reply response s = (response, s)

  abbrev device_of : Option Text → Check Text
  device_of none = refuse (unauthorized (txt "invalid token"))
  device_of (some device) = pass device

  -- authorize.
  unfoldable pub authorize : Request → Check Text
  authorize r =
      if not env.has_auth
      then pass []
      else if not (has_prefix (bearer_header r) (txt "Bearer "))
      then refuse (unauthorized (txt "missing bearer token"))
      else device_of (env.authorize (trim_space (trim_prefix (bearer_header r) (txt "Bearer "))))

  -- What is done behind a check.
  unfoldable pub behind {ℓ} : {A : Type ℓ} → Check A → (A → Handler) → Handler
  behind (refuse response) k s = (response, s)
  behind (pass a) k s = k a s

  -- A guard: what is refused when it does not hold.
  unfoldable pub require : Bool → Response → Handler → Handler
  require true refusal go_on = go_on
  require false refusal go_on = reply refusal

  -- Decode, with its error's answer.
  unfoldable pub with_json {ℓ} : {A : Type ℓ} → Option A → Response → (A → Handler) → Handler
  with_json none refusal k = reply refusal
  with_json (some a) refusal k = k a

  -- A read of the store, by its result.
  unfoldable pub on_result {ℓ} :
      {A : Type ℓ} → Result A → (Error → Handler) → (A → Handler) → Handler
  on_result (bad e) fail k = fail e
  on_result (good a) fail k = k a

  -- audit.
  unfoldable pub audit : Text → Text → Text → Text → Server env → Server env
  audit device action target result s =
      if env.has_database
      then record s { store = env.append_audit device action target result s.store }
      else s

  -- CompleteIdempotency, on the server.
  unfoldable pub complete :
      Text → Text → Text → ℕ → Body → Server env → Result (Unit {0}) × Server env
  complete device operation key status body s =
      let r = env.complete device operation key status body s.store in
      (r.0, record s { store = r.1 })

  abbrev complete_if_stored : Text → Text → Text → ℕ → Body → Server env → Server env
  complete_if_stored device operation key status body s =
      if env.has_database then (complete device operation key status body s).1 else s

  -- CompleteIdempotency with its error left aside, and the answer.
  unfoldable pub answer_with : Text → Text → Text → ℕ → Body → Handler
  unfolding complete
  answer_with device operation key status body s =
      (write status body, complete_if_stored device operation key status body s)

  -- writeIdempotentError.
  unfoldable pub write_idempotent_error : Text → Text → Text → ℕ → Text → Text → Handler
  unfolding answer_with
  write_idempotent_error device operation key status code message =
      answer_with device operation key status (failure code message)

  -- writeIdempotentCallError.
  unfoldable pub write_idempotent_call_error : Text → Text → Text → Error → Handler
  unfolding answer_with
  write_idempotent_call_error device operation key e =
      answer_with device operation key (call_error_status e).0
        (failure (call_error_status e).1 e.text)

  -- claimIdempotency.
  unfoldable pub claim_idempotency : Text → Text → Text → Server env → Result Claim × Server env
  claim_idempotency device operation key s =
      let r = env.claim device operation key s.store in
      if env.has_database then (r.0, record s { store = r.1 }) else (good claimed, s)

  abbrev pub on_claim : (Error → Handler) → Handler → Result Claim → Handler
  on_claim fail body (bad e) = fail e
  on_claim fail body (good (existing saved)) = reply (replay_idempotency saved)
  on_claim fail body (good claimed) = body

  -- The claim at the head of a handler's work: a key that is taken is answered with what it holds,
  -- and the work is not begun.
  unfoldable pub with_claim : Text → Text → Text → (Error → Handler) → Handler → Handler
  unfolding claim_idempotency
  with_claim device operation key fail body s =
      let r = claim_idempotency device operation key s in on_claim fail body r.0 r.1

  abbrev pub finished :
      Text → Text → Text → Response → Text → (Server env → Server env) → Result (Unit {0}) → Handler
  finished device operation target response code after (good u) s =
      (response, after (audit device operation target (txt "accepted") s))
  finished device operation target response code after (bad e) s = (write_error 500 code e.text, s)

  -- The end of a handler that succeeded: the answer is recorded under the key, then the operation is
  -- audited, what comes `after` is done, and the answer is written. An answer that cannot be
  -- recorded is an internal error with the handler's `code`.
  unfoldable pub accept :
      Text → Text → Text → ℕ → Body → Text → Text → (Server env → Server env) → Handler
  accept device operation key status body target code after s =
      let r = complete device operation key status body s in
      if env.has_database
      then finished device operation target (write status body) code after r.0 r.1
      else (write status body, after (audit device operation target (txt "accepted") s))
