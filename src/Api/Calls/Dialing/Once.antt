-- ===== src/Api/Calls/Dialing/Once.antt =====
-- api/server.go: a dial whose key was seen before does not dial again.
use dontmove_kit.Prelude.{ℕ, ◌≡◌, refl, true, List}
use dontmove_kit.Text.{Text}
use dontmove_kit.Api.{Request, Call}
use dontmove_kit.Api.State.{Result, good, bad, Env, Server}
use dontmove_kit.Api.Keys.{idempotency_key, authorize}
use dontmove_kit.Api.Keys.Once.{
  KeyTable, with_claim-IsIdempotent, completions_of, completions_of-IsRecorded,
}
use dontmove_kit.Api.Keys.Settled.{
  Completions, IsSettled, accept-IsSettled, write_idempotent_error-IsSettled,
  write_idempotent_call_error-IsSettled,
}
use dontmove_kit.Api.Keys.Repeats.{
  IsIdempotent, behind-IsIdempotent, require-IsIdempotent, with_json-IsIdempotent,
}
use dontmove_kit.Api.Calls.{persist_call}
use dontmove_kit.Api.Calls.Dialing.{
  answer_dial, after_ready, dialed, after_modem, after_control, dial_claimed, dial_fields,
  dial_keyed, dial, dial_op, dial_authorized,
}

module _ {env : Env} (table : Completions env) (stored : env.has_database ≡ true) where
  answer_dial-IsSettled :
      (device key : Text) (call : Call) (r : Result ℕ) (s : Server env)
      → IsSettled table stored device dial_op key (answer_dial env device key call r s)
  answer_dial-IsSettled device key call (bad e) s =
      write_idempotent_error-IsSettled table stored device _ key 500 _ e.text s
  answer_dial-IsSettled device key call (good n) s =
      accept-IsSettled table stored device _ key 201 _ _ _ _ (λ t. refl) s

  after_ready-IsSettled :
      (device key : Text) (call : Call) (r : Result (Call × Text)) (s : Server env)
      → IsSettled table stored device dial_op key (after_ready env device key call r s)
  after_ready-IsSettled device key call (bad e) s =
      write_idempotent_call_error-IsSettled table stored device _ key e _
  after_ready-IsSettled device key call (good change) s =
      answer_dial-IsSettled device key _ _ (persist_call env change s).1

  after_modem-IsSettled :
      (device key : Text) (change : Call × Text) (r : Result (Unit {0})) (s : Server env)
      → IsSettled table stored device dial_op key (after_modem env device key change r s)
  unfolding dialed
  after_modem-IsSettled device key change (bad e) s =
      write_idempotent_call_error-IsSettled table stored device _ key e _
  after_modem-IsSettled device key change (good u) s = after_ready-IsSettled device key change.0 _ _

  after_control-IsSettled :
      (device key to : Text) (r : Result (Call × Text)) (s : Server env)
      → IsSettled table stored device dial_op key (after_control env device key to r s)
  after_control-IsSettled device key to (bad e) s =
      write_idempotent_call_error-IsSettled table stored device _ key e s
  after_control-IsSettled device key to (good change) s =
      after_modem-IsSettled device key change _ _

  -- Whatever the controller, the modem and the database answer to a dial that was begun, its answer is
  -- what the table holds under the request's key, unless the database failed to complete the key, and
  -- nothing was done to it behind that. A completion that the database takes is found again, and the
  -- audit log is another table.
  pub dial_claimed-IsSettled :
      (device key : Text) (fields : List (Text × Text)) (s : Server env)
      → IsSettled table stored device dial_op key (dial_claimed env device key fields s)
  unfolding dial_claimed
  dial_claimed-IsSettled device key fields s = after_control-IsSettled device key _ _ _

module _ {env : Env} (table : KeyTable env) (stored : env.has_database ≡ true) where
  -- A dial that comes again, with the same key, gets the same answer and changes nothing.
  pub dial-IsIdempotent : (r : Request) → IsIdempotent (dial env r)
  unfolding dial
  dial-IsIdempotent r = behind-IsIdempotent (authorize env r) (dial_authorized env r) (λ device.
      behind-IsIdempotent (idempotency_key r) (dial_keyed env r device) (λ key.
        require-IsIdempotent _ _ _ (
          with_json-IsIdempotent r.json _ (dial_fields env device key) (λ fields.
            require-IsIdempotent _ _ _ (
              require-IsIdempotent _ _ _ (
                with_claim-IsIdempotent table stored device dial_op key _ _ (λ s.
                  completions_of-IsRecorded table stored device dial_op key
                    (dial_claimed env device key fields s)
                    (dial_claimed-IsSettled (completions_of table) stored device key fields
                      s))))))))
