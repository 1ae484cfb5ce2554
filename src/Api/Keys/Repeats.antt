-- ===== src/Api/Keys/Repeats.antt =====
-- api/server.go: handlers that answer a request that comes again at once the same, and how checks and
-- branches of a handler keep that.
use dontmove_kit.Prelude.{◌≡◌, refl, ap, Bool, true, false, Option, none, some, if◌then◌else◌}
use dontmove_kit.Api.{Response}
use dontmove_kit.Api.State.{Error, Result, good, bad, Env, Server}
use dontmove_kit.Api.Keys.{
  Check, refuse, pass, Handler, reply, behind, require, with_json, on_result,
}

module _ {env : Env} where
  -- A handler that, run again, gives the same answer and changes nothing.
  pub record IsIdempotent (h : Handler env) : Type 0 where
    pub again : (s : Server env) → h (h s).1 ≡ h s

module _ {env : Env} where
  pub reply-IsIdempotent : (response : Response) → IsIdempotent (reply env response)
  reply-IsIdempotent response = record { again = λ s. refl }

  pub if-IsIdempotent :
      (b : Bool) (h k : Handler env)
      → IsIdempotent h
      → IsIdempotent k
      → IsIdempotent (if b then h else k)
  if-IsIdempotent true h k x y = x
  if-IsIdempotent false h k x y = y

  pub behind-IsIdempotent {ℓ} :
      {A : Type ℓ} (check : Check A) (k : A → Handler env)
      → ((a : A) → IsIdempotent (k a))
      → IsIdempotent (behind env check k)
  unfolding behind
  behind-IsIdempotent (refuse response) k h = record { again = λ s. refl }
  behind-IsIdempotent (pass a) k h = record { again = (h a).again }

  pub require-IsIdempotent :
      (b : Bool) (refusal : Response) (go_on : Handler env)
      → IsIdempotent go_on
      → IsIdempotent (require env b refusal go_on)
  unfolding require
  require-IsIdempotent true refusal go_on h = record { again = h.again }
  require-IsIdempotent false refusal go_on h = record { again = λ s. refl }

  pub with_json-IsIdempotent {ℓ} :
      {A : Type ℓ} (json : Option A) (refusal : Response) (k : A → Handler env)
      → ((a : A) → IsIdempotent (k a))
      → IsIdempotent (with_json env json refusal k)
  unfolding with_json
  with_json-IsIdempotent none refusal k h = record { again = λ s. refl }
  with_json-IsIdempotent (some a) refusal k h = record { again = (h a).again }

  -- A handler that leaves the server as it is.
  pub unchanged-IsIdempotent : (h : Handler env) → ((s : Server env) → (h s).1 ≡ s) → IsIdempotent h
  unchanged-IsIdempotent h keeps = record { again = λ s. ap h (keeps s) }

  pub require_keeps :
      (b : Bool) (refusal : Response) (go_on : Handler env) (s : Server env)
      → (go_on s).1 ≡ s
      → (require env b refusal go_on s).1 ≡ s
  unfolding require
  require_keeps true refusal go_on s h = h
  require_keeps false refusal go_on s h = refl

  pub behind_keeps {ℓ} :
      {A : Type ℓ} (check : Check A) (k : A → Handler env) (s : Server env)
      → ((a : A) → (k a s).1 ≡ s)
      → (behind env check k s).1 ≡ s
  unfolding behind
  behind_keeps (refuse response) k s h = refl
  behind_keeps (pass a) k s h = h a

  pub on_result_keeps {ℓ} :
      {A : Type ℓ} (r : Result A) (fail : Error → Handler env) (k : A → Handler env)
      (s : Server env)
      → ((e : Error) → (fail e s).1 ≡ s)
      → ((a : A) → (k a s).1 ≡ s)
      → (on_result env r fail k s).1 ≡ s
  unfolding on_result
  on_result_keeps (bad e) fail k s f g = f e
  on_result_keeps (good a) fail k s f g = g a
