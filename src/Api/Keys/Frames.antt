-- ===== src/Api/Keys/Frames.antt =====
-- api/server.go: what holds of the server through the checks and the claim of a handler.
use dontmove_kit.Prelude.{ℕ, ◌≡◌, refl, ◌∙◌, Bool, true, false, inl, inr, Bool-cases}
use dontmove_kit.Text.{Text, txt}
use dontmove_kit.Api.{Body, Response, write}
use dontmove_kit.Api.State.{Error, Result, good, bad, Claim, claimed, existing, Env, Server}
use dontmove_kit.Api.Keys.{
  Check, refuse, pass, Handler, behind, require, with_claim, claim_idempotency, on_claim, audit,
  answer_with, complete, accept, finished,
}

module _ {env : Env} (P : Server env → Type 0) where
  pub behind_frame {ℓ} :
      {A : Type ℓ} (check : Check A) (k : A → Handler env) (s : Server env)
      → P s
      → ((a : A) → P (k a s).1)
      → P (behind env check k s).1
  unfolding behind
  behind_frame (refuse response) k s p h = p
  behind_frame (pass a) k s p h = h a

  pub require_frame :
      (b : Bool) (refusal : Response) (go_on : Handler env) (s : Server env)
      → P s
      → P (go_on s).1
      → P (require env b refusal go_on s).1
  unfolding require
  require_frame true refusal go_on s p h = h
  require_frame false refusal go_on s p h = p

  on_claim_frame :
      (fail : Error → Handler env) (body : Handler env) (c : Result Claim) (s : Server env)
      → P s
      → ((e : Error) → P (fail e s).1)
      → P (body s).1
      → P (on_claim env fail body c s).1
  on_claim_frame fail body (bad e) s p f h = f e
  on_claim_frame fail body (good claimed) s p f h = h
  on_claim_frame fail body (good (existing saved)) s p f h = p

  pub with_claim_frame :
      (device operation key : Text) (fail : Error → Handler env) (body : Handler env)
      (s : Server env)
      → ((store : env.Store)
          → (env.claim device operation key s.store).1 ≡ store
          → P (record s { store = store }))
      → P s
      → ((e : Error) (t : Server env) → P t → P (fail e t).1)
      → ((t : Server env) → P t → P (body t).1)
      → P (with_claim env device operation key fail body s).1
  unfolding with_claim claim_idempotency
  with_claim_frame device operation key fail body s q p f h = elim (Bool-cases env.has_database) [
    | inl on ↦ let p' = q _ refl in rw on (on_claim_frame fail body _ _ p' (λ e. f e _ p') (h _ p'))
    | inr off ↦ rw off (on_claim_frame fail body (good claimed) s p (λ e. f e s p) (h s p))
  ]

-- A view of the server that does not look at the store.
module _ {env : Env} {X : Type 0} (view : Server env → X)
    (blind : (s : Server env) (store : env.Store)
      → view (record s { store = store }) ≡ view s) where
  pub audit_view :
      (device action target result : Text) (s : Server env)
      → view (audit env device action target result s) ≡ view s
  unfolding audit
  audit_view device action target result s = elim (Bool-cases env.has_database) [
    | inl on ↦ rw on (blind s _)
    | inr off ↦ rw off refl
  ]

  pub answer_with_view :
      (device operation key : Text) (status : ℕ) (body : Body) (s : Server env)
      → view (answer_with env device operation key status body s).1 ≡ view s
  unfolding answer_with complete
  answer_with_view device operation key status body s = elim (Bool-cases env.has_database) [
    | inl on ↦ rw on (blind s _)
    | inr off ↦ rw off refl
  ]

  finished_view :
      (device operation target : Text) (response : Response) (code : Text)
      (after : Server env → Server env) (r : Result (Unit {0})) (s : Server env)
      → ((t : Server env) → view (after t) ≡ view t)
      → view (finished env device operation target response code after r s).1 ≡ view s
  finished_view device operation target response code after (good u) s h =
      h _ ∙ audit_view device operation target (txt "accepted") s
  finished_view device operation target response code after (bad e) s h = refl

  pub accept_view :
      (device operation key : Text) (status : ℕ) (body : Body) (target code : Text)
      (after : Server env → Server env) (s : Server env)
      → ((t : Server env) → view (after t) ≡ view t)
      → view (accept env device operation key status body target code after s).1 ≡ view s
  unfolding accept complete
  accept_view device operation key status body target code after s h =
      let r = env.complete device operation key status body s.store in
      let t : Server env = record s { store = r.1 } in
      elim (Bool-cases env.has_database) [
        | inl on ↦ rw on (
            finished_view device operation target (write status body) code after r.0 t h
            ∙ blind s r.1)
        | inr off ↦ rw off (h _ ∙ audit_view device operation target (txt "accepted") s)
      ]
