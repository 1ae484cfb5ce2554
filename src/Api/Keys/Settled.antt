-- ===== src/Api/Keys/Settled.antt =====
-- api/server.go: what an answered request leaves under its key, with a database whose writes may fail.
use mathlib.Core.Path.{subst}
use dontmove_kit.Prelude.{ℕ, ◌≡◌, refl, sym, ap, ◌∙◌, ◌⊎◌, inl, inr, true, Option, some}
use dontmove_kit.Text.{Text, txt}
use dontmove_kit.Api.{Body, failure, Response, write, write_error}
use dontmove_kit.Api.State.{Error, Result, good, bad, Saved, answered, Env, Server}
use dontmove_kit.Api.Keys.{
  answer_with, accept, complete, audit, write_idempotent_error, write_idempotent_call_error,
  call_error_status,
}

-- The table of keys behind the database: a completion that it takes is found again, and the audit log
-- is another table.
pub record Completions (env : Env) : Type 0 where
  pub find : Text → Text → Text → env.Store → Option Saved
  pub complete_found :
      (device operation key : Text) (status : ℕ) (body : Body) (store : env.Store)
      → (env.complete device operation key status body store).0 ≡ good tt
      → find device operation key (env.complete device operation key status body store).1
        ≡ some (answered status body)
  pub audit_keeps :
      (device operation key who what target result : Text) (store : env.Store)
      → find device operation key (env.append_audit who what target result store)
        ≡ find device operation key store

-- A result of no value is an error or good.
result_cases : (r : Result (Unit {0})) → (r ≡ good tt) ⊎ ((e : Error) × (r ≡ bad e))
result_cases (good u) = inl refl
result_cases (bad e) = inr (e, refl)

module _ {env : Env} (table : Completions env) (stored : env.has_database ≡ true) where
  -- The answer is what the table holds under the key.
  abbrev pub IsFound : Text → Text → Text → Response × Server env → Type 0
  IsFound device operation key r =
      (status : ℕ) × (body : Body) × (r.0 ≡ write status body)
      × (table.find device operation key r.1.store ≡ some (answered status body))

  -- The last thing that was done to the store was a completion of this key, which failed.
  abbrev pub IsRefused : Text → Text → Text → Response × Server env → Type 0
  IsRefused device operation key r =
      (status : ℕ) × (body : Body) × (store : env.Store) × (e : Error) × (env.complete device
          operation key status body store
        ≡ (bad e, r.1.store))

  abbrev pub IsSettled : Text → Text → Text → Response × Server env → Type 0
  IsSettled device operation key r =
      IsFound device operation key r ⊎ IsRefused device operation key r

  pub answer_with-IsSettled :
      (device operation key : Text) (status : ℕ) (body : Body) (s : Server env)
      → IsSettled device operation key (answer_with env device operation key status body s)
  unfolding answer_with complete
  answer_with-IsSettled device operation key status body s =
      let r = env.complete device operation key status body s.store in
      elim (result_cases r.0) [
        | inl taken ↦ rw stored (
            inl (
              status,
              body,
              refl,
              table.complete_found device operation key status body s.store taken,
            ))
        | inr (e, failed) ↦ rw stored (inr (status, body, s.store, e, ap (λ x. (x, r.1)) failed))
      ]

  pub write_idempotent_error-IsSettled :
      (device operation key : Text) (status : ℕ) (code message : Text) (s : Server env)
      → IsSettled device operation key
          (write_idempotent_error env device operation key status code message s)
  unfolding write_idempotent_error
  write_idempotent_error-IsSettled device operation key status code message s =
      answer_with-IsSettled device operation key status (failure code message) s

  pub write_idempotent_call_error-IsSettled :
      (device operation key : Text) (e : Error) (s : Server env)
      → IsSettled device operation key (write_idempotent_call_error env device operation key e s)
  unfolding write_idempotent_call_error
  write_idempotent_call_error-IsSettled device operation key e s =
      let (status, code) = call_error_status e in
      answer_with-IsSettled device operation key status (failure code e.text) s

  pub audit-find :
      (device operation key who what target result : Text) (s : Server env)
      → table.find device operation key (audit env who what target result s).store
        ≡ table.find device operation key s.store
  unfolding audit
  audit-find device operation key who what target result s =
      rw stored (table.audit_keeps device operation key who what target result s.store)

  accept_taken :
      (device operation key : Text) (status : ℕ) (body : Body) (target code : Text)
      (after : Server env → Server env) (s : Server env)
      → (env.complete device operation key status body s.store).0 ≡ good tt
      → accept env device operation key status body target code after s ≡ (
        write status body,
        after (
            audit env device operation target
              (txt "accepted")
              (complete env device operation key status body s).1),
      )
  unfolding accept complete
  accept_taken device operation key status body target code after s taken = rw (stored, taken) refl

  accept_failed :
      (device operation key : Text) (status : ℕ) (body : Body) (target code : Text)
      (after : Server env → Server env) (s : Server env) (e : Error)
      → (env.complete device operation key status body s.store).0 ≡ bad e
      → accept env device operation key status body target code after s
        ≡ (write_error 500 code e.text, (complete env device operation key status body s).1)
  unfolding accept complete
  accept_failed device operation key status body target code after s e failed =
      rw (stored, failed) refl

  pub accept-IsSettled :
      (device operation key : Text) (status : ℕ) (body : Body) (target code : Text)
      (after : Server env → Server env)
      → ((t : Server env)
          → table.find device operation key (after t).store
            ≡ table.find device operation key t.store)
      → (s : Server env)
      → IsSettled device operation key
          (accept env device operation key status body target code after s)
  unfolding complete
  accept-IsSettled device operation key status body target code after keeps s =
      let r = env.complete device operation key status body s.store in
      let done = (complete env device operation key status body s).1 in
      elim (result_cases r.0) [
        | inl taken ↦
            subst (IsSettled device operation key)
              (sym (accept_taken device operation key status body target code after s taken))
              (inl (
                status,
                body,
                refl,
                keeps (audit env device operation target (txt "accepted") done)
                    ∙ audit-find device operation key device operation target (txt "accepted") done
                    ∙ table.complete_found device operation key status body s.store taken,
              ))
        | inr (e, failed) ↦
            subst (IsSettled device operation key)
              (sym (accept_failed device operation key status body target code after s e failed))
              (inr (status, body, s.store, e, ap (λ x. (x, r.1)) failed))
      ]
