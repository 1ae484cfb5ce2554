-- ===== src/Api/Keys/Once.antt =====
-- api/server.go: what the idempotency table promises, and what the handlers make of it: a request
-- that comes again under its key is answered the same, and its work is not done again.
use dontmove_kit.Api.Keys.Settled.{Completions, IsSettled, answer_with-IsSettled, accept-IsSettled}
use dontmove_kit.Api.Keys.Repeats.{IsIdempotent}
use dontmove_kit.Prelude.{
  ℕ, ◌≡◌, refl, sym, ap, ◌∙◌, inl, inr, true, Option, none, some, Option-cases,
}
use dontmove_kit.Text.{Text}
use dontmove_kit.Api.{Body, failure, Response, write}
use dontmove_kit.Api.State.{
  Error, good, Saved, pending, answered, claimed, existing, Env, Server, bad, Result,
}
use dontmove_kit.Api.Keys.{
  Handler, with_claim, claim_idempotency, answer_with, accept, write_idempotent_error,
  replay_idempotency,
}

-- The table of keys behind the database: a claim of a key that is not there enters it as pending, one
-- of a key that is there gives what it holds, and a completion is found again. Its writes do not fail
-- (`Completions` is the table where they may), and the audit log is another table.
pub record KeyTable (env : Env) : Type 0 where
  pub find : Text → Text → Text → env.Store → Option Saved
  pub claim_known :
      (device operation key : Text) (store : env.Store) (saved : Saved)
      → find device operation key store ≡ some saved
      → env.claim device operation key store ≡ (good (existing saved), store)
  pub claim_new :
      (device operation key : Text) (store : env.Store)
      → find device operation key store ≡ none
      → (env.claim device operation key store).0 ≡ good claimed
  pub claim_pending :
      (device operation key : Text) (store : env.Store)
      → find device operation key store ≡ none
      → find device operation key (env.claim device operation key store).1 ≡ some pending
  pub complete_good :
      (device operation key : Text) (status : ℕ) (body : Body) (store : env.Store)
      → (env.complete device operation key status body store).0 ≡ good tt
  pub complete_found :
      (device operation key : Text) (status : ℕ) (body : Body) (store : env.Store)
      → find device operation key (env.complete device operation key status body store).1
        ≡ some (answered status body)
  pub audit_keeps :
      (device operation key who what target result : Text) (store : env.Store)
      → find device operation key (env.append_audit who what target result store)
        ≡ find device operation key store

abbrev pub completions_of : {env : Env} → KeyTable env → Completions env
completions_of table = record {
  find = table.find;
  complete_found = λ device operation key status body store taken.
      table.complete_found device operation key status body store;
  audit_keeps = table.audit_keeps;
}

good_not_bad : (e : Error) → ◌≡◌ {A = Result (Unit {0})} (good tt) (bad e) → ⊥
good_not_bad e h = cc

module _ {env : Env} (table : KeyTable env) (stored : env.has_database ≡ true) where
  -- The answer is what the table holds under the key.
  abbrev pub IsRecorded : Text → Text → Text → Response × Server env → Type 0
  IsRecorded device operation key r =
      (status : ℕ) × (body : Body) × (r.0 ≡ write status body)
      × (table.find device operation key r.1.store ≡ some (answered status body))

  -- Where completions do not fail, what is settled is recorded.
  pub completions_of-IsRecorded :
      (device operation key : Text) (r : Response × Server env)
      → IsSettled (completions_of table) stored device operation key r
      → IsRecorded device operation key r
  completions_of-IsRecorded device operation key r (inl found) = found
  completions_of-IsRecorded device operation key r (inr (status, body, store, e, failed)) = absurd (
      good_not_bad e
        (sym (table.complete_good device operation key status body store) ∙ ap (λ x. x.0) failed))

  pub answer_with-IsRecorded :
      (device operation key : Text) (status : ℕ) (body : Body) (s : Server env)
      → IsRecorded device operation key (answer_with env device operation key status body s)
  answer_with-IsRecorded device operation key status body s =
      completions_of-IsRecorded device operation key
        (answer_with env device operation key status body s)
        (answer_with-IsSettled (completions_of table) stored device operation key status body s)

  pub write_idempotent_error-IsRecorded :
      (device operation key : Text) (status : ℕ) (code message : Text) (s : Server env)
      → IsRecorded device operation key
          (write_idempotent_error env device operation key status code message s)
  unfolding write_idempotent_error
  write_idempotent_error-IsRecorded device operation key status code message s =
      answer_with-IsRecorded device operation key status (failure code message) s

  pub accept-IsRecorded :
      (device operation key : Text) (status : ℕ) (body : Body) (target code : Text)
      (after : Server env → Server env)
      → ((t : Server env)
          → table.find device operation key (after t).store
            ≡ table.find device operation key t.store)
      → (s : Server env)
      → IsRecorded device operation key
          (accept env device operation key status body target code after s)
  accept-IsRecorded device operation key status body target code after keeps s =
      completions_of-IsRecorded device operation key
        (accept env device operation key status body target code after s)
        (accept-IsSettled (completions_of table) stored device operation key status body target code
          after keeps s)

  -- A key that is taken is answered with what it holds, and nothing else happens.
  pub with_claim_known :
      (device operation key : Text) (fail : Error → Handler env) (body : Handler env)
      (s : Server env) (saved : Saved)
      → table.find device operation key s.store ≡ some saved
      → with_claim env device operation key fail body s ≡ (replay_idempotency saved, s)
  unfolding with_claim claim_idempotency
  with_claim_known device operation key fail body s saved known =
      rw (stored, table.claim_known device operation key s.store saved known) refl

  abbrev pub claimed_by : Text → Text → Text → Server env → Server env
  claimed_by device operation key s = record s {
    store = (env.claim device operation key s.store).1;
  }

  -- A new key lets the work begin.
  pub with_claim_new :
      (device operation key : Text) (fail : Error → Handler env) (body : Handler env)
      (s : Server env)
      → table.find device operation key s.store ≡ none
      → with_claim env device operation key fail body s ≡ body (claimed_by device operation key s)
  unfolding with_claim claim_idempotency
  with_claim_new device operation key fail body s fresh =
      rw (stored, table.claim_new device operation key s.store fresh) refl

  with_claim_again :
      (device operation key : Text) (fail : Error → Handler env) (body : Handler env)
      → ((s : Server env) → IsRecorded device operation key (body s))
      → (s : Server env)
      → with_claim env device operation key fail body
          (with_claim env device operation key fail body s).1
        ≡ with_claim env device operation key fail body s
  unfolding replay_idempotency
  with_claim_again device operation key fail body recorded s =
      elim (Option-cases (table.find device operation key s.store)) [
        | inr (saved, known) ↦
            let same = with_claim_known device operation key fail body s saved known in
            ap (λ r. with_claim env device operation key fail body r.1) same
        | inl fresh ↦
            let new = with_claim_new device operation key fail body s fresh in
            let r = body (claimed_by device operation key s) in
            let (status, answer, given, found) = recorded (claimed_by device operation key s) in
            ap (λ r. with_claim env device operation key fail body r.1) new
            ∙ with_claim_known device operation key fail body r.1 (answered status answer) found
            ∙ ap (λ response. (response, r.1)) (sym given)
            ∙ sym new
      ]

  -- Work whose answer is recorded is not done twice under one key.
  pub with_claim-IsIdempotent :
      (device operation key : Text) (fail : Error → Handler env) (body : Handler env)
      → ((s : Server env) → IsRecorded device operation key (body s))
      → IsIdempotent (with_claim env device operation key fail body)
  with_claim-IsIdempotent device operation key fail body recorded = record {
    again = with_claim_again device operation key fail body recorded;
  }

-- The table of keys as a client sees it: what is behind one key, and the answer to a request with it,
-- of which the work would give `response`.
unfoldable pub once : Option Saved → Response → Response × Option Saved
unfolding replay_idempotency
once none response = (response, some (answered response.status response.body))
once (some saved) response = (replay_idempotency saved, some saved)

module _ {env : Env} (table : KeyTable env) (stored : env.has_database ≡ true) where
  -- A handler's work behind its claim is one step of the abstract table: a key that is new gets the
  -- work's answer and keeps it, a key that is taken gets what it keeps. The work records its answer.
  pub with_claim-once :
      (device operation key : Text) (fail : Error → Handler env) (body : Handler env)
      (s : Server env)
      → ((t : Server env) → IsRecorded table stored device operation key (body t))
      → (
        (with_claim env device operation key fail body s).0,
        table.find device operation key (with_claim env device operation key fail body s).1.store,
      )
        ≡ once
            (table.find device operation key s.store)
            (body (claimed_by table stored device operation key s)).0
  unfolding once
  with_claim-once device operation key fail body s recorded =
      let find = table.find device operation key in
      elim (Option-cases (find s.store)) [
        | inr (saved, known) ↦
            let same = with_claim_known table stored device operation key fail body s saved known in
            rw (same, known) refl
        | inl fresh ↦
            let new = with_claim_new table stored device operation key fail body s fresh in
            let (status, answer, given, found) =
              recorded (claimed_by table stored device operation key s) in
            rw (new, fresh, found, given) refl
      ]
