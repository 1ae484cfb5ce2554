-- ===== src/Api/Calls/Deletion/Keeping.antt =====
-- api/server.go: what `deleteCall` keeps, and the key that it leaves pending.
use dontmove_kit.Prelude.{
  ℕ, ◌≡◌, refl, ap, ◌∙◌, true, false, Option, none, some, inl, inr, Bool-cases, arith,
}
use mathlib.Core.Path.{subst}
use dontmove_kit.Text.{Text, txt}
use dontmove_kit.Api.{Request, Body, Call, write_error}
use dontmove_kit.Api.State.{Error, good, bad, pending, Env, Server}
use dontmove_kit.Api.Keys.{on_result, answer_with, complete, idempotency_key, replay_idempotency}
use dontmove_kit.Api.Keys.Once.{KeyTable, with_claim_known, with_claim_new, claimed_by}
use dontmove_kit.Api.Keys.Frames.{behind_frame, require_frame, with_claim_frame}
use dontmove_kit.Api.Messages.Actions.{is_no_rows}
use dontmove_kit.Api.Calls.Deletion.{
  delete_op, delete_row, delete_claimed, delete_keyed, delete_call,
}

-- The table of calls behind the database: the table of keys is another one.
pub record CallRows (env : Env) : Type 0 where
  pub claim_keeps :
      (device operation key id : Text) (store : env.Store)
      → env.get_call id (env.claim device operation key store).1 ≡ env.get_call id store
  pub complete_keeps :
      (device operation key id : Text) (status : ℕ) (body : Body) (store : env.Store)
      → env.get_call id (env.complete device operation key status body store).1
        ≡ env.get_call id store

module _ {env : Env} (rows : CallRows env) where
  abbrev Holds : Text → Call → Server env → Type 0
  Holds id call s = env.get_call id s.store ≡ good call

  answer_with-Holds :
      (device key id : Text) (status : ℕ) (body : Body) (call : Call) (s : Server env)
      → Holds id call s
      → Holds id call (answer_with env device delete_op key status body s).1
  unfolding answer_with complete
  answer_with-Holds device key id status body call s h = elim (Bool-cases env.has_database) [
    | inl on ↦ rw on (rows.complete_keeps device delete_op key id status body s.store ∙ h)
    | inr off ↦ rw off h
  ]

  delete_row-Holds :
      (device id key : Text) (ended : Option ℕ) (call : Call) (s : Server env)
      → ended ≡ none
      → Holds id call s
      → Holds id call (delete_row env device key id ended s).1
  delete_row-Holds device id key none call s active h =
      answer_with-Holds device key id 409 _ call s h
  delete_row-Holds device id key (some t) call s active h = absurd (ground (arith, active))

  delete_claimed-Holds :
      (device id key : Text) (call : Call) (s : Server env)
      → call.ended_at ≡ none
      → Holds id call s
      → Holds id call (delete_claimed env device id key s).1
  unfolding delete_claimed on_result
  delete_claimed-Holds device id key call s active h =
      rw h (delete_row-Holds device id key call.ended_at call s active h)

  -- A stored call that has not ended is still stored, unchanged, whatever request to delete it comes
  -- and whatever the database answers. Claims and completions of keys do not touch the calls.
  pub delete_call-KeepsActive :
      (r : Request) (id device : Text) (call : Call) (s : Server env)
      → env.get_call id s.store ≡ good call
      → call.ended_at ≡ none
      → env.get_call id (delete_call env r id device s).1.store ≡ good call
  unfolding delete_call
  delete_call-KeepsActive r id device call s h active = require_frame (Holds id call) _ _ _ s h (
      behind_frame (Holds id call) (idempotency_key r) (delete_keyed env device id) s h (λ key.
        with_claim_frame (Holds id call) device delete_op key _ (delete_claimed env device id key) s
          (λ store e.
            subst (λ t. env.get_call id t ≡ good call) e
              (rows.claim_keeps device delete_op key id s.store ∙ h))
          h (λ e t k. k) (λ t k. delete_claimed-Holds device id key call t active k)))

module _ {env : Env} (table : KeyTable env) (stored : env.has_database ≡ true) where
  -- A deletion under a new key that the database fails to look up, other than for a missing row, is
  -- answered 500, and leaves its key pending. In whatever state its key is pending, a try with it, of
  -- this call or another, is answered 409 and does nothing, so it leaves the key pending again.
  pub delete_keyed_pending :
      (device id key : Text) (e : Error) (s : Server env) (other : Text) (t : Server env)
      → table.find device delete_op key s.store ≡ none
      → env.get_call id (env.claim device delete_op key s.store).1 ≡ bad e
      → is_no_rows e ≡ false
      → table.find device delete_op key t.store ≡ some pending
      → (delete_keyed env device id key s ≡ (
        write_error 500 (txt "CB-CALL-004") e.text,
        claimed_by table stored device delete_op key s,
      ))
        × (table.find device delete_op key (delete_keyed env device id key s).1.store
            ≡ some pending)
        × (delete_keyed env device other key t ≡ (
          write_error 409
              (txt "CB-API-003")
              (txt "request with this Idempotency-Key is still in progress"),
          t,
        ))
  unfolding delete_claimed on_result replay_idempotency
  delete_keyed_pending device id key e s other t fresh failed unlike held =
      let first : delete_keyed env device id key s ≡ (
        write_error 500 (txt "CB-CALL-004") e.text,
        claimed_by table stored device delete_op key s,
      ) =
        with_claim_new table stored device delete_op key _ (delete_claimed env device id key) s
          fresh
        ∙ rw (failed, unlike) refl in
      (
        first,
        ap (λ r. table.find device delete_op key r.1.store) first
            ∙ table.claim_pending device delete_op key s.store fresh,
        with_claim_known table stored device delete_op key _ (delete_claimed env device other key) t
            pending held,
      )
