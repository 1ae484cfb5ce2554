-- ===== src/Api/Messages/Reading.antt =====
-- api/server.go: the lists of messages, threads, calls and changes leave the server as it is.
use dontmove_kit.Prelude.{ℕ, ◌≡◌, refl, Option, none, inl, inr, Bool-cases, is_nil}
use dontmove_kit.Text.{Text, txt, trim_space}
use dontmove_kit.Api.{Request, value_of}
use dontmove_kit.Api.State.{Env, Server}
use dontmove_kit.Api.Keys.{authorize, Handler}
use dontmove_kit.Api.Keys.Repeats.{behind_keeps, require_keeps, on_result_keeps}
use dontmove_kit.Api.Paging.{Parsed, refused, parsed, pagination, thread_message_cursor}
use dontmove_kit.Api.Messages.{
  on_parsed, failed_with, get_messages, list_authorized, list_with, list_thread, write_thread,
  write_messages, threads, threads_authorized, write_threads, sync, sync_authorized, sync_from,
  write_changes,
}

pub on_parsed_keeps {ℓ} :
    {env : Env} {A : Type ℓ} (code : Text) (p : Parsed A) (k : A → Handler env) (s : Server env)
    → ((a : A) → (k a s).1 ≡ s)
    → (on_parsed env code p k s).1 ≡ s
unfolding on_parsed
on_parsed_keeps code (refused message) k s h = refl
on_parsed_keeps code (parsed a) k s h = h a

module _ {env : Env} where
  list_thread_keeps :
      (thread_key : Text) (limit : ℕ) (cursor : Option ℕ × Text) (s : Server env)
      → (list_thread env thread_key limit cursor s).1 ≡ s
  list_thread_keeps thread_key limit (before, before_id) s =
      on_result_keeps _ (failed_with env (txt "CB-SMS-006")) (write_thread env limit) s (λ e. refl)
        (λ rows. refl)

  list_with_keeps : (r : Request) (page : ℕ × ℕ) (s : Server env) → (list_with env r page s).1 ≡ s
  list_with_keeps r (after, limit) s =
      elim (Bool-cases (is_nil (trim_space (value_of (txt "threadKey") r.query)))) [
        | inl all ↦ rw all (
            on_result_keeps _ (failed_with env (txt "CB-SMS-004"))
              (λ messages. write_messages env messages none) s (λ e. refl) (λ rows. refl))
        | inr thread ↦ rw thread (
            on_parsed_keeps _ (thread_message_cursor r) (list_thread env _ limit) s
              (λ cursor. list_thread_keeps _ limit cursor s))
      ]

  pub get_messages_keeps : (r : Request) (s : Server env) → (get_messages env r s).1 ≡ s
  unfolding get_messages
  get_messages_keeps r s = behind_keeps (authorize env r) (list_authorized env r) s (λ device.
      require_keeps _ _ _ s
        (on_parsed_keeps _ (pagination r) (list_with env r) s (λ page. list_with_keeps r page s)))

  pub threads_keeps : (r : Request) (s : Server env) → (threads env r s).1 ≡ s
  unfolding threads
  threads_keeps r s = behind_keeps (authorize env r) (threads_authorized env) s (λ device.
      require_keeps _ _ _ s (
        on_result_keeps _ (failed_with env (txt "CB-SMS-005")) (write_threads env) s (λ e. refl)
          (λ found. refl)))

  pub sync_keeps : (r : Request) (s : Server env) → (sync env r s).1 ≡ s
  unfolding sync
  sync_keeps r s = behind_keeps (authorize env r) (sync_authorized env r) s (λ device.
      require_keeps _ _ _ s (
        on_parsed_keeps _ (pagination r) (sync_from env) s (λ page.
          on_result_keeps _ (failed_with env (txt "CB-SYNC-003")) (write_changes env page.0 page.1)
            s (λ e. refl) (λ found. refl))))
