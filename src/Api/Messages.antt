-- ===== src/Api/Messages.antt =====
-- api/server.go: the handlers of messages, threads and the sync feed.
pub mod Sending
pub mod Actions
pub mod Reading
pub mod Pages
use dontmove_kit.Prelude.{
  ℕ, suc, ◌+◌, ◌-◌, Bool, true, false, not, ◌&&◌, ◌||◌, Option, none, some, List, [], ◌∷◌, ◌++◌,
  map, ltb, ◌==◌, if◌then◌else◌, length, is_nil, slice_from,
}
use dontmove_kit.Text.{Text, txt, trim_space}
use dontmove_kit.Sms.{Message}
use dontmove_kit.Api.{
  Request, value_of, Body, many_messages, many_threads, changes, Change, Thread, thread_response,
  Response, write, write_error, message_response,
}
use dontmove_kit.Api.State.{Error, Result, good, bad, Env, Server}
use dontmove_kit.Api.Keys.{Check, Handler, reply, behind, authorize, require, on_result}
use dontmove_kit.Api.Paging.{Parsed, parsed, refused, pagination, thread_message_cursor}

-- What is kept of a thread's rows, one more than the limit being asked for, and X-CellBridge-Has-More.
unfoldable pub thread_page {ℓ} : {A : Type ℓ} → ℕ → List A → List A × Bool
thread_page limit rows =
    let has_more = ltb limit (length rows) in
    (if has_more then slice_from (length rows - limit) rows else rows, has_more)

-- The sequence that a sync answer reaches: that of the last change.
unfoldable pub last_seq : ℕ → List Change → ℕ
last_seq after [] = after
last_seq after (c ∷ rest) = last_seq c.seq rest

abbrev pub no_database : Text → Response
no_database code = write_error 503 code (txt "database unavailable")

module _ (env : Env) where
  abbrev pub failed_with : Text → Error → Handler env
  failed_with code e = reply env (write_error 500 code e.text)

  unfoldable pub on_parsed {ℓ} : {A : Type ℓ} → Text → Parsed A → (A → Handler env) → Handler env
  on_parsed code (refused message) k = reply env (write_error 400 code message)
  on_parsed code (parsed a) k = k a

  abbrev pub write_messages : List Message → Option Bool → Handler env
  write_messages messages more = reply env (record {
    status = 200;
    body = many_messages (map (message_response env.gateway_id) messages);
    has_more = more;
  })

  abbrev pub write_thread : ℕ → List Message → Handler env
  write_thread limit rows = let page = thread_page limit rows in write_messages page.0 (some page.1)

  abbrev pub list_thread : Text → ℕ → Option ℕ × Text → Handler env
  list_thread thread_key limit (before, before_id) s =
      on_result env (env.list_thread_messages thread_key before before_id (limit + 1) s.store)
        (failed_with (txt "CB-SMS-006")) (write_thread limit) s

  abbrev pub list_all : ℕ → ℕ → Handler env
  list_all after limit s =
      on_result env (env.list_messages after limit s.store) (failed_with (txt "CB-SMS-004"))
        (λ messages. write_messages messages none) s

  abbrev pub list_with : Request → ℕ × ℕ → Handler env
  list_with r (after, limit) =
      let thread_key = trim_space (value_of (txt "threadKey") r.query) in
      if is_nil thread_key
      then list_all after limit
      else on_parsed (txt "CB-SMS-005") (thread_message_cursor r) (list_thread thread_key limit)

  abbrev pub list_authorized : Request → Text → Handler env
  list_authorized r device =
      require env env.has_database (no_database (txt "CB-SMS-000"))
        (on_parsed (txt "CB-SMS-003") (pagination r) (list_with r))

  -- messages, of a GET.
  unfoldable pub get_messages : Request → Handler env
  get_messages r = behind env (authorize env r) (list_authorized r)

  abbrev pub write_threads : List Thread → Handler env
  write_threads threads =
      reply env (write 200 (many_threads (map (thread_response env.gateway_id) threads)))

  abbrev pub threads_authorized : Text → Handler env
  threads_authorized device s =
      require env env.has_database (no_database (txt "CB-SMS-000"))
        (on_result env (env.list_threads s.store) (failed_with (txt "CB-SMS-005")) write_threads) s

  -- threads.
  unfoldable pub threads : Request → Handler env
  threads r = behind env (authorize env r) threads_authorized

  abbrev pub write_changes : ℕ → ℕ → List Change → Handler env
  write_changes after limit found =
      reply env (write 200 (changes after (last_seq after found) (length found == limit) found))

  abbrev pub sync_from : ℕ × ℕ → Handler env
  sync_from (after, limit) s =
      on_result env (env.sync after limit s.store) (failed_with (txt "CB-SYNC-003"))
        (write_changes after limit) s

  abbrev pub sync_authorized : Request → Text → Handler env
  sync_authorized r device =
      require env env.has_database (no_database (txt "CB-SYNC-000"))
        (on_parsed (txt "CB-SYNC-002") (pagination r) sync_from)

  -- sync.
  unfoldable pub sync : Request → Handler env
  sync r = behind env (authorize env r) (sync_authorized r)
