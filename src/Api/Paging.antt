-- ===== src/Api/Paging.antt =====
-- api/server.go: the query parameters of the lists: `pagination`, `threadMessageCursor`,
-- `recordingTimeFilters`.
pub mod Bounds
use dontmove_kit.Prelude.{
  ℕ, Bool, true, false, not, ◌&&◌, ◌||◌, Option, none, some, List, [], ◌∷◌, ◌++◌, leb,
  if◌then◌else◌, is_nil,
}
use dontmove_kit.Prelude.Int.{ℤ, pos, negsuc}
use dontmove_kit.Text.{Text, txt, trim_space, atoi}
use dontmove_kit.Api.{Request, value_of}

-- A parse error's text, or the value.
pub data Parsed {ℓ} (A : Type ℓ) : Type ℓ where
  refused : Text → Parsed A
  parsed : A → Parsed A

abbrev pub after_error : Text
after_error = txt "after must be a non-negative integer"

abbrev pub limit_error : Text
limit_error = txt "limit must be between 1 and 500"

abbrev pub not_negative : Text → Option ℤ → Parsed ℕ
not_negative message none = refused message
not_negative message (some (negsuc n)) = refused message
not_negative message (some (pos n)) = parsed n

abbrev pub within : Option ℤ → Parsed ℕ
within none = refused limit_error
within (some (negsuc n)) = refused limit_error
within (some (pos n)) = if leb 1 n && leb n 500 then parsed n else refused limit_error

abbrev pub both : Parsed ℕ → Parsed ℕ → Parsed (ℕ × ℕ)
both (refused e) l = refused e
both (parsed a) (refused e) = refused e
both (parsed a) (parsed l) = parsed (a, l)

abbrev pub or_default : ℕ → Text → Parsed ℕ → Parsed ℕ
or_default n text p = if is_nil text then parsed n else p

-- pagination: `after` and `limit`.
unfoldable pub pagination : Request → Parsed (ℕ × ℕ)
pagination r =
    let after = value_of (txt "after") r.query in
    let limit = value_of (txt "limit") r.query in
    both (or_default 0 after (not_negative after_error (atoi after)))
      (or_default 100 limit (within (atoi limit)))

abbrev at_cursor : Text → Parsed ℕ → Parsed (Option ℕ × Text)
at_cursor id (refused e) = refused e
at_cursor id (parsed before) = parsed (some before, id)

-- threadMessageCursor.
unfoldable pub thread_message_cursor : Request → Parsed (Option ℕ × Text)
thread_message_cursor r =
    let value = trim_space (value_of (txt "before") r.query) in
    let before_id = trim_space (value_of (txt "beforeId") r.query) in
    if is_nil value
    then if is_nil before_id
      then parsed (none, [])
      else refused (txt "before is required when beforeId is provided")
    else at_cursor before_id
        (not_negative (txt "before must be a non-negative integer") (atoi value))

abbrev moment : Text → Option ℤ → Parsed (Option ℤ)
moment name none = refused (name ++ txt " must be Unix milliseconds")
moment name (some t) = parsed (some t)

abbrev time_of : Text → Request → Parsed (Option ℤ)
time_of name r =
    let value = trim_space (value_of name r.query) in
    if is_nil value then parsed none else moment name (atoi value)

abbrev pair_times : Parsed (Option ℤ) → Parsed (Option ℤ) → Parsed (Option ℤ × Option ℤ)
pair_times (refused e) to = refused e
pair_times (parsed from) (refused e) = refused e
pair_times (parsed from) (parsed to) = parsed (from, to)

-- recordingTimeFilters: `from` and `to`, in milliseconds.
unfoldable pub recording_time_filters : Request → Parsed (Option ℤ × Option ℤ)
recording_time_filters r = pair_times (time_of (txt "from") r) (time_of (txt "to") r)
