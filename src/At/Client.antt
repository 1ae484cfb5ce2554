-- ===== src/At/Client.antt =====
-- at/parser.go: `Client`, which exchanges commands and answers over the serial port.
--
-- A port is a script: the reads that come before the context ends, and which writes go through. A
-- client operation holds the port's lock throughout, so the operations run one after another. The
-- response lines that Go returns beside an error are left out: no caller reads them.
pub mod Rules
pub mod Scan
pub mod Answers
pub mod Submission
use dontmove_kit.Prelude.{
  ℕ, Bool, true, false, not, ◌&&◌, ◌||◌, Option, none, some, List, [], ◌∷◌, ◌++◌, ◌==◌, ltb,
  if◌then◌else◌, is_nil,
}
use dontmove_kit.Text.{Text, txt, text_eq, contains, trim_space, equal_fold, print_nat}
use dontmove_kit.At.Parser.{feed, is_final, is_unsolicited}

-- ctx.Err().
pub data CtxError : Type 0 where
  deadline_exceeded canceled : CtxError

pub data ReadError : Type 0 where
  ctx_ended : CtxError → ReadError
  io_error : ReadError

-- One return of `readWithContext`: its bytes, and its error if it has one.
pub record Read : Type 0 where
  pub bytes : Text
  pub error : Option ReadError

pub data AtError : Type 0 where
  write_failed : AtError
  ctx_error : CtxError → AtError
  read_failed : ReadError → AtError
  command_failed : Text → AtError
  invalid_submission : AtError
  submission_unknown : AtError → AtError

pub data Result {ℓ} (A : Type ℓ) : Type ℓ where
  ok : A → Result A
  err : AtError → Result A

pub record Client : Type 0 where
  pub accepts : List Text → Text → Bool  -- whether a write goes through, after those before it
  pub sent : List Text
  pub reads : List Read
  pub ended : CtxError  -- why the context ends when the reads are over
  pub poll_buffer : Text
  pub dry_run : Bool

-- An operation: its result, the unsolicited lines that came, and the client behind it.
abbrev pub M : Type 0 → Type 0
M A = Client → Result A × List Text × Client

infixl 5 ◌>>=◌ ◌>>◌
abbrev pub ◌>>=◌ : {A B : Type 0} → M A → (A → M B) → M B
◌>>=◌ m f c =
    let first = m c in
    elim first.0 [
      | err e ↦ (err e, first.1, first.2)
      | ok a ↦ let rest = f a first.2 in (rest.0, first.1 ++ rest.1, rest.2)
    ]

abbrev pub ◌>>◌ : {A B : Type 0} → M A → M B → M B
m >> k = m >>= λ _. k

abbrev pub guard : Bool → AtError → M (Unit {0})
guard true e c = (ok tt, [], c)
guard false e c = (err e, [], c)

-- io.WriteString.
unfoldable pub write : Text → M (Unit {0})
write text c =
    if c.accepts c.sent text
    then (ok tt, [], record c { sent = c.sent ++ text ∷ [] })
    else (err write_failed, [], c)

-- The lines collected so far.
pub record Lines : Type 0 where
  pub response : List Text
  pub unsolicited : List Text

pub data LineKind : Type 0 where
  echo unsolicited_line final_line ordinary : LineKind

-- The tests of the line loop in the code's order; `is_echo` is constantly false in `readUntil`.
unfoldable pub line_kind : (Text → Bool) → Text → LineKind
line_kind is_echo line =
    if is_echo line
    then echo
    else if is_unsolicited line
    then unsolicited_line
    else if is_final line
    then final_line
    else ordinary

pub data Scanned : Type 0 where
  more : Lines → Scanned
  final : Lines → Text → Scanned

abbrev pub add_response : Lines → Text → Lines
add_response l line = record l { response = l.response ++ line ∷ [] }

abbrev pub add_unsolicited : Lines → Text → Lines
add_unsolicited l line = record l { unsolicited = l.unsolicited ++ line ∷ [] }

-- The loop over the lines of one read: it returns at the first final line.
unfoldable pub scan : (Text → Bool) → List Text → Lines → Scanned
unfolding line_kind
scan is_echo [] l = more l
scan is_echo (line ∷ lines) l = elim (line_kind is_echo line) [
  | echo ↦ scan is_echo lines l
  | unsolicited_line ↦ scan is_echo lines (add_unsolicited l line)
  | final_line ↦ final (add_response l line) line
  | ordinary ↦ scan is_echo lines (add_response l line)
]

unfoldable pub answer : Lines → Text → Result (List Text)
unfolding text_eq
answer l line = if text_eq line (txt "OK") then ok l.response else err (command_failed line)

abbrev pub read_error : ReadError → AtError
read_error (ctx_ended deadline_exceeded) = ctx_error deadline_exceeded
read_error (ctx_ended canceled) = read_failed (ctx_ended canceled)
read_error io_error = read_failed io_error

-- A result, the unsolicited lines, and the reads that are left.
abbrev pub Answered : Type 0
Answered = Result (List Text) × List Text × List Read

-- What one read leads to: the prompt has come, a final line, an error, or another read.
unfoldable pub after_read :
    Bool → Scanned → Option ReadError → Lines → List Read → (Lines → Answered) → Answered
unfolding answer
after_read true s e l rs go_on = (ok l.response, l.unsolicited, rs)
after_read false (final l' line) e l rs go_on = (answer l' line, l'.unsolicited, rs)
after_read false (more l') (some e) l rs go_on = (err (read_error e), l'.unsolicited, rs)
after_read false (more l') none l rs go_on = go_on l'

-- The read loop that `exchangeLocked` and `readUntil` share, from the lines and the parser's buffer
-- reached. A read of no bytes changes neither.
unfoldable pub read_loop : CtxError → (Text → Bool) → Bool → List Read → Text → Lines → Answered
unfolding scan after_read
read_loop ended is_echo prompt [] buffer l = (err (ctx_error ended), l.unsolicited, [])
read_loop ended is_echo prompt (r ∷ rs) buffer l =
    after_read (prompt && contains r.bytes (txt ">")) (scan is_echo (feed buffer r.bytes).0 l)
      r.error l rs (read_loop ended is_echo prompt rs (feed buffer r.bytes).1)

abbrev pub no_lines : Lines
no_lines = record { response = []; unsolicited = [] }

unfoldable pub read_with : (Text → Bool) → Bool → M (List Text)
unfolding read_loop
read_with is_echo prompt c =
    let (result, lines, rest) = read_loop c.ended is_echo prompt c.reads [] no_lines in
    (result, lines, record c { reads = rest })

-- (*Client).readUntil.
unfoldable pub read_until : Bool → M (List Text)
unfolding read_with
read_until prompt = read_with (λ _. false) prompt

-- (*Client).exchangeLocked.
unfoldable pub exchange : Text → M (List Text)
unfolding write read_with equal_fold
exchange command = do write (command ++ 13 ∷ []); read_with (λ line. equal_fold line command) false

-- A final error other than the modem's own refusal leaves open whether the message went out.
unfoldable pub settle : Result (List Text) → Result (List Text)
settle (ok lines) = ok lines
settle (err (command_failed line)) = err (command_failed line)
settle (err e) = err (submission_unknown e)

unfoldable pub read_verdict : M (List Text)
unfolding read_until settle
read_verdict c = let (result, lines, c') = read_until false c in (settle result, lines, c')

abbrev pub submit_command : Bool → Text
submit_command true = txt "AT+CMGW"
submit_command false = txt "AT+CMGS"

-- What the two submissions have in common: the request, the prompt, the body and the verdict.
unfoldable pub submit : Text → Text → M (List Text)
unfolding write read_until read_verdict
submit request body = do write request; read_until true; write (body ++ 26 ∷ []); read_verdict

-- (*Client).sendPDULocked. A length below 1 is refused, as 0 is here.
unfoldable pub send_pdu : ℕ → Text → M (List Text)
unfolding exchange submit trim_space print_nat
send_pdu length pdu c =
    (do
      guard (not (length == 0 || is_nil (trim_space pdu))) invalid_submission
      exchange (txt "AT+CMGF=0")
      submit (submit_command c.dry_run ++ txt "=" ++ print_nat length ++ 13 ∷ []) (trim_space pdu))
      c

-- (*Client).sendTextLocked.
unfoldable pub send_text : Text → Text → M (List Text)
unfolding exchange submit trim_space
send_text destination body c =
    (do
      guard (not (is_nil (trim_space destination) || is_nil (trim_space body))) invalid_submission
      exchange (txt "AT+CMGF=1")
      exchange (txt "AT+CSCS=\"GSM\"")
      submit (submit_command c.dry_run ++ txt "=\"" ++ destination ++ txt "\"" ++ 13 ∷ []) body)
      c

-- One round of `Run` that finds the port free and reads these bytes: the lines for the handler.
unfoldable pub poll : Text → Client → List Text × Client
unfolding feed
poll bytes c =
    let (lines, rest) = feed c.poll_buffer bytes in (lines, record c { poll_buffer = rest })
