-- ===== src/At/Parser.antt =====
-- at/parser.go: the line parser of the serial port, and what kind of line each one is.
pub mod Framing
use dontmove_kit.Prelude.{
  ℕ, zero, suc, Bool, true, false, ◌&&◌, ◌||◌, Option, none, some, List, [], ◌∷◌, ◌++◌, ◌==◌,
  if◌then◌else◌, length, is_nil,
}
use dontmove_kit.Text.{Text, txt, text_eq, has_prefix, contains, trim_space}

-- bytes.IndexByte with the two slices round the byte.
unfoldable pub cut_byte : ℕ → Text → Option (Text × Text)
cut_byte b [] = none
cut_byte b (c ∷ s) =
    let later = cut_byte b s in
    if c == b then some ([], s) else elim later [ none ↦ none | some (l, r) ↦ some (c ∷ l, r) ]

-- strings.TrimSuffix(line, "\r").
unfoldable pub trim_return : Text → Text
trim_return [] = []
trim_return (c ∷ s) = let rest = trim_return s in if is_nil s && c == 13 then [] else c ∷ rest

abbrev pub clean : Text → Text
clean line = trim_space (trim_return line)

-- Empty lines are dropped.
abbrev pub add_line : Text → List Text → List Text
add_line [] lines = lines
add_line (c ∷ s) lines = (c ∷ s) ∷ lines

-- The loop of `Feed`: the lines of the buffer and what is left in it. Each round takes one line.
unfoldable pub feed_loop : ℕ → Text → List Text × Text
unfolding cut_byte
feed_loop zero buffer = ([], buffer)
feed_loop (suc rounds) buffer = elim (cut_byte 10 buffer) [
  | none ↦ ([], buffer)
  | some (line, rest) ↦ (add_line (clean line) (feed_loop rounds rest).0, (feed_loop rounds rest).1)
]

-- (*Parser).Feed: the state is the buffer.
unfoldable pub feed : Text → Text → List Text × Text
unfolding feed_loop trim_return trim_space
feed buffer chunk = feed_loop (suc (length (buffer ++ chunk))) (buffer ++ chunk)

unfoldable pub is_final : Text → Bool
unfolding text_eq has_prefix
is_final line =
    text_eq line (txt "OK")
    || text_eq line (txt "ERROR")
    || has_prefix line (txt "+CME ERROR")
    || has_prefix line (txt "+CMS ERROR")

-- What ends a call: the three results that `isUnsolicited` and `HandleURC` look for.
unfoldable pub is_call_end : Text → Bool
unfolding contains
is_call_end line =
    contains line (txt "NO CARRIER")
    || contains line (txt "BUSY")
    || contains line (txt "NO ANSWER")

unfoldable pub is_unsolicited : Text → Bool
unfolding trim_space text_eq has_prefix is_call_end
is_unsolicited line =
    let trimmed = trim_space line in
    (text_eq trimmed (txt "RING") || has_prefix trimmed (txt "+CLIP:"))
    || (has_prefix trimmed (txt "+CMTI:") || has_prefix trimmed (txt "+CMT:"))
    || is_call_end trimmed
