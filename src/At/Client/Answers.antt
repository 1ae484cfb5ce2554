-- ===== src/At/Client/Answers.antt =====
-- at/parser.go: the lines of an answer and the unsolicited lines are told apart.
use dontmove_kit.Prelude.{
  ◌≡◌, refl, ap, ◌∙◌, Bool, true, false, Option, none, some, List, [], ◌∷◌, ◌++◌, arith, inl, inr,
  Bool-cases, All, All-append,
}
use dontmove_kit.Text.Laws.{eq_of_text_eq}
use dontmove_kit.Text.{Text, txt, text_eq, equal_fold}
use dontmove_kit.At.Parser.{feed, is_final, is_unsolicited}
use dontmove_kit.At.Client.Rules.{write_rule}
use dontmove_kit.At.Client.{
  Read, Result, ok, err, Client, CtxError, Lines, LineKind, echo, unsolicited_line, final_line,
  ordinary, line_kind, Scanned, more, final, add_response, add_unsolicited, scan, answer, ReadError,
  Answered, after_read, read_loop, read_with, exchange, no_lines,
}

abbrev pub IsUrc : Text → Type 0
IsUrc line = is_unsolicited line ≡ true

-- A line that is neither unsolicited nor final.
abbrev pub IsBody : Text → Type 0
IsBody line = (is_unsolicited line ≡ false) × (is_final line ≡ false)

abbrev Sorted : Lines → Type 0
Sorted l = All IsBody l.response × All IsUrc l.unsolicited

-- The lines behind their last one.
abbrev pub EndsWith : Text → List Text → Type 0
EndsWith line lines = (body : List Text) × (lines ≡ body ++ line ∷ []) × All IsBody body

abbrev ScanSorted : Scanned → Type 0
ScanSorted (more l) = Sorted l
ScanSorted (final l line) = EndsWith line l.response × All IsUrc l.unsolicited

-- What the kind of a line says of it.
abbrev KindFacts : LineKind → Text → Type 0
KindFacts echo line = Unit
KindFacts unsolicited_line line = IsUrc line
KindFacts final_line line = is_final line ≡ true
KindFacts ordinary line = IsBody line

line_kind-KindFacts :
    (is_echo : Text → Bool) (line : Text) → KindFacts (line_kind is_echo line) line
unfolding line_kind
line_kind-KindFacts is_echo line = ground arith

scan_kind-ScanSorted :
    (is_echo : Text → Bool) (line : Text) (lines : List Text) (l : Lines) (k : LineKind)
    → KindFacts k line
    → Sorted l
    → ((m : Lines) → Sorted m → ScanSorted (scan is_echo lines m))
    → ScanSorted (elim k [
      | echo ↦ scan is_echo lines l
      | unsolicited_line ↦ scan is_echo lines (add_unsolicited l line)
      | final_line ↦ final (add_response l line) line
      | ordinary ↦ scan is_echo lines (add_response l line)
    ])
scan_kind-ScanSorted is_echo line lines l echo f h ih = ih l h
scan_kind-ScanSorted is_echo line lines l unsolicited_line f h ih =
    ih (add_unsolicited l line) (h.0, All-append IsUrc l.unsolicited (line ∷ []) h.1 (f, tt))
scan_kind-ScanSorted is_echo line lines l final_line f h ih = ((l.response, refl, h.0), h.1)
scan_kind-ScanSorted is_echo line lines l ordinary f h ih =
    ih (add_response l line) (All-append IsBody l.response (line ∷ []) h.0 (f, tt), h.1)

scan-ScanSorted :
    (is_echo : Text → Bool) (lines : List Text) (l : Lines)
    → Sorted l
    → ScanSorted (scan is_echo lines l)
unfolding scan
scan-ScanSorted is_echo [] l h = h
scan-ScanSorted is_echo (line ∷ lines) l h =
    scan_kind-ScanSorted is_echo line lines l (line_kind is_echo line)
      (line_kind-KindFacts is_echo line) h (scan-ScanSorted is_echo lines)

abbrev pub IsAnswer : Result (List Text) → Type 0
IsAnswer (ok lines) = EndsWith (txt "OK") lines
IsAnswer (err e) = Unit

answer-IsAnswer : (l : Lines) (line : Text) → EndsWith line l.response → IsAnswer (answer l line)
unfolding answer
answer-IsAnswer l line h = elim (Bool-cases (text_eq line (txt "OK"))) [
  | inl e ↦ rw e (h.0, h.1 ∙ ap (λ w. h.0 ++ w ∷ []) (eq_of_text_eq line (txt "OK") e), h.2)
  | inr e ↦ rw e tt
]

abbrev Told : Result (List Text) × List Text × List Read → Type 0
Told r = IsAnswer r.0 × All IsUrc r.1

after_read-Told :
    (s : Scanned) (e : Option ReadError) (l : Lines) (rs : List Read) (go_on : Lines → Answered)
    → ScanSorted s
    → ((m : Lines) → Sorted m → Told (go_on m))
    → Told (after_read false s e l rs go_on)
unfolding after_read
after_read-Told (final m line) e l rs go_on h ih = (answer-IsAnswer m line h.0, h.1)
after_read-Told (more m) (some e) l rs go_on h ih = (tt, h.1)
after_read-Told (more m) none l rs go_on h ih = ih m h

module _ (ended : CtxError) (is_echo : Text → Bool) where
  read_loop-Told :
      (reads : List Read) (buffer : Text) (l : Lines)
      → Sorted l
      → Told (read_loop ended is_echo false reads buffer l)
  unfolding read_loop
  read_loop-Told [] buffer l h = (tt, h.1)
  read_loop-Told (r ∷ rs) buffer l h =
      after_read-Told (scan is_echo (feed buffer r.bytes).0 l) r.error l rs _
        (scan-ScanSorted is_echo (feed buffer r.bytes).0 l h)
        (read_loop-Told rs (feed buffer r.bytes).1)

-- Whatever the modem sends, a command that succeeds is answered by lines of which the last is "OK"
-- and the others are neither final nor unsolicited; and on every outcome the lines handed to the
-- line handler are unsolicited ones.
pub exchange-Told :
    (command : Text) (c : Client)
    → IsAnswer (exchange command c).0 × All IsUrc (exchange command c).1
unfolding exchange read_with
exchange-Told command c =
    write_rule (λ r. IsAnswer r.0 × All IsUrc r.1) (command ++ 13 ∷ [])
      (read_with (λ line. equal_fold line command) false) c (c.accepts c.sent (command ++ 13 ∷ []))
      refl (tt, tt)
      (read_loop-Told c.ended (λ line. equal_fold line command) c.reads [] no_lines (tt, tt))
