-- ===== src/At/Client/Scan.antt =====
-- at/parser.go: what a command exchange makes of the bytes that the modem sends.
use dontmove_kit.Prelude.{
  ◌≡◌, refl, sym, ap, ◌∙◌, Bool, false, none, List, [], ◌∷◌, ◌++◌, map, arith,
}
use dontmove_kit.Text.{Text}
use dontmove_kit.At.Parser.{cut_byte, feed}
use dontmove_kit.At.Parser.Framing.{
  feed_all, flatten, feed_chunks, NoNewline, frame, frame-append, feed-frame,
}
use dontmove_kit.At.Client.{
  Read, CtxError, Lines, Scanned, more, final, add_response, add_unsolicited, scan, answer,
  read_loop, no_lines,
}

abbrev resume : (Text → Bool) → Scanned → List Text → Scanned
resume is_echo (more l) ys = scan is_echo ys l
resume is_echo (final l line) ys = final l line

-- Scanning stops anywhere between two lines and goes on.
scan-append :
    (is_echo : Text → Bool) (xs ys : List Text) (l : Lines)
    → scan is_echo (xs ++ ys) l ≡ resume is_echo (scan is_echo xs l) ys
unfolding scan
scan-append is_echo [] ys l = refl
scan-append is_echo (x ∷ xs) ys l = ground (
  arith,
  scan-append is_echo xs ys l,
  scan-append is_echo xs ys (add_unsolicited l x),
  scan-append is_echo xs ys (add_response l x),
)

abbrev pub plain : Text → Read
plain chunk = record { bytes = chunk; error = none }

module _ (ended : CtxError) (is_echo : Text → Bool) where
  -- The loop answers by this final line, with these lines collected.
  abbrev Answers : List Text → Text → Lines → Lines → Text → Type 0
  Answers chunks buffer l l' line =
      ((read_loop ended is_echo false (map plain chunks) buffer l).0 ≡ answer l' line)
      × ((read_loop ended is_echo false (map plain chunks) buffer l).1 ≡ l'.unsolicited)

  read_loop-cons :
      (chunk : Text) (chunks : List Text) (buffer : Text) (l l' : Lines) (line : Text) (s : Scanned)
      → scan is_echo (feed buffer chunk).0 l ≡ s
      → ((m : Lines)
          → scan is_echo (feed_all (feed buffer chunk).1 chunks).0 m ≡ final l' line
          → Answers chunks (feed buffer chunk).1 m l' line)
      → resume is_echo s (feed_all (feed buffer chunk).1 chunks).0 ≡ final l' line
      → Answers (chunk ∷ chunks) buffer l l' line
  unfolding read_loop
  read_loop-cons chunk chunks buffer l l' line (more m) e ih k = rw (e, read_loop) (ih m k)
  read_loop-cons chunk chunks buffer l l' line (final m x) e ih k = rw (e, read_loop) (ground arith)

  read_loop-feed_all :
      (chunks : List Text) (buffer : Text) (l l' : Lines) (line : Text)
      → scan is_echo (feed_all buffer chunks).0 l ≡ final l' line
      → Answers chunks buffer l l' line
  unfolding feed_all
  read_loop-feed_all [] buffer l l' line h = unfold scan in cc h
  read_loop-feed_all (chunk ∷ chunks) buffer l l' line h =
      read_loop-cons chunk chunks buffer l l' line (scan is_echo (feed buffer chunk).0 l) refl
        (λ m k. read_loop-feed_all chunks (feed buffer chunk).1 m l' line k)
        (sym (scan-append is_echo (feed buffer chunk).0 (feed_all (feed buffer chunk).1 chunks).0 l)
          ∙ h)

  -- However the modem's bytes are cut into reads, a command is answered by the first final line of
  -- all the bytes, with the lines collected up to there: if the lines of the bytes taken together
  -- reach a final line, the read loop returns its verdict and the unsolicited lines before it.
  pub read_loop_chunks :
      (chunks : List Text) (l' : Lines) (line : Text)
      → scan is_echo (feed [] (flatten chunks)).0 no_lines ≡ final l' line
      → Answers chunks [] no_lines l' line
  read_loop_chunks chunks l' line h =
      read_loop-feed_all chunks [] no_lines l' line
        (rw (ap (λ (r : List Text × Text). r.0) (feed_chunks [] chunks nil.0).0) h)
    where
      nil : NoNewline [] × Unit {0}
      nil = unfold cut_byte in (refl, tt)

  read_loop-final :
      (chunk : Text) (rest : List Read) (l' : Lines) (line : Text)
      → scan is_echo (feed [] chunk).0 no_lines ≡ final l' line
      → read_loop ended is_echo false (plain chunk ∷ rest) [] no_lines
        ≡ (answer l' line, l'.unsolicited, rest)
  unfolding read_loop
  read_loop-final chunk rest l' line h = rw (h, read_loop)

  -- What follows the final line in one read is lost: the loop returns the same result and the same
  -- lines, and leaves the same reads, as if those bytes had not come, whatever they hold.
  pub read_loop_drops_tail :
      (answered tail : Text) (rest : List Read) (l' : Lines) (line : Text)
      → scan is_echo (feed [] answered).0 no_lines ≡ final l' line
      → read_loop ended is_echo false (plain (answered ++ tail) ∷ rest) [] no_lines
        ≡ read_loop ended is_echo false (plain answered ∷ rest) [] no_lines
  read_loop_drops_tail answered tail rest l' line h =
      read_loop-final (answered ++ tail) rest l' line longer
      ∙ sym (read_loop-final answered rest l' line h)
    where
      longer : scan is_echo (feed [] (answered ++ tail)).0 no_lines ≡ final l' line
      longer =
          rw (feed-frame [] (answered ++ tail), frame-append answered tail [])
            (rw (scan-append is_echo (frame [] answered).0) (rw (← feed-frame [] answered) (rw h)))
