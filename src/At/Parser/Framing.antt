-- ===== src/At/Parser/Framing.antt =====
-- The lines that `Feed` emits do not depend on how the serial port cuts its bytes into reads.
use mathlib.Core.List.{append-nil, append_assoc}
use dontmove_kit.Prelude.{
  ℕ, zero, suc, ◌<◌, ◌≡◌, refl, sym, ap, ◌∙◌, false, Option, none, some, List, [], ◌∷◌, ◌++◌, arith,
  ◌==◌, if◌then◌else◌, length, inl, inr, Option-cases, Bool-cases,
}
use dontmove_kit.Text.{Text}
use dontmove_kit.At.Parser.{cut_byte, clean, add_line, feed_loop, feed}

-- The byte automaton that `Feed` should be: it collects a line until its newline comes.
pub frame : Text → Text → List Text × Text
frame current [] = ([], current)
frame current (c ∷ s) =
    let ends : List Text × Text = (add_line (clean current) (frame [] s).0, (frame [] s).1) in
    let goes_on : List Text × Text = frame (current ++ c ∷ []) s in
    if c == 10 then ends else goes_on

-- What the automaton does with the rest of a buffer, by where the next newline stands.
abbrev FrameCut : Text → Text → Option (Text × Text) → Type 0
FrameCut current s none = frame current s ≡ ([], current ++ s)
FrameCut current s (some (line, rest)) =
    frame current s ≡ (add_line (clean (current ++ line)) (frame [] rest).0, (frame [] rest).1)

FrameCut-step :
    (current : Text) (c : ℕ) (s : Text) (o : Option (Text × Text))
    → (c == 10) ≡ false
    → FrameCut (current ++ c ∷ []) s o
    → FrameCut current (c ∷ s) (elim o [ none ↦ none | some (l, r) ↦ some (c ∷ l, r) ])
unfolding frame
FrameCut-step current c s none e h = rw e (h ∙ ap (λ t. ([], t)) (append_assoc current (c ∷ []) s))
FrameCut-step current c s (some (l, r)) e h = rw e (rw (append_assoc current (c ∷ []) l) at h)

frame-FrameCut : (s current : Text) → FrameCut current s (cut_byte 10 s)
unfolding frame cut_byte
frame-FrameCut [] current = rw append-nil
frame-FrameCut (c ∷ s) current = elim (Bool-cases (c == 10)) [
  | inl e ↦ rw e (rw append-nil (rw e))
  | inr e ↦
      rw e (FrameCut-step current c s (cut_byte 10 s) e (frame-FrameCut s (current ++ c ∷ [])))
]

add_line-append :
    (line : Text) (xs ys : List Text) → add_line line xs ++ ys ≡ add_line line (xs ++ ys)
add_line-append [] xs ys = refl
add_line-append (c ∷ s) xs ys = refl

abbrev both : List Text → List Text × Text → List Text × Text
both lines r = (lines ++ r.0, r.1)

-- The automaton stops anywhere and goes on from the line that it has collected.
pub frame-append :
    (s t current : Text)
    → frame current (s ++ t) ≡ both (frame current s).0 (frame (frame current s).1 t)
unfolding frame
frame-append [] t current = refl
frame-append (c ∷ s) t current = elim (Bool-cases (c == 10)) [
  | inl e ↦ rw e (rw (frame-append s t []) (rw add_line-append))
  | inr e ↦ rw e (frame-append s t (current ++ c ∷ []))
]

-- The rest behind a newline is shorter.
cut_byte-length :
    (b : ℕ) (s line rest : Text) → cut_byte b s ≡ some (line, rest) → length rest < length s
unfolding cut_byte
cut_byte-length b [] line rest h = cc
cut_byte-length b (c ∷ s) line rest h = elim (Option-cases (cut_byte b s)) [
  | inl e ↦ ground arith
  | inr ((l, r), e) ↦ ground (arith, cut_byte-length b s l r e)
]

-- With enough rounds the loop is the automaton on the whole buffer.
pub feed_loop-frame : (rounds : ℕ) (s : Text) → length s < rounds → feed_loop rounds s ≡ frame [] s
unfolding feed_loop
feed_loop-frame zero s h = elim h [ ]
feed_loop-frame (suc n) s h = elim (Option-cases (cut_byte 10 s)) [
  | inl e ↦ rw (e, feed_loop) (sym (rw e at (frame-FrameCut s [])))
  | inr ((line, rest), e) ↦
      rw (e, feed_loop)
        (rw (feed_loop-frame n rest (omega (arith, cut_byte-length 10 s line rest e)))
          (sym (rw e at (frame-FrameCut s []))))
]

pub feed-frame : (buffer chunk : Text) → feed buffer chunk ≡ frame [] (buffer ++ chunk)
unfolding feed
feed-frame buffer chunk =
    feed_loop-frame (suc (length (buffer ++ chunk))) (buffer ++ chunk) (omega arith)

-- Feeding the reads one after another, as the read loops do.
unfoldable pub feed_all : Text → List Text → List Text × Text
feed_all buffer [] = ([], buffer)
feed_all buffer (chunk ∷ chunks) =
    both (feed buffer chunk).0 (feed_all (feed buffer chunk).1 chunks)

unfoldable pub flatten : List Text → Text
flatten [] = []
flatten (chunk ∷ chunks) = chunk ++ flatten chunks

abbrev pub NoNewline : Text → Type 0
NoNewline s = cut_byte 10 s ≡ none

NoNewline-append : (s t : Text) → NoNewline s → NoNewline t → NoNewline (s ++ t)
unfolding cut_byte
NoNewline-append [] t hs ht = ht
NoNewline-append (c ∷ s) t hs ht = elim (Option-cases (cut_byte 10 s)) [
  | inl e ↦ ground (arith, NoNewline-append s t e ht)
  | inr ((l, r), e) ↦ ground arith
]

frame-NoNewline : (s current : Text) → NoNewline current → NoNewline (frame current s).1
unfolding frame
frame-NoNewline [] current h = h
frame-NoNewline (c ∷ s) current h = elim (Bool-cases (c == 10)) [
  | inl e ↦ rw e (frame-NoNewline s [] nil)
  | inr e ↦
      rw e (frame-NoNewline s (current ++ c ∷ []) (NoNewline-append current (c ∷ []) h (one c e)))
]
  where
    nil : NoNewline []
    nil = unfold cut_byte in refl

    one : (c : ℕ) → (c == 10) ≡ false → NoNewline (c ∷ [])
    one c e = unfold cut_byte in rw e

-- A buffer with no newline is the line that the automaton has collected so far.
frame-buffer : (buffer s : Text) → NoNewline buffer → frame [] (buffer ++ s) ≡ frame buffer s
frame-buffer buffer s h = frame-append buffer s [] ∙ rw (rw h at (frame-FrameCut buffer []))

feed_all-frame :
    (chunks : List Text) (buffer : Text)
    → NoNewline buffer
    → feed_all buffer chunks ≡ frame buffer (flatten chunks)
unfolding feed_all flatten
feed_all-frame [] buffer h = unfold frame in refl
feed_all-frame (chunk ∷ chunks) buffer h =
    rw (feed-frame buffer chunk, frame-buffer buffer chunk h)
      (rw (feed_all-frame chunks (frame buffer chunk).1 (frame-NoNewline chunk buffer h))
        (sym (frame-append chunk (flatten chunks) buffer)))

-- However the bytes are cut into reads, `Feed` emits the same lines and keeps the same rest as one
-- read of them all, from any buffer that holds no newline; and the rest holds none again.
pub feed_chunks :
    (buffer : Text) (chunks : List Text)
    → NoNewline buffer
    → (feed_all buffer chunks ≡ feed buffer (flatten chunks)) × NoNewline (feed_all buffer chunks).1
feed_chunks buffer chunks h = (
  feed_all-frame chunks buffer h
      ∙ sym (feed-frame buffer (flatten chunks) ∙ frame-buffer buffer (flatten chunks) h),
  rw (feed_all-frame chunks buffer h) (frame-NoNewline (flatten chunks) buffer h),
)
