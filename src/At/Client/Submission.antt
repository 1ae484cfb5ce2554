-- ===== src/At/Client/Submission.antt =====
-- at/parser.go: how far a message submission got, by what it reports.
use mathlib.Core.List.{append-nil, append_assoc}
use mathlib.Core.Path.{subst}
use dontmove_kit.Prelude.{
  ℕ, ◌≡◌, ◌≢◌, refl, sym, ap, ◌∙◌, Bool, true, false, not, ◌&&◌, ◌||◌, Option, none, some, List, [],
  ◌∷◌, ◌++◌, arith, ◌==◌, is_nil,
}
use dontmove_kit.Text.{Text, txt, trim_space, print_nat, equal_fold, contains}
use dontmove_kit.At.Parser.{feed}
use dontmove_kit.At.Client.Rules.{Outcome, after, bound, bind_rule, wrote, write_rule}
use dontmove_kit.At.Client.{
  Read, ReadError, ctx_ended, io_error, AtError, write_failed, Answered, after_read, command_failed,
  invalid_submission, submission_unknown, Result, ok, err, Client, CtxError, deadline_exceeded,
  canceled, M, ◌>>◌, guard, write, Lines, Scanned, more, final, scan, answer, read_error, read_loop,
  read_with, read_until, no_lines, exchange, settle, read_verdict, submit_command, submit, send_pdu,
  send_text,
}

-- An error of a command exchange is never an open submission.
abbrev IsKnown : AtError → Type 0
IsKnown (submission_unknown e) = ⊥
IsKnown _ = Unit

abbrev FailsKnown : Result (List Text) → Type 0
FailsKnown (ok lines) = Unit
FailsKnown (err e) = IsKnown e

answer-FailsKnown : (l : Lines) (line : Text) → FailsKnown (answer l line)
unfolding answer
answer-FailsKnown l line = ground arith

read_error-IsKnown : (e : ReadError) → IsKnown (read_error e)
read_error-IsKnown (ctx_ended deadline_exceeded) = tt
read_error-IsKnown (ctx_ended canceled) = tt
read_error-IsKnown io_error = tt

module _ (ended : CtxError) (is_echo : Text → Bool) (prompt : Bool) where
  abbrev Known : List Read → Text → Lines → Type 0
  Known reads buffer l = FailsKnown (read_loop ended is_echo prompt reads buffer l).0

  after_read-FailsKnown :
      (b : Bool) (s : Scanned) (e : Option ReadError) (l : Lines) (rs : List Read)
      (go_on : Lines → Answered)
      → ((m : Lines) → FailsKnown (go_on m).0)
      → FailsKnown (after_read b s e l rs go_on).0
  unfolding after_read
  after_read-FailsKnown true s e l rs go_on h = tt
  after_read-FailsKnown false (final m line) e l rs go_on h = answer-FailsKnown m line
  after_read-FailsKnown false (more m) (some e) l rs go_on h = read_error-IsKnown e
  after_read-FailsKnown false (more m) none l rs go_on h = h m

  read_loop-FailsKnown : (reads : List Read) (buffer : Text) (l : Lines) → Known reads buffer l
  unfolding read_loop
  read_loop-FailsKnown [] buffer l = tt
  read_loop-FailsKnown (r ∷ rs) buffer l =
      after_read-FailsKnown (prompt && contains r.bytes (txt ">"))
        (scan is_echo (feed buffer r.bytes).0 l) r.error l rs
        (read_loop ended is_echo prompt rs (feed buffer r.bytes).1)
        (read_loop-FailsKnown rs (feed buffer r.bytes).1)

-- What a submission reports, by the commands that it had still to write.
abbrev pub Verdict : Result (List Text) → List Text → Type 0
Verdict (ok lines) rest = rest ≡ []
Verdict (err (submission_unknown e)) rest = rest ≡ []
Verdict (err (command_failed line)) rest = Unit
Verdict (err _) rest = rest ≢ []

-- From this log the submission wrote some of the commands, in order, and reports accordingly.
pub record Progress (base commands : List Text) (r : Outcome (List Text)) : Type 0 where
  pub done : List Text
  pub rest : List Text
  pub splits : commands ≡ done ++ rest
  pub logged : r.2.sent ≡ base ++ done
  pub verdict : Verdict r.0 rest

Verdict-known : (e : AtError) (rest : List Text) → IsKnown e → rest ≢ [] → Verdict (err e) rest
Verdict-known (command_failed line) rest k h = tt
Verdict-known (submission_unknown e) rest k h = absurd k
Verdict-known _ rest k h = h

Progress-stop :
    (commands lines : List Text) (e : AtError) (c : Client) {base : List Text}
    → c.sent ≡ base
    → IsKnown e
    → commands ≢ []
    → Progress base commands (err e, lines, c)
Progress-stop commands lines e c {base} s k h = record {
  done = [];
  rest = commands;
  splits = refl;
  logged = s ∙ sym (append-nil base);
  verdict = Verdict-known e commands k h;
}

Progress-cons :
    (base commands : List Text) (text : Text) (r : Outcome (List Text))
    → Progress (base ++ text ∷ []) commands r
    → Progress base (text ∷ commands) r
Progress-cons base commands text r p = record {
  done = text ∷ p.done;
  rest = p.rest;
  splits = ap (λ t. text ∷ t) p.splits;
  logged = p.logged ∙ append_assoc base (text ∷ []) p.done;
  verdict = p.verdict;
}

cons-ne-nil : (x : Text) (xs : List Text) → x ∷ xs ≢ []
cons-ne-nil x xs h = cc

write-Progress :
    (text : Text) (k : M (List Text)) (commands : List Text) (c : Client)
    → Progress (c.sent ++ text ∷ []) commands (k (wrote text c))
    → Progress c.sent (text ∷ commands) ((write text >> k) c)
write-Progress text k commands c p =
    write_rule (Progress c.sent (text ∷ commands)) text k c (c.accepts c.sent text) refl
      (Progress-stop (text ∷ commands) [] write_failed c refl tt (cons-ne-nil text commands))
      (Progress-cons c.sent commands text (k (wrote text c)) p)

-- A read leaves the log alone and fails in a known way.
read-Progress :
    (is_echo : Text → Bool) (prompt : Bool) (k : M (List Text)) (commands : List Text) (c : Client)
    → commands ≢ []
    → ((c' : Client) → Progress c'.sent commands (k c'))
    → Progress c.sent commands ((read_with is_echo prompt >> k) c)
unfolding read_with
read-Progress is_echo prompt k commands c h p =
    bind_rule (Progress c.sent commands) (read_with is_echo prompt) (λ _. k) c
      (read_with is_echo prompt c) refl
      (λ e lines c' q.
        Progress-stop commands lines e c' (sym (ap (λ (r : Outcome (List Text)). r.2.sent) q))
          (subst (λ r. FailsKnown r.0) q known) h)
      (λ a lines c' q.
        subst (λ s. Progress s commands (after lines (k c')))
          (sym (ap (λ (r : Outcome (List Text)). r.2.sent) q)) (Progress-after lines (p c')))
  where
    known : FailsKnown (read_loop c.ended is_echo prompt c.reads [] no_lines).0
    known = read_loop-FailsKnown c.ended is_echo prompt c.reads [] no_lines

    Progress-after :
        {base : List Text} (lines : List Text) {r : Outcome (List Text)}
        → Progress base commands r
        → Progress base commands (after lines r)
    Progress-after lines g = record {
      done = g.done;
      rest = g.rest;
      splits = g.splits;
      logged = g.logged;
      verdict = g.verdict;
    }

exchange-Progress :
    (command : Text) (k : M (List Text)) (commands : List Text) (c : Client)
    → commands ≢ []
    → ((c' : Client) → Progress c'.sent commands (k c'))
    → Progress c.sent ((command ++ 13 ∷ []) ∷ commands) ((exchange command >> k) c)
unfolding exchange
exchange-Progress command k commands c h p =
    write_rule (λ r. Progress c.sent (text ∷ commands) (bound (λ _. k) r)) text
      (read_with (λ line. equal_fold line command) false) c (c.accepts c.sent text) refl
      (Progress-stop (text ∷ commands) [] write_failed c refl tt (cons-ne-nil text commands))
      (Progress-cons c.sent commands text _
        (read-Progress (λ line. equal_fold line command) false k commands (wrote text c) h p))
  where
    text : Text
    text = command ++ 13 ∷ []

settle-Verdict : (r : Result (List Text)) → Verdict (settle r) []
unfolding settle
settle-Verdict (ok lines) = refl
settle-Verdict (err (command_failed line)) = tt
settle-Verdict (err _) = refl

submit-Progress :
    (request body : Text) (c : Client)
    → Progress c.sent (request ∷ (body ++ 26 ∷ []) ∷ []) (submit request body c)
unfolding submit read_until
submit-Progress request body c =
    write-Progress request (read_until true >> (write (body ++ 26 ∷ []) >> read_verdict))
      ((body ++ 26 ∷ []) ∷ []) c
      (read-Progress (λ _. false) true (write (body ++ 26 ∷ []) >> read_verdict)
        ((body ++ 26 ∷ []) ∷ []) (wrote request c) (cons-ne-nil (body ++ 26 ∷ []) [])
        (λ c'.
          write-Progress (body ++ 26 ∷ []) read_verdict [] c' (last (wrote (body ++ 26 ∷ []) c'))))
  where
    last : (c' : Client) → Progress c'.sent [] (read_verdict c')
    last c' =
        unfold read_verdict read_with in
        record {
          done = [];
          rest = [];
          splits = refl;
          logged = sym (append-nil c'.sent);
          verdict = settle-Verdict (read_until false c').0;
        }

guard-Progress :
    (b : Bool) (k : M (List Text)) (commands : List Text) (c : Client)
    → commands ≢ []
    → Progress c.sent commands (k c)
    → Progress c.sent commands ((guard b invalid_submission >> k) c)
guard-Progress true k commands c h p = p
guard-Progress false k commands c h p = Progress-stop commands [] invalid_submission c refl tt h

-- The commands of a PDU submission, in order.
abbrev pub pdu_commands : Bool → ℕ → Text → List Text
pdu_commands dry length pdu =
    (txt "AT+CMGF=0" ++ 13 ∷ [])
    ∷ (submit_command dry ++ txt "=" ++ print_nat length ++ 13 ∷ [])
    ∷ (trim_space pdu ++ 26 ∷ [])
    ∷ []

-- A PDU submission writes its three commands in order, up to where it stops, and nothing else: a
-- dry run asks for storage, never for sending. It succeeds only if all were written; it reports
-- an unknown result only if all were written; and any other error, but for the modem's own
-- refusal, means that something was left unwritten, so the message cannot have gone out.
pub send_pdu-Progress :
    (length : ℕ) (pdu : Text) (c : Client)
    → Progress c.sent (pdu_commands c.dry_run length pdu) (send_pdu length pdu c)
unfolding send_pdu
send_pdu-Progress length pdu c =
    guard-Progress (not (length == 0 || is_nil (trim_space pdu)))
      (exchange (txt "AT+CMGF=0") >> submit request (trim_space pdu))
      (pdu_commands c.dry_run length pdu) c (cons-ne-nil _ _)
      (exchange-Progress (txt "AT+CMGF=0") (submit request (trim_space pdu))
        (request ∷ (trim_space pdu ++ 26 ∷ []) ∷ []) c (cons-ne-nil _ _)
        (submit-Progress request (trim_space pdu)))
  where
    request : Text
    request = submit_command c.dry_run ++ txt "=" ++ print_nat length ++ 13 ∷ []

abbrev pub text_commands : Bool → Text → Text → List Text
text_commands dry destination body =
    (txt "AT+CMGF=1" ++ 13 ∷ [])
    ∷ (txt "AT+CSCS=\"GSM\"" ++ 13 ∷ [])
    ∷ (submit_command dry ++ txt "=\"" ++ destination ++ txt "\"" ++ 13 ∷ [])
    ∷ (body ++ 26 ∷ [])
    ∷ []

-- The same of a text submission and its four commands.
pub send_text-Progress :
    (destination body : Text) (c : Client)
    → Progress c.sent (text_commands c.dry_run destination body) (send_text destination body c)
unfolding send_text
send_text-Progress destination body c =
    guard-Progress (not (is_nil (trim_space destination) || is_nil (trim_space body)))
      (exchange (txt "AT+CMGF=1") >> (exchange charset >> submit request body))
      (text_commands c.dry_run destination body) c (cons-ne-nil _ _)
      (exchange-Progress (txt "AT+CMGF=1") (exchange charset >> submit request body)
        ((charset ++ 13 ∷ []) ∷ request ∷ (body ++ 26 ∷ []) ∷ []) c (cons-ne-nil _ _)
        (λ c'.
          exchange-Progress charset (submit request body) (request ∷ (body ++ 26 ∷ []) ∷ []) c'
            (cons-ne-nil _ _) (submit-Progress request body)))
  where
    charset : Text
    charset = txt "AT+CSCS=\"GSM\""

    request : Text
    request = submit_command c.dry_run ++ txt "=\"" ++ destination ++ txt "\"" ++ 13 ∷ []
