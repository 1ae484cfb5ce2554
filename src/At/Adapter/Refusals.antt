-- ===== src/At/Adapter/Refusals.antt =====
-- at/adapter.go: which operations are refused before anything is sent.
use dontmove_kit.Prelude.{
  ℕ, ◌≡◌, ◌≢◌, ap, ◌∙◌, false, List, [], ◌∷◌, ◌++◌, arith, ◌==◌, ◌⊎◌, ◌↔◌, any,
}
use dontmove_kit.Text.{Text, txt, trim_space}
use dontmove_kit.Text.Laws.{text_eq_iff}
use dontmove_kit.At.Adapter.{
  ◌>>=◌, ◌>>◌, Op, Adapter, update, finish_active, Except, done, failed, Failure, active_call,
  call_mismatch, invalid_digit, require, command, dial, hangup, answer_call, send_dtmf, dtmf_digits,
  validate_active, mint,
}

abbrev next : {A B : Type 0} → (A → Op B) → Except A × Adapter → Except B × Adapter
next f r = elim r.0 [ failed e ↦ (failed e, r.1) | done x ↦ f x r.1 ]

pub bind_failed :
    {A B : Type 0} (m : Op A) (f : A → Op B) (a : Adapter) {e : Failure} {b : Adapter}
    → m a ≡ (failed e, b)
    → (m >>= f) a ≡ (failed e, b)
bind_failed m f a h = ap (next f) h

pub bind_done :
    {A B : Type 0} (m : Op A) (f : A → Op B) (a : Adapter) {x : A} {b : Adapter}
    → m a ≡ (done x, b)
    → (m >>= f) a ≡ f x b
bind_done m f a h = ap (next f) h

-- A command never fails as busy.
command-ne-active_call : (text : Text) (a : Adapter) → (command text a).0 ≢ failed active_call
unfolding command
command-ne-active_call text a h = ground arith

pub dial_idle : (peer : Text) (a : Adapter) → a.active ≡ [] → (dial peer a).0 ≢ failed active_call
unfolding dial mint
dial_idle peer a h e =
    ground (arith, command-ne-active_call (txt "ATD" ++ trim_space peer ++ txt ";") a)

pub dial_busy : (peer : Text) (a : Adapter) → a.active ≢ [] → dial peer a ≡ (failed active_call, a)
unfolding dial
dial_busy peer a h = ground arith

-- The operations on a call are accepted exactly if a call is up and the id is empty or names it.
validate_active_lem :
    (call : Text) (a : Adapter)
    → ((validate_active call a).0 ≡ done tt) ↔ ((a.active ≢ []) × ((call ≡ []) ⊎ (a.active ≡ call)))
unfolding validate_active
validate_active_lem call a = ground (arith, text_eq_iff a.active call)

mismatch :
    (call : Text) (a : Adapter)
    → (a.active ≡ []) ⊎ ((call ≢ []) × (a.active ≢ call))
    → validate_active call a ≡ (failed call_mismatch, a)
unfolding validate_active
mismatch call a h = ground (arith, text_eq_iff a.active call)

-- With no call up, or under an id that is not empty and does not name it, Answer, Hangup and
-- SendDTMF fail alike and leave the adapter, and with it the port, untouched. An adapter that does
-- accept the id refuses a character outside 0-9, *, # and A-D, and is left untouched as well.
pub call_commands_refused :
    (call : Text) (digit : ℕ) (a b : Adapter)
    → (a.active ≡ []) ⊎ ((call ≢ []) × (a.active ≢ call))
    → any (λ d. digit == d) dtmf_digits ≡ false
    → validate_active call b ≡ (done tt, b)
    → (answer_call call a ≡ (failed call_mismatch, a))
      × (hangup call a ≡ (failed call_mismatch, a))
      × (send_dtmf call digit a ≡ (failed call_mismatch, a))
      × (send_dtmf call digit b ≡ (failed invalid_digit, b))
unfolding answer_call hangup send_dtmf
call_commands_refused call digit a b h d v = (
  bind_failed (validate_active call) (λ _. command (txt "ATA")) a (mismatch call a h),
  bind_failed (validate_active call)
      (λ _. command (txt "ATH") >> update (finish_active call (txt "local_hangup"))) a
      (mismatch call a h),
  bind_failed (validate_active call) (λ _. checked) a (mismatch call a h),
  bind_done (validate_active call) (λ _. checked) b v
      ∙ bind_failed (require (any (λ d'. digit == d') dtmf_digits) invalid_digit)
          (λ _. command tone) b (rw d),
)
  where
    tone : Text
    tone = txt "AT+VTS=\"" ++ digit ∷ txt "\""

    checked : Op (List Text)
    checked = require (any (λ d'. digit == d') dtmf_digits) invalid_digit >> command tone
