-- ===== src/At/Adapter/Reaping.antt =====
-- at/adapter.go: `ReapGhosts`.
use dontmove_kit.Prelude.{ℕ, true, false, Option, none, some, List, [], ◌∷◌, ◌==◌, if◌then◌else◌}
use dontmove_kit.Text.{Text, txt}
use dontmove_kit.At.Clcc.{clcc_has_live_context, count_ghosts}
use dontmove_kit.At.Adapter.{Adapter, Failure, Except, done, failed, command}

-- The answer of `ReapGhosts`: how many contexts were found, and the error beside it.
abbrev pub Reaped : Type 0
Reaped = ℕ × Option Failure

-- A look at the contexts behind a rung: it ends the ladder unless one is live.
unfoldable pub after_look :
    ℕ → Except (List Text) × Adapter → (Adapter → Reaped × Adapter) → Reaped × Adapter
after_look ghosts (failed e, a) go_on = ((ghosts, some e), a)
after_look ghosts (done contexts, a) go_on = elim (clcc_has_live_context contexts) [
  | true ↦ go_on a
  | false ↦ ((ghosts, none), a)
]

unfoldable pub after_rung :
    ℕ
    → Except (List Text) × Adapter
    → (Option Failure → Adapter → Reaped × Adapter)
    → Reaped × Adapter
unfolding command after_look
after_rung ghosts (failed e, a) go_on = go_on (some e) a
after_rung ghosts (done lines, a) go_on = after_look ghosts (command (txt "AT+CLCC") a) (go_on none)

-- The ladder of commands, each checked by another look at the contexts.
unfoldable pub reap_ladder : ℕ → List Text → Option Failure → Adapter → Reaped × Adapter
unfolding after_rung
reap_ladder ghosts [] last a = ((ghosts, last), a)
reap_ladder ghosts (rung ∷ rungs) last a =
    after_rung ghosts (command rung a) (reap_ladder ghosts rungs)

abbrev pub ladder : List Text
ladder = txt "ATH" ∷ txt "AT+CHUP" ∷ txt "AT+CHLD=1" ∷ txt "AT+CHLD=0" ∷ []

unfoldable pub first_look : Except (List Text) × Adapter → Reaped × Adapter
unfolding reap_ladder
first_look (failed e, a) = ((0, some e), a)
first_look (done lines, a) =
    if count_ghosts lines == 0
    then ((0, none), a)
    else reap_ladder (count_ghosts lines) ladder none a

-- (*Adapter).ReapGhosts.
unfoldable pub reap_ghosts : Adapter → Reaped × Adapter
unfolding command first_look
reap_ghosts a = first_look (command (txt "AT+CLCC") a)
