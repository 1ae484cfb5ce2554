-- ===== src/At/Adapter/Closing.antt =====
-- at/adapter.go: what still runs when the adapter is closed.
use dontmove_kit.Prelude.{◌≡◌, refl, true, List, ◌∷◌, arith}
use dontmove_kit.Text.{Text}
use dontmove_kit.At.Adapter.{Adapter, handle_urc, publish, close}

handle_urc_closed :
    (line : Text) (a : Adapter) → a.closed ≡ true → (handle_urc line a).crashed ≡ a.crashed
unfolding handle_urc
handle_urc_closed line a h = ground arith

-- A call whose announcement still waits when the adapter is closed makes the process panic: the send
-- on the closed channel is not recovered there. A line that the modem sends then does not: its
-- handler recovers.
pub publish-close :
    (line call : Text) (calls : List Text) (a : Adapter)
    → a.publishing ≡ call ∷ calls
    → ((publish (close a)).crashed ≡ true) × ((handle_urc line (close a)).crashed ≡ a.crashed)
unfolding publish close
publish-close line call calls a h = (ground arith, handle_urc_closed line (close a) refl)
