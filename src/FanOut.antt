-- ===== src/FanOut.antt =====
-- modem/fanout.go: every sink gets every event that it has room for.
pub mod Delivery
use dontmove_kit.Prelude.{
  ℕ, Bool, true, false, List, [], ◌∷◌, ◌++◌, map, ltb, if◌then◌else◌, length,
}
use dontmove_kit.At.Adapter.{Event}

-- A buffered channel that nobody reads meanwhile.
pub record Sink : Type 0 where
  pub capacity : ℕ
  pub buffered : List Event
  pub closed : Bool

unfoldable pub send : Event → Sink → Sink
send event sink =
    if ltb (length sink.buffered) sink.capacity
    then record sink { buffered = sink.buffered ++ event ∷ [] }
    else sink

unfoldable pub send_all : Event → List Sink → List Sink
unfolding send
send_all event [] = []
send_all event (sink ∷ sinks) = send event sink ∷ send_all event sinks

unfoldable pub close_all : List Sink → List Sink
close_all [] = []
close_all (sink ∷ sinks) = record sink { closed = true } ∷ close_all sinks

-- FanOut, until the source is closed.
unfoldable pub fan_out : List Event → List Sink → List Sink
unfolding send_all close_all
fan_out [] sinks = close_all sinks
fan_out (event ∷ events) sinks = fan_out events (send_all event sinks)
