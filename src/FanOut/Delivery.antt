-- ===== src/FanOut/Delivery.antt =====
-- modem/fanout.go: what each sink holds in the end.
use dontmove_kit.Prelude.{
  ℕ, zero, suc, ◌-◌, ◌<◌, ◌≡◌, refl, ap, ◌∙◌, true, false, List, [], ◌∷◌, ◌++◌, map, arith, ltb,
  length, length-append, take, inl, inr, Bool-cases,
}
use mathlib.Core.Path.{ap₂}
use mathlib.Core.List.{append-nil, append_assoc}
use dontmove_kit.At.Adapter.{Event}
use dontmove_kit.FanOut.{Sink, send, send_all, close_all, fan_out}

-- What a sink holds of these events: as many of the first as it has room for, in order.
abbrev pub filled : List Event → Sink → Sink
filled events sink = record {
  capacity = sink.capacity;
  buffered = sink.buffered ++ take (sink.capacity - length sink.buffered) events;
  closed = true;
}

append_take :
    (event : Event) (buffer events : List Event) (capacity : ℕ)
    → length buffer < capacity
    → (buffer ++ event ∷ []) ++ take (capacity - length (buffer ++ event ∷ [])) events
      ≡ buffer ++ take (capacity - length buffer) (event ∷ events)
append_take event buffer events capacity h =
    append_assoc buffer (event ∷ []) (take (capacity - length (buffer ++ event ∷ [])) events)
    ∙ ap (λ t. buffer ++ t) (rw (room, ← rest))
  where
    rest : capacity - length (buffer ++ event ∷ []) ≡ capacity - length buffer - 1
    rest = omega (arith, length-append buffer (event ∷ []))

    room : capacity - length buffer ≡ suc (capacity - length buffer - 1)
    room = omega arith

filled-send :
    (event : Event) (events : List Event) (sink : Sink)
    → filled events (send event sink) ≡ filled (event ∷ events) sink
unfolding send
filled-send event events sink = elim (Bool-cases (ltb (length sink.buffered) sink.capacity)) [
  | inl e ↦ rw e (
      ap (λ (es : List Event). record { capacity = sink.capacity; buffered = es; closed = true })
        (append_take event sink.buffered events sink.capacity (ground arith)))
  | inr e ↦ rw e (rw (full e))
]
  where
    full :
        ltb (length sink.buffered) sink.capacity ≡ false → sink.capacity - length sink.buffered ≡ 0
    full e = ground arith

filled_none : (sink : Sink) → record sink { closed = true } ≡ filled [] sink
filled_none sink =
    elim (sink.capacity - length sink.buffered)
      as (λ n. record sink { closed = true } ≡ record {
        capacity = sink.capacity;
        buffered = sink.buffered ++ take n [];
        closed = true;
      }) [ zero ↦ rw append-nil | suc n ↦ rw append-nil ]

filled_none_all : (sinks : List Sink) → close_all sinks ≡ map (filled []) sinks
unfolding close_all
filled_none_all [] = refl
filled_none_all (sink ∷ sinks) = ap₂ (λ s t. s ∷ t) (filled_none sink) (filled_none_all sinks)

filled-send_all :
    (event : Event) (events : List Event) (sinks : List Sink)
    → map (filled events) (send_all event sinks) ≡ map (filled (event ∷ events)) sinks
unfolding send_all
filled-send_all event events [] = refl
filled-send_all event events (sink ∷ sinks) =
    ap₂ (λ s t. s ∷ t) (filled-send event events sink) (filled-send_all event events sinks)

-- Every sink ends closed, with what it held and, in order, as many of the events as it had room
-- for, whatever the other sinks took.
pub fan_out-filled :
    (events : List Event) (sinks : List Sink) → fan_out events sinks ≡ map (filled events) sinks
unfolding fan_out
fan_out-filled [] sinks = filled_none_all sinks
fan_out-filled (event ∷ events) sinks =
    fan_out-filled events (send_all event sinks) ∙ filled-send_all event events sinks
