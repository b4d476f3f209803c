-- ===== src/Handler/Stream.antt =====
-- handler/handler.go: the loop of `WebSocket`.
use bandwidth_monitor.Common.{
  ℕ, ◌≡◌, refl, ap, Bool, true, false, if◌then◌else◌, Option, none, some, List, [], ◌∷◌, ◌++◌, map,
  All, arith,
}
use bandwidth_monitor.Float.{Float}
use bandwidth_monitor.Sorting.{Sort}
use bandwidth_monitor.Collector.{unix_milli}
use bandwidth_monitor.Handler.{Parts, Payload, Turn, for_timestamp, payload}

module _ (fl : Float) where
  -- What the `select` of the loop takes, in order: the end of the read pump, the two tickers with
  -- whether the write succeeds, and, between them, what other goroutines do to the components. A tick
  -- comes with what happens while its data are made.
  pub data Event : Type 0 where
    done : Event
    ping : Bool → Event
    tick : Turn fl → Bool → Event
    change : (Parts fl → Parts fl) → Event

  pub data Frame : Type 0 where
    ping_frame : Frame
    data_frame : Payload fl → Frame

  -- The event does not end the loop.
  abbrev pub goes_on : Event → Bool
  goes_on done = false
  goes_on (ping ok) = ok
  goes_on (tick turn ok) = ok
  goes_on (change f) = true

  -- The frames that are due: `none` is a ping, and otherwise it is the time in the data.
  abbrev pub due : List Event → List (Option ℕ)
  due [] = []
  due (done ∷ es) = due es
  due (ping ok ∷ es) = none ∷ due es
  due (tick turn ok ∷ es) = some (unix_milli (turn.clock for_timestamp)) ∷ due es
  due (change f ∷ es) = due es

  abbrev pub stamp : Frame → Option ℕ
  stamp ping_frame = none
  stamp (data_frame d) = some d.timestamp

  module _ (sort : Sort) where
    -- The loop, with the frames it writes.
    unfoldable pub loop : List Event → Parts fl → Parts fl × List Frame
    loop [] p = (p, [])
    loop (done ∷ es) p = (p, [])
    loop (ping ok ∷ es) p =
        let (q, frames) = loop es p in if ok then (q, ping_frame ∷ frames) else (p, [])
    loop (tick turn ok ∷ es) p =
        let (p', data_of) = payload fl sort turn p in
        let (q, frames) = loop es p' in if ok then (q, data_frame data_of ∷ frames) else (p', [])
    loop (change f ∷ es) p = loop es (f p)

    -- `WebSocket`, with whether the connection could be upgraded.
    unfoldable pub web_socket : Bool → List Event → Parts fl → Parts fl × List Frame
    unfolding loop
    web_socket upgraded es p = if upgraded then loop es p else (p, [])

    ended :
        (e : Event) (rest : List Event) (p : Parts fl)
        → goes_on e ≡ false
        → (loop (e ∷ rest) p).1 ≡ []
    unfolding loop
    ended done rest p h = refl
    ended (ping ok) rest p h = rw h refl
    ended (tick turn ok) rest p h = rw h refl
    ended (change f) rest p h = absurd (ground (arith, h))

    loop-due :
        (es : List Event) (e : Event) (rest : List Event) (p : Parts fl)
        → All (λ a. goes_on a ≡ true) es
        → goes_on e ≡ false
        → map stamp (loop (es ++ (e ∷ rest)) p).1 ≡ due es
    unfolding loop payload
    loop-due [] e rest p h k = ap (map stamp) (ended e rest p k)
    loop-due (done ∷ es) e rest p h k = absurd (ground (arith, h.0))
    loop-due (ping ok ∷ es) e rest p h k = rw h.0 (ap (◌∷◌ none) (loop-due es e rest p h.1 k))
    loop-due (tick turn ok ∷ es) e rest p h k = rw h.0 (
        ap (◌∷◌ (some (unix_milli (turn.clock for_timestamp))))
          (loop-due es e rest (payload fl sort turn p).0 h.1 k))
    loop-due (change f ∷ es) e rest p h k = loop-due es e rest (f p) h.1 k

    -- Once its connection is upgraded, and up to the first event that ends it, which is a closed
    -- connection or a failed write, the web socket writes one frame for every tick, with the
    -- time that the tick read for it in milliseconds, and one ping for every tick of the other ticker, in their order, whatever
    -- else happens to the components in between. It writes nothing after.
    pub web_socket-due :
        (es : List Event) (e : Event) (rest : List Event) (p : Parts fl)
        → All (λ a. goes_on a ≡ true) es
        → goes_on e ≡ false
        → map stamp (web_socket true (es ++ (e ∷ rest)) p).1 ≡ due es
    unfolding web_socket
    web_socket-due = loop-due
