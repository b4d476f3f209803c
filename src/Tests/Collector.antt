-- ===== src/Tests/Collector.antt =====
-- Runs of the collector.
use bandwidth_monitor.Common.{pos, ◌≡◌, refl, true, List, [], ◌∷◌, arith}
use bandwidth_monitor.Net.{contains, any_contains, cidr}
use bandwidth_monitor.Collector.{Collector, HistoryPoint, new, capture}
use bandwidth_monitor.Collector.Rates.{RateLoop, Event, arrives, ticks, tick, steps}
use bandwidth_monitor.Collector.Traffic.{Counted, capture-Counted, tick_rates}
use bandwidth_monitor.Collector.History.{InOrder, steps-InOrder, Extends, tick-Extends}
use bandwidth_monitor.Tests.Samples.{whole, home, reads, download, upload}

abbrev started : Collector whole
unfolding new
started = new whole "eth0" true home

capture-Counted_example : Counted started (capture whole started reads) 3000 100 2 1
unfolding new any_contains contains cidr
capture-Counted_example = capture-Counted started reads (omega arith)

-- Three seconds after the start, 3000 bytes down and 100 up are 1000 and 33 bytes a second.
tick_rates_example :
    let stat =
      (tick whole 3_000_000_000
        (capture whole started reads)
        (record { prev_rx = 0; prev_tx = 0; prev_time = 0 })).0.stat in
    (stat.rx_rate ≡ pos 1000) × (stat.tx_rate ≡ pos 33)
unfolding new any_contains contains cidr
tick_rates_example =
    tick_rates started reads (record { prev_rx = 0; prev_tx = 0; prev_time = 0 }) 3_000_000_000
      (omega arith) refl refl (omega arith) (omega arith) refl

abbrev two_ticks : List Event
two_ticks = ticks 1_000_000_000 ∷ arrives download ∷ arrives upload ∷ ticks 3_000_000_000 ∷ []

abbrev at_start : Collector whole × RateLoop
at_start = (started, record { prev_rx = 0; prev_tx = 0; prev_time = 0 })

steps-InOrder_example : InOrder (steps whole at_start two_ticks)
unfolding new
steps-InOrder_example =
    steps-InOrder 0 at_start two_ticks (omega arith) (omega arith, (omega arith, tt))
      (record { ascending = tt; up_to = tt })

abbrev old_point : HistoryPoint whole
old_point = record { timestamp = 1000; rx_rate = pos 5; tx_rate = pos 6 }

abbrev with_history : Collector whole
with_history = record started { history = old_point ∷ [] }

abbrev one_second : RateLoop
one_second = record { prev_rx = 0; prev_tx = 0; prev_time = 1_000_000_000 }

tick-Extends_example :
    let c' = (tick whole 2_000_000_000 with_history one_second).0 in
    Extends 2_000_000_000
      (old_point ∷ [])
      (record { timestamp = 2000; rx_rate = c'.stat.rx_rate; tx_rate = c'.stat.tx_rate })
      c'.history
unfolding new
tick-Extends_example =
    tick-Extends 2_000_000_000 with_history one_second
      (record { ascending = (tt, tt); up_to = (omega arith, tt) }) (omega arith) refl
