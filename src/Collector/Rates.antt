-- ===== src/Collector/Rates.antt =====
-- collector/collector.go: `rateLoop`, which turns the packet counters into rates once a second.
use bandwidth_monitor.Common.{ℕ, ◌-◌, if◌then◌else◌, length, ltb, List, [], ◌∷◌, ◌++◌, sub64, sub_ℕ}
use bandwidth_monitor.Float.{Float, nought, of_ℕ}
use bandwidth_monitor.Window.{drop_while}
use bandwidth_monitor.Packet.{Packet}
use bandwidth_monitor.Collector.{
  process_packet, Collector, HistoryPoint, history_max_age, history_prune_at, unix_milli,
}

-- The variables of `rateLoop`.
pub record RateLoop : Type 0 where
  pub prev_rx : ℕ
  pub prev_tx : ℕ
  pub prev_time : ℕ

unfoldable pub start_rate_loop : ℕ → RateLoop
start_rate_loop now = record { prev_rx = 0; prev_tx = 0; prev_time = now }

-- What happens to the collector, in the order in which the locks are taken.
pub data Event : Type 0 where
  arrives : Packet → Event
  ticks : ℕ → Event

module _ (fl : Float) where
  open fl use {F, le, div, seconds}

  -- The pruning of a history that has grown too long.
  unfoldable pub prune : ℕ → List (HistoryPoint fl) → List (HistoryPoint fl)
  prune now h =
      if ltb history_prune_at (length h)
      then drop_while (λ p. ltb p.timestamp (unix_milli (now - history_max_age))) h
      else h

  abbrev pub rate : ℕ → ℕ → F → F
  rate cur prev dt = div (of_ℕ fl (sub64 cur prev)) dt

  -- What a tick of `rateLoop` writes once its `dt` is found to be positive.
  unfoldable pub record_rates : ℕ → F → Collector fl → RateLoop → Collector fl
  unfolding prune
  record_rates now dt c l = record c {
    stat = record {
      name = c.device;
      iface_type = "span";
      oper_state = "up";
      addrs = [];
      rx_bytes = c.rx_bytes;
      tx_bytes = c.tx_bytes;
      rx_packets = c.rx_packets;
      tx_packets = c.tx_packets;
      rx_rate = rate c.rx_bytes l.prev_rx dt;
      tx_rate = rate c.tx_bytes l.prev_tx dt;
      timestamp = unix_milli now;
    };
    history = prune now (
        c.history
        ++ record {
          timestamp = unix_milli now;
          rx_rate = rate c.rx_bytes l.prev_rx dt;
          tx_rate = rate c.tx_bytes l.prev_tx dt;
        }
          ∷ []);
  }

  tick_after : ℕ → F → Collector fl → RateLoop → Collector fl × RateLoop
  unfolding record_rates
  tick_after now dt c l = if le dt (nought fl) then (c, l) else (
    record_rates now dt c l,
    record { prev_rx = c.rx_bytes; prev_tx = c.tx_bytes; prev_time = now },
  )

  -- One tick of `rateLoop`. A `dt` that is not positive leaves everything as it is.
  unfoldable pub tick : ℕ → Collector fl → RateLoop → Collector fl × RateLoop
  unfolding tick_after
  tick now c l = tick_after now (seconds (sub_ℕ now l.prev_time)) c l

  unfoldable pub step : Collector fl × RateLoop → Event → Collector fl × RateLoop
  step (c, l) (arrives p) = (process_packet fl c p, l)
  step (c, l) (ticks now) = tick now c l

  unfoldable pub steps : Collector fl × RateLoop → List Event → Collector fl × RateLoop
  unfolding step
  steps s [] = s
  steps s (e ∷ es) = steps (step s e) es
