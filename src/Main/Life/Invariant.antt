-- ===== src/Main/Life/Invariant.antt =====
-- main.go: what holds at every moment of a run of the whole program.
use bandwidth_monitor.Common.{
  ℕ, ◌≤◌, ◌≡◌, refl, sym, ◌∙◌, ap, subst, false, Option, List, [], ◌∷◌, arith,
}
use bandwidth_monitor.Float.{Float}
use bandwidth_monitor.Sorting.{Sort}
use bandwidth_monitor.Net.{IpText}
use bandwidth_monitor.Window.{UpTo-mono}
use bandwidth_monitor.Collector
use bandwidth_monitor.Collector.{Collector, unix_milli}
use bandwidth_monitor.Collector.Rates.{RateLoop, start_rate_loop, steps, arrives, ticks}
use bandwidth_monitor.Collector.History.{InOrder, steps-InOrder, tick-prev_time}
use bandwidth_monitor.Talkers
use bandwidth_monitor.Talkers.{Tracker, Bucket, truncate, empty_bucket}
use bandwidth_monitor.Talkers.Window
use bandwidth_monitor.Talkers.Window.{window, rotate, as_list}
use bandwidth_monitor.Talkers.Balance.{TrackerOk, steps-TrackerOk}
use bandwidth_monitor.Talkers.Resolve.{finish}
use bandwidth_monitor.Providers.{Provider}
use bandwidth_monitor.Unifi.Client.{Client}
use bandwidth_monitor.Handler.{Parts, serve}
use bandwidth_monitor.Handler.Names.{OnlyNames, serve-OnlyNames}
use bandwidth_monitor.Main.{Env}
use bandwidth_monitor.Main.System.{Outside, start}
use bandwidth_monitor.Main.Life.{
  Life, Event, begin, step, runs, Clock, last, collector_captures, rate_loop_starts,
  rate_loop_ticks, talkers_run, talkers_capture, minute_turns, name_found, adguard_polls,
  nextdns_polls, unifi_polls, asked,
}
use bandwidth_monitor.Main.Life.Kept.{
  TrackerOk-mono, names-TrackerOk, run-TrackerOk, run-closed, rotate-closed, start-behind,
  tracker-closed, packet-closed, tick-closed,
}

module _ {fl : Float} where
  -- What holds of the capturing components at a time.
  pub record Well (now : ℕ) (l : Life fl) : Type 0 where
    pub tracker_ok : TrackerOk now l.parts.t
    pub in_order : InOrder (l.parts.c, l.rates)
    pub behind : l.rates.prev_time ≤ now
    pub collector_open : l.parts.c.closed ≡ false
    pub tracker_open : l.parts.t.closed ≡ false

  Well-mono : (now later : ℕ) (l : Life fl) → now ≤ later → Well now l → Well later l
  Well-mono now later l le h = record {
    tracker_ok = TrackerOk-mono now later l.parts.t le h.tracker_ok;
    in_order = h.in_order;
    behind = omega (arith, h.behind);
    collector_open = h.collector_open;
    tracker_open = h.tracker_open;
  }

  module _ (now : ℕ) (l : Life fl) (h : Well now l) where
    -- A new collector and rate loop, a new tracker, or other clients.
    collector-Well :
        (c : Collector fl) (r : RateLoop)
        → InOrder (c, r)
        → r.prev_time ≤ now
        → c.closed ≡ l.parts.c.closed
        → Well now (record { parts = record l.parts { c = c }; rates = r })
    collector-Well c r order behind same = record {
      tracker_ok = h.tracker_ok;
      in_order = order;
      behind = behind;
      collector_open = same ∙ h.collector_open;
      tracker_open = h.tracker_open;
    }

    tracker-Well :
        (t : Tracker)
        → TrackerOk now t
        → t.closed ≡ l.parts.t.closed
        → Well now (record l { parts = record l.parts { t = t } })
    tracker-Well t ok same = record {
      tracker_ok = ok;
      in_order = h.in_order;
      behind = h.behind;
      collector_open = h.collector_open;
      tracker_open = same ∙ h.tracker_open;
    }

    others-Well :
        (dp : Provider fl) (uf : Option (Client fl))
        → Well now (record l { parts = record l.parts { dp = dp; uf = uf } })
    others-Well dp uf = record {
      tracker_ok = h.tracker_ok;
      in_order = h.in_order;
      behind = h.behind;
      collector_open = h.collector_open;
      tracker_open = h.tracker_open;
    }

    asked-Well : (p : Parts fl) → OnlyNames fl l.parts p → Well now (record l { parts = p })
    asked-Well p o =
        subst (λ (q : Parts fl). Well now (record l { parts = q })) (sym o.parts)
          (tracker-Well p.t (names-TrackerOk now l.parts.t p.t o.names h.tracker_ok)
            (ap (λ (t : Tracker). t.closed) o.names.same))

    restart-InOrder : InOrder (l.parts.c, start_rate_loop now)
    unfolding start_rate_loop
    restart-InOrder = record {
      ascending = h.in_order.ascending;
      up_to =
          UpTo-mono (λ p. p.timestamp) (unix_milli l.rates.prev_time) (unix_milli now)
            l.parts.c.history (omega (arith, h.behind)) h.in_order.up_to;
    }

  module _ (sort : Sort) (texts : IpText) where
    step-Well :
        (now : ℕ) (e : Event fl) (l : Life fl) → Well now l → Well now (step fl sort texts now e l)
    unfolding step steps Talkers.Window.steps
    step-Well now (collector_captures packet) l h =
        collector-Well now l h _ l.rates
          (steps-InOrder now (l.parts.c, l.rates) (arrives packet ∷ []) h.behind tt h.in_order)
          h.behind (packet-closed l.parts.c packet)
    step-Well now rate_loop_starts l h =
        collector-Well now l h l.parts.c _ (restart-InOrder now l h) (start-behind now) refl
    step-Well now rate_loop_ticks l h =
        collector-Well now l h _ _
          (steps-InOrder now (l.parts.c, l.rates) (ticks now ∷ []) h.behind (omega arith, tt)
            h.in_order)
          (tick-prev_time now l.parts.c l.rates h.behind) (tick-closed now l.parts.c l.rates)
    step-Well now (talkers_run listed) l h =
        tracker-Well now l h _ (run-TrackerOk now l.parts.t listed h.tracker_ok)
          (run-closed now l.parts.t listed)
    step-Well now (talkers_capture packet) l h =
        tracker-Well now l h _
          (steps-TrackerOk texts now l.parts.t (Talkers.Window.arrives packet ∷ []) tt h.tracker_ok)
          (tracker-closed texts l.parts.t packet)
    step-Well now minute_turns l h =
        tracker-Well now l h _
          (steps-TrackerOk texts now l.parts.t (Talkers.Window.turns now ∷ []) (omega arith, tt)
            h.tracker_ok)
          (rotate-closed now l.parts.t)
    step-Well now (name_found ip names) l h =
        tracker-Well now l h (record l.parts.t { dns_cache = finish l.parts.t.dns_cache ip names })
          (record {
            buckets_ok = h.tracker_ok.buckets_ok;
            current_ok = h.tracker_ok.current_ok;
            ascending = h.tracker_ok.ascending;
            up_to = h.tracker_ok.up_to;
          })
          refl
    step-Well now (adguard_polls server) l h = others-Well now l h _ l.parts.uf
    step-Well now (nextdns_polls server) l h = others-Well now l h _ l.parts.uf
    step-Well now (unifi_polls w) l h = others-Well now l h l.parts.dp _
    step-Well now (asked r) l h =
        asked-Well now l h (serve fl sort now r l.parts).0 (serve-OnlyNames fl sort now r l.parts)

    runs-Well :
        (now : ℕ) (es : List (ℕ × Event fl)) (l : Life fl)
        → Clock fl now es
        → Well now l
        → Well (last fl now es) (runs fl sort texts es l)
    unfolding runs
    runs-Well now [] l k h = h
    runs-Well now ((later, e) ∷ es) l k h =
        runs-Well later es (step fl sort texts later e l) k.1
          (step-Well later e l (Well-mono now later l k.0 h))

    begin-Well : (w : Outside) (getenv : Env) (now : ℕ) → Well now (begin fl w getenv now)
    unfolding begin start Collector.new Talkers.new start_rate_loop
    begin-Well w getenv now = record {
      tracker_ok = record { buckets_ok = tt; current_ok = tt; ascending = tt; up_to = tt };
      in_order = record { ascending = tt; up_to = tt };
      behind = omega arith;
      collector_open = refl;
      tracker_open = refl;
    }

    -- However the program is configured, at every moment of a run in which the clock does not go back,
    -- whatever packets, polls, requests and turns come and in whatever order, the tracker is
    -- well-formed, the history is in the order of time and not ahead of the rate loop, and neither the
    -- collector nor the tracker is stopped.
    pub runs-begin-Well :
        (w : Outside) (getenv : Env) (now : ℕ) (es : List (ℕ × Event fl))
        → Clock fl now es
        → Well (last fl now es) (runs fl sort texts es (begin fl w getenv now))
    runs-begin-Well w getenv now es k =
        runs-Well now es (begin fl w getenv now) k (begin-Well w getenv now)
