-- ===== src/Main/Life/Moments.antt =====
-- main.go: what the web socket sends in a run.
use bandwidth_monitor.Common.{ℕ, List}
use bandwidth_monitor.Float.{Float}
use bandwidth_monitor.Sorting.{Sort}
use bandwidth_monitor.Net.{IpText}
use bandwidth_monitor.Handler.{Parts}
use bandwidth_monitor.Main.{Env}
use bandwidth_monitor.Main.System.{Outside}
use bandwidth_monitor.Main.Life.{Event, begin, runs}

module _ (fl : Float) (sort : Sort) (texts : IpText) (w : Outside) (getenv : Env)
    (started : ℕ) where
  -- The components after some events.
  abbrev pub after : List (ℕ × Event fl) → Parts fl
  after es = (runs fl sort texts es (begin fl w getenv started)).parts
