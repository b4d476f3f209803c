-- ===== src/Main/Life/Signals.antt =====
-- main.go: a run of the program with the signals it gets. The goroutine that waits for a signal takes
-- one and ends the program, so that a later signal finds no program. The four calls of `Stop` are one
-- step here.
use bandwidth_monitor.Common.{ℕ, ◌≡◌, refl, ◌∙◌, ap, Option, none, some, List, [], ◌∷◌, ◌++◌, map}
use bandwidth_monitor.Float.{Float}
use bandwidth_monitor.Sorting.{Sort}
use bandwidth_monitor.Net.{IpText}
use bandwidth_monitor.Handler.{Parts}
use bandwidth_monitor.Main.{Env}
use bandwidth_monitor.Main.System.{Outside, shutdown, IsStopped, open_shutdown}
use bandwidth_monitor.Main.Life.{Life, Event, begin, step, runs, Clock}
use bandwidth_monitor.Main.Life.Invariant.{runs-begin-Well}

module _ (fl : Float) where
  pub data Happening : Type 0 where
    happens : ℕ × Event fl → Happening
    signal : Happening

  pub data Program : Type 0 where
    running : Life fl → Program
    exited : Parts fl → Program
    panicked : Program

  abbrev after_stops : Option (Parts fl) → Program
  after_stops none = panicked
  after_stops (some q) = exited q

  -- The goroutine that waits for a signal: it stops the components, and `os.Exit(0)`.
  unfoldable pub handle_signal : Life fl → Program
  unfolding shutdown
  handle_signal l = after_stops (shutdown fl l.parts)

  module _ (sort : Sort) (texts : IpText) where
    unfoldable react : Happening → Program → Program
    unfolding handle_signal
    react (happens (now, e)) (running l) = running (step fl sort texts now e l)
    react signal (running l) = handle_signal l
    react h (exited q) = exited q
    react h panicked = panicked

    unfoldable pub program : List Happening → Program → Program
    unfolding react
    program [] s = s
    program (h ∷ hs) s = program hs (react h s)

    program-exited : (hs : List Happening) (q : Parts fl) → program hs (exited q) ≡ exited q
    unfolding program
    program-exited [] q = refl
    program-exited (happens e ∷ hs) q = program-exited hs q
    program-exited (signal ∷ hs) q = program-exited hs q

    program-runs :
        (es : List (ℕ × Event fl)) (hs : List Happening) (l : Life fl)
        → program (map happens es ++ hs) (running l)
          ≡ program hs (running (runs fl sort texts es l))
    unfolding program runs
    program-runs [] hs l = refl
    program-runs ((now, e) ∷ es) hs l = program-runs es hs (step fl sort texts now e l)

    -- A program that has run, the clock not going back, exits at the first signal without a panic,
    -- whatever comes later, another signal too: it has stopped the collector, the tracker, and the DNS
    -- provider and the UniFi client if there is one, and changed nothing else of them.
    pub program-IsStopped :
        (w : Outside) (getenv : Env) (started : ℕ) (es : List (ℕ × Event fl))
        (later : List Happening)
        → Clock fl started es
        → (q : Parts fl) × (program
              (map happens es ++ (signal ∷ later))
              (running (begin fl w getenv started))
            ≡ exited q)
          × IsStopped fl (runs fl sort texts es (begin fl w getenv started)).parts q
    unfolding program handle_signal
    program-IsStopped w getenv started es later k =
        let l = runs fl sort texts es (begin fl w getenv started) in
        let h = runs-begin-Well sort texts w getenv started es k in
        let (q, stops, ok) = open_shutdown fl l.parts h.collector_open h.tracker_open in
        (
          q,
          program-runs es (signal ∷ later) (begin fl w getenv started)
              ∙ ap (λ o. program later (after_stops o)) stops
              ∙ program-exited later q,
          ok,
        )
