-- ===== src/Main/Life.antt =====
-- main.go: a run of the whole program. The goroutines that `main` starts interleave; an event is what
-- one of them does while it holds a lock. The web socket calls the methods of the components that the
-- other handlers call, so its tick is several events `asked`.
pub mod Kept
pub mod Invariant
pub mod Moments
pub mod Signals
use bandwidth_monitor.Common.{ℕ, ◌≤◌, Bool, true, false, Option, none, some, List, [], ◌∷◌, String}
use bandwidth_monitor.Float.{Float}
use bandwidth_monitor.Sorting.{Sort}
use bandwidth_monitor.Net.{IpText}
use bandwidth_monitor.Packet.{Packet}
use bandwidth_monitor.Adguard.Fetch.{Server, poll_server}
use bandwidth_monitor.Nextdns.Fetch
use bandwidth_monitor.Collector
use bandwidth_monitor.Collector.Rates.{RateLoop, start_rate_loop, tick}
use bandwidth_monitor.Talkers
use bandwidth_monitor.Talkers.Packets.{process_packet}
use bandwidth_monitor.Talkers.Window.{rotate}
use bandwidth_monitor.Talkers.Resolve.{finish}
use bandwidth_monitor.Unifi.Client
use bandwidth_monitor.Providers.{Provider, nil, adguard, nextdns}
use bandwidth_monitor.Handler.{Parts, Request, serve}
use bandwidth_monitor.Main.{Env}
use bandwidth_monitor.Main.System.{Outside, start}

module _ (fl : Float) where
  -- The components, and the variables of the collector's rate loop.
  pub record Life : Type 0 where
    pub parts : Parts fl
    pub rates : RateLoop

  pub data Event : Type 0 where
    collector_captures : Packet → Event
    rate_loop_starts : Event
    rate_loop_ticks : Event
    talkers_run : Option (List (String × ℕ)) → Event
    talkers_capture : Packet → Event
    minute_turns : Event
    name_found : String → Option (List String) → Event
    adguard_polls : Server fl → Event
    nextdns_polls : Fetch.Server → Event
    unifi_polls : Client.World → Event
    asked : Request → Event

  abbrev pub poll_adguard : Server fl → Provider fl → Provider fl
  poll_adguard server nil = nil
  poll_adguard server (adguard c) = adguard (poll_server fl server c)
  poll_adguard server (nextdns c) = nextdns c

  abbrev pub poll_nextdns : Fetch.Server → Provider fl → Provider fl
  poll_nextdns server nil = nil
  poll_nextdns server (adguard c) = adguard c
  poll_nextdns server (nextdns c) = nextdns (Fetch.poll_server server c)

  unfoldable pub begin : Outside → Env → ℕ → Life
  unfolding start
  begin w getenv now = record { parts = start fl w getenv; rates = start_rate_loop now }

  module _ (sort : Sort) (texts : IpText) where
    abbrev pub poll_unifi : Client.World → ℕ → Option (Client.Client fl) → Option (Client.Client fl)
    poll_unifi w now none = none
    poll_unifi w now (some uf) = some (Client.poll fl sort w now uf)

    abbrev after_tick : Parts fl → Collector.Collector fl × RateLoop → Life
    after_tick p (c, rates) = record { parts = record p { c = c }; rates = rates }

    -- What an event does at a time.
    unfoldable pub step : ℕ → Event → Life → Life
    unfolding tick rotate
    step now (collector_captures packet) l = record l {
      parts = record l.parts { c = Collector.process_packet fl l.parts.c packet };
    }
    step now rate_loop_starts l = record l { rates = start_rate_loop now }
    step now rate_loop_ticks l = after_tick l.parts (tick fl now l.parts.c l.rates)
    step now (talkers_run listed) l = record l {
      parts = record l.parts { t = (Talkers.run now l.parts.t listed).0 };
    }
    step now (talkers_capture packet) l = record l {
      parts = record l.parts { t = process_packet texts l.parts.t packet };
    }
    step now minute_turns l = record l { parts = record l.parts { t = rotate now l.parts.t } }
    step now (name_found ip names) l = record l {
      parts = record l.parts {
        t = record l.parts.t { dns_cache = finish l.parts.t.dns_cache ip names };
      };
    }
    step now (adguard_polls server) l = record l {
      parts = record l.parts { dp = poll_adguard server l.parts.dp };
    }
    step now (nextdns_polls server) l = record l {
      parts = record l.parts { dp = poll_nextdns server l.parts.dp };
    }
    step now (unifi_polls w) l = record l {
      parts = record l.parts { uf = poll_unifi w now l.parts.uf };
    }
    step now (asked r) l = record l { parts = (serve fl sort now r l.parts).0 }

    -- A run: events with their times.
    unfoldable pub runs : List (ℕ × Event) → Life → Life
    unfolding step
    runs [] l = l
    runs ((now, e) ∷ es) l = runs es (step now e l)

  -- The clock, which starts at `now`, does not go back; it ends at `last`.
  abbrev pub Clock : ℕ → List (ℕ × Event) → Type 0
  Clock now [] = Unit
  Clock now ((later, e) ∷ es) = (now ≤ later) × Clock later es

  abbrev pub last : ℕ → List (ℕ × Event) → ℕ
  last now [] = now
  last now ((later, e) ∷ es) = last later es
