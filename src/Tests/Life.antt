-- ===== src/Tests/Life.antt =====
-- A run of the whole program.
use bandwidth_monitor.Common.{
  ℕ, ◌*◌, ◌≡◌, arith, false, none, some, List, [], ◌∷◌, string_eq, if◌then◌else◌, map, ◌++◌,
}
use bandwidth_monitor.Sorting.Insertion.{insertion}
use bandwidth_monitor.Collector
use bandwidth_monitor.Collector.Rates
use bandwidth_monitor.Handler.{
  Parts, Turn, Call, for_interfaces, for_sparklines, for_protocols, for_ip_versions, for_countries,
  for_asns, for_bandwidth, for_volume, for_timestamp, for_dns, for_wifi, top_talkers_volume,
  interface_stats,
}
use bandwidth_monitor.Main.{Env}
use bandwidth_monitor.Main.System.{Outside, IsStopped}
use bandwidth_monitor.Main.Life.{
  Event, talkers_run, rate_loop_starts, rate_loop_ticks, collector_captures, talkers_capture,
  minute_turns, unifi_polls, asked, runs, Clock, begin,
}
use bandwidth_monitor.Main.Life.Moments.{after}
use bandwidth_monitor.Main.Life.Signals.{
  happens, signal, running, exited, program, program-IsStopped,
}
use bandwidth_monitor.Tests.Samples.{whole, some_texts, minute, download}
use bandwidth_monitor.Tests.Main.{parse_net, ifaces}
use bandwidth_monitor.Tests.UnifiClient.{working}

abbrev outside : Outside
outside = record {
  parse_cidr = parse_net;
  ifaces = some ifaces;
  texts = some_texts;
  exists = λ path. false;
  open_country = λ path. none;
  open_asn = λ path. none;
}

abbrev settings : Env
settings key =
    if string_eq.beq key "DEVICE"
    then "eth0"
    else if string_eq.beq key "UNIFI_URL"
    then "https://unifi"
    else ""

abbrev events : List (ℕ × Event whole)
events =
    (minute, talkers_run none)
    ∷ (minute, rate_loop_starts)
    ∷ (minute, talkers_capture download)
    ∷ (minute, collector_captures download)
    ∷ (minute, unifi_polls working)
    ∷ (minute, asked interface_stats)
    ∷ (2 * minute, rate_loop_ticks)
    ∷ (2 * minute, minute_turns)
    ∷ (2 * minute, asked top_talkers_volume)
    ∷ []

-- The same before the last three events: a packet and a new minute lie between.
abbrev earlier : List (ℕ × Event whole)
earlier =
    (minute, talkers_run none)
    ∷ (minute, rate_loop_starts)
    ∷ (minute, collector_captures download)
    ∷ (minute, asked interface_stats)
    ∷ []

abbrev moments : Call → List (ℕ × Event whole)
moments for_interfaces = earlier
moments for_sparklines = earlier
moments for_protocols = earlier
moments _ = events

abbrev clock_of_events : Clock whole minute events
clock_of_events = (
  omega arith,
  (
    omega arith,
    (
      omega arith,
      (omega arith, (omega arith, (omega arith, (omega arith, (omega arith, (omega arith, tt)))))),
    ),
  ),
)

abbrev clock_of_earlier : Clock whole minute earlier
clock_of_earlier = (omega arith, (omega arith, (omega arith, (omega arith, tt))))

abbrev clocks : (call : Call) → Clock whole minute (moments call)
clocks for_interfaces = clock_of_earlier
clocks for_sparklines = clock_of_earlier
clocks for_protocols = clock_of_earlier
clocks for_ip_versions = clock_of_events
clocks for_countries = clock_of_events
clocks for_asns = clock_of_events
clocks for_bandwidth = clock_of_events
clocks for_volume = clock_of_events
clocks for_timestamp = clock_of_events
clocks for_dns = clock_of_events
clocks for_wifi = clock_of_events

abbrev found : Call → Parts whole
found call = after whole insertion some_texts outside settings minute (moments call)

abbrev turn : Turn whole
turn = record { before = λ call p. found call; clock = λ call. 2 * minute }

program-IsStopped_example :
    (q : Parts whole) × (program whole insertion some_texts
        (map happens events ++ (signal ∷ signal ∷ []))
        (running (begin whole outside settings minute))
      ≡ exited q)
    × IsStopped whole
        (runs whole insertion some_texts events (begin whole outside settings minute)).parts
        q
program-IsStopped_example =
    program-IsStopped whole insertion some_texts outside settings minute events (signal ∷ [])
      clock_of_events
