-- ===== src/Tests/Handler.antt =====
-- Runs of the handlers.
use bandwidth_monitor.Common.{◌≡◌, refl, ◌*◌, ℕ, true, false, none, some, [], ◌∷◌, ◌++◌, map}
use bandwidth_monitor.Sorting.Insertion.{insertion}
use bandwidth_monitor.Collector
use bandwidth_monitor.Providers.{nil}
use bandwidth_monitor.Unifi.{poll_devices, login}
use bandwidth_monitor.Unifi.Client.{poll, fetch, api_prefix, new}
use bandwidth_monitor.Handler.{Parts, Turn, Call, for_protocols, menu_bar_of}
use bandwidth_monitor.Handler.Stream.{done, ping, tick, change, stamp, web_socket, web_socket-due}
use bandwidth_monitor.Handler.Wifi.{CountsAps, poll-CountsAps}
use bandwidth_monitor.Tests.Samples.{whole, busy, home, minute, some_texts, download}
use bandwidth_monitor.Talkers.Packets.{process_packet}
use bandwidth_monitor.Tests.UnifiClient.{devices, stations, fresh, working}

abbrev parts : Parts whole
parts = record { c = Collector.new whole "eth0" true home; t = busy; dp = nil; uf = some fresh }

-- A tick in which nothing else happens, and one in which a packet comes before the third call.
abbrev quiet : ℕ → Turn whole
quiet now = record { before = λ call p. p; clock = λ call. now }

abbrev packet_before : Call → Parts whole → Parts whole
packet_before for_protocols p = record p { t = process_packet some_texts p.t download }
packet_before call p = p

abbrev changing : ℕ → Turn whole
changing now = record { before = packet_before; clock = λ call. now }

-- Two ticks, with a new tracker in between, a ping, and a tick whose write fails.
web_socket-due_example :
    map
      (stamp whole)
      (web_socket whole insertion true
        ((tick (quiet (2 * minute)) true
            ∷ change (λ p. record p { uf = none })
            ∷ ping true
            ∷ tick (changing (3 * minute)) true
            ∷ [])
          ++ (tick (quiet (4 * minute)) false ∷ done ∷ []))
        parts).1
    ≡ some 120_000 ∷ none ∷ some 180_000 ∷ []
web_socket-due_example =
    web_socket-due whole insertion
      (tick (quiet (2 * minute)) true
        ∷ change (λ p. record p { uf = none })
        ∷ ping true
        ∷ tick (changing (3 * minute)) true
        ∷ [])
      (tick (quiet (4 * minute)) false) (done ∷ []) parts (refl, (refl, (refl, (refl, tt)))) refl

poll-CountsAps_example :
    CountsAps whole devices
      (menu_bar_of whole insertion
        (2 * minute)
        (record parts { uf = some (poll whole insertion working minute fresh) })).wifi
unfolding poll_devices login fetch api_prefix new
poll-CountsAps_example =
    poll-CountsAps whole insertion working (2 * minute) minute devices stations
      (record { unifi_os = true; detected = true; csrf_token = "token"; logged_in = true }) fresh
      parts refl refl
