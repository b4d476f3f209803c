-- ===== src/Handler.antt =====
-- handler/handler.go: what the handlers send. HTTP, JSON and the web socket are not modelled: a reply
-- is the value that is encoded. Each call of a method takes the lock of its component by itself, so
-- while the web socket makes the data of a tick other goroutines act between its calls, and the clock
-- is read more than once. The other handlers are one step at one time `now`: all of them but the menu
-- bar make one call of a component.
pub mod Stream
pub mod Names
pub mod Reports
pub mod Wifi
use bandwidth_monitor.Common.{
  ℕ, ◌*◌, Bool, true, false, if◌then◌else◌, Option, none, some, List, [], ◌∷◌, String, ℤ, pos,
  add_i64, map, length,
}
use bandwidth_monitor.Float.{Float}
use bandwidth_monitor.Maps.{Map}
use bandwidth_monitor.Sorting.{Sort}
use bandwidth_monitor.Dns
use bandwidth_monitor.Providers.{Provider, nil, adguard, nextdns, get_summary}
use bandwidth_monitor.Unifi.Summaries.{ApInfo, Summary}
use bandwidth_monitor.Unifi.Client
use bandwidth_monitor.Collector.{
  Collector, InterfaceStat, HistoryPoint, get_all, get_history, unix_milli,
}
use bandwidth_monitor.Collector.Sparklines.{Lines, get_sparklines}
use bandwidth_monitor.Talkers.{Tracker}
use bandwidth_monitor.Talkers.Stats.{TalkerStat}
use bandwidth_monitor.Talkers.Volume.{top_by_volume}
use bandwidth_monitor.Talkers.Bandwidth.{top_by_bandwidth}
use bandwidth_monitor.Talkers.Breakdown.{get_protocol_breakdown, get_ip_version_breakdown}
use bandwidth_monitor.Talkers.Places.{
  CountryStat, AsnStat, get_country_breakdown, get_asn_breakdown,
}

-- Five minutes, and the number of points of a sparkline.
abbrev pub spark_duration : ℕ
spark_duration = 5 * 60 * 1_000_000_000

abbrev pub spark_points : ℕ
spark_points = 50

-- The handlers that answer a request.
pub data Request : Type 0 where
  interface_stats : Request
  interface_history : Request
  top_talkers_bandwidth : Request
  top_talkers_volume : Request
  dns_summary : Request
  wifi_summary_of : Request
  menu_bar_summary : Request

-- The calls that make the data of a tick of the web socket, in their order.
pub data Call : Type 0 where
  for_interfaces : Call
  for_sparklines : Call
  for_protocols : Call
  for_ip_versions : Call
  for_countries : Call
  for_asns : Call
  for_bandwidth : Call
  for_volume : Call
  for_timestamp : Call
  for_dns : Call
  for_wifi : Call

module _ (fl : Float) where
  open fl use {F}

  -- The arguments of the handlers. `uf` is `none` for the `nil` pointer.
  pub record Parts : Type 0 where
    pub c : Collector fl
    pub t : Tracker
    pub dp : Provider fl
    pub uf : Option (Client.Client fl)

  -- What happens around the calls of a tick: what other goroutines do to the components before each
  -- call, and the time at which it reads the clock, if it does.
  pub record Turn : Type 0 where
    pub before : Call → Parts → Parts
    pub clock : Call → ℕ

  -- `ifaceBrief`, `dnsBrief`, `wifiBrief` and `summary` of `MenuBarSummary`.
  pub record IfaceBrief : Type 0 where
    pub name : String
    pub rx_rate : F
    pub tx_rate : F
    pub state : String

  pub record DnsBrief : Type 0 where
    pub provider : String
    pub total_queries : ℤ
    pub blocked : ℤ
    pub block_pct : F
    pub latency_ms : F

  pub record WifiBrief : Type 0 where
    pub aps : ℕ
    pub clients : ℤ

  pub record MenuBar : Type 0 where
    pub interfaces : List IfaceBrief
    pub vpn : Bool
    pub vpn_iface : String
    pub dns : Option DnsBrief
    pub wifi : Option WifiBrief
    pub timestamp : ℕ

  abbrev pub iface_brief : InterfaceStat fl → IfaceBrief
  iface_brief i = record {
    name = i.name;
    rx_rate = i.rx_rate;
    tx_rate = i.tx_rate;
    state = i.oper_state;
  }

  abbrev pub dns_brief : Option (Dns.Summary fl) → Option DnsBrief
  dns_brief none = none
  dns_brief (some ds) = some (record {
    provider = ds.provider_name;
    total_queries = ds.total_queries;
    blocked = ds.blocked_total;
    block_pct = ds.blocked_percent;
    latency_ms = ds.avg_latency_ms;
  })

  -- The loop over the access points, with the sum so far.
  unfoldable pub total_clients : List (ApInfo fl) → ℤ → ℤ
  total_clients [] total = total
  total_clients (ap ∷ aps) total = total_clients aps (add_i64 total ap.num_clients)

  abbrev pub wifi_brief : Option (Summary fl) → Option WifiBrief
  wifi_brief none = none
  wifi_brief (some ws) =
      some (record { aps = length ws.aps; clients = total_clients ws.aps (pos 0) })

  -- `uf.GetSummary()`, and `none` without a client.
  abbrev pub wifi_summary : Option (Client.Client fl) → Option (Summary fl)
  wifi_summary none = none
  wifi_summary (some uf) = Client.get_summary fl uf

  -- What the web socket sends in a tick. The outer `none` of `dns` and `wifi` is a missing key, the
  -- inner one is `null`.
  pub record Payload : Type 0 where
    pub interfaces : List (InterfaceStat fl)
    pub sparklines : Lines fl
    pub protocols : Map String ℕ
    pub ip_versions : Map String ℕ
    pub countries : List CountryStat
    pub asns : List AsnStat
    pub top_bandwidth : List (TalkerStat fl)
    pub top_volume : List (TalkerStat fl)
    pub timestamp : ℕ
    pub dns : Option (Option (Dns.Summary fl))
    pub wifi : Option (Option (Summary fl))

  -- The values that the other handlers encode; `null` is written without an encoder.
  pub data Reply : Type 0 where
    interfaces : List (InterfaceStat fl) → Reply
    history : List (String × List (HistoryPoint fl)) → Reply
    talkers : List (TalkerStat fl) → Reply
    dns : Option (Dns.Summary fl) → Reply
    wifi : Option (Summary fl) → Reply
    menu_bar : MenuBar → Reply
    null : Reply

  module _ (sort : Sort) where
    unfoldable pub menu_bar_of : ℕ → Parts → MenuBar
    unfolding total_clients
    menu_bar_of now p = record {
      interfaces = map iface_brief (get_all fl p.c);
      vpn = false;
      vpn_iface = "";
      dns = dns_brief (get_summary fl sort p.dp);
      wifi = wifi_brief (wifi_summary p.uf);
      timestamp = unix_milli now;
    }

    abbrev pub dns_key : Provider fl → Option (Option (Dns.Summary fl))
    dns_key nil = none
    dns_key (adguard c) = some (get_summary fl sort (adguard c))
    dns_key (nextdns c) = some (get_summary fl sort (nextdns c))

    abbrev pub wifi_key : Option (Client.Client fl) → Option (Option (Summary fl))
    wifi_key none = none
    wifi_key (some uf) = some (Client.get_summary fl uf)

    -- `TopByBandwidth(10)` and `TopByVolume(10)`, each with the components after it: they fill the
    -- tracker's cache of names.
    abbrev pub bandwidth_call : ℕ → Parts → Parts × List (TalkerStat fl)
    bandwidth_call now p =
        let (t, list) = top_by_bandwidth fl sort 10 now p.t in (record p { t = t }, list)

    abbrev pub volume_call : Parts → Parts × List (TalkerStat fl)
    volume_call p = let (t, list) = top_by_volume fl sort 10 p.t in (record p { t = t }, list)

    -- The payload of a tick.
    unfoldable pub payload : Turn → Parts → Parts × Payload
    payload turn p =
        let p1 = turn.before for_interfaces p in
        let p2 = turn.before for_sparklines p1 in
        let p3 = turn.before for_protocols p2 in
        let p4 = turn.before for_ip_versions p3 in
        let p5 = turn.before for_countries p4 in
        let p6 = turn.before for_asns p5 in
        let p7 = turn.before for_bandwidth p6 in
        let (q7, top_bandwidth) = bandwidth_call (turn.clock for_bandwidth) p7 in
        let p8 = turn.before for_volume q7 in
        let (q8, top_volume) = volume_call p8 in
        let p9 = turn.before for_dns q8 in
        let p10 = turn.before for_wifi p9 in
        (
          p10,
          record {
            interfaces = get_all fl p1.c;
            sparklines =
                get_sparklines fl (turn.clock for_sparklines) spark_duration spark_points p2.c;
            protocols = get_protocol_breakdown p3.t;
            ip_versions = get_ip_version_breakdown p4.t;
            countries = get_country_breakdown sort p5.t;
            asns = get_asn_breakdown sort p6.t;
            top_bandwidth = top_bandwidth;
            top_volume = top_volume;
            timestamp = unix_milli (turn.clock for_timestamp);
            dns = dns_key p9.dp;
            wifi = wifi_key p10.uf;
          },
        )

    abbrev pub dns_reply : Provider fl → Reply
    dns_reply nil = null
    dns_reply (adguard c) = dns (get_summary fl sort (adguard c))
    dns_reply (nextdns c) = dns (get_summary fl sort (nextdns c))

    abbrev pub wifi_reply : Option (Client.Client fl) → Reply
    wifi_reply none = null
    wifi_reply (some uf) = wifi (Client.get_summary fl uf)

    -- A call of a handler.
    unfoldable pub serve : ℕ → Request → Parts → Parts × Reply
    unfolding menu_bar_of
    serve now interface_stats p = (p, interfaces (get_all fl p.c))
    serve now interface_history p = (p, history (get_history fl p.c))
    serve now top_talkers_bandwidth p =
        let (t, list) = top_by_bandwidth fl sort 10 now p.t in (record p { t = t }, talkers list)
    serve now top_talkers_volume p =
        let (t, list) = top_by_volume fl sort 10 p.t in (record p { t = t }, talkers list)
    serve now dns_summary p = (p, dns_reply p.dp)
    serve now wifi_summary_of p = (p, wifi_reply p.uf)
    serve now menu_bar_summary p = (p, menu_bar (menu_bar_of now p))
