-- ===== src/Unifi/Summaries.antt =====
-- unifi/unifi.go: what the controller reports, and `buildSummary`. Counters are `int64`, as `ℤ`.
pub mod Rates
pub mod Exact
pub mod Networks
use bandwidth_monitor.Common.{
  ℕ, ◌+◌, Bool, true, false, not, if◌then◌else◌, nat_beq, Option, none, some, List, [], ◌∷◌, String,
  string_eq, ◌==◌, ℤ, pos, add_i64, sub_i64, map, length,
}
use bandwidth_monitor.Float.{Float, nought}
use bandwidth_monitor.Maps.{Map, or_else, get, put}
use bandwidth_monitor.Maps.Group.{group}
use bandwidth_monitor.Sorting.{Sort, more}
use bandwidth_monitor.Dns.{more_ℤ}
use bandwidth_monitor.Texts.{less_text}

pub record ByteSnap : Type 0 where
  pub tx : ℤ
  pub rx : ℤ

pub record RawDevice : Type 0 where
  pub kind : String  -- Type
  pub name : String
  pub model : String
  pub mac : String
  pub ip : String
  pub version : String
  pub state : ℤ
  pub num_sta : ℤ
  pub uptime : ℤ
  pub tx_bytes : ℤ
  pub rx_bytes : ℤ

pub record RawClient : Type 0 where
  pub mac : String
  pub hostname : String
  pub ip : String
  pub essid : String
  pub is_wired : Bool
  pub tx_bytes : ℤ
  pub rx_bytes : ℤ
  pub ap_mac : String
  pub signal : ℤ
  pub channel : ℤ
  pub radio : String
  pub tx_rate : ℤ
  pub rx_rate : ℤ

-- `ssidAgg`; the `int` count of clients has no bound here, nor in `SsidStat`.
pub record SsidAgg : Type 0 where
  pub count : ℕ
  pub tx_bytes : ℤ
  pub rx_bytes : ℤ

-- The counters of the previous poll: `prevAP`, `prevSSID` and `prevCli`.
pub record Previous : Type 0 where
  pub ap : Map String ByteSnap
  pub ssid : Map String ByteSnap
  pub cli : Map String ByteSnap

-- The clients that are not wired.
unfoldable pub wireless : List RawClient → List RawClient
wireless [] = []
wireless (c ∷ cs) = let rest = wireless cs in if c.is_wired then rest else c ∷ rest

-- The network of a client in the loop over the clients: wired ones and empty names are skipped.
abbrev pub network_of : RawClient → Option String
network_of c =
    if c.is_wired then none else if not (string_eq.beq c.essid "") then some c.essid else none

abbrev pub no_clients : RawClient → SsidAgg
no_clients c = record { count = 0; tx_bytes = pos 0; rx_bytes = pos 0 }

abbrev pub add_client : SsidAgg → RawClient → SsidAgg
add_client a c = record {
  count = a.count + 1;
  tx_bytes = add_i64 a.tx_bytes c.tx_bytes;
  rx_bytes = add_i64 a.rx_bytes c.rx_bytes;
}

-- `ssidMap`
unfoldable pub ssid_map : List RawClient → Map String SsidAgg
ssid_map cs = group network_of no_clients add_client cs []

module _ (fl : Float) where
  open fl use {F, lt, div, of_int}

  pub record ApInfo : Type 0 where
    pub name : String
    pub model : String
    pub mac : String
    pub ip : String
    pub version : String
    pub status : String
    pub num_clients : ℤ
    pub uptime : ℤ
    pub tx_bytes : ℤ
    pub rx_bytes : ℤ
    pub tx_rate : F
    pub rx_rate : F

  pub record SsidStat : Type 0 where
    pub name : String
    pub num_clients : ℕ
    pub tx_bytes : ℤ
    pub rx_bytes : ℤ
    pub tx_rate : F
    pub rx_rate : F

  pub record ClientInfo : Type 0 where
    pub mac : String
    pub hostname : String
    pub ip : String
    pub ssid : String
    pub ap_mac : String
    pub ap_name : String
    pub signal : ℤ
    pub channel : ℤ
    pub radio : String
    pub tx_bytes : ℤ
    pub rx_bytes : ℤ
    pub tx_rate : F
    pub rx_rate : F

  pub record Summary : Type 0 where
    pub total_aps : ℕ
    pub total_clients : ℕ
    pub aps : List ApInfo
    pub ssids : List SsidStat
    pub clients : List ClientInfo

  -- `float64(cur-prev) / dt`, and 0 if that is negative.
  unfoldable pub clamped_rate : F → ℤ → ℤ → F
  clamped_rate dt cur prev =
      let r = div (of_int (sub_i64 cur prev)) dt in if lt r (nought fl) then nought fl else r

  -- The rates of sent and received bytes since the previous counters, 0 without those.
  unfoldable pub rates : F → Option ByteSnap → ℤ → ℤ → F × F
  unfolding clamped_rate
  rates dt none tx rx = (nought fl, nought fl)
  rates dt (some prev) tx rx =
      if lt (nought fl) dt
      then (clamped_rate dt tx prev.tx, clamped_rate dt rx prev.rx)
      else (nought fl, nought fl)

  abbrev pub ap_status : ℤ → String
  ap_status (pos n) = if nat_beq n 1 then "connected" else "disconnected"
  ap_status _ = "disconnected"

  abbrev pub ap_info : F → Map String ByteSnap → RawDevice → ApInfo
  ap_info dt prev d = record {
    name = d.name;
    model = d.model;
    mac = d.mac;
    ip = d.ip;
    version = d.version;
    status = ap_status d.state;
    num_clients = d.num_sta;
    uptime = d.uptime;
    tx_bytes = d.tx_bytes;
    rx_bytes = d.rx_bytes;
    tx_rate = (rates dt (get d.mac prev) d.tx_bytes d.rx_bytes).0;
    rx_rate = (rates dt (get d.mac prev) d.tx_bytes d.rx_bytes).1;
  }

  -- The loop over the devices.
  unfoldable pub access_points : F → Map String ByteSnap → List RawDevice → List ApInfo
  unfolding rates
  access_points dt prev [] = []
  access_points dt prev (d ∷ ds) =
      let rest = access_points dt prev ds in
      if string_eq.beq d.kind "uap" then ap_info dt prev d ∷ rest else rest

  abbrev pub ssid_stat : F → Map String ByteSnap → String × SsidAgg → SsidStat
  ssid_stat dt prev (name, a) = record {
    name = name;
    num_clients = a.count;
    tx_bytes = a.tx_bytes;
    rx_bytes = a.rx_bytes;
    tx_rate = (rates dt (get name prev) a.tx_bytes a.rx_bytes).0;
    rx_rate = (rates dt (get name prev) a.tx_bytes a.rx_bytes).1;
  }

  -- `apNames`
  unfoldable pub ap_names : List ApInfo → Map String String → Map String String
  ap_names [] names = names
  ap_names (ap ∷ aps) names = ap_names aps (put ap.mac ap.name names)

  abbrev pub client_info : F → Map String ByteSnap → Map String String → RawClient → ClientInfo
  client_info dt prev names c = record {
    mac = c.mac;
    hostname = c.hostname;
    ip = c.ip;
    ssid = c.essid;
    ap_mac = c.ap_mac;
    ap_name = or_else (get c.ap_mac names) "";
    signal = c.signal;
    channel = c.channel;
    radio = c.radio;
    tx_bytes = c.tx_bytes;
    rx_bytes = c.rx_bytes;
    tx_rate = (rates dt (get c.mac prev) c.tx_bytes c.rx_bytes).0;
    rx_rate = (rates dt (get c.mac prev) c.tx_bytes c.rx_bytes).1;
  }

  abbrev pub by_traffic : ClientInfo → ClientInfo → Bool
  by_traffic = more_ℤ (λ c. add_i64 c.tx_bytes c.rx_bytes)

  abbrev pub by_name : ApInfo → ApInfo → Bool
  by_name a b = less_text a.name b.name

  abbrev pub by_clients : SsidStat → SsidStat → Bool
  by_clients = more (λ s. s.num_clients)

  module _ (sort : Sort) where
    unfoldable pub build_summary : Previous → F → List RawDevice → List RawClient → Summary
    unfolding access_points wireless ssid_map ap_names
    build_summary prev dt devices clients =
        let aps = sort.slice by_name (access_points dt prev.ap devices) in
        let infos = map (client_info dt prev.cli (ap_names aps [])) (wireless clients) in
        record {
          total_aps = length aps;
          total_clients = length (wireless clients);
          aps = aps;
          ssids = sort.slice by_clients (map (ssid_stat dt prev.ssid) (ssid_map clients));
          clients = sort.slice by_traffic infos;
        }
