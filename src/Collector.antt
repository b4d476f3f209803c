-- ===== src/Collector.antt =====
-- collector/collector.go: the bandwidth collector. Each method returns the new collector. Time is
-- an argument, in nanoseconds since 1970; `accMu` and `mu` make the methods below atomic.
pub mod Rates
pub mod Traffic
pub mod History
pub mod Sparklines
use bandwidth_monitor.Common.{
  ℕ, ◌+◌, ◌-◌, ◌*◌, ◌/◌, ◌≡◌, Bool, true, false, not, ◌&&◌, ◌||◌, Option, none, some, List, [], ◌∷◌,
  ◌++◌, String, if◌then◌else◌, length, ltb, leb, nat_beq, add64, sub64, sub_ℕ, ℤ, pos, negsuc, map,
  get_elem?, ◌==◌, string_eq, zero, suc,
}
use bandwidth_monitor.Float.{Float, nought, of_ℕ}
use bandwidth_monitor.Net.{Ip, IpNet, any_contains}
use bandwidth_monitor.Packet.{Header, Packet, Read, stopped, timeout, failure, captured}

-- `historyMaxAge` in nanoseconds, and `historyPruneAt`.
abbrev pub history_max_age : ℕ
history_max_age = 24 * 3600 * 1_000_000_000

abbrev pub history_prune_at : ℕ
history_prune_at = 86400

-- `t.UnixMilli()`. Before 1970 it would be negative; the clock is taken to be later, so a cutoff
-- that `-` stops at 0 passes the same points.
abbrev pub unix_milli : ℕ → ℕ
unix_milli t = t / 1_000_000

-- The addresses and the length that both capture loops read from a packet.
pub record Flow : Type 0 where
  pub src : Ip
  pub dst : Ip
  pub len : ℕ

abbrev pub flow_of : Option Header → Option Header → Option Flow
flow_of (some h) v6 = some (record { src = h.src; dst = h.dst; len = h.len })
flow_of none (some h) = some (record { src = h.src; dst = h.dst; len = add64 h.len 40 })
flow_of none none = none

abbrev pub flow : Packet → Option Flow
flow p = flow_of p.ipv4 p.ipv6

module _ (fl : Float) where
  open fl use {F}

  pub record InterfaceStat : Type 0 where
    pub name : String
    pub iface_type : String
    pub oper_state : String
    pub addrs : List String
    pub rx_bytes : ℕ
    pub tx_bytes : ℕ
    pub rx_packets : ℕ
    pub tx_packets : ℕ
    pub rx_rate : F
    pub tx_rate : F
    pub timestamp : ℕ

  pub record HistoryPoint : Type 0 where
    pub timestamp : ℕ
    pub rx_rate : F
    pub tx_rate : F

  pub record SparkPoint : Type 0 where
    pub rx : F
    pub tx : F

  -- The packet counters are `uint64`. `closed` says whether `stopCh` is closed.
  pub record Collector : Type 0 where
    pub device : String
    pub promiscuous : Bool
    pub local_nets : List IpNet
    pub stat : InterfaceStat
    pub history : List HistoryPoint
    pub rx_bytes : ℕ
    pub tx_bytes : ℕ
    pub rx_packets : ℕ
    pub tx_packets : ℕ
    pub closed : Bool

  unfoldable pub new : String → Bool → List IpNet → Collector
  new device promiscuous local_nets = record {
    device = device;
    promiscuous = promiscuous;
    local_nets = local_nets;
    stat = record {
      name = device;
      iface_type = "span";
      oper_state = "up";
      addrs = [];
      rx_bytes = 0;
      tx_bytes = 0;
      rx_packets = 0;
      tx_packets = 0;
      rx_rate = nought fl;
      tx_rate = nought fl;
      timestamp = 0;
    };
    history = [];
    rx_bytes = 0;
    tx_bytes = 0;
    rx_packets = 0;
    tx_packets = 0;
    closed = false;
  }

  -- `Stop`: to close a closed channel panics, which is `none`.
  unfoldable pub stop : Collector → Option Collector
  stop c = if c.closed then none else some (record c { closed = true })

  unfoldable pub is_local : Collector → Ip → Bool
  is_local c ip = any_contains c.local_nets ip

  -- The `switch` of `processPacket`.
  unfoldable pub classify : Collector → Bool → Bool → ℕ → Collector
  classify c src_local dst_local len =
      if src_local && not dst_local
      then record c { tx_bytes = add64 c.tx_bytes len; tx_packets = add64 c.tx_packets 1 }
      else if not src_local && dst_local
      then record c { rx_bytes = add64 c.rx_bytes len; rx_packets = add64 c.rx_packets 1 }
      else if src_local && dst_local
      then record c {
        rx_bytes = add64 c.rx_bytes len;
        rx_packets = add64 c.rx_packets 1;
        tx_bytes = add64 c.tx_bytes len;
        tx_packets = add64 c.tx_packets 1;
      }
      else c

  process_flow : Collector → Option Flow → Collector
  unfolding classify is_local
  process_flow c none = c
  process_flow c (some f) = classify c (is_local c f.src) (is_local c f.dst) f.len

  unfoldable pub process_packet : Collector → Packet → Collector
  unfolding process_flow
  process_packet c p = process_flow c (flow p)

  -- The `for` of `Run`.
  unfoldable pub capture : Collector → List Read → Collector
  capture c [] = c
  capture c (stopped ∷ rs) = c
  capture c (timeout ∷ rs) = capture c rs
  capture c (failure ∷ rs) = c
  capture c (captured p ∷ rs) = capture (process_packet c p) rs

  -- `Run`, with whether the device could be opened. The second part says whether it started
  -- `rateLoop`.
  unfoldable pub run : Collector → Bool → List Read → Collector × Bool
  unfolding capture
  run c opened rs =
      if c.device == ""
      then (c, false)
      else if nat_beq (length c.local_nets) 0
      then (c, false)
      else if not opened
      then (c, false)
      else (capture c rs, true)

  -- `GetAll` and `GetHistory`.
  unfoldable pub get_all : Collector → List InterfaceStat
  get_all c = c.stat ∷ []

  unfoldable pub get_history : Collector → List (String × List HistoryPoint)
  get_history c = (c.device, c.history) ∷ []
