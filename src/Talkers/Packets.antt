-- ===== src/Talkers/Packets.antt =====
-- talkers/talkers.go: `processPacket`, which adds a packet to the current bucket.
use bandwidth_monitor.Common.{
  Bool, ℕ, ◌≡◌, refl, not, ◌&&◌, ◌||◌, Option, none, some, List, [], ◌∷◌, String, if◌then◌else◌,
  length, ltb, add64, string_eq,
}
use bandwidth_monitor.Maps.{Map, or_else, get, put}
use bandwidth_monitor.Net.{IpNet, IpText}
use bandwidth_monitor.Packet.{Header, Packet, Read, stopped, timeout, failure, captured, delivered}
use bandwidth_monitor.Talkers.{HostAccum, no_traffic, Bucket, Tracker, is_local_net, skipped}

-- The addresses, length and version that `processPacket` reads.
pub record Flow : Type 0 where
  pub src : String
  pub dst : String
  pub len : ℕ
  pub version : String

abbrev pub seen : ℕ → HostAccum → HostAccum
seen len h = record h { bytes = add64 h.bytes len; packets = add64 h.packets 1 }

abbrev pub sent : ℕ → HostAccum → HostAccum
sent len h = record h { tx_bytes = add64 h.tx_bytes len }

abbrev pub received : ℕ → HostAccum → HostAccum
received len h = record h { rx_bytes = add64 h.rx_bytes len }

-- `if h, ok := hosts[ip]; ok { ... }`
unfoldable pub on_host :
    (HostAccum → HostAccum) → String → Map String HostAccum → Map String HostAccum
on_host f ip hosts = elim (get ip hosts) [ none ↦ hosts | some h ↦ put ip (f h) hosts ]

-- `m[k] += n`
abbrev pub bump : String → ℕ → Map String ℕ → Map String ℕ
bump k n m = put k (add64 (or_else (get k m) 0) n) m

abbrev pub on_current : (Bucket → Bucket) → Tracker → Option Bucket → Tracker
on_current g t none = t
on_current g t (some b) = record t { current = some (g b) }

module _ (texts : IpText) where
  open texts use {print}

  abbrev flow_of : Option Header → Option Header → Option Flow
  flow_of (some h) v6 =
      some (record { src = print h.src; dst = print h.dst; len = h.len; version = "IPv4" })
  flow_of none (some h) =
      some (record { src = print h.src; dst = print h.dst; len = add64 h.len 40; version = "IPv6" })
  flow_of none none = none

  abbrev pub flow : Packet → Option Flow
  flow p = flow_of p.ipv4 p.ipv6

  abbrev pub proto : Packet → String
  proto p =
      if p.tcp
      then "TCP"
      else if p.udp
      then "UDP"
      else if p.icmpv4 || p.icmpv6
      then "ICMP"
      else "Other"

  -- One round of the loop over the two addresses.
  unfoldable pub count_host : List IpNet → ℕ → String → Map String HostAccum → Map String HostAccum
  count_host nets len ip hosts =
      if skipped texts nets ip
      then hosts
      else put ip (seen len (or_else (get ip hosts) no_traffic)) hosts

  unfoldable pub direct : List IpNet → Flow → Map String HostAccum → Map String HostAccum
  unfolding on_host
  direct nets f hosts =
      if ltb 0 (length nets)
      then if is_local_net texts nets f.src && not (is_local_net texts nets f.dst)
        then on_host (sent f.len) f.dst hosts
        else if not (is_local_net texts nets f.src) && is_local_net texts nets f.dst
        then on_host (received f.len) f.src hosts
        else hosts
      else hosts

  unfoldable pub add_flow : List IpNet → String → Flow → Bucket → Bucket
  unfolding count_host direct
  add_flow nets pr f b = record b {
    hosts = direct nets f (count_host nets f.len f.dst (count_host nets f.len f.src b.hosts));
    proto_bytes = bump pr f.len b.proto_bytes;
    ip_ver_bytes = bump f.version f.len b.ip_ver_bytes;
  }

  abbrev pub process_flow : Tracker → String → Option Flow → Tracker
  process_flow t pr none = t
  process_flow t pr (some f) = on_current (add_flow t.local_nets pr f) t t.current

  unfoldable pub process_packet : Tracker → Packet → Tracker
  unfolding add_flow
  process_packet t p = process_flow t (proto p) (flow p)

  unfoldable pub process_packets : Tracker → List Packet → Tracker
  unfolding process_packet
  process_packets t [] = t
  process_packets t (p ∷ ps) = process_packets (process_packet t p) ps

  -- The `for` of `captureDevice`, on a device that was opened.
  unfoldable pub capture_device : Tracker → List Read → Tracker
  capture_device t [] = t
  capture_device t (stopped ∷ rs) = t
  capture_device t (timeout ∷ rs) = capture_device t rs
  capture_device t (failure ∷ rs) = t
  capture_device t (captured p ∷ rs) = capture_device (process_packet t p) rs

  -- `captureDevice`, with whether the device could be opened.
  unfoldable pub capture_on : Tracker → Bool → List Read → Tracker
  unfolding capture_device
  capture_on t opened rs = if opened then capture_device t rs else t

  pub capture_device-process_packets :
      (t : Tracker) (rs : List Read) → capture_device t rs ≡ process_packets t (delivered rs)
  unfolding capture_device process_packets
  capture_device-process_packets t [] = refl
  capture_device-process_packets t (stopped ∷ rs) = refl
  capture_device-process_packets t (timeout ∷ rs) = capture_device-process_packets t rs
  capture_device-process_packets t (failure ∷ rs) = refl
  capture_device-process_packets t (captured p ∷ rs) =
      capture_device-process_packets (process_packet t p) rs
