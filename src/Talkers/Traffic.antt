-- ===== src/Talkers/Traffic.antt =====
-- The traffic of one remote host: what its counters hold after any packets.
use bandwidth_monitor.Common.{
  ℕ, ◌≢◌, ◌+◌, ◌<◌, ◌≡◌, ◌∙◌, true, false, not, ◌&&◌, Option, none, some, List, [], ◌∷◌, String,
  if◌then◌else◌, length, ltb, u64_mod, add64, string_eq, arith, ◌==◌, sum_of,
}
use bandwidth_monitor.Maps.{Map, or_else, get, get-put}
use bandwidth_monitor.Maps.Group.{count_of}
use bandwidth_monitor.Net.{IpNet, IpText}
use bandwidth_monitor.Packet.{Packet, Read, delivered}
use bandwidth_monitor.Talkers.{HostAccum, no_traffic, Bucket, Tracker, is_local_net, skipped}
use bandwidth_monitor.Talkers.Accounting.{get-on_host}
use bandwidth_monitor.Talkers.Packets.{
  proto, flow, Flow, capture_device, capture_device-process_packets, count_host, sent, received,
  seen, direct, add_flow,
}
use bandwidth_monitor.Talkers.Hosts.{add_if, add_packets, process_packets-current}

-- The counters of a host after (`p`) are, on `uint64`, those before (`o`) and the given numbers; a
-- host that is not counted has 0 in each.
pub record Adds (o : Option HostAccum) (bytes rx tx packets : ℕ) (p : Option HostAccum)
    : Type 0 where
  pub bytes_lem : count_of (λ a. a.bytes) p ≡ add64 (count_of (λ a. a.bytes) o) bytes
  pub rx_lem : count_of (λ a. a.rx_bytes) p ≡ add64 (count_of (λ a. a.rx_bytes) o) rx
  pub tx_lem : count_of (λ a. a.tx_bytes) p ≡ add64 (count_of (λ a. a.tx_bytes) o) tx
  pub packets_lem : count_of (λ a. a.packets) p ≡ add64 (count_of (λ a. a.packets) o) packets

-- Every counter is below `2 ^ 64`.
abbrev pub InRange : Option HostAccum → Type 0
InRange none = Unit
InRange (some h) =
    (h.bytes < u64_mod) × (h.rx_bytes < u64_mod) × (h.tx_bytes < u64_mod) × (h.packets < u64_mod)

Adds-trans :
    {o p q : Option HostAccum} {a b c d a' b' c' d' : ℕ}
    → Adds o a b c d p
    → Adds p a' b' c' d' q
    → Adds o (a + a') (b + b') (c + c') (d + d') q
Adds-trans h k = record {
  bytes_lem = omega (arith, h.bytes_lem, k.bytes_lem);
  rx_lem = omega (arith, h.rx_lem, k.rx_lem);
  tx_lem = omega (arith, h.tx_lem, k.tx_lem);
  packets_lem = omega (arith, h.packets_lem, k.packets_lem);
}

Adds-refl : (o : Option HostAccum) → InRange o → Adds o 0 0 0 0 o
Adds-refl none h = omega arith
Adds-refl (some a) h = omega arith

Adds-InRange : (o p : Option HostAccum) (a b c d : ℕ) → Adds o a b c d p → InRange p
Adds-InRange o none a b c d k = tt
Adds-InRange o (some h) a b c d k = (
  omega (arith, k.bytes_lem),
  omega (arith, k.rx_lem),
  omega (arith, k.tx_lem),
  omega (arith, k.packets_lem),
)

module _ (texts : IpText) (nets : List IpNet) (j : String)
    (remote : skipped texts nets j ≡ false) where
  count_at : ℕ → String → Option HostAccum → Option HostAccum
  count_at len ip o = if ip == j then some (seen len (or_else o no_traffic)) else o

  get-count_host :
      (len : ℕ) (ip : String) (hosts : Map String HostAccum)
      → get j (count_host texts nets len ip hosts) ≡ count_at len ip (get j hosts)
  unfolding count_host count_at
  get-count_host len ip hosts = ground (
    arith,
    get-put ip j (seen len (or_else (get ip hosts) no_traffic)) hosts,
    string_eq.beq_iff ip j,
  )

  apply_at : (HostAccum → HostAccum) → String → Option HostAccum → Option HostAccum
  apply_at f ip o = if ip == j then elim o [ none ↦ none | some h ↦ some (f h) ] else o

  direct_at : Flow → Option HostAccum → Option HostAccum
  unfolding apply_at
  direct_at f o =
      if ltb 0 (length nets)
      then if is_local_net texts nets f.src && not (is_local_net texts nets f.dst)
        then apply_at (sent f.len) f.dst o
        else if not (is_local_net texts nets f.src) && is_local_net texts nets f.dst
        then apply_at (received f.len) f.src o
        else o
      else o

  get-direct :
      (f : Flow) (hosts : Map String HostAccum)
      → get j (direct texts nets f hosts) ≡ direct_at f (get j hosts)
  unfolding direct direct_at
  get-direct f hosts =
      ground
        (arith, get-on_host (sent f.len) f.dst j hosts, get-on_host (received f.len) f.src j hosts)

  -- What a packet means for the host: its bytes and packets count once for each of its addresses
  -- that is the host, its download if it goes from the host to a local network, and its upload if
  -- it comes from one.
  abbrev bytes_for : Flow → ℕ
  bytes_for f = (if f.src == j then f.len else 0) + (if f.dst == j then f.len else 0)

  abbrev packets_for : Flow → ℕ
  packets_for f = (if f.src == j then 1 else 0) + (if f.dst == j then 1 else 0)

  abbrev rx_for : Flow → ℕ
  rx_for f = if f.src == j && is_local_net texts nets f.dst then f.len else 0

  abbrev tx_for : Flow → ℕ
  tx_for f = if is_local_net texts nets f.src && f.dst == j then f.len else 0

  some_nets : (ip : String) → is_local_net texts nets ip ≡ true → ltb 0 (length nets) ≡ true
  unfolding is_local_net
  some_nets ip h = ground arith

  count_at-Adds :
      (len : ℕ) (ip : String) (o : Option HostAccum)
      → InRange o
      → Adds o (if ip == j then len else 0) 0 0 (if ip == j then 1 else 0) (count_at len ip o)
  unfolding count_at
  count_at-Adds len ip none h = ground arith
  count_at-Adds len ip (some a) h = ground arith

  direct_at-Adds :
      (f : Flow) (o : Option HostAccum)
      → InRange o
      → ((f.src == j) ≡ true → o ≢ none)
      → ((f.dst == j) ≡ true → o ≢ none)
      → Adds o 0 (rx_for f) (tx_for f) 0 (direct_at f o)
  unfolding direct_at
  direct_at-Adds f none h src_in dst_in = ground (arith)
  direct_at-Adds f (some a) h src_in dst_in = ground (
    arith,
    some_nets f.src,
    some_nets f.dst,
    string_eq.beq_iff f.src j,
    string_eq.beq_iff f.dst j,
  )

  counted_twice :
      (f : Flow) (o : Option HostAccum)
      → let p = count_at f.len f.dst (count_at f.len f.src o) in
        ((f.src == j) ≡ true → p ≢ none) × ((f.dst == j) ≡ true → p ≢ none)
  unfolding count_at
  counted_twice f o = ground arith

  flow-Adds :
      (f : Flow) (o : Option HostAccum)
      → InRange o
      → Adds o
          (bytes_for f)
          (rx_for f)
          (tx_for f)
          (packets_for f)
          (direct_at f (count_at f.len f.dst (count_at f.len f.src o)))
  flow-Adds f o h =
      let k = count_at-Adds f.len f.src o h in
      let r = Adds-InRange o (count_at f.len f.src o) _ _ _ _ k in
      let l = count_at-Adds f.len f.dst (count_at f.len f.src o) r in
      let q =
        Adds-InRange (count_at f.len f.src o) (count_at f.len f.dst (count_at f.len f.src o)) _ _ _
          _ l in
      let (src_in, dst_in) = counted_twice f o in
      let m = direct_at-Adds f _ q src_in dst_in in
      let all = Adds-trans (Adds-trans k l) m in
      record {
        bytes_lem = omega (arith, all.bytes_lem);
        rx_lem = omega (arith, all.rx_lem);
        tx_lem = omega (arith, all.tx_lem);
        packets_lem = omega (arith, all.packets_lem);
      }

  abbrev of_flow : (Flow → ℕ) → Option Flow → ℕ
  of_flow g none = 0
  of_flow g (some f) = g f

  add_if-Adds :
      (pr : String) (b : Bucket) (f : Option Flow)
      → InRange (get j b.hosts)
      → Adds
          (get j b.hosts)
          (of_flow bytes_for f)
          (of_flow rx_for f)
          (of_flow tx_for f)
          (of_flow packets_for f)
          (get j (add_if texts nets pr b f).hosts)
  unfolding add_flow
  add_if-Adds pr b none h = Adds-refl (get j b.hosts) h
  add_if-Adds pr b (some f) h =
      rw (get-direct f, get-count_host f.len f.dst, get-count_host f.len f.src)
        (flow-Adds f (get j b.hosts) h)

  -- The traffic of the host in packets.
  abbrev pub host_bytes : List Packet → ℕ
  host_bytes = sum_of (λ p. of_flow bytes_for (flow texts p))

  abbrev pub host_packets : List Packet → ℕ
  host_packets = sum_of (λ p. of_flow packets_for (flow texts p))

  abbrev pub host_rx : List Packet → ℕ
  host_rx = sum_of (λ p. of_flow rx_for (flow texts p))

  abbrev pub host_tx : List Packet → ℕ
  host_tx = sum_of (λ p. of_flow tx_for (flow texts p))

  -- After any packets, a remote host's counters have grown, on `uint64`, by its traffic in them.
  pub add_packets-Adds :
      (b : Bucket) (ps : List Packet)
      → InRange (get j b.hosts)
      → Adds
          (get j b.hosts)
          (host_bytes ps)
          (host_rx ps)
          (host_tx ps)
          (host_packets ps)
          (get j (add_packets texts nets b ps).hosts)
  unfolding add_packets
  add_packets-Adds b [] h = Adds-refl (get j b.hosts) h
  add_packets-Adds b (p ∷ ps) h =
      let k = add_if-Adds (proto texts p) b (flow texts p) h in
      Adds-trans k (
        add_packets-Adds (add_if texts nets (proto texts p) b (flow texts p)) ps
          (Adds-InRange (get j b.hosts) _ _ _ _ _ k))

-- Whatever a device delivers, the counters of a host that is neither private nor local grow in the
-- current bucket, on `uint64`, by its traffic, if they were below `2 ^ 64`: its bytes and packets
-- once for each of its addresses that is the host, its download by the packets that it sends to a
-- local network, and its upload by those that it gets from one. The tracker changes nowhere but in
-- the current bucket.
pub capture_device-Adds :
    (texts : IpText) (t : Tracker) (b : Bucket) (j : String) (rs : List Read)
    (remote : skipped texts t.local_nets j ≡ false)
    → InRange (get j b.hosts)
    → let ps = delivered rs in
      (b' : Bucket) × (capture_device texts (record t { current = some b }) rs
        ≡ record t { current = some b' })
      × Adds
          (get j b.hosts)
          (host_bytes texts t.local_nets j remote ps)
          (host_rx texts t.local_nets j remote ps)
          (host_tx texts t.local_nets j remote ps)
          (host_packets texts t.local_nets j remote ps)
          (get j b'.hosts)
capture_device-Adds texts t b j rs remote h =
    let ps = delivered rs in
    (
      add_packets texts t.local_nets b ps,
      capture_device-process_packets texts (record t { current = some b }) rs
          ∙ process_packets-current texts t b ps,
      add_packets-Adds texts t.local_nets j remote b ps h,
    )
