-- ===== src/Talkers/Hosts.antt =====
-- The hosts of a bucket after any packets: which are counted, and what their counters hold.
use bandwidth_monitor.Common.{
  ℕ, ◌∙◌, sum_of, ◌+◌, ◌≤◌, ◌<◌, ◌≡◌, refl, false, Option, none, some, List, [], ◌∷◌, String,
  u64_mod, string_eq, arith,
}
use bandwidth_monitor.Maps.{Map, get}
use bandwidth_monitor.Net.{IpNet, IpText}
use bandwidth_monitor.Packet.{Packet, Read, delivered}
use bandwidth_monitor.Talkers.{HostAccum, empty_bucket, Bucket, Tracker, skipped}
use bandwidth_monitor.Talkers.Accounting.{Sound, no_credit, add_flow-Sound}
use bandwidth_monitor.Talkers.Packets.{
  proto, capture_device, capture_device-process_packets, flow, process_flow, process_packets, Flow,
  add_flow,
}

module _ (texts : IpText) (nets : List IpNet) where
  -- A bucket after a packet, and after packets.
  abbrev pub add_if : String → Bucket → Option Flow → Bucket
  add_if pr b none = b
  add_if pr b (some f) = add_flow texts nets pr f b

  unfoldable pub add_packets : Bucket → List Packet → Bucket
  add_packets b [] = b
  add_packets b (p ∷ ps) = add_packets (add_if (proto texts p) b (flow texts p)) ps

  -- The bytes that packets may add to a host, once for each of their addresses.
  abbrev pub twice_len : Option Flow → ℕ
  twice_len none = 0
  twice_len (some f) = f.len + f.len

  abbrev pub twice_lens : List Packet → ℕ
  twice_lens = sum_of (λ p. twice_len (flow texts p))

  add_if-Sound :
      (limit : ℕ) (pr : String) (b : Bucket) (f : Option Flow)
      → limit + twice_len f < u64_mod
      → Sound texts nets limit no_credit b.hosts
      → Sound texts nets (limit + twice_len f) no_credit (add_if pr b f).hosts
  add_if-Sound limit pr b none small sound j h found =
      let (remote, within, le) = sound j h found in (remote, within, omega arith)
  add_if-Sound limit pr b (some f) small sound j h found =
      let (remote, within, le) =
        add_flow-Sound texts nets limit pr f b (omega arith) sound j h found in
      (remote, within, omega arith)

  add_packets-Sound :
      (limit : ℕ) (b : Bucket) (ps : List Packet)
      → limit + twice_lens ps < u64_mod
      → Sound texts nets limit no_credit b.hosts
      → Sound texts nets (limit + twice_lens ps) no_credit (add_packets b ps).hosts
  unfolding add_packets
  add_packets-Sound limit b [] small sound j h found =
      let (remote, within, le) = sound j h found in (remote, within, omega arith)
  add_packets-Sound limit b (p ∷ ps) small sound j h found =
      let more = twice_len (flow texts p) in
      let (remote, within, le) =
        add_packets-Sound (limit + more) (add_if (proto texts p) b (flow texts p)) ps (omega arith)
          (add_if-Sound limit (proto texts p) b (flow texts p) (omega arith) sound) j h found in
      (remote, within, omega arith)

module _ (texts : IpText) where
  process_flow-current :
      (t : Tracker) (b : Bucket) (pr : String) (f : Option Flow)
      → process_flow texts (record t { current = some b }) pr f
        ≡ record t { current = some (add_if texts t.local_nets pr b f) }
  process_flow-current t b pr none = refl
  process_flow-current t b pr (some f) = refl

  -- Packets change the current bucket and nothing else.
  pub process_packets-current :
      (t : Tracker) (b : Bucket) (ps : List Packet)
      → process_packets texts (record t { current = some b }) ps
        ≡ record t { current = some (add_packets texts t.local_nets b ps) }
  unfolding process_packets add_packets
  process_packets-current t b [] = refl
  process_packets-current t b (p ∷ ps) =
      rw (process_flow-current t b (proto texts p) (flow texts p))
        (process_packets-current t (add_if texts t.local_nets (proto texts p) b (flow texts p)) ps)

  new_bucket-Sound :
      (nets : List IpNet) (now : ℕ) → Sound texts nets 0 no_credit (empty_bucket now).hosts
  unfolding get
  new_bucket-Sound nets now j h found = absurd (ground arith)

  -- The hosts of the current bucket.
  abbrev pub hosts_now : Option Bucket → Map String HostAccum
  hosts_now none = []
  hosts_now (some b) = b.hosts

  -- Each host that the current bucket counts after a device delivered to a new bucket is remote:
  -- neither private nor in the local networks. Its bytes in the two directions are together at most
  -- its bytes, and these at most twice the bytes of all packets, provided that this is below
  -- `2 ^ 64`.
  pub capture_device-Sound :
      (t : Tracker) (now : ℕ) (rs : List Read) (j : String) (h : HostAccum)
      → twice_lens texts t.local_nets (delivered rs) < u64_mod
      → get j (
          hosts_now
            (capture_device texts (record t { current = some (empty_bucket now) }) rs).current)
        ≡ some h
      → (skipped texts t.local_nets j ≡ false)
        × (h.rx_bytes + h.tx_bytes ≤ h.bytes)
        × (h.bytes ≤ twice_lens texts t.local_nets (delivered rs))
  capture_device-Sound t now rs j h small found =
      let ps = delivered rs in
      let last =
        capture_device-process_packets texts (record t { current = some (empty_bucket now) }) rs
        ∙ process_packets-current t (empty_bucket now) ps in
      let (remote, within, le) =
        add_packets-Sound texts t.local_nets 0 (empty_bucket now) ps (omega arith)
          (new_bucket-Sound t.local_nets now) j h (rw last at found) in
      (remote, omega arith, omega arith)
