-- ===== src/Collector/Traffic.antt =====
-- What the counters of the collector hold after any run of packets, and what a tick makes of them.
use bandwidth_monitor.Common.{
  ap, ◌∙◌, subst, ℕ, ◌+◌, ◌<◌, ◌≡◌, Bool, true, false, Option, none, some, List, [], ◌∷◌,
  if◌then◌else◌, u64_mod, add64, sub64, sum_of, arith, sub_ℕ,
}
use bandwidth_monitor.Float.{Float, nought, of_ℕ}
use bandwidth_monitor.Net.{IpNet, any_contains}
use bandwidth_monitor.Packet.{Packet, Read, captured, delivered}
use bandwidth_monitor.Collector.{Collector, Flow, flow, process_packet, process_flow, capture}
use bandwidth_monitor.Collector.Rates.{RateLoop, tick}

-- What a packet adds to the download and upload counters of a collector of the networks `nets`.
abbrev download_of : List IpNet → Option Flow → ℕ
download_of nets none = 0
download_of nets (some f) = if any_contains nets f.dst then f.len else 0

abbrev upload_of : List IpNet → Option Flow → ℕ
upload_of nets none = 0
upload_of nets (some f) = if any_contains nets f.src then f.len else 0

abbrev one_if : Bool → ℕ
one_if true = 1
one_if false = 0

abbrev to_local : List IpNet → Option Flow → Bool
to_local nets none = false
to_local nets (some f) = any_contains nets f.dst

abbrev from_local : List IpNet → Option Flow → Bool
from_local nets none = false
from_local nets (some f) = any_contains nets f.src

-- The bytes and packets of a run of packets that go to, or come from, the networks.
abbrev pub downloaded : List IpNet → List Packet → ℕ
downloaded nets = sum_of (λ p. download_of nets (flow p))

abbrev pub uploaded : List IpNet → List Packet → ℕ
uploaded nets = sum_of (λ p. upload_of nets (flow p))

abbrev pub packets_in : List IpNet → List Packet → ℕ
packets_in nets = sum_of (λ p. one_if (to_local nets (flow p)))

abbrev pub packets_out : List IpNet → List Packet → ℕ
packets_out nets = sum_of (λ p. one_if (from_local nets (flow p)))

module _ {fl : Float} where
  -- The counters of `c'` are those of `c` and what the flow adds, and nothing else differs.
  pub record Counted (c c' : Collector fl) (rx tx rxp txp : ℕ) : Type 0 where
    pub rx_bytes_lem : c'.rx_bytes ≡ add64 c.rx_bytes rx
    pub tx_bytes_lem : c'.tx_bytes ≡ add64 c.tx_bytes tx
    pub rx_packets_lem : c'.rx_packets ≡ add64 c.rx_packets rxp
    pub tx_packets_lem : c'.tx_packets ≡ add64 c.tx_packets txp
    pub device_same : c'.device ≡ c.device
    pub promiscuous_same : c'.promiscuous ≡ c.promiscuous
    pub local_nets_same : c'.local_nets ≡ c.local_nets
    pub stat_same : c'.stat ≡ c.stat
    pub history_same : c'.history ≡ c.history
    pub closed_same : c'.closed ≡ c.closed

  -- The counters are below `2 ^ 64`.
  pub record InRange (c : Collector fl) : Type 0 where
    pub rx_bytes_lt : c.rx_bytes < u64_mod
    pub tx_bytes_lt : c.tx_bytes < u64_mod
    pub rx_packets_lt : c.rx_packets < u64_mod
    pub tx_packets_lt : c.tx_packets < u64_mod

  process_flow-Counted :
      (c : Collector fl) (f : Option Flow)
      → InRange c
      → Counted c
          (process_flow fl c f)
          (download_of c.local_nets f)
          (upload_of c.local_nets f)
          (one_if (to_local c.local_nets f))
          (one_if (from_local c.local_nets f))
  unfolding process_flow
  process_flow-Counted c none h = ground arith
  process_flow-Counted c (some f) h = ground arith

  process_packet-Counted :
      (c : Collector fl) (p : Packet)
      → InRange c
      → let f = flow p in
        Counted c
          (process_packet fl c p)
          (download_of c.local_nets f)
          (upload_of c.local_nets f)
          (one_if (to_local c.local_nets f))
          (one_if (from_local c.local_nets f))
  unfolding process_packet
  process_packet-Counted c p h = process_flow-Counted c (flow p) h

  process_packet-InRange :
      (c : Collector fl) (p : Packet) → InRange c → InRange (process_packet fl c p)
  process_packet-InRange c p h =
      let k = process_packet-Counted c p h in
      record {
        rx_bytes_lt = omega (arith, k.rx_bytes_lem);
        tx_bytes_lt = omega (arith, k.tx_bytes_lem);
        rx_packets_lt = omega (arith, k.rx_packets_lem);
        tx_packets_lt = omega (arith, k.tx_packets_lem);
      }

  Counted-refl : (c : Collector fl) → InRange c → Counted c c 0 0 0 0
  Counted-refl c h = ground arith

  Counted-trans :
      {c d e : Collector fl} {a₁ a₂ a₃ a₄ b₁ b₂ b₃ b₄ : ℕ}
      → Counted c d a₁ a₂ a₃ a₄
      → Counted d e b₁ b₂ b₃ b₄
      → Counted c e (a₁ + b₁) (a₂ + b₂) (a₃ + b₃) (a₄ + b₄)
  Counted-trans h k = record {
    rx_bytes_lem = omega (arith, h.rx_bytes_lem, k.rx_bytes_lem);
    tx_bytes_lem = omega (arith, h.tx_bytes_lem, k.tx_bytes_lem);
    rx_packets_lem = omega (arith, h.rx_packets_lem, k.rx_packets_lem);
    tx_packets_lem = omega (arith, h.tx_packets_lem, k.tx_packets_lem);
    device_same = k.device_same ∙ h.device_same;
    promiscuous_same = k.promiscuous_same ∙ h.promiscuous_same;
    local_nets_same = k.local_nets_same ∙ h.local_nets_same;
    stat_same = k.stat_same ∙ h.stat_same;
    history_same = k.history_same ∙ h.history_same;
    closed_same = k.closed_same ∙ h.closed_same;
  }

  -- If its counters are below `2 ^ 64`, the capture loop adds to them, on `uint64`, the packets
  -- that it reads until it stops and their bytes: to the download counters those to a local
  -- address, and to the upload counters those from one, so that a packet between two local
  -- addresses counts in both. Nothing else changes.
  pub capture-Counted :
      (c : Collector fl) (rs : List Read)
      → InRange c
      → let ps = delivered rs in
        Counted c
          (capture fl c rs)
          (downloaded c.local_nets ps)
          (uploaded c.local_nets ps)
          (packets_in c.local_nets ps)
          (packets_out c.local_nets ps)
  unfolding capture
  capture-Counted c [] h = Counted-refl c h
  capture-Counted c (Read.stopped ∷ rs) h = Counted-refl c h
  capture-Counted c (Read.timeout ∷ rs) h = capture-Counted c rs h
  capture-Counted c (Read.failure ∷ rs) h = Counted-refl c h
  capture-Counted c (captured p ∷ rs) h =
      let k = process_packet-Counted c p h in
      Counted-trans k (
        subst
          (λ nets.
            let ps = delivered rs in
            Counted (process_packet fl c p) (capture fl (process_packet fl c p) rs)
              (downloaded nets ps) (uploaded nets ps) (packets_in nets ps) (packets_out nets ps))
          k.local_nets_same
          (capture-Counted (process_packet fl c p) rs (process_packet-InRange c p h)))

  pub capture-InRange : (c : Collector fl) (rs : List Read) → InRange c → InRange (capture fl c rs)
  unfolding capture
  capture-InRange c [] h = h
  capture-InRange c (Read.stopped ∷ rs) h = h
  capture-InRange c (Read.timeout ∷ rs) h = capture-InRange c rs h
  capture-InRange c (Read.failure ∷ rs) h = h
  capture-InRange c (captured p ∷ rs) h =
      capture-InRange (process_packet fl c p) rs (process_packet-InRange c p h)

  -- A tick reports as rates exactly the bytes that came in and went out since the last tick over
  -- the seconds since then, even where the counters have wrapped around, if the rate loop has the
  -- counters of the last tick, these are below `2 ^ 64`, fewer than `2 ^ 64` bytes came in and
  -- fewer went out, and the time since then is positive.
  pub tick_rates :
      (c : Collector fl) (rs : List Read) (l : RateLoop) (now : ℕ)
      → InRange c
      → l.prev_rx ≡ c.rx_bytes
      → l.prev_tx ≡ c.tx_bytes
      → downloaded c.local_nets (delivered rs) < u64_mod
      → uploaded c.local_nets (delivered rs) < u64_mod
      → fl.le (fl.seconds (sub_ℕ now l.prev_time)) (nought fl) ≡ false
      → let dt = fl.seconds (sub_ℕ now l.prev_time) in
        let stat = (tick fl now (capture fl c rs) l).0.stat in
        (stat.rx_rate ≡ fl.div (of_ℕ fl (downloaded c.local_nets (delivered rs))) dt)
        × (stat.tx_rate ≡ fl.div (of_ℕ fl (uploaded c.local_nets (delivered rs))) dt)
  unfolding tick
  tick_rates c rs l now h er et hr ht moved =
      let k = capture-Counted c rs h in
      let dr : sub64 (capture fl c rs).rx_bytes l.prev_rx ≡ downloaded c.local_nets (delivered rs) =
        omega (arith, k.rx_bytes_lem, h.rx_bytes_lt) in
      let du : sub64 (capture fl c rs).tx_bytes l.prev_tx ≡ uploaded c.local_nets (delivered rs) =
        omega (arith, k.tx_bytes_lem, h.tx_bytes_lt) in
      let dt = fl.seconds (sub_ℕ now l.prev_time) in
      rw moved (ap (λ n. fl.div (of_ℕ fl n) dt) dr, ap (λ n. fl.div (of_ℕ fl n) dt) du)
