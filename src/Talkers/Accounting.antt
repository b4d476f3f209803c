-- ===== src/Talkers/Accounting.antt =====
-- What the current bucket says of a host: only remote hosts are counted, and the directions of a
-- host never add up to more than its bytes.
use bandwidth_monitor.Common.{
  ℕ, ◌+◌, ◌≤◌, ◌<◌, ◌≡◌, Bool, false, not, ◌&&◌, none, some, List, String, if◌then◌else◌, length,
  ltb, u64_mod, string_eq, Bool-cases, inl, inr, arith, ◌==◌, Option-cases,
}
use bandwidth_monitor.Maps.{Map, or_else, get, get-put, beq_refl}
use bandwidth_monitor.Net.{IpNet, IpText}
use bandwidth_monitor.Talkers.{HostAccum, no_traffic, Bucket, is_local_net, skipped}
use bandwidth_monitor.Talkers.Packets.{
  Flow, count_host, on_host, sent, received, seen, direct, add_flow,
}

pub get-on_host :
    (f : HostAccum → HostAccum) (ip j : String) (hosts : Map String HostAccum)
    → get j (on_host f ip hosts)
      ≡ (if ip == j then elim (get j hosts) [ none ↦ none | some h ↦ some (f h) ] else get j hosts)
unfolding on_host
get-on_host f ip j hosts = elim (Option-cases (get ip hosts)) [
  | inl e ↦ rw (e, on_host) (ground (arith, e, string_eq.beq_iff ip j))
  | inr (h, e) ↦
      rw (e, on_host) (ground (arith, e, get-put ip j (f h) hosts, string_eq.beq_iff ip j))
]

-- `f` moves `len` bytes of a host into a direction.
abbrev Moves : (HostAccum → HostAccum) → ℕ → Type 0
Moves f len =
    (h : HostAccum)
    → h.rx_bytes + h.tx_bytes + len ≤ h.bytes
    → h.bytes < u64_mod
    → ((f h).bytes ≡ h.bytes) × ((f h).rx_bytes + (f h).tx_bytes ≤ h.rx_bytes + h.tx_bytes + len)

sent-Moves : (len : ℕ) → Moves (sent len) len
sent-Moves len h room small = omega arith

received-Moves : (len : ℕ) → Moves (received len) len
received-Moves len h room small = omega arith

abbrev pub no_credit : String → ℕ
no_credit j = 0

module _ (texts : IpText) (nets : List IpNet) where
  -- Every host that is counted is remote, has counted at most `limit` bytes, and has at least
  -- `credit` of them in neither direction.
  abbrev pub Sound : ℕ → (String → ℕ) → Map String HostAccum → Type 0
  Sound limit credit hosts =
      (j : String) (h : HostAccum)
      → get j hosts ≡ some h
      → (skipped texts nets j ≡ false)
        × (h.rx_bytes + h.tx_bytes + credit j ≤ h.bytes)
        × (h.bytes ≤ limit)

  count_host-Sound :
      (limit : ℕ) (credit : String → ℕ) (len : ℕ) (ip : String) (hosts : Map String HostAccum)
      → limit + len < u64_mod
      → Sound limit credit hosts
      → Sound
          (limit + len)
          (λ j. if ip == j then len else credit j)
          (count_host texts nets len ip hosts)
  unfolding count_host
  count_host-Sound limit credit len ip hosts small sound j h found = ground (
    arith,
    get-put ip j (seen len (or_else (get ip hosts) no_traffic)) hosts,
    string_eq.beq_iff ip j,
    sound j h,
    sound j (or_else (get ip hosts) no_traffic),
  )

  on_host-Sound :
      (f : HostAccum → HostAccum) (limit : ℕ) (credit : String → ℕ) (len : ℕ) (ip : String)
      (hosts : Map String HostAccum)
      → Moves f len
      → limit < u64_mod
      → len ≤ credit ip
      → Sound limit credit hosts
      → Sound limit (λ j. 0) (on_host f ip hosts)
  on_host-Sound f limit credit len ip hosts moves small rich sound j h found =
      elim (Option-cases (get j hosts)) [
        | inl e ↦ absurd (ground (arith, get-on_host f ip j hosts, e))
        | inr (old, e) ↦
            ground
              (arith, get-on_host f ip j hosts, e, sound j old e, moves old, string_eq.beq_iff ip j)
      ]

  -- The bytes of a packet for a host that is its source, its destination, or both.
  abbrev pub counted : Flow → String → ℕ
  counted f j = if f.dst == j then f.len else if f.src == j then f.len else 0

  no_direction :
      (limit : ℕ) (credit : String → ℕ) (hosts : Map String HostAccum)
      → Sound limit credit hosts
      → Sound limit no_credit hosts
  no_direction limit credit hosts sound j h found =
      let (remote, within, small) = sound j h found in (remote, omega arith, small)

  direct-Sound :
      (limit : ℕ) (f : Flow) (hosts : Map String HostAccum)
      → limit < u64_mod
      → Sound limit (counted f) hosts
      → Sound limit no_credit (direct texts nets f hosts)
  unfolding direct
  direct-Sound limit f hosts small sound = elim (Bool-cases (ltb 0 (length nets))) [
    | inr off ↦ rw off (no_direction limit (counted f) hosts sound)
    | inl on ↦ rw on (elim (Bool-cases (local f.src && not (local f.dst))) [
      | inl up ↦ rw up (
          on_host-Sound (sent f.len) limit (counted f) f.len f.dst hosts (sent-Moves f.len) small
            (ground (arith, beq_refl f.dst)) sound)
      | inr other ↦ rw other (elim (Bool-cases (not (local f.src) && local f.dst)) [
        | inl down ↦ rw down (
            on_host-Sound (received f.len) limit (counted f) f.len f.src hosts
              (received-Moves f.len) small (ground (arith, beq_refl f.src)) sound)
        | inr neither ↦ rw neither (no_direction limit (counted f) hosts sound)
      ])
    ])
  ]
    where
      local : String → Bool
      local = is_local_net texts nets

  -- A packet keeps the hosts sound, with room for its bytes twice, as long as no counter wraps.
  pub add_flow-Sound :
      (limit : ℕ) (pr : String) (f : Flow) (b : Bucket)
      → limit + f.len + f.len < u64_mod
      → Sound limit no_credit b.hosts
      → Sound (limit + f.len + f.len) no_credit (add_flow texts nets pr f b).hosts
  unfolding add_flow
  add_flow-Sound limit pr f b small sound = direct-Sound (limit + f.len + f.len) f _ small (
      count_host-Sound (limit + f.len) (λ j. if f.src == j then f.len else 0) f.len f.dst _ small
        (count_host-Sound limit no_credit f.len f.src b.hosts (omega arith) sound))
