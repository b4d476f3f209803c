-- ===== src/Talkers/Balance.antt =====
-- What holds of a tracker after any packets and rotations: maps without double keys, buckets in the
-- order of time, and two breakdowns that account for the same bytes.
use bandwidth_monitor.Common.{
  ℕ, ◌+◌, ◌-◌, ◌≤◌, ◌≡◌, refl, Option, none, some, List, [], ◌∷◌, ◌++◌, String, u64, add64, ◌<◌,
  All, All-append, sum_of, arith, string_eq, Bool-cases, Bool, not, ◌&&◌, ltb, length, Option-cases,
  inl, inr,
}
use bandwidth_monitor.Maps.{Map, get, DistinctKeys, put-DistinctKeys, sum_of-put, sum_of-put_new}
use bandwidth_monitor.Net.{IpNet, IpText}
use bandwidth_monitor.Window.{
  Ascending, UpTo, UpTo-mono, stale, stale-append-fresh, stale-All, fresh, fresh-Ascending,
  fresh-All_of, fresh-All, Ascending-snoc, Ascending-last, UpTo-unsnoc,
}
use bandwidth_monitor.Talkers.{
  HostAccum, skipped, is_local_net, Bucket, Tracker, empty_bucket, truncate, max_age,
}
use bandwidth_monitor.Talkers.Packets.{
  on_current, sent, received, bump, add_flow, count_host, on_host, direct, process_flow,
  process_packet, flow, proto, Flow,
}
use bandwidth_monitor.Talkers.Window.{as_list, window, rotate, Event, arrives, turns, steps}
use bandwidth_monitor.Talkers.Breakdown.{
  total, get_protocol_breakdown, get_ip_version_breakdown, add_all-total,
}

pub record BucketOk (b : Bucket) : Type 0 where
  pub hosts_distinct : DistinctKeys b.hosts
  pub protos_distinct : DistinctKeys b.proto_bytes
  pub versions_distinct : DistinctKeys b.ip_ver_bytes
  pub balanced : u64 (total b.proto_bytes) ≡ u64 (total b.ip_ver_bytes)

total-bump : (k : String) (n : ℕ) (m : Map String ℕ) → u64 (total (bump k n m)) ≡ u64 (total m + n)
total-bump k n m = elim (Option-cases (get k m)) [
  | inl new ↦ rw new (omega (arith, sum_of-put_new (λ x. x) k (add64 0 n) m new))
  | inr (w, old) ↦ rw old (omega (arith, sum_of-put (λ x. x) k (add64 w n) w m old))
]

module _ (texts : IpText) (nets : List IpNet) where
  count_host-DistinctKeys :
      (len : ℕ) (ip : String) (hosts : Map String HostAccum)
      → DistinctKeys hosts
      → DistinctKeys (count_host texts nets len ip hosts)
  unfolding count_host
  count_host-DistinctKeys len ip hosts d = elim (Bool-cases (skipped texts nets ip)) [
    | inl skip ↦ rw skip d
    | inr keep ↦ rw keep (put-DistinctKeys ip _ hosts d)
  ]

  on_host-DistinctKeys :
      (f : HostAccum → HostAccum) (ip : String) (hosts : Map String HostAccum)
      → DistinctKeys hosts
      → DistinctKeys (on_host f ip hosts)
  unfolding on_host
  on_host-DistinctKeys f ip hosts d = elim (Option-cases (get ip hosts)) [
    | inl e ↦ rw (e, on_host) d
    | inr (h, e) ↦ rw (e, on_host) (put-DistinctKeys ip (f h) hosts d)
  ]

  direct-DistinctKeys :
      (f : Flow) (hosts : Map String HostAccum)
      → DistinctKeys hosts
      → DistinctKeys (direct texts nets f hosts)
  unfolding direct
  direct-DistinctKeys f hosts d = elim (Bool-cases (ltb 0 (length nets))) [
    | inr off ↦ rw off d
    | inl on ↦ rw on (elim (Bool-cases (local f.src && not (local f.dst))) [
      | inl up ↦ rw up (on_host-DistinctKeys (sent f.len) f.dst hosts d)
      | inr other ↦ rw other (elim (Bool-cases (not (local f.src) && local f.dst)) [
        | inl down ↦ rw down (on_host-DistinctKeys (received f.len) f.src hosts d)
        | inr neither ↦ rw neither d
      ])
    ])
  ]
    where
      local : String → Bool
      local = is_local_net texts nets

  add_flow-BucketOk :
      (pr : String) (f : Flow) (b : Bucket) → BucketOk b → BucketOk (add_flow texts nets pr f b)
  unfolding add_flow
  add_flow-BucketOk pr f b h = record {
    hosts_distinct = direct-DistinctKeys f _ (
        count_host-DistinctKeys f.len f.dst _
          (count_host-DistinctKeys f.len f.src b.hosts h.hosts_distinct));
    protos_distinct = put-DistinctKeys pr _ b.proto_bytes h.protos_distinct;
    versions_distinct = put-DistinctKeys f.version _ b.ip_ver_bytes h.versions_distinct;
    balanced = omega (
      arith,
      total-bump pr f.len b.proto_bytes,
      total-bump f.version f.len b.ip_ver_bytes,
      h.balanced,
    );
  }

-- The buckets are well-formed and in the order of time, none later than the minute of `now`.
pub record TrackerOk (now : ℕ) (t : Tracker) : Type 0 where
  pub buckets_ok : All BucketOk t.buckets
  pub current_ok : All BucketOk (as_list t.current)
  pub ascending : Ascending (λ b. b.timestamp) (window t)
  pub up_to : UpTo (λ b. b.timestamp) (truncate now) (window t)

pub empty_bucket-BucketOk : (now : ℕ) → BucketOk (empty_bucket now)
empty_bucket-BucketOk now = record {
  hosts_distinct = tt;
  protos_distinct = tt;
  versions_distinct = tt;
  balanced = refl;
}

module _ (texts : IpText) where
  same_time :
      (nets : List IpNet) (pr : String) (f : Flow) (b : Bucket)
      → (add_flow texts nets pr f b).timestamp ≡ b.timestamp
  unfolding add_flow
  same_time nets pr f b = refl

  on_current-TrackerOk :
      (now : ℕ) (t : Tracker) (g : Bucket → Bucket) (c : Option Bucket)
      → ((b : Bucket) → BucketOk b → BucketOk (g b))
      → ((b : Bucket) → (g b).timestamp ≡ b.timestamp)
      → TrackerOk now (record t { current = c })
      → TrackerOk now (on_current g (record t { current = c }) c)
  on_current-TrackerOk now t g none keeps same h = h
  on_current-TrackerOk now t g (some b) keeps same h = record {
    buckets_ok = h.buckets_ok;
    current_ok = (keeps b h.current_ok.0, tt);
    ascending = Ascending-last (λ a. a.timestamp) t.buckets b (g b) (same b) h.ascending;
    up_to =
        let (front, last) =
          UpTo-unsnoc (λ a. a.timestamp) (truncate now) t.buckets (b ∷ []) h.up_to in
        All-append _ t.buckets (g b ∷ []) front (omega (arith, same b), tt);
  }

  process_flow-TrackerOk :
      (now : ℕ) (t : Tracker) (pr : String) (f : Option Flow)
      → TrackerOk now t
      → TrackerOk now (process_flow texts t pr f)
  process_flow-TrackerOk now t pr none h = h
  process_flow-TrackerOk now t pr (some f) h =
      on_current-TrackerOk now t (add_flow texts t.local_nets pr f) t.current
        (add_flow-BucketOk texts t.local_nets pr f) (same_time t.local_nets pr f) h

  pub rotate-TrackerOk :
      (now later : ℕ) (t : Tracker)
      → now ≤ later
      → TrackerOk now t
      → TrackerOk later (rotate later t)
  unfolding rotate
  rotate-TrackerOk now later t le h = record {
    buckets_ok =
        fresh-All_of stamp BucketOk cutoff (window t)
          (All-append _ t.buckets (as_list t.current) h.buckets_ok h.current_ok);
    current_ok = (empty_bucket-BucketOk later, tt);
    ascending = Ascending-snoc stamp kept (empty_bucket later) kept_ascending kept_up_to;
    up_to = All-append _ kept (empty_bucket later ∷ []) kept_up_to (omega arith, tt);
  }
    where
      stamp : Bucket → ℕ
      stamp b = b.timestamp

      cutoff : ℕ
      cutoff = later - max_age

      kept : List Bucket
      kept = fresh stamp cutoff (window t)

      kept_ascending : Ascending stamp kept
      kept_ascending = fresh-Ascending stamp cutoff (window t) h.ascending

      kept_up_to : UpTo stamp (truncate later) kept
      kept_up_to =
          fresh-All_of stamp _ cutoff (window t)
            (UpTo-mono stamp (truncate now) (truncate later) (window t) (omega arith) h.up_to)

  -- The clock of the rotations, which starts at `now`, does not go back; it ends at `last`.
  abbrev pub Clock : ℕ → List Event → Type 0
  Clock now [] = Unit
  Clock now (arrives p ∷ es) = Clock now es
  Clock now (turns later ∷ es) = (now ≤ later) × Clock later es

  abbrev pub last_turn : ℕ → List Event → ℕ
  last_turn now [] = now
  last_turn now (arrives p ∷ es) = last_turn now es
  last_turn now (turns later ∷ es) = last_turn later es

  -- Whatever packets and turns of the minute come, in whatever order, a well-formed tracker stays
  -- well-formed if the clock does not go back: each bucket has each host, protocol and version
  -- once, its bytes by protocol and by version agree, and the buckets are in the order of time and
  -- none is later than the minute of the clock.
  pub steps-TrackerOk :
      (now : ℕ) (t : Tracker) (es : List Event)
      → Clock now es
      → TrackerOk now t
      → TrackerOk (last_turn now es) (steps texts t es)
  unfolding steps process_packet
  steps-TrackerOk now t [] k h = h
  steps-TrackerOk now t (arrives p ∷ es) k h =
      steps-TrackerOk now (process_packet texts t p) es k
        (process_flow-TrackerOk now t (proto texts p) (flow texts p) h)
  steps-TrackerOk now t (turns later ∷ es) k h =
      steps-TrackerOk later (rotate later t) es k.1 (rotate-TrackerOk now later t k.0 h)

-- In a well-formed tracker a rotation moves the current bucket to the others, drops from the front
-- the buckets that are more than a day old, and only those, and starts a new one.
pub rotate_lem :
    (now later : ℕ) (t : Tracker)
    → TrackerOk now t
    → let t' = rotate later t in
      (dropped : List Bucket) × (dropped ++ t'.buckets ≡ window t)
      × All (λ b. b.timestamp < later - max_age) dropped
      × All (λ b. later - max_age ≤ b.timestamp) t'.buckets
      × (t'.current ≡ some (empty_bucket later))
unfolding rotate
rotate_lem now later t h =
    let stamp = λ (b : Bucket). b.timestamp in
    let cutoff = later - max_age in
    (
      stale stamp cutoff (window t),
      stale-append-fresh stamp cutoff (window t),
      stale-All stamp cutoff (window t),
      fresh-All stamp cutoff (window t) h.ascending,
      refl,
    )

window-All :
    (P : Bucket → Type 0) (bs : List Bucket)
    → ((b : Bucket) → BucketOk b → P b)
    → All BucketOk bs
    → All P bs
window-All P [] f h = tt
window-All P (b ∷ bs) f h = (f b h.0, window-All P bs f h.1)

same_totals :
    (bs : List Bucket)
    → All BucketOk bs
    → u64 (sum_of (λ b. total b.proto_bytes) bs) ≡ u64 (sum_of (λ b. total b.ip_ver_bytes) bs)
same_totals [] h = refl
same_totals (b ∷ bs) h = omega (arith, h.0.balanced, same_totals bs h.1)

-- In a well-formed tracker the two breakdowns account for the same number of bytes, on `uint64`.
pub breakdowns_agree :
    (now : ℕ) (t : Tracker)
    → TrackerOk now t
    → u64 (total (get_protocol_breakdown t)) ≡ u64 (total (get_ip_version_breakdown t))
unfolding get_protocol_breakdown get_ip_version_breakdown
breakdowns_agree now t h = omega (
  arith,
  add_all-total (λ b. b.proto_bytes) (window t) [],
  add_all-total (λ b. b.ip_ver_bytes) (window t) [],
  same_totals (window t) (All-append _ t.buckets (as_list t.current) h.buckets_ok h.current_ok),
)
