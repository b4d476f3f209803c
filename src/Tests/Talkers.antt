-- ===== src/Tests/Talkers.antt =====
-- Runs of the tracker: packets, rotation, names and private addresses.
use bandwidth_monitor.Common.{
  ℕ, ◌≡◌, ◌+◌, ◌*◌, ◌≤◌, ◌<◌, refl, true, false, none, some, List, [], ◌∷◌, ◌++◌, All, arith,
  string_eq,
}
use bandwidth_monitor.Maps.{get, put}
use bandwidth_monitor.Net.{contains, any_contains, cidr, to4, same_bytes}
use bandwidth_monitor.Talkers.{Bucket, empty_bucket, is_private_ip, is_local_net, skipped}
use bandwidth_monitor.Talkers.Packets.{capture_device, add_flow, process_packet}
use bandwidth_monitor.Talkers.Hosts.{capture_device-Sound}
use bandwidth_monitor.Talkers.Traffic.{Adds, capture_device-Adds}
use bandwidth_monitor.Talkers.Window.{window, rotate, Event, arrives, turns, steps}
use bandwidth_monitor.Talkers.Balance.{TrackerOk, BucketOk, steps-TrackerOk, rotate_lem}
use bandwidth_monitor.Talkers.Breakdown.{
  bytes_at, get_protocol_breakdown, get_ip_version_breakdown, breakdowns-at,
}
use bandwidth_monitor.Talkers.Private.{is_private_ip_v4}
use bandwidth_monitor.Talkers.PrivateV6.{is_private_ip_v6}
use bandwidth_monitor.Talkers.Resolve.{starts, starts_once, claims, finishes}
use bandwidth_monitor.Tests.Samples.{
  some_texts, home, reads, download, upload, busy, full_bucket, minute, day, traffic,
}

capture_device-Sound_example :
    (skipped some_texts home "8.8.8.8" ≡ false) × (3000 + 100 ≤ 3100) × (3100 ≤ 6200)
unfolding is_private_ip any_contains contains cidr is_local_net capture_device add_flow get
    process_packet put
capture_device-Sound_example =
    capture_device-Sound some_texts busy minute reads "8.8.8.8" traffic (omega arith) refl

abbrev first_bucket : Bucket
first_bucket = full_bucket minute

capture_device-Adds_example :
    (b : Bucket) × (capture_device some_texts (record busy { current = some first_bucket }) reads
      ≡ record busy { current = some b })
    × Adds (some traffic) 3100 3000 100 3 (get "8.8.8.8" b.hosts)
unfolding is_private_ip any_contains contains cidr is_local_net get
capture_device-Adds_example =
    capture_device-Adds some_texts busy first_bucket "8.8.8.8" reads refl (omega arith)

full_bucket-BucketOk : (t : ℕ) → BucketOk (full_bucket t)
unfolding get
full_bucket-BucketOk t = record {
  hosts_distinct = (refl, tt);
  protos_distinct = (refl, tt);
  versions_distinct = (refl, tt);
  balanced = refl;
}

busy-TrackerOk : TrackerOk (2 * minute) busy
busy-TrackerOk = record {
  buckets_ok = (full_bucket-BucketOk minute, tt);
  current_ok = (full_bucket-BucketOk (2 * minute), tt);
  ascending = ((omega arith, tt), (tt, tt));
  up_to = (omega arith, (omega arith, tt));
}

abbrev next_minutes : List Event
next_minutes = arrives download ∷ turns (3 * minute) ∷ arrives upload ∷ turns (4 * minute) ∷ []

steps-TrackerOk_example : TrackerOk (4 * minute) (steps some_texts busy next_minutes)
steps-TrackerOk_example =
    steps-TrackerOk some_texts (2 * minute) busy next_minutes (omega arith, (omega arith, tt))
      busy-TrackerOk

-- A day and a minute later the first bucket of the two is too old by a minute and the second is not.
rotate_lem_example :
    let t' = rotate (2 * minute + day) busy in
    (dropped : List Bucket) × (dropped ++ t'.buckets ≡ window busy)
    × All (λ b. b.timestamp < 2 * minute) dropped
    × All (λ b. 2 * minute ≤ b.timestamp) t'.buckets
    × (t'.current ≡ some (empty_bucket (2 * minute + day)))
rotate_lem_example = rotate_lem (2 * minute) (2 * minute + day) busy busy-TrackerOk

breakdowns-at_example :
    (bytes_at "TCP" (get_protocol_breakdown busy) ≡ 6200)
    × (bytes_at "TCP" (get_ip_version_breakdown busy) ≡ 0)
unfolding get
breakdowns-at_example =
    breakdowns-at busy "TCP" ((refl, tt), ((refl, tt), tt)) ((refl, tt), ((refl, tt), tt))

is_private_ip_v4_example : is_private_ip some_texts "192.168.1.5" ≡ true
is_private_ip_v4_example =
    is_private_ip_v4 some_texts "192.168.1.5" 192 168 1 5 refl (omega arith) (omega arith)
      (omega arith) (omega arith)

is_private_ip_v6_example : is_private_ip some_texts "fe80::7" ≡ true
unfolding to4 same_bytes
is_private_ip_v6_example =
    is_private_ip_v6 some_texts "fe80::7" 0xfe 0x80
      (0 ∷ 0 ∷ 0 ∷ 0 ∷ 0 ∷ 0 ∷ 0 ∷ 0 ∷ 0 ∷ 0 ∷ 0 ∷ 0 ∷ 0 ∷ 7 ∷ []) refl refl (omega arith)
      (omega arith) (omega arith) refl

starts_once_example :
    starts "8.8.8.8" []
        (claims "8.8.8.8" ∷ claims "8.8.8.8" ∷ finishes "8.8.8.8" none ∷ claims "8.8.8.8" ∷ [])
      + 0
    ≤ 1
unfolding get
starts_once_example =
    starts_once "8.8.8.8" []
      (claims "8.8.8.8" ∷ claims "8.8.8.8" ∷ finishes "8.8.8.8" none ∷ claims "8.8.8.8" ∷ [])
