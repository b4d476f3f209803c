-- ===== src/Talkers/Volume.antt =====
-- talkers/talkers.go: `TopByVolume`, the hosts with the most bytes in the window.
use bandwidth_monitor.Common.{
  ℕ, ◌+◌, ◌≡◌, refl, ◌∙◌, some, List, [], ◌∷◌, ◌++◌, String, string_eq, arith, map, All, inl, inr,
  Option-cases, add64, u64, sum_of,
}
use bandwidth_monitor.Float.{Float}
use bandwidth_monitor.Maps.{Map, get, DistinctKeys, put, put-All, get-All}
use bandwidth_monitor.Maps.Group.{
  count_of, group, share, share-DistinctKeys, count_of-group, group-DistinctKeys,
}
use bandwidth_monitor.Sorting.{Sort, IsTop, cut, cut-IsTop, more, more-IsOrder, All-Any, Any}
use bandwidth_monitor.Talkers.{Bucket, HostAccum, Tracker}
use bandwidth_monitor.Talkers.Window.{window}
use bandwidth_monitor.Talkers.Stats.{
  TalkerStat, new_stat, enrich, counters-kept, count_of-enrich, enrich-DistinctKeys, Keyed,
  enrich-Keyed,
}

-- The hosts of all buckets, one after the other.
unfoldable pub all_hosts : List Bucket → Map String HostAccum
all_hosts [] = []
all_hosts (b ∷ bs) = b.hosts ++ all_hosts bs

module _ (fl : Float) where
  abbrev pub add_host : TalkerStat fl → String × HostAccum → TalkerStat fl
  add_host s (ip, acc) = record s {
    total_bytes = add64 s.total_bytes acc.bytes;
    rx_bytes = add64 s.rx_bytes acc.rx_bytes;
    tx_bytes = add64 s.tx_bytes acc.tx_bytes;
    packets = add64 s.packets acc.packets;
  }

  -- `totals`
  unfoldable pub volumes : List Bucket → Map String (TalkerStat fl)
  volumes bs = group (λ h. some h.0) (λ h. new_stat fl h.0) add_host (all_hosts bs) []

  -- `TopByVolume`, with the tracker, whose cache of names it fills.
  module _ (sort : Sort) where
    unfoldable pub top_by_volume : ℕ → Tracker → Tracker × List (TalkerStat fl)
    top_by_volume n t =
        let (cache, totals) = enrich fl t.geo_db t.dns_cache (volumes (window t)) in
        (
          record t { dns_cache = cache },
          cut n (sort.slice (more (λ s. s.total_bytes)) (map (λ p. p.1) totals)),
        )

-- The part of a host in a list of entries is the sum of its parts in the maps they come from.
share-append :
    (f : HostAccum → ℕ) (ip : String) (xs ys : Map String HostAccum)
    → share (λ h. some h.0) (λ h. f h.1) ip (xs ++ ys)
      ≡ share (λ h. some h.0) (λ h. f h.1) ip xs + share (λ h. some h.0) (λ h. f h.1) ip ys
share-append f ip [] ys = omega arith
share-append f ip (x ∷ xs) ys = omega (arith, share-append f ip xs ys)

-- Each bucket has a host once.
abbrev pub HostsDistinct : List Bucket → Type 0
HostsDistinct = All (λ b. DistinctKeys b.hosts)

-- What the buckets count for a host, all together.
abbrev pub in_window : (HostAccum → ℕ) → String → List Bucket → ℕ
in_window f ip = sum_of (λ b. count_of f (get ip b.hosts))

pub share-all_hosts :
    (f : HostAccum → ℕ) (ip : String) (bs : List Bucket)
    → HostsDistinct bs
    → share (λ h. some h.0) (λ h. f h.1) ip (all_hosts bs) ≡ in_window f ip bs
unfolding all_hosts
share-all_hosts f ip [] d = refl
share-all_hosts f ip (b ∷ bs) d = omega (
  arith,
  share-append f ip b.hosts (all_hosts bs),
  share-DistinctKeys f ip b.hosts d.0,
  share-all_hosts f ip bs d.1,
)

module _ (fl : Float) where
  put-Keyed :
      (ip : String) (s : TalkerStat fl) (m : Map String (TalkerStat fl))
      → s.ip ≡ ip
      → Keyed fl m
      → Keyed fl (put ip s m)
  put-Keyed ip s m e k =
      put-All (λ p. p.1.ip ≡ p.0) ip s m (λ j same. ground (arith, e, string_eq.beq_iff j ip)) e k

  found-Keyed :
      (ip : String) (s : TalkerStat fl) (m : Map String (TalkerStat fl))
      → Keyed fl m
      → get ip m ≡ some s
      → s.ip ≡ ip
  found-Keyed ip s m k found =
      let (j, same, e) = get-All (λ p. p.1.ip ≡ p.0) ip s m k found in
      ground (arith, e, string_eq.beq_iff j ip)

  group-Keyed :
      (xs : Map String HostAccum) (m : Map String (TalkerStat fl))
      → Keyed fl m
      → Keyed fl (group (λ h. some h.0) (λ h. new_stat fl h.0) (add_host fl) xs m)
  unfolding group
  group-Keyed [] m k = k
  group-Keyed ((ip, acc) ∷ xs) m k = group-Keyed xs _ (elim (Option-cases (get ip m)) [
    | inl new ↦ rw new (put-Keyed ip _ m refl k)
    | inr (s, old) ↦ rw old (put-Keyed ip _ m (found-Keyed ip s m k old) k)
  ])

  volumes-Keyed : (bs : List Bucket) → Keyed fl (volumes fl bs)
  unfolding volumes
  volumes-Keyed bs = group-Keyed (all_hosts bs) [] tt

  volumes-DistinctKeys : (bs : List Bucket) → DistinctKeys (volumes fl bs)
  unfolding volumes
  volumes-DistinctKeys bs = group-DistinctKeys _ _ _ (all_hosts bs) [] tt

  volumes-at :
      (f : TalkerStat fl → ℕ) (g : HostAccum → ℕ)
      → ((ip : String) → f (new_stat fl ip) ≡ 0)
      → ((s : TalkerStat fl) (h : String × HostAccum) → f (add_host fl s h) ≡ add64 (f s) (g h.1))
      → (ip : String) (bs : List Bucket) → HostsDistinct bs
      → count_of f (get ip (volumes fl bs)) ≡ u64 (in_window g ip bs)
  unfolding volumes get
  volumes-at f g starts adds ip bs d = omega (
    arith,
    count_of-group (λ h. some h.0) (λ h. new_stat fl h.0) (add_host fl) f (λ h. g h.1)
        (λ h. starts h.0) adds ip (all_hosts bs) [] (omega arith),
    share-all_hosts g ip bs d,
  )

  -- `report` are the `n` first, by total bytes, of the entries that the window `bs` calls for: one
  -- for each host at most, and with the sums of the counters of the buckets.
  pub record IsVolumeReport (n : ℕ) (bs : List Bucket) (report : List (TalkerStat fl))
      : Type 0 where
    pub entries : Map String (TalkerStat fl)
    pub distinct : DistinctKeys entries
    pub keyed : Keyed fl entries
    pub total_lem :
        (ip : String)
        → count_of (λ s. s.total_bytes) (get ip entries) ≡ u64 (in_window (λ a. a.bytes) ip bs)
    pub rx_lem :
        (ip : String)
        → count_of (λ s. s.rx_bytes) (get ip entries) ≡ u64 (in_window (λ a. a.rx_bytes) ip bs)
    pub tx_lem :
        (ip : String)
        → count_of (λ s. s.tx_bytes) (get ip entries) ≡ u64 (in_window (λ a. a.tx_bytes) ip bs)
    pub packets_lem :
        (ip : String)
        → count_of (λ s. s.packets) (get ip entries) ≡ u64 (in_window (λ a. a.packets) ip bs)
    pub top : IsTop (more (λ s. s.total_bytes)) n (map (λ p. p.1) entries) report

  -- If each bucket has a host once, `TopByVolume` returns the `n` first, by total bytes, of a list
  -- of entries that has each host of the window once, under its own address, with its bytes,
  -- received and sent bytes and packets in all buckets together, on `uint64`. Names and places
  -- change none of these.
  pub top_by_volume-IsVolumeReport :
      (sort : Sort) (n : ℕ) (t : Tracker)
      → HostsDistinct (window t)
      → IsVolumeReport n (window t) (top_by_volume fl sort n t).1
  unfolding top_by_volume
  top_by_volume-IsVolumeReport sort n t d =
      let m = volumes fl (window t) in
      let geo = t.geo_db in
      let cache = t.dns_cache in
      let entries = (enrich fl geo cache m).1 in
      record {
        entries = entries;
        distinct = enrich-DistinctKeys fl geo m cache (volumes-DistinctKeys (window t));
        keyed = enrich-Keyed fl geo m cache (volumes-Keyed (window t));
        total_lem = λ ip.
            count_of-enrich fl (λ s. s.total_bytes) (λ g name s. (counters-kept fl g name s).0) geo
              ip m cache
            ∙ volumes-at (λ s. s.total_bytes) (λ a. a.bytes) (λ i. refl) (λ s h. refl) ip (window t)
                d;
        rx_lem = λ ip.
            count_of-enrich fl (λ s. s.rx_bytes) (λ g name s. (counters-kept fl g name s).1) geo ip
              m cache
            ∙ volumes-at (λ s. s.rx_bytes) (λ a. a.rx_bytes) (λ i. refl) (λ s h. refl) ip (window t)
                d;
        tx_lem = λ ip.
            count_of-enrich fl (λ s. s.tx_bytes) (λ g name s. (counters-kept fl g name s).2) geo ip
              m cache
            ∙ volumes-at (λ s. s.tx_bytes) (λ a. a.tx_bytes) (λ i. refl) (λ s h. refl) ip (window t)
                d;
        packets_lem = λ ip.
            count_of-enrich fl (λ s. s.packets) (λ g name s. (counters-kept fl g name s).3) geo ip m
              cache
            ∙ volumes-at (λ s. s.packets) (λ a. a.packets) (λ i. refl) (λ s h. refl) ip (window t)
                d;
        top =
            cut-IsTop sort Any (more (λ s. s.total_bytes)) n (map (λ p. p.1) entries)
              (more-IsOrder _) (All-Any _);
      }
