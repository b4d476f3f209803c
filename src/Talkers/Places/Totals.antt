-- ===== src/Talkers/Places/Totals.antt =====
-- talkers/talkers.go: the totals of the hosts in `GetCountryBreakdown` and `GetASNBreakdown`.
use bandwidth_monitor.Common.{
  ℕ, ◌+◌, ◌≡◌, refl, some, List, [], ◌∷◌, ◌++◌, String, string_eq, nat_eq, arith, add64, u64,
  sum_of, Bool, false, ◌||◌, ap₂, ◌∙◌,
}
use bandwidth_monitor.Maps.{Map, get, is_some, DistinctKeys}
use bandwidth_monitor.Maps.Group.{
  hits, group-hits, hits-append, hits-map, count_of, kept, count_of-group, group-DistinctKeys,
  total-group,
}
use bandwidth_monitor.Talkers.{HostAccum, Bucket}
use bandwidth_monitor.Talkers.Volume.{all_hosts, HostsDistinct, in_window, share-all_hosts}
use bandwidth_monitor.Talkers.Places.{ip_totals}

-- All bytes that a bucket counts for its hosts.
abbrev pub hosts_bytes : Bucket → ℕ
hosts_bytes b = sum_of (λ h. h.1.bytes) b.hosts

-- Some bucket has counted the host, be it with no bytes.
abbrev pub occurs : String → List Bucket → Bool
occurs ip [] = false
occurs ip (b ∷ bs) = is_some (get ip b.hosts) || occurs ip bs

-- Each host of the buckets once, and no other, with all its bytes.
pub record IsTotals (bs : List Bucket) (totals : Map String ℕ) : Type 0 where
  pub distinct : DistinctKeys totals
  pub present : (ip : String) → is_some (get ip totals) ≡ occurs ip bs
  pub at_lem :
      (ip : String) → count_of (λ n. n) (get ip totals) ≡ u64 (in_window (λ a. a.bytes) ip bs)
  pub total_lem : u64 (sum_of (λ p. p.1) totals) ≡ u64 (sum_of hosts_bytes bs)

kept-append :
    (xs ys : Map String HostAccum)
    → kept (λ h. some h.0) (λ h. h.1.bytes) (xs ++ ys)
      ≡ sum_of (λ h. h.1.bytes) xs + kept (λ h. some h.0) (λ h. h.1.bytes) ys
kept-append [] ys = omega arith
kept-append (x ∷ xs) ys = omega (arith, kept-append xs ys)

kept-all_hosts :
    (bs : List Bucket)
    → kept (λ h. some h.0) (λ h. h.1.bytes) (all_hosts bs) ≡ sum_of hosts_bytes bs
unfolding all_hosts
kept-all_hosts [] = refl
kept-all_hosts (b ∷ bs) = omega (arith, kept-append b.hosts (all_hosts bs), kept-all_hosts bs)

hits-all_hosts :
    (ip : String) (bs : List Bucket) → hits (λ h. some h.0) ip (all_hosts bs) ≡ occurs ip bs
unfolding all_hosts
hits-all_hosts ip [] = refl
hits-all_hosts ip (b ∷ bs) =
    hits-append (λ h. some h.0) ip b.hosts (all_hosts bs)
    ∙ ap₂ (◌||◌) (hits-map ip b.hosts) (hits-all_hosts ip bs)

pub ip_totals-IsTotals : (bs : List Bucket) → HostsDistinct bs → IsTotals bs (ip_totals bs)
unfolding ip_totals get
ip_totals-IsTotals bs d = record {
  distinct = group-DistinctKeys _ _ _ (all_hosts bs) [] tt;
  present = λ ip.
      group-hits (λ h. some h.0) (λ h. 0) (λ n h. add64 n h.1.bytes) ip (all_hosts bs) []
      ∙ hits-all_hosts ip bs;
  at_lem = λ ip. omega (
    arith,
    count_of-group (λ h. some h.0) (λ h. 0) (λ n h. add64 n h.1.bytes) (λ n. n) (λ h. h.1.bytes)
        (λ h. refl) (λ n h. refl) ip (all_hosts bs) [] (omega arith),
    share-all_hosts (λ a. a.bytes) ip bs d,
  );
  total_lem = omega (
    arith,
    total-group (λ h. some h.0) (λ h. 0) (λ n h. add64 n h.1.bytes) (λ n. n) (λ h. h.1.bytes)
        (λ h. refl) (λ n h. refl) (all_hosts bs) [],
    kept-all_hosts bs,
  );
}
