-- ===== src/Talkers/Places.antt =====
-- talkers/talkers.go: `GetCountryBreakdown` and `GetASNBreakdown`.
pub mod Totals
pub mod Shares
use bandwidth_monitor.Common.{
  ℕ, ◌+◌, ◌≡◌, refl, sym, ◌∙◌, Bool, true, false, not, if◌then◌else◌, Option, none, some, List, [],
  ◌∷◌, String, string_eq, nat_eq, nat_beq, arith, map, add64, u64, u64_mod, sum_of, All, ◌==◌,
}
use bandwidth_monitor.Geoip.{Geo, Result}
use bandwidth_monitor.Maps.{Map, get, DistinctKeys}
use bandwidth_monitor.Maps.Group.{
  count_of, group, share, kept, count_of-group, group-DistinctKeys, total-group,
}
use bandwidth_monitor.Sorting.{Sort, IsTop, cut, cut-IsTop, more, more-IsOrder, Any, All-Any}
use bandwidth_monitor.Talkers.{HostAccum, Bucket, Tracker}
use bandwidth_monitor.Talkers.Window.{window}
use bandwidth_monitor.Talkers.Volume.{all_hosts, HostsDistinct, in_window, share-all_hosts}

pub record CountryStat : Type 0 where
  pub country : String
  pub country_name : String
  pub bytes : ℕ
  pub connections : ℕ

pub record AsnStat : Type 0 where
  pub asn : ℕ
  pub as_org : String
  pub bytes : ℕ
  pub connections : ℕ

-- `countryAcc` and `asnAcc`; the `int` count of hosts has no bound here.
pub record Acc : Type 0 where
  pub name : String
  pub bytes : ℕ
  pub ips : ℕ

-- `ipTotals`
unfoldable pub ip_totals : List Bucket → Map String ℕ
ip_totals bs = group (λ h. some h.0) (λ h. 0) (λ n h. add64 n h.1.bytes) (all_hosts bs) []

abbrev pub unknown_country : String × String
unknown_country = ("XX", "Unknown")

unfoldable country_in : Option Result → String × String
country_in none = unknown_country
country_in (some r) =
    if not (string_eq.beq r.country "") then (r.country, r.country_name) else unknown_country

-- The code of the country of an address, and its name.
unfoldable pub country_of : Geo → String → String × String
unfolding country_in
country_of geo ip = country_in (geo.lookup ip)

unfoldable asn_in : Option Result → Option (ℕ × String)
asn_in none = none
asn_in (some r) = if nat_beq r.asn 0 then none else some (r.asn, r.as_org)

-- The autonomous system of an address, unless it is not known.
unfoldable pub asn_of : Geo → String → Option (ℕ × String)
unfolding asn_in
asn_of geo ip = asn_in (geo.lookup ip)

abbrev pub number : Option (ℕ × String) → Option ℕ
number none = none
number (some (n, org)) = some n

abbrev pub org : Option (ℕ × String) → String
org none = ""
org (some (n, name)) = name

abbrev pub add_ip : Acc → String × ℕ → Acc
add_ip acc (ip, bytes) = record acc { bytes = add64 acc.bytes bytes; ips = acc.ips + 1 }

-- `countries` and `asns`
unfoldable pub countries : Geo → Map String ℕ → Map String Acc
countries geo totals =
    group (λ p. some (country_of geo p.0).0)
      (λ p. record { name = (country_of geo p.0).1; bytes = 0; ips = 0 }) add_ip totals []

unfoldable pub asns : Geo → Map String ℕ → Map ℕ Acc
asns geo totals =
    group (λ p. number (asn_of geo p.0))
      (λ p. record { name = org (asn_of geo p.0); bytes = 0; ips = 0 }) add_ip totals []

abbrev pub country_stat : String × Acc → CountryStat
country_stat (cc, acc) = record {
  country = cc;
  country_name = acc.name;
  bytes = acc.bytes;
  connections = acc.ips;
}

abbrev pub asn_stat : ℕ × Acc → AsnStat
asn_stat (n, acc) = record { asn = n; as_org = acc.name; bytes = acc.bytes; connections = acc.ips }

-- A report that needs places is empty without a database that is open.
abbrev pub when_available : {A : Type 0} → Option Geo → (Geo → List A) → List A
when_available none report = []
when_available (some geo) report = if not geo.available then [] else report geo

module _ (sort : Sort) where
  unfoldable pub get_country_breakdown : Tracker → List CountryStat
  get_country_breakdown t = when_available t.geo_db (λ geo.
      cut 20 (
        sort.slice (more (λ s. s.bytes)) (map country_stat (countries geo (ip_totals (window t))))))

  unfoldable pub get_asn_breakdown : Tracker → List AsnStat
  get_asn_breakdown t = when_available t.geo_db (λ geo.
      cut 20 (sort.slice (more (λ s. s.bytes)) (map asn_stat (asns geo (ip_totals (window t))))))
