-- ===== src/Talkers/Places/Shares.antt =====
-- talkers/talkers.go: what `GetCountryBreakdown` and `GetASNBreakdown` report.
use bandwidth_monitor.Common.{
  ℕ, ◌≡◌, refl, Option, none, some, List, [], String, string_eq, nat_eq, Eq, arith, map,
  if◌then◌else◌, u64, sum_of, inl, inr, Bool-cases, ap, subst, fun_ext, nat_beq,
}
use bandwidth_monitor.Geoip.{Geo, Result}
use bandwidth_monitor.Maps.{Map, get, is_some, DistinctKeys}
use bandwidth_monitor.Maps.Group.{
  hits, group-hits, count_of, group, share, kept, count_of-group, group-DistinctKeys, total-group,
}
use bandwidth_monitor.Sorting.{Sort, IsTop, cut-IsTop, more, more-IsOrder, Any, All-Any}
use bandwidth_monitor.Talkers.{Bucket, Tracker}
use bandwidth_monitor.Talkers.Window.{window}
use bandwidth_monitor.Talkers.Volume.{HostsDistinct}
use bandwidth_monitor.Talkers.Places.{
  country_in, asn_in, Acc, add_ip, ip_totals, country_of, asn_of, number, org, countries, asns,
  country_stat, asn_stat, get_country_breakdown, get_asn_breakdown, when_available,
}
use bandwidth_monitor.Talkers.Places.Totals.{IsTotals, ip_totals-IsTotals}

-- An entry for each key that has a host, with the bytes and the number of the hosts that belong
-- to it.
pub record IsGrouping {κ} {K : Type κ} ⦃e : Eq K⦄ (key : String × ℕ → Option K)
    (totals : Map String ℕ) (entries : Map K Acc) : Type κ where
  pub distinct : DistinctKeys entries
  pub present : (k : K) → is_some (get k entries) ≡ hits key k totals
  pub bytes_lem :
      (k : K) → count_of (λ a. a.bytes) (get k entries) ≡ u64 (share key (λ p. p.1) k totals)
  pub ips_lem :
      (k : K) → count_of (λ a. u64 a.ips) (get k entries) ≡ u64 (share key (λ p. 1) k totals)
  pub total_lem : u64 (sum_of (λ p. p.1.bytes) entries) ≡ u64 (kept key (λ p. p.1) totals)

module _ {κ} {K : Type κ} ⦃e : Eq K⦄ (key : String × ℕ → Option K)
    (name : String × ℕ → String) where
  abbrev new_acc : String × ℕ → Acc
  new_acc p = record { name = name p; bytes = 0; ips = 0 }

  grouping : (totals : Map String ℕ) → IsGrouping key totals (group key new_acc add_ip totals [])
  unfolding get
  grouping totals = record {
    distinct = group-DistinctKeys key new_acc add_ip totals [] tt;
    present = λ k. group-hits key new_acc add_ip k totals [];
    bytes_lem = λ k. omega (
      arith,
      count_of-group key new_acc add_ip (λ a. a.bytes) (λ p. p.1) (λ p. refl) (λ a p. refl) k totals
          [] (omega arith),
    );
    ips_lem = λ k. omega (
      arith,
      count_of-group key new_acc add_ip (λ a. u64 a.ips) (λ p. 1) (λ p. omega arith)
          (λ a p. omega arith) k totals [] (omega arith),
    );
    total_lem = omega (
      arith,
      total-group key new_acc add_ip (λ a. a.bytes) (λ p. p.1) (λ p. refl) (λ a p. refl) totals [],
    );
  }

-- A report of places: the 20 entries with the most bytes, of a grouping by `key` of the hosts of
-- the window; `stat` makes an entry a line of the report.
pub record IsPlaceReport {K S : Type 0} ⦃e : Eq K⦄ (key : String × ℕ → Option K)
    (stat : K × Acc → S) (bytes : S → ℕ) (bs : List Bucket) (report : List S) : Type 0 where
  pub totals : Map String ℕ
  pub totals_lem : IsTotals bs totals
  pub entries : Map K Acc
  pub entries_lem : IsGrouping key totals entries
  pub top : IsTop (more bytes) 20 (map stat entries) report

-- The report of a database that is not there or not open is empty.
abbrev pub Reports : {S : Type 0} → Option Geo → (Geo → List S → Type 0) → List S → Type 0
Reports none P report = report ≡ []
Reports (some geo) P report = if geo.available then P geo report else report ≡ []

-- The code of the country that a lookup answers, and `XX` if it answers none.
abbrev pub country_code : Option Result → String
country_code none = "XX"
country_code (some r) = if string_eq.beq r.country "" then "XX" else r.country

abbrev pub by_country : Geo → String × ℕ → Option String
by_country geo p = some (country_code (geo.lookup p.0))

-- The number of the system that a lookup answers, unless it is 0.
abbrev pub system : Option Result → Option ℕ
system none = none
system (some r) = if nat_beq r.asn 0 then none else some r.asn

abbrev pub by_asn : Geo → String × ℕ → Option ℕ
by_asn geo p = system (geo.lookup p.0)

country_in-country_code : (o : Option Result) → (country_in o).0 ≡ country_code o
unfolding country_in
country_in-country_code none = refl
country_in-country_code (some r) = ground arith

asn_in-system : (o : Option Result) → number (asn_in o) ≡ system o
unfolding asn_in
asn_in-system none = refl
asn_in-system (some r) = ground arith

countries-IsGrouping :
    (geo : Geo) (totals : Map String ℕ) → IsGrouping (by_country geo) totals (countries geo totals)
unfolding countries country_of
countries-IsGrouping geo totals =
    subst (λ key. IsGrouping key totals (countries geo totals))
      (fun_ext (λ p. ap some (country_in-country_code (geo.lookup p.0))))
      (grouping (λ p. some (country_of geo p.0).0) (λ p. (country_of geo p.0).1) totals)

asns-IsGrouping :
    (geo : Geo) (totals : Map String ℕ) → IsGrouping (by_asn geo) totals (asns geo totals)
unfolding asns asn_of
asns-IsGrouping geo totals =
    subst (λ key. IsGrouping key totals (asns geo totals))
      (fun_ext (λ p. asn_in-system (geo.lookup p.0)))
      (grouping (λ p. number (asn_of geo p.0)) (λ p. org (asn_of geo p.0)) totals)

when_available-Reports :
    {S : Type 0} (P : Geo → List S → Type 0) (report : Geo → List S) (geo : Option Geo)
    → ((g : Geo) → P g (report g))
    → Reports geo P (when_available geo report)
when_available-Reports P report none h = refl
when_available-Reports P report (some geo) h = elim (Bool-cases geo.available) [
  | inl ready ↦ simp ready (h geo)
  | inr closed ↦ rw closed refl
]

pub get_country_breakdown-Reports :
    (sort : Sort) (t : Tracker)
    → HostsDistinct (window t)
    → Reports t.geo_db
        (λ geo. IsPlaceReport (by_country geo) country_stat (λ s. s.bytes) (window t))
        (get_country_breakdown sort t)
unfolding get_country_breakdown
get_country_breakdown-Reports sort t d = when_available-Reports _ _ t.geo_db (λ geo. record {
  totals = ip_totals (window t);
  totals_lem = ip_totals-IsTotals (window t) d;
  entries = countries geo (ip_totals (window t));
  entries_lem = countries-IsGrouping geo (ip_totals (window t));
  top =
      cut-IsTop sort Any _ 20 (map country_stat (countries geo (ip_totals (window t))))
        (more-IsOrder (λ s. s.bytes)) (All-Any _);
})

pub get_asn_breakdown-Reports :
    (sort : Sort) (t : Tracker)
    → HostsDistinct (window t)
    → Reports t.geo_db
        (λ geo. IsPlaceReport (by_asn geo) asn_stat (λ s. s.bytes) (window t))
        (get_asn_breakdown sort t)
unfolding get_asn_breakdown
get_asn_breakdown-Reports sort t d = when_available-Reports _ _ t.geo_db (λ geo. record {
  totals = ip_totals (window t);
  totals_lem = ip_totals-IsTotals (window t) d;
  entries = asns geo (ip_totals (window t));
  entries_lem = asns-IsGrouping geo (ip_totals (window t));
  top =
      cut-IsTop sort Any _ 20 (map asn_stat (asns geo (ip_totals (window t))))
        (more-IsOrder (λ s. s.bytes)) (All-Any _);
})
