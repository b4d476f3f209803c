-- ===== src/Talkers/Stats.antt =====
-- talkers/talkers.go: `TalkerStat`, and how a report gives it a name and a place.
use bandwidth_monitor.Common.{
  ℕ, ◌∙◌, ◌≡◌, refl, Option, none, some, [], ◌∷◌, String, string_eq, arith, All,
}
use bandwidth_monitor.Float.{Float, nought}
use bandwidth_monitor.Geoip.{Geo, Result}
use bandwidth_monitor.Maps.{Map, get, DistinctKeys}
use bandwidth_monitor.Maps.Group.{count_of}
use bandwidth_monitor.Talkers.Resolve.{resolve_ip}

module _ (fl : Float) where
  open fl use {F}

  pub record TalkerStat : Type 0 where
    pub ip : String
    pub hostname : String
    pub country : String
    pub country_name : String
    pub asn : ℕ
    pub as_org : String
    pub total_bytes : ℕ
    pub rx_bytes : ℕ
    pub tx_bytes : ℕ
    pub rate_bytes : F
    pub rx_rate : F
    pub tx_rate : F
    pub packets : ℕ

  -- `TalkerStat{IP: ip}`
  abbrev pub new_stat : String → TalkerStat
  new_stat ip = record {
    ip = ip;
    hostname = "";
    country = "";
    country_name = "";
    asn = 0;
    as_org = "";
    total_bytes = 0;
    rx_bytes = 0;
    tx_bytes = 0;
    rate_bytes = nought fl;
    rx_rate = nought fl;
    tx_rate = nought fl;
    packets = 0;
  }

  abbrev place : TalkerStat → Option Result → TalkerStat
  place s none = s
  place s (some geo) = record s {
    country = geo.country;
    country_name = geo.country_name;
    asn = geo.asn;
    as_org = geo.as_org;
  }

  -- `enrichGeo`
  unfoldable pub enrich_geo : Option Geo → TalkerStat → TalkerStat
  enrich_geo none s = s
  enrich_geo (some geo) s = place s (geo.lookup s.ip)

  abbrev name_and_place : Option Geo → String → TalkerStat → TalkerStat
  name_and_place geo name s = enrich_geo geo (record s { hostname = name })

  -- The loop that names and places the entries of a map by address, and keeps the cache of names.
  unfoldable pub enrich :
      Option Geo
      → Map String String
      → Map String TalkerStat
      → Map String String × Map String TalkerStat
  unfolding enrich_geo
  enrich geo cache [] = (cache, [])
  enrich geo cache ((ip, s) ∷ m) =
      let r = resolve_ip cache s.ip in
      let (cache', m') = enrich geo r.cache m in (cache', (ip, name_and_place geo r.name s) ∷ m')

  -- A value of the entries that neither names nor places change.
  abbrev pub Kept {ℓ} : {A : Type ℓ} → (TalkerStat → A) → Type ℓ
  Kept f = (geo : Option Geo) (name : String) (s : TalkerStat) → f (name_and_place geo name s) ≡ f s

  place-kept :
      (s : TalkerStat) (r : Option Result)
      → ((place s r).total_bytes ≡ s.total_bytes)
        × ((place s r).rx_bytes ≡ s.rx_bytes)
        × ((place s r).tx_bytes ≡ s.tx_bytes)
        × ((place s r).packets ≡ s.packets)
        × ((place s r).ip ≡ s.ip)
        × ((place s r).rate_bytes ≡ s.rate_bytes)
  place-kept s none = (refl, refl, refl, refl, refl, refl)
  place-kept s (some geo) = (refl, refl, refl, refl, refl, refl)

  -- So are the counters, the address and the rate.
  pub counters-kept :
      (geo : Option Geo) (name : String) (s : TalkerStat)
      → let e = name_and_place geo name s in
        (e.total_bytes ≡ s.total_bytes)
        × (e.rx_bytes ≡ s.rx_bytes)
        × (e.tx_bytes ≡ s.tx_bytes)
        × (e.packets ≡ s.packets)
        × (e.ip ≡ s.ip)
        × (e.rate_bytes ≡ s.rate_bytes)
  unfolding enrich_geo
  counters-kept none name s = (refl, refl, refl, refl, refl, refl)
  counters-kept (some geo) name s = place-kept (record s { hostname = name }) (geo.lookup s.ip)

  -- Enriching keeps the keys and whatever names and places do not change.
  pub count_of-enrich :
      (f : TalkerStat → ℕ)
      → Kept f
      → (geo : Option Geo) (k : String) (m : Map String TalkerStat) (cache : Map String String)
      → count_of f (get k (enrich geo cache m).1) ≡ count_of f (get k m)
  unfolding enrich get
  count_of-enrich f kept geo k [] cache = refl
  count_of-enrich f kept geo k ((ip, s) ∷ m) cache =
      let r = resolve_ip cache s.ip in
      ground (arith, kept geo r.name s, count_of-enrich f kept geo k m r.cache)

  enrich-none :
      (geo : Option Geo) (k : String) (m : Map String TalkerStat) (cache : Map String String)
      → get k m ≡ none
      → get k (enrich geo cache m).1 ≡ none
  unfolding enrich get
  enrich-none geo k [] cache h = refl
  enrich-none geo k ((ip, s) ∷ m) cache h =
      ground (arith, enrich-none geo k m (resolve_ip cache s.ip).cache)

  pub enrich-DistinctKeys :
      (geo : Option Geo) (m : Map String TalkerStat) (cache : Map String String)
      → DistinctKeys m
      → DistinctKeys (enrich geo cache m).1
  unfolding enrich
  enrich-DistinctKeys geo [] cache d = tt
  enrich-DistinctKeys geo ((ip, s) ∷ m) cache d =
      let r = resolve_ip cache s.ip in
      (enrich-none geo ip m r.cache d.0, enrich-DistinctKeys geo m r.cache d.1)

  -- The entries of a map of the reports stand under their own address.
  abbrev pub Keyed : Map String TalkerStat → Type 0
  Keyed = All (λ p. p.1.ip ≡ p.0)

  pub enrich-Keyed :
      (geo : Option Geo) (m : Map String TalkerStat) (cache : Map String String)
      → Keyed m
      → Keyed (enrich geo cache m).1
  unfolding enrich
  enrich-Keyed geo [] cache h = tt
  enrich-Keyed geo ((ip, s) ∷ m) cache h =
      let r = resolve_ip cache s.ip in
      ((counters-kept geo r.name s).4 ∙ h.0, enrich-Keyed geo m r.cache h.1)
