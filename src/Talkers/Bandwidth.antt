-- ===== src/Talkers/Bandwidth.antt =====
-- talkers/talkers.go: `TopByBandwidth`, the hosts with the highest rate in the current bucket.
use mathlib.Core.Path.{ap₂}
use bandwidth_monitor.Common.{
  ℕ, ◌<◌, ◌^◌, sub_ℕ, sub_i64_pos, ◌≡◌, refl, sym, ◌∙◌, ap, Bool, true, false, if◌then◌else◌,
  Bool-cases, inl, inr, subst, Option-cases, Option, none, some, List, [], ◌∷◌, String, arith, map,
  All, pos, sub_i64,
}
use bandwidth_monitor.Float.{Float, Laws, nought, of_ℕ}
use bandwidth_monitor.Maps.{Map}
use bandwidth_monitor.Sorting.{Sort, IsTop, cut, cut-IsTop, IsOrder}
use bandwidth_monitor.Talkers.{HostAccum, Bucket, Tracker}
use bandwidth_monitor.Talkers.Resolve.{resolve_ip}
use bandwidth_monitor.Talkers.Stats.{TalkerStat, enrich_geo}
use bandwidth_monitor.Geoip.{Geo}
use bandwidth_monitor.Talkers.Window.{as_list}

module _ (fl : Float) where
  open fl use {F, lt, div, seconds}

  -- Seconds since the bucket began, but at least 1.
  unfoldable pub elapsed : ℕ → Bucket → F
  elapsed now b =
      let e = seconds (sub_i64 (pos now) (pos b.timestamp)) in
      if lt e (of_ℕ fl 1) then of_ℕ fl 1 else e

  abbrev pub host_rate : F → String → String → HostAccum → TalkerStat fl
  host_rate e ip hostname acc = record {
    ip = ip;
    hostname = hostname;
    country = "";
    country_name = "";
    asn = 0;
    as_org = "";
    total_bytes = acc.bytes;
    rx_bytes = acc.rx_bytes;
    tx_bytes = acc.tx_bytes;
    rate_bytes = div (of_ℕ fl acc.bytes) e;
    rx_rate = div (of_ℕ fl acc.rx_bytes) e;
    tx_rate = div (of_ℕ fl acc.tx_bytes) e;
    packets = acc.packets;
  }

  -- The loop over the hosts, with the cache of names it fills.
  unfoldable pub rates :
      Option Geo
      → F
      → Map String String
      → Map String HostAccum
      → Map String String × List (TalkerStat fl)
  rates geo e cache [] = (cache, [])
  rates geo e cache ((ip, acc) ∷ hosts) =
      let r = resolve_ip cache ip in
      let (cache', list) = rates geo e r.cache hosts in
      (cache', enrich_geo fl geo (host_rate e ip r.name acc) ∷ list)

  -- `RateBytes > RateBytes`
  abbrev pub faster : TalkerStat fl → TalkerStat fl → Bool
  faster a b = lt b.rate_bytes a.rate_bytes

  module _ (sort : Sort) where
    unfoldable pub report_rates : ℕ → ℕ → Tracker → Option Bucket → Tracker × List (TalkerStat fl)
    report_rates n now t none = (t, [])
    report_rates n now t (some b) =
        let (cache, list) = rates t.geo_db (elapsed now b) t.dns_cache b.hosts in
        (record t { dns_cache = cache }, cut n (sort.slice faster list))

    -- `TopByBandwidth`, with the tracker.
    unfoldable pub top_by_bandwidth : ℕ → ℕ → Tracker → Tracker × List (TalkerStat fl)
    unfolding report_rates
    top_by_bandwidth n now t = report_rates n now t t.current

-- What is left of an entry without its name and its place.
abbrev pub Measured : Float → Type 0
Measured fl = String × ℕ × ℕ × ℕ × ℕ × fl.F × fl.F × fl.F

module _ (fl : Float) where
  abbrev pub measured : TalkerStat fl → Measured fl
  measured s =
      (s.ip, s.total_bytes, s.rx_bytes, s.tx_bytes, s.packets, s.rate_bytes, s.rx_rate, s.tx_rate)

  -- What a host's counters give after `e` seconds.
  abbrev pub expected : fl.F → String × HostAccum → Measured fl
  expected e (ip, acc) = (
    ip,
    acc.bytes,
    acc.rx_bytes,
    acc.tx_bytes,
    acc.packets,
    fl.div (of_ℕ fl acc.bytes) e,
    fl.div (of_ℕ fl acc.rx_bytes) e,
    fl.div (of_ℕ fl acc.tx_bytes) e,
  )

  enrich_geo-measured :
      (geo : Option Geo) (s : TalkerStat fl) → measured (enrich_geo fl geo s) ≡ measured s
  unfolding enrich_geo
  enrich_geo-measured none s = refl
  enrich_geo-measured (some geo) s = elim (Option-cases (geo.lookup s.ip)) [
    | inl unknown ↦ rw unknown
    | inr (r, found) ↦ rw found
  ]

  rates-measured :
      (geo : Option Geo) (e : fl.F) (cache : Map String String) (hosts : Map String HostAccum)
      → map measured (rates fl geo e cache hosts).1 ≡ map (expected e) hosts
  unfolding rates
  rates-measured geo e cache [] = refl
  rates-measured geo e cache ((ip, acc) ∷ hosts) =
      let r = resolve_ip cache ip in
      ap₂ ◌∷◌ (enrich_geo-measured geo (host_rate fl e ip r.name acc))
        (rates-measured geo e r.cache hosts)

  -- The seconds from one time to another, but at least one.
  abbrev pub seconds_from : ℕ → ℕ → fl.F
  seconds_from began now =
      let e = fl.seconds (sub_ℕ now began) in if fl.lt e (of_ℕ fl 1) then of_ℕ fl 1 else e

  elapsed-seconds_from :
      (now : ℕ) (b : Bucket)
      → now < 2 ^ 63
      → b.timestamp < 2 ^ 63
      → elapsed fl now b ≡ seconds_from b.timestamp now
  unfolding elapsed
  elapsed-seconds_from now b hn hb = rw (sub_i64_pos now b.timestamp hn hb) refl

  -- Of a positive number of seconds.
  abbrev pub Positive : fl.F → Type 0
  Positive e = fl.lt (nought fl) e ≡ true

  -- `report` are the `n` fastest of the hosts of the bucket, measured over a positive time.
  pub record IsRateReport (n now : ℕ) (b : Bucket) (report : List (TalkerStat fl)) : Type 0 where
    pub positive : Positive (seconds_from b.timestamp now)
    pub entries : List (TalkerStat fl)
    pub entries_lem : map measured entries ≡ map (expected (seconds_from b.timestamp now)) b.hosts
    pub top : IsTop (faster fl) n entries report

  -- Without a current bucket there is nothing to report.
  abbrev pub IsBandwidthReport : ℕ → ℕ → Option Bucket → List (TalkerStat fl) → Type 0
  IsBandwidthReport n now none report = report ≡ []
  IsBandwidthReport n now (some b) report = IsRateReport n now b report

  module _ (laws : Laws fl) where
    open laws use {IsNumber, lt-IsOrder}

    elapsed-Positive : (now : ℕ) (b : Bucket) → Positive (elapsed fl now b)
    unfolding elapsed
    elapsed-Positive now b =
        let e = fl.seconds (sub_i64 (pos now) (pos b.timestamp)) in
        elim (Bool-cases (fl.lt e (of_ℕ fl 1))) [
          | inl short ↦ rw short laws.nought-lt-one
          | inr long ↦ rw long (elim (Bool-cases (fl.lt (nought fl) e)) [
            | inl positive ↦ positive
            | inr nonpositive ↦ absurd (
                let q : true ≡ false =
                  sym laws.nought-lt-one
                  ∙ lt-IsOrder.trans (of_ℕ fl 1) e (nought fl) (laws.of_int-IsNumber _)
                      (laws.seconds-IsNumber _) (laws.of_int-IsNumber _) long nonpositive in
                ground (arith, q))
          ])
        ]

    abbrev RateIsNumber : TalkerStat fl → Type 0
    RateIsNumber s = IsNumber s.rate_bytes

    faster-IsOrder : IsOrder RateIsNumber (faster fl)
    faster-IsOrder = record {
      asymm = λ a b pa pb h. lt-IsOrder.asymm b.rate_bytes a.rate_bytes pb pa h;
      trans = λ a b c pa pb pc h k.
          lt-IsOrder.trans c.rate_bytes b.rate_bytes a.rate_bytes pc pb pa k h;
    }

    rates-All :
        (geo : Option Geo) (e : fl.F) (cache : Map String String) (hosts : Map String HostAccum)
        → Positive e
        → All RateIsNumber (rates fl geo e cache hosts).1
    unfolding rates
    rates-All geo e cache [] h = tt
    rates-All geo e cache ((ip, acc) ∷ hosts) h =
        let r = resolve_ip cache ip in
        (
          subst IsNumber
              (sym (ap (λ m. m.5) (enrich_geo-measured geo (host_rate fl e ip r.name acc))))
              (laws.div-IsNumber (pos acc.bytes) e h),
          rates-All geo e r.cache hosts h,
        )

    report_rates-IsBandwidthReport :
        (sort : Sort) (n now : ℕ) (t : Tracker) (b : Option Bucket)
        → now < 2 ^ 63
        → All (λ a. a.timestamp < 2 ^ 63) (as_list b)
        → IsBandwidthReport n now b (report_rates fl sort n now t b).1
    unfolding report_rates
    report_rates-IsBandwidthReport sort n now t none hn hb = refl
    report_rates-IsBandwidthReport sort n now t (some b) hn hb =
        let e = elapsed fl now b in
        let list = (rates fl t.geo_db e t.dns_cache b.hosts).1 in
        let positive = elapsed-Positive now b in
        let same = elapsed-seconds_from now b hn hb.0 in
        record {
          positive = subst Positive same positive;
          entries = list;
          entries_lem =
              rates-measured t.geo_db e t.dns_cache b.hosts
              ∙ ap (λ d. map (expected d) b.hosts) same;
          top =
              cut-IsTop sort RateIsNumber (faster fl) n list faster-IsOrder
                (rates-All t.geo_db e t.dns_cache b.hosts positive);
        }

    -- For times below `2 ^ 63`, `TopByBandwidth` returns nothing without a current bucket. Otherwise
    -- it returns the `n` first, by rate, of the hosts of the current bucket, with their counters and
    -- with rates that are these counters over the seconds since the bucket began, or over one second
    -- if that is less.
    pub top_by_bandwidth-IsBandwidthReport :
        (sort : Sort) (n now : ℕ) (t : Tracker)
        → now < 2 ^ 63
        → All (λ b. b.timestamp < 2 ^ 63) (as_list t.current)
        → IsBandwidthReport n now t.current (top_by_bandwidth fl sort n now t).1
    unfolding top_by_bandwidth
    top_by_bandwidth-IsBandwidthReport sort n now t hn hb =
        report_rates-IsBandwidthReport sort n now t t.current hn hb
