-- ===== src/Unifi/Summaries/Rates.antt =====
-- unifi/unifi.go: the rates of a summary.
use bandwidth_monitor.Common.{
  ◌≡◌, Bool, true, false, if◌then◌else◌, Option, none, some, List, [], ◌∷◌, String, string_eq, ℤ,
  pos, sub_i64, All, map, arith, Bool-cases, inl, inr,
}
use bandwidth_monitor.Float.{Float, Laws, nought}
use bandwidth_monitor.Maps.{Map, get}
use bandwidth_monitor.Sorting.{Sort, All-perm}
use bandwidth_monitor.Unifi.Summaries.{
  ByteSnap, RawDevice, RawClient, ApInfo, SsidStat, ClientInfo, SsidAgg, Summary, Previous,
  clamped_rate, rates, access_points, wireless, ssid_map, ssid_stat, client_info, by_traffic,
  by_name, by_clients, build_summary,
}

module _ (fl : Float) where
  open fl use {F, lt, div, of_int}

  -- A rate is never below 0.
  abbrev pub NotNegative : F → Type 0
  NotNegative r = lt r (nought fl) ≡ false

  module _ (laws : Laws fl) where
    nought-NotNegative : NotNegative (nought fl)
    nought-NotNegative =
        let number = laws.of_int-IsNumber (pos 0) in
        elim (Bool-cases (lt (nought fl) (nought fl))) [
          | inl below ↦ laws.lt-IsOrder.asymm (nought fl) (nought fl) number number below
          | inr fine ↦ fine
        ]

    clamped_rate-NotNegative : (dt : F) (cur prev : ℤ) → NotNegative (clamped_rate fl dt cur prev)
    unfolding clamped_rate
    clamped_rate-NotNegative dt cur prev =
        elim (Bool-cases (lt (div (of_int (sub_i64 cur prev)) dt) (nought fl))) [
          | inl below ↦ rw below nought-NotNegative
          | inr fine ↦ rw fine fine
        ]

    rates-NotNegative :
        (dt : F) (prev : Option ByteSnap) (tx rx : ℤ)
        → NotNegative (rates fl dt prev tx rx).0 × NotNegative (rates fl dt prev tx rx).1
    unfolding rates
    rates-NotNegative dt none tx rx = (nought-NotNegative, nought-NotNegative)
    rates-NotNegative dt (some prev) tx rx = elim (Bool-cases (lt (nought fl) dt)) [
      | inl moved ↦
          rw moved (clamped_rate-NotNegative dt tx prev.tx, clamped_rate-NotNegative dt rx prev.rx)
      | inr stuck ↦ rw stuck (nought-NotNegative, nought-NotNegative)
    ]

    -- Both rates of an entry.
    abbrev low : F → F → Bool
    low tx rx = if lt tx (nought fl) then true else lt rx (nought fl)

    abbrev ap_low : ApInfo fl → Bool
    ap_low a = low a.tx_rate a.rx_rate

    abbrev ssid_low : SsidStat fl → Bool
    ssid_low s = low s.tx_rate s.rx_rate

    abbrev client_low : ClientInfo fl → Bool
    client_low c = low c.tx_rate c.rx_rate

    rates-low :
        (dt : F) (prev : Option ByteSnap) (tx rx : ℤ)
        → low (rates fl dt prev tx rx).0 (rates fl dt prev tx rx).1 ≡ false
    rates-low dt prev tx rx = let (t, r) = rates-NotNegative dt prev tx rx in rw (t, r)

    access_points-low :
        (dt : F) (prev : Map String ByteSnap) (ds : List RawDevice)
        → All (λ a. ap_low a ≡ false) (access_points fl dt prev ds)
    unfolding access_points
    access_points-low dt prev [] = tt
    access_points-low dt prev (d ∷ ds) = elim (Bool-cases (string_eq.beq d.kind "uap")) [
      | inl ap ↦
          rw ap (rates-low dt (get d.mac prev) d.tx_bytes d.rx_bytes, access_points-low dt prev ds)
      | inr other ↦ rw other (access_points-low dt prev ds)
    ]

    ssids-low :
        (dt : F) (prev : Map String ByteSnap) (m : Map String SsidAgg)
        → All (λ s. ssid_low s ≡ false) (map (ssid_stat fl dt prev) m)
    ssids-low dt prev [] = tt
    ssids-low dt prev ((name, a) ∷ m) =
        (rates-low dt (get name prev) a.tx_bytes a.rx_bytes, ssids-low dt prev m)

    clients-low :
        (dt : F) (prev : Map String ByteSnap) (names : Map String String) (cs : List RawClient)
        → All (λ c. client_low c ≡ false) (map (client_info fl dt prev names) cs)
    clients-low dt prev names [] = tt
    clients-low dt prev names (c ∷ cs) =
        (rates-low dt (get c.mac prev) c.tx_bytes c.rx_bytes, clients-low dt prev names cs)

    split-low : (tx rx : F) → low tx rx ≡ false → NotNegative tx × NotNegative rx
    split-low tx rx h = elim (Bool-cases (lt tx (nought fl))) [
      | inl below ↦ absurd (ground (arith, h, below))
      | inr fine ↦ (fine, ground (arith, h, fine))
    ]

  -- Every entry of a summary has rates that are not below 0.
  pub record RatesOk (sum : Summary fl) : Type 0 where
    pub aps : All (λ a. NotNegative a.tx_rate × NotNegative a.rx_rate) sum.aps
    pub ssids : All (λ s. NotNegative s.tx_rate × NotNegative s.rx_rate) sum.ssids
    pub clients : All (λ c. NotNegative c.tx_rate × NotNegative c.rx_rate) sum.clients

  All-map_of {ℓ} :
      {A : Type ℓ} {P Q : A → Type 0} (xs : List A) → ((a : A) → P a → Q a) → All P xs → All Q xs
  All-map_of [] f h = tt
  All-map_of (x ∷ xs) f h = (f x h.0, All-map_of xs f h.1)

  -- Whatever the controller reports and whatever the counters were before, no access point, network or
  -- client of the UniFi summary has a rate below 0.
  pub build_summary-RatesOk :
      (laws : Laws fl) (sort : Sort) (prev : Previous) (dt : F) (devices : List RawDevice)
      (clients : List RawClient)
      → RatesOk (build_summary fl sort prev dt devices clients)
  unfolding build_summary
  build_summary-RatesOk laws sort prev dt devices clients = record {
    aps =
        All-map_of _ (λ a. split-low laws a.tx_rate a.rx_rate)
          (All-perm (ap_low laws) (sort.slice-perm (by_name fl) _)
            (access_points-low laws dt prev.ap devices));
    ssids =
        All-map_of _ (λ s. split-low laws s.tx_rate s.rx_rate)
          (All-perm (ssid_low laws) (sort.slice-perm (by_clients fl) _)
            (ssids-low laws dt prev.ssid (ssid_map clients)));
    clients =
        All-map_of _ (λ c. split-low laws c.tx_rate c.rx_rate)
          (All-perm (client_low laws) (sort.slice-perm (by_traffic fl) _)
            (clients-low laws dt prev.cli _ (wireless clients)));
  }
