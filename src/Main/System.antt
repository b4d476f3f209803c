-- ===== src/Main/System.antt =====
-- main.go: the components that `main` starts, and what a signal does to them. The goroutines of the
-- `Run` methods are not started here: the other files say what they do.
use bandwidth_monitor.Common.{
  ℕ, ◌*◌, ◌≡◌, refl, Bool, true, false, not, ◌&&◌, if◌then◌else◌, Option, none, some, ◌>>=◌, List,
  String, string_eq, ap, Bool-cases, inl, inr,
}
use bandwidth_monitor.Float.{Float}
use bandwidth_monitor.Net.{IpText}
use bandwidth_monitor.Geoip.{Db, Geo, Reader, CityRecord, AsnRecord, open_db, available, lookup}
use bandwidth_monitor.Adguard
use bandwidth_monitor.Nextdns
use bandwidth_monitor.Collector
use bandwidth_monitor.Talkers
use bandwidth_monitor.Unifi.Client
use bandwidth_monitor.Providers
use bandwidth_monitor.Providers.{Provider, nil, adguard, nextdns}
use bandwidth_monitor.Handler.{Parts}
use bandwidth_monitor.Main.{Env, env, parse_bool, ParseCidr, Iface, local_nets}

-- What `main` asks of the operating system and of the MaxMind library.
pub record Outside : Type 0 where
  pub parse_cidr : ParseCidr
  pub ifaces : Option (List Iface)
  pub texts : IpText
  pub exists : String → Bool
  pub open_country : String → Option (Reader CityRecord)
  pub open_asn : String → Option (Reader AsnRecord)

-- What the talkers see of the database: the answers of `Lookup`. Its cache, which a lookup may fill,
-- is not part of the tracker; `lookup_again` of Geoip/Cache.antt says that it changes no answer. An
-- error of `geoip.Open` leaves the database out.
abbrev pub geo_of : IpText → Option Db → Option Geo
geo_of texts none = none
geo_of texts (some db) =
    some (record { available = available db; lookup = λ s. (lookup texts db s).1 })

-- `n*time.Second`
abbrev pub seconds : ℕ → ℕ
seconds n = n * 1_000_000_000

abbrev pub is_set : Env → String → Bool
is_set getenv key = not (string_eq.beq (env getenv key "") "")

module _ (fl : Float) where
  -- `dnsProvider`
  unfoldable pub dns_provider : Env → Provider fl
  unfolding env Adguard.new Nextdns.new
  dns_provider getenv =
      if is_set getenv "ADGUARD_URL"
      then adguard (
          Adguard.new fl (env getenv "ADGUARD_URL" "") (env getenv "ADGUARD_USER" "")
            (env getenv "ADGUARD_PASS" "") (seconds 10))
      else if is_set getenv "NEXTDNS_PROFILE" && is_set getenv "NEXTDNS_API_KEY"
      then nextdns (
          Nextdns.new (env getenv "NEXTDNS_PROFILE" "") (env getenv "NEXTDNS_API_KEY" "")
            (seconds 30))
      else nil

  -- `unifiClient`
  unfoldable pub unifi_client : Env → Option (Client.Client fl)
  unfolding env Client.new
  unifi_client getenv =
      if is_set getenv "UNIFI_URL"
      then some (
          Client.new fl (env getenv "UNIFI_URL" "") (env getenv "UNIFI_USER" "")
            (env getenv "UNIFI_PASS" "") (env getenv "UNIFI_SITE" "default") (seconds 15))
      else none

  -- The components that the handlers are given.
  unfoldable pub start : Outside → Env → Parts fl
  unfolding local_nets env Collector.new Talkers.new dns_provider unifi_client
  start w getenv =
      let device = env getenv "DEVICE" "" in
      let promiscuous = parse_bool (env getenv "PROMISCUOUS" "true") in
      let nets = local_nets w.parse_cidr getenv w.ifaces in
      let geo = geo_of w.texts (
        open_db w.exists w.open_country w.open_asn
          (env getenv "GEO_COUNTRY" "GeoLite2-Country.mmdb")
          (env getenv "GEO_ASN" "GeoLite2-ASN.mmdb")) in
      record {
        c = Collector.new fl device promiscuous nets;
        t = Talkers.new device promiscuous nets geo;
        dp = dns_provider getenv;
        uf = unifi_client getenv;
      }

  abbrev pub stop_unifi : Option (Client.Client fl) → Option (Client.Client fl)
  stop_unifi none = none
  stop_unifi (some uf) = some (Client.stop fl uf)

  -- What a signal does to the components, before the program exits; `none` is a panic.
  unfoldable pub shutdown : Parts fl → Option (Parts fl)
  unfolding Collector.stop Talkers.stop Providers.stop Client.stop
  shutdown p = do
    c ← Collector.stop fl p.c
    t ← Talkers.stop p.t
    some (record { c = c; t = t; dp = Providers.stop fl p.dp; uf = stop_unifi p.uf })

  -- The provider is stopped if there is one, and nothing else of it has changed.
  abbrev pub DnsStopped : Provider fl → Provider fl → Type 0
  DnsStopped nil q = q ≡ nil
  DnsStopped (adguard c) q = q ≡ adguard (record c { closed = true })
  DnsStopped (nextdns c) q = q ≡ nextdns (record c { closed = true })

  -- The same of the UniFi client.
  abbrev pub UnifiStopped : Option (Client.Client fl) → Option (Client.Client fl) → Type 0
  UnifiStopped none q = q ≡ none
  UnifiStopped (some uf) q = q ≡ some (record uf { closed = true })

  -- Every component that is there is stopped, and nothing else has happened to it.
  pub record IsStopped (p q : Parts fl) : Type 0 where
    pub collector : q.c ≡ record p.c { closed = true }
    pub tracker : q.t ≡ record p.t { closed = true }
    pub provider : DnsStopped p.dp q.dp
    pub unifi : UnifiStopped p.uf q.uf

  abbrev adguard_with : Adguard.Client fl → Bool → Adguard.Client fl
  adguard_with c b = record c { closed = b }

  adguard-stopped : (c : Adguard.Client fl) → Adguard.stop fl c ≡ adguard_with c true
  unfolding Adguard.stop
  adguard-stopped c = elim (Bool-cases c.closed) [
    | inl already ↦ simp already (ap (adguard_with c) already)
    | inr running ↦ simp running refl
  ]

  abbrev nextdns_with : Nextdns.Client → Bool → Nextdns.Client
  nextdns_with c b = record c { closed = b }

  nextdns-stopped : (c : Nextdns.Client) → Nextdns.stop c ≡ nextdns_with c true
  unfolding Nextdns.stop
  nextdns-stopped c = elim (Bool-cases c.closed) [
    | inl already ↦ simp already (ap (nextdns_with c) already)
    | inr running ↦ simp running refl
  ]

  abbrev unifi_with : Client.Client fl → Bool → Client.Client fl
  unifi_with c b = record c { closed = b }

  unifi-stopped : (c : Client.Client fl) → Client.stop fl c ≡ unifi_with c true
  unfolding Client.stop
  unifi-stopped c = elim (Bool-cases c.closed) [
    | inl already ↦ simp already (ap (unifi_with c) already)
    | inr running ↦ simp running refl
  ]

  stop-DnsStopped : (dp : Provider fl) → DnsStopped dp (Providers.stop fl dp)
  unfolding Providers.stop
  stop-DnsStopped nil = refl
  stop-DnsStopped (adguard c) = ap adguard (adguard-stopped c)
  stop-DnsStopped (nextdns c) = ap nextdns (nextdns-stopped c)

  stop-UnifiStopped : (uf : Option (Client.Client fl)) → UnifiStopped uf (stop_unifi uf)
  stop-UnifiStopped none = refl
  stop-UnifiStopped (some uf) = ap some (unifi-stopped uf)

  pub open_shutdown :
      (p : Parts fl)
      → p.c.closed ≡ false
      → p.t.closed ≡ false
      → (q : Parts fl) × (shutdown p ≡ some q) × IsStopped p q
  unfolding shutdown Collector.stop Talkers.stop
  open_shutdown p hc ht = (
    record {
      c = record p.c { closed = true };
      t = record p.t { closed = true };
      dp = Providers.stop fl p.dp;
      uf = stop_unifi p.uf;
    },
    simp (hc, ht) refl,
    record {
      collector = refl;
      tracker = refl;
      provider = stop-DnsStopped p.dp;
      unifi = stop-UnifiStopped p.uf;
    },
  )
