-- ===== src/Talkers.antt =====
-- talkers/talkers.go: the tracker of the top talkers, its buckets of a minute and what a packet adds
-- to the current one. `mu` makes each method atomic; time is an argument, in nanoseconds since 1970.
pub mod Packets
pub mod Window
pub mod Breakdown
pub mod Balance
pub mod Stats
pub mod Volume
pub mod Bandwidth
pub mod Places
pub mod Resolve
pub mod Private
pub mod PrivateV6
pub mod Accounting
pub mod Hosts
pub mod Traffic
use bandwidth_monitor.Common.{
  ℕ, ◌+◌, ◌-◌, ◌*◌, ◌%◌, ◌≡◌, refl, ◌⊎◌, inl, inr, Bool, true, false, not, ◌&&◌, ◌||◌, Option, none,
  some, List, [], ◌∷◌, ◌++◌, String, if◌then◌else◌, length, ltb, add64, string_eq,
}
use bandwidth_monitor.Maps.{Map, or_else, get, put}
use bandwidth_monitor.Net.{Ip, IpNet, IpText, cidr, any_contains}
use bandwidth_monitor.Packet.{Header, Packet}
use bandwidth_monitor.Geoip.{Geo}

-- `bucketSize` and `maxAge` in nanoseconds.
abbrev pub bucket_size : ℕ
bucket_size = 60 * 1_000_000_000

abbrev pub max_age : ℕ
max_age = 24 * 3600 * 1_000_000_000

pub record HostAccum : Type 0 where
  pub bytes : ℕ
  pub rx_bytes : ℕ
  pub tx_bytes : ℕ
  pub packets : ℕ

abbrev pub no_traffic : HostAccum
no_traffic = record { bytes = 0; rx_bytes = 0; tx_bytes = 0; packets = 0 }

pub record Bucket : Type 0 where
  pub timestamp : ℕ
  pub hosts : Map String HostAccum
  pub proto_bytes : Map String ℕ
  pub ip_ver_bytes : Map String ℕ

-- `now.Truncate(bucketSize)`: 1970 began with a full minute.
abbrev pub truncate : ℕ → ℕ
truncate t = t - t % bucket_size

abbrev pub empty_bucket : ℕ → Bucket
empty_bucket now = record {
  timestamp = truncate now;
  hosts = [];
  proto_bytes = [];
  ip_ver_bytes = [];
}

-- `closed` says whether `stopCh` is closed. `geo_db` is `none` for the `nil` pointer; else it is what the
-- database behind the pointer answers. The tracker asks it and nothing more: the cache that the
-- database fills when it is asked is its own state, in Geoip.antt.
pub record Tracker : Type 0 where
  pub device : String
  pub promiscuous : Bool
  pub local_nets : List IpNet
  pub buckets : List Bucket
  pub current : Option Bucket
  pub dns_cache : Map String String
  pub geo_db : Option Geo
  pub closed : Bool

unfoldable pub new : String → Bool → List IpNet → Option Geo → Tracker
new device promiscuous local_nets geo_db = record {
  device = device;
  promiscuous = promiscuous;
  local_nets = local_nets;
  buckets = [];
  current = none;
  dns_cache = [];
  geo_db = geo_db;
  closed = false;
}

-- `Stop`: to close a closed channel panics, which is `none`.
unfoldable pub stop : Tracker → Option Tracker
stop t = if t.closed then none else some (record t { closed = true })

-- What `Run` makes of the tracker before it starts the goroutines, if it has devices to capture on.
unfoldable pub start : ℕ → Tracker → Tracker
start now t = record t { current = some (empty_bucket now) }

-- The devices that `getDevices` finds: those that `pcap.FindAllDevs` lists, by their name and
-- their number of addresses, unless one is configured. `none` is the error of that call.
pub data Devices : Type 0 where
  failed : Devices
  found : List String → Devices

usable : List (String × ℕ) → List String
usable [] = []
usable ((name, addresses) ∷ ds) =
    let rest = usable ds in
    if string_eq.beq name "lo" || not (ltb 0 addresses) then rest else name ∷ rest

unfoldable pub get_devices : Tracker → Option (List (String × ℕ)) → Devices
unfolding usable
get_devices t listed =
    if not (string_eq.beq t.device "")
    then found (t.device ∷ [])
    else elim listed [ none ↦ failed | some ds ↦ found (usable ds) ]

unfoldable pub run_on : ℕ → Tracker → Devices → Tracker × List String
unfolding start
run_on now t failed = (t, [])
run_on now t (found []) = (t, [])
run_on now t (found (d ∷ ds)) = (start now t, d ∷ ds)

-- `Run` up to the wait for its end: the devices on which it starts `captureDevice`.
unfoldable pub run : ℕ → Tracker → Option (List (String × ℕ)) → Tracker × List String
unfolding run_on get_devices
run now t listed = run_on now t (get_devices t listed)

-- `Run` leaves the tracker as it is, or starts it.
pub run-start :
    (now : ℕ) (t : Tracker) (listed : Option (List (String × ℕ)))
    → ((run now t listed).0 ≡ t) ⊎ ((run now t listed).0 ≡ start now t)
unfolding run
run-start now t listed = run_on-start (get_devices t listed)
  where
    run_on-start : (d : Devices) → ((run_on now t d).0 ≡ t) ⊎ ((run_on now t d).0 ≡ start now t)
    run_on-start failed = inl refl
    run_on-start (found []) = inl refl
    run_on-start (found (d ∷ ds)) = inr refl

abbrev pub private_ranges : List IpNet
private_ranges =
    cidr (10 ∷ 0 ∷ 0 ∷ 0 ∷ []) 8
    ∷ cidr (172 ∷ 16 ∷ 0 ∷ 0 ∷ []) 12
    ∷ cidr (192 ∷ 168 ∷ 0 ∷ 0 ∷ []) 16
    ∷ cidr (127 ∷ 0 ∷ 0 ∷ 0 ∷ []) 8
    ∷ cidr (0xfc ∷ 0 ∷ 0 ∷ 0 ∷ 0 ∷ 0 ∷ 0 ∷ 0 ∷ 0 ∷ 0 ∷ 0 ∷ 0 ∷ 0 ∷ 0 ∷ 0 ∷ 0 ∷ []) 7
    ∷ cidr (0 ∷ 0 ∷ 0 ∷ 0 ∷ 0 ∷ 0 ∷ 0 ∷ 0 ∷ 0 ∷ 0 ∷ 0 ∷ 0 ∷ 0 ∷ 0 ∷ 0 ∷ 1 ∷ []) 128
    ∷ cidr (0xfe ∷ 0x80 ∷ 0 ∷ 0 ∷ 0 ∷ 0 ∷ 0 ∷ 0 ∷ 0 ∷ 0 ∷ 0 ∷ 0 ∷ 0 ∷ 0 ∷ 0 ∷ 0 ∷ []) 10
    ∷ []

module _ (texts : IpText) where
  open texts use {parse}

  any_in : List IpNet → Option Ip → Bool
  any_in nets none = false
  any_in nets (some ip) = any_contains nets ip

  unfoldable pub is_private_ip : String → Bool
  unfolding any_in
  is_private_ip s = any_in private_ranges (parse s)

  unfoldable pub is_local_net : List IpNet → String → Bool
  unfolding any_in
  is_local_net nets s = if ltb 0 (length nets) then any_in nets (parse s) else false

  -- An address that is not counted as a host.
  abbrev pub skipped : List IpNet → String → Bool
  skipped nets ip = is_private_ip ip || is_local_net nets ip
