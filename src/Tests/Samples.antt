-- ===== src/Tests/Samples.antt =====
-- The inputs of the runs: numbers in the place of `float64`, some addresses, packets and trackers.
use bandwidth_monitor.Common.{
  ◌≡◌, ℕ, ◌/◌, ◌*◌, true, false, none, some, List, [], ◌∷◌, ◌++◌, pos, negsuc, ℤ, ltb_ℤ, sub_ℕ, not,
  suc, if◌then◌else◌, string_eq, arith, refl,
}
use bandwidth_monitor.Float.{Float, Laws}
use bandwidth_monitor.Sorting.{IsOrder}
use bandwidth_monitor.Net.{Ip, IpNet, IpText, v4_in_v6, same_bytes, cidr}
use bandwidth_monitor.Packet.{Packet, Read, captured, timeout, stopped}
use bandwidth_monitor.Talkers.{Bucket, Tracker, HostAccum}
use bandwidth_monitor.Geoip.{Geo}

-- Whole numbers: quotients are rounded down.
abbrev div_ℤ : ℤ → ℤ → ℤ
div_ℤ (pos a) (pos b) = pos (a / b)
div_ℤ (negsuc a) (pos b) = negsuc (a / b)
div_ℤ a (negsuc b) = pos 0

abbrev mul_ℤ : ℤ → ℤ → ℤ
mul_ℤ (pos a) (pos b) = pos (a * b)
mul_ℤ (negsuc a) (negsuc b) = pos (suc a * suc b)
mul_ℤ (pos a) (negsuc b) = sub_ℕ 0 (a * suc b)
mul_ℤ (negsuc a) (pos b) = sub_ℕ 0 (suc a * b)

abbrev pub whole : Float
whole = record {
  F = ℤ;
  of_int = λ z. z;
  lt = ltb_ℤ;
  le = λ a b. not (ltb_ℤ b a);
  mul = mul_ℤ;
  div = div_ℤ;
  to_int = λ z. z;
  seconds = λ z. div_ℤ z (pos 1_000_000_000);
}

pub ltb_ℤ-IsOrder : IsOrder (λ n. Unit) ltb_ℤ
ltb_ℤ-IsOrder = record {
  asymm = λ a b _ _ h. ground arith;
  trans = λ a b c _ _ _ h k. ground arith;
}

pub pos-not-below :
    (a : ℕ) (b : ℤ) → ltb_ℤ (pos 0) b ≡ true → ltb_ℤ (div_ℤ (pos a) b) (pos 0) ≡ false
pos-not-below a (pos b) h = ground arith
pos-not-below a (negsuc b) h = ground arith

pub negsuc-below :
    (a : ℕ) (b : ℤ) → ltb_ℤ (pos 0) b ≡ true → ltb_ℤ (div_ℤ (negsuc a) b) (pos 0) ≡ true
negsuc-below a (pos b) h = ground arith
negsuc-below a (negsuc b) h = absurd (ground arith)

abbrev pub whole-Laws : Laws whole
whole-Laws = record {
  IsNumber = λ n. Unit;
  lt-IsOrder = ltb_ℤ-IsOrder;
  of_int-IsNumber = λ z. tt;
  nought-lt-one = refl;
  seconds-IsNumber = λ z. tt;
  div-IsNumber = λ z d h. tt;
  div-not-below = λ n z h. pos-not-below n (whole.seconds z) h;
  div-below = λ n z h. negsuc-below n (whole.seconds z) h;
  to_int_nonneg = λ i n m h k. omega arith;
}

abbrev pub dns_server : Ip
dns_server = 8 ∷ 8 ∷ 8 ∷ 8 ∷ []

abbrev pub laptop : Ip
laptop = 192 ∷ 168 ∷ 1 ∷ 5 ∷ []

abbrev pub link_local : Ip
link_local = 0xfe ∷ 0x80 ∷ 0 ∷ 0 ∷ 0 ∷ 0 ∷ 0 ∷ 0 ∷ 0 ∷ 0 ∷ 0 ∷ 0 ∷ 0 ∷ 0 ∷ 0 ∷ 7 ∷ []

-- The texts of these addresses.
abbrev pub some_texts : IpText
some_texts = record {
  print = λ ip.
      if same_bytes ip dns_server
      then "8.8.8.8"
      else if same_bytes ip laptop
      then "192.168.1.5"
      else "fe80::7";
  parse = λ s.
      if string_eq.beq s "8.8.8.8"
      then some (v4_in_v6 ++ dns_server)
      else if string_eq.beq s "192.168.1.5"
      then some (v4_in_v6 ++ laptop)
      else if string_eq.beq s "fe80::7"
      then some link_local
      else none;
}

abbrev pub home : List IpNet
home = cidr (192 ∷ 168 ∷ 0 ∷ 0 ∷ []) 16 ∷ []

abbrev pub tcp_packet : Ip → Ip → ℕ → Packet
tcp_packet src dst len = record {
  ipv4 = some (record { src = src; dst = dst; len = len });
  ipv6 = none;
  tcp = true;
  udp = false;
  icmpv4 = false;
  icmpv6 = false;
}

abbrev pub download : Packet
download = tcp_packet dns_server laptop 1500

abbrev pub upload : Packet
upload = tcp_packet laptop dns_server 100

abbrev pub reads : List Read
reads =
    captured download
    ∷ timeout
    ∷ captured upload
    ∷ captured download
    ∷ stopped
    ∷ captured upload
    ∷ []

-- A minute, two minutes and a day after 1970, in nanoseconds.
abbrev pub minute : ℕ
minute = 60 * 1_000_000_000

abbrev pub day : ℕ
day = 24 * 3600 * 1_000_000_000

abbrev pub traffic : HostAccum
traffic = record { bytes = 3100; rx_bytes = 3000; tx_bytes = 100; packets = 3 }

abbrev pub full_bucket : ℕ → Bucket
full_bucket t = record {
  timestamp = t;
  hosts = ("8.8.8.8", traffic) ∷ [];
  proto_bytes = ("TCP", 3100) ∷ [];
  ip_ver_bytes = ("IPv4", 3100) ∷ [];
}

abbrev pub places : Geo
places = record {
  available = true;
  lookup = λ s. some (record {
    country = "US";
    country_name = "United States";
    city = "";
    asn = 15169;
    as_org = "Google";
  });
}

abbrev pub busy : Tracker
busy = record {
  device = "eth0";
  promiscuous = true;
  local_nets = home;
  buckets = full_bucket minute ∷ [];
  current = some (full_bucket (2 * minute));
  dns_cache = [];
  geo_db = some places;
  closed = false;
}
