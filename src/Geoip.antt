-- ===== src/Geoip.antt =====
-- geoip/geoip.go: country and network owner of an address, with a cache. A reader of the MaxMind
-- library is a function: it takes an address to a record, or to an error (`none`).
pub mod Cache
use bandwidth_monitor.Common.{
  ℕ, Bool, true, false, not, ◌&&◌, ◌||◌, if◌then◌else◌, Option, none, some, List, [], String,
  string_eq,
}
use bandwidth_monitor.Maps.{Map, get, put, or_else, is_some}
use bandwidth_monitor.Net.{Ip, IpText}

-- `Result`
pub record Result : Type 0 where
  pub country : String
  pub country_name : String
  pub city : String
  pub asn : ℕ
  pub as_org : String

pub record CityRecord : Type 0 where
  pub iso_code : String
  pub country_names : Map String String
  pub city_names : Map String String

pub record AsnRecord : Type 0 where
  pub asn : ℕ
  pub org : String

abbrev pub Reader : Type 0 → Type 0
Reader A = Ip → Option A

-- `none` stands for the `nil` reader of a database that was not loaded.
pub record Db : Type 0 where
  pub country : Option (Reader CityRecord)
  pub asn : Option (Reader AsnRecord)
  pub cache : Map String Result

-- One half of `Open`: an empty path or a missing file leaves the reader out, and a file that cannot
-- be opened is an error, the outer `none`.
load :
    {A : Type 0}
    → (String → Bool)
    → (String → Option (Reader A))
    → String
    → Option (Option (Reader A))
load exists open_file path =
    if string_eq.beq path ""
    then some none
    else if exists path
    then elim (open_file path) [ none ↦ none | some r ↦ some (some r) ]
    else some none

abbrev pub with_readers :
    Option (Option (Reader CityRecord)) → Option (Option (Reader AsnRecord)) → Option Db
with_readers (some c) (some a) = some (record { country = c; asn = a; cache = [] })
with_readers _ _ = none

-- `Open`, where `exists` is `os.Stat` and the other two are `maxminddb.Open`.
unfoldable pub open_db :
    (String → Bool)
    → (String → Option (Reader CityRecord))
    → (String → Option (Reader AsnRecord))
    → String
    → String
    → Option Db
unfolding load
open_db exists open_country open_asn country_path asn_path =
    with_readers (load exists open_country country_path) (load exists open_asn asn_path)

unfoldable pub available : Db → Bool
available db = is_some db.country || is_some db.asn

abbrev pub empty_result : Result
empty_result = record { country = ""; country_name = ""; city = ""; asn = 0; as_org = "" }

abbrev pub with_city : Option CityRecord → Result → Result
with_city none r = r
with_city (some c) r = record r {
  country = c.iso_code;
  country_name = or_else (get "en" c.country_names) "";
  city = or_else (get "en" c.city_names) r.city;
}

abbrev pub with_asn : Option AsnRecord → Result → Result
with_asn none r = r
with_asn (some a) r = record r { asn = a.asn; as_org = a.org }

abbrev pub ask : {A : Type 0} → Option (Reader A) → Ip → Option A
ask none ip = none
ask (some read) ip = read ip

-- The part of `Lookup` that asks the readers.
unfoldable pub read_result : Db → Ip → Result
read_result db ip = with_asn (ask db.asn ip) (with_city (ask db.country ip) empty_result)

-- `Lookup` of an address that is not in the cache.
abbrev pub miss : Db → String → Option Ip → Db × Option Result
miss db s none = (db, none)
miss db s (some ip) = let r = read_result db ip in (record db { cache = put s r db.cache }, some r)

abbrev pub cached : IpText → Db → String → Option Result → Db × Option Result
cached texts db s (some r) = (db, some r)
cached texts db s none = miss db s (texts.parse s)

-- `Lookup`, on a database that is not `nil`.
unfoldable pub lookup : IpText → Db → String → Db × Option Result
lookup texts db s = if available db then cached texts db s (get s db.cache) else (db, none)

unfoldable pub lookups : IpText → Db → List String → Db
unfolding lookup
lookups texts db [] = db
lookups texts db (List.◌∷◌ s ss) = lookups texts (lookup texts db s).0 ss

-- What the other packages see of a database that is not `nil`.
pub record Geo : Type 0 where
  pub available : Bool
  pub lookup : String → Option Result
