-- ===== src/Tests/Geoip.antt =====
-- A run of the places database.
use bandwidth_monitor.Common.{◌≡◌, refl, true, some, none, [], ◌∷◌, string_eq}
use bandwidth_monitor.Geoip.{Db, Reader, CityRecord, open_db, lookup, lookups}
use bandwidth_monitor.Geoip.Cache.{answer, lookup_after}
use bandwidth_monitor.Tests.Samples.{some_texts}

abbrev countries_file : Reader CityRecord
countries_file ip = some (record {
  iso_code = "US";
  country_names = ("de", "USA") ∷ ("en", "United States") ∷ [];
  city_names = [];
})

abbrev opened : Db
opened = record { country = some countries_file; asn = none; cache = [] }

lookup_after_example :
    (lookup some_texts (lookups some_texts opened ("8.8.8.8" ∷ "nonsense" ∷ [])) "8.8.8.8").1
    ≡ answer some_texts opened "8.8.8.8"
unfolding open_db
lookup_after_example =
    lookup_after some_texts (λ path. true) (λ path. some countries_file) (λ path. none) "city.mmdb"
      "" opened ("8.8.8.8" ∷ "nonsense" ∷ []) "8.8.8.8" refl
