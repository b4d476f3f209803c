-- ===== src/Geoip/Cache.antt =====
-- The cache of the address database changes no answer.
use bandwidth_monitor.Common.{
  sym, ap, false, ◌||◌, ◌≡◌, refl, Bool, true, Option, none, some, List, [], ◌∷◌, String, string_eq,
  arith, inl, inr, Bool-cases, ◌∙◌,
}
use bandwidth_monitor.Maps.{Map, get, put, get-put, or_else, is_some}
use bandwidth_monitor.Net.{Ip, IpText}
use bandwidth_monitor.Geoip.{
  Db, Reader, CityRecord, AsnRecord, with_readers, Result, available, read_result, lookup, lookups,
  cached, miss, open_db, with_asn, with_city, empty_result, ask,
}

with_readers-cache :
    (x : Option (Option (Reader CityRecord))) (y : Option (Option (Reader AsnRecord))) (db : Db)
    → with_readers x y ≡ some db
    → db.cache ≡ []
with_readers-cache none y db e = absurd (cc)
with_readers-cache (some c) none db e = absurd (cc)
with_readers-cache (some c) (some a) db e = ground arith

open_db-cache :
    (exists : String → Bool) (open_country : String → Option (Reader CityRecord))
    (open_asn : String → Option (Reader AsnRecord)) (c a : String) (db : Db)
    → open_db exists open_country open_asn c a ≡ some db
    → db.cache ≡ []
unfolding open_db
open_db-cache exists open_country open_asn c a db opened = with_readers-cache _ _ db opened

-- A field of the record that a reader finds for an address, or else `d`.
abbrev pub field : {A B : Type 0} → Option (Reader A) → Ip → (A → B) → B → B
field none ip f d = d
field (some read) ip f d = elim (read ip) [ none ↦ d | some a ↦ f a ]

-- What the two readers say of an address, field by field.
abbrev pub said : Option (Reader CityRecord) → Option (Reader AsnRecord) → Ip → Result
said country asn ip = record {
  country = field country ip (λ c. c.iso_code) "";
  country_name = field country ip (λ c. or_else (get "en" c.country_names) "") "";
  city = field country ip (λ c. or_else (get "en" c.city_names) "") "";
  asn = field asn ip (λ a. a.asn) 0;
  as_org = field asn ip (λ a. a.org) "";
}

-- The same of a text: nothing without a reader, and nothing if it is no address.
abbrev pub said_of :
    Option (Reader CityRecord) → Option (Reader AsnRecord) → Option Ip → Option Result
said_of none none o = none
said_of country asn none = none
said_of country asn (some ip) = some (said country asn ip)

-- A field of a record that may be missing.
abbrev found : {A B : Type 0} → Option A → (A → B) → B → B
found o f d = elim o [ none ↦ d | some a ↦ f a ]

-- The same with the records that the readers gave.
abbrev joined : Option CityRecord → Option AsnRecord → Result
joined c a = record {
  country = found c (λ c. c.iso_code) "";
  country_name = found c (λ c. or_else (get "en" c.country_names) "") "";
  city = found c (λ c. or_else (get "en" c.city_names) "") "";
  asn = found a (λ a. a.asn) 0;
  as_org = found a (λ a. a.org) "";
}

with_asn-joined :
    (c : Option CityRecord) (a : Option AsnRecord)
    → with_asn a (with_city c empty_result) ≡ joined c a
with_asn-joined none none = refl
with_asn-joined none (some a) = refl
with_asn-joined (some c) none = refl
with_asn-joined (some c) (some a) = refl

joined-said :
    (country : Option (Reader CityRecord)) (asn : Option (Reader AsnRecord)) (ip : Ip)
    → joined (ask country ip) (ask asn ip) ≡ said country asn ip
joined-said none none ip = refl
joined-said none (some a) ip = refl
joined-said (some c) none ip = refl
joined-said (some c) (some a) ip = refl

read_result-said : (db : Db) (ip : Ip) → read_result db ip ≡ said db.country db.asn ip
unfolding read_result
read_result-said db ip =
    with_asn-joined (ask db.country ip) (ask db.asn ip) ∙ joined-said db.country db.asn ip

-- With a reader, an address gets what the readers say of it.
said_of-loaded :
    (country : Option (Reader CityRecord)) (asn : Option (Reader AsnRecord)) (ip : Ip)
    → is_some country || is_some asn ≡ true
    → said_of country asn (some ip) ≡ some (said country asn ip)
said_of-loaded none none ip h = absurd (cc)
said_of-loaded none (some a) ip h = refl
said_of-loaded (some c) none ip h = refl
said_of-loaded (some c) (some a) ip h = refl

said_of-none :
    (country : Option (Reader CityRecord)) (asn : Option (Reader AsnRecord))
    → said_of country asn none ≡ none
said_of-none none none = refl
said_of-none none (some a) = refl
said_of-none (some c) none = refl
said_of-none (some c) (some a) = refl

said_of-closed :
    (country : Option (Reader CityRecord)) (asn : Option (Reader AsnRecord)) (o : Option Ip)
    → is_some country || is_some asn ≡ false
    → said_of country asn o ≡ none
said_of-closed none none o h = refl
said_of-closed none (some a) o h = absurd (cc)
said_of-closed (some c) none o h = absurd (cc)
said_of-closed (some c) (some a) o h = absurd (cc)

module _ (texts : IpText) where
  -- The answer of the readers, with no cache.
  pub answer : Db → String → Option Result
  answer db s = said_of db.country db.asn (texts.parse s)

  -- The readers of a database, and that its cache holds what they answer.
  pub record Coherent (db : Db) : Type 0 where
    pub cached_answers : (s : String) (r : Result) → get s db.cache ≡ some r → answer db s ≡ some r

  same_answer :
      (db : Db) (c : Map String Result) (s : String)
      → answer (record db { cache = c }) s ≡ answer db s
  unfolding answer available read_result
  same_answer db c s = refl

  -- A lookup answers as the readers do, keeps them, and keeps the cache coherent.
  pub record Answers (db : Db) (s : String) (q : Db × Option Result) : Type 0 where
    pub result : q.1 ≡ answer db s
    pub coherent : Coherent q.0
    pub same : (j : String) → answer q.0 j ≡ answer db j

  read_answers :
      (db : Db) (s : String) (ip : Ip)
      → available db ≡ true
      → texts.parse s ≡ some ip
      → answer db s ≡ some (read_result db ip)
  unfolding answer available
  read_answers db s ip up parsed =
      rw parsed (said_of-loaded db.country db.asn ip up ∙ ap some (sym (read_result-said db ip)))

  miss-Answers :
      (db : Db) (s : String) (o : Option Ip)
      → available db ≡ true
      → texts.parse s ≡ o
      → Coherent db
      → Answers db s (miss db s o)
  unfolding answer available
  miss-Answers db s none up parsed h = record {
    result = rw parsed (sym (said_of-none db.country db.asn));
    coherent = h;
    same = λ j. refl;
  }
  miss-Answers db s (some ip) up parsed h = record {
    result = sym (read_answers db s ip up parsed);
    coherent = record {
      cached_answers = λ j r found.
          same_answer db (put s (read_result db ip) db.cache) j
          ∙ ground (
            arith,
            get-put s j (read_result db ip) db.cache,
            string_eq.beq_iff s j,
            h.cached_answers j r,
            read_answers db s ip up parsed,
          );
    };
    same = λ j. same_answer db (put s (read_result db ip) db.cache) j;
  }

  cached-Answers :
      (db : Db) (s : String) (o : Option Result)
      → available db ≡ true
      → get s db.cache ≡ o
      → Coherent db
      → Answers db s (cached texts db s o)
  cached-Answers db s none up e h = miss-Answers db s (texts.parse s) up refl h
  cached-Answers db s (some r) up e h = record {
    result = sym (h.cached_answers s r e);
    coherent = h;
    same = λ j. refl;
  }

  lookup-Answers : (db : Db) (s : String) → Coherent db → Answers db s (lookup texts db s)
  unfolding lookup answer available
  lookup-Answers db s h = elim (Bool-cases (available db)) [
    | inl up ↦ rw up (cached-Answers db s (get s db.cache) up refl h)
    | inr down ↦ rw down (record {
      result = sym (said_of-closed db.country db.asn (texts.parse s) down);
      coherent = h;
      same = λ j. refl;
    })
  ]

  empty-Coherent : (db : Db) → db.cache ≡ [] → Coherent db
  unfolding get
  empty-Coherent db e = record { cached_answers = λ s r found. absurd (ground (arith, e)) }

  lookups-Coherent :
      (db : Db) (ss : List String)
      → Coherent db
      → Coherent (lookups texts db ss)
        × ((j : String) → answer (lookups texts db ss) j ≡ answer db j)
  unfolding lookups
  lookups-Coherent db [] h = (h, λ j. refl)
  lookups-Coherent db (s ∷ ss) h =
      let q = lookup-Answers db s h in
      let (c, same) = lookups-Coherent (lookup texts db s).0 ss q.coherent in
      (c, λ j. same j ∙ q.same j)

  -- After any lookups in a database that was just opened, a lookup answers what the readers say
  -- of the address, or nothing if no reader is loaded or the text is no address.
  pub lookup_after :
      (exists : String → Bool) (open_country : String → Option (Reader CityRecord))
      (open_asn : String → Option (Reader AsnRecord)) (c a : String) (db : Db) (ss : List String)
      (s : String)
      → open_db exists open_country open_asn c a ≡ some db
      → (lookup texts (lookups texts db ss) s).1 ≡ answer db s
  lookup_after exists open_country open_asn c a db ss s opened =
      let h = empty-Coherent db (open_db-cache exists open_country open_asn c a db opened) in
      let (after, same) = lookups-Coherent db ss h in
      (lookup-Answers (lookups texts db ss) s after).result ∙ same s

  -- Earlier lookups do not change what a lookup answers.
  pub lookup_again :
      (exists : String → Bool) (open_country : String → Option (Reader CityRecord))
      (open_asn : String → Option (Reader AsnRecord)) (c a : String) (db : Db) (ss : List String)
      (s : String)
      → open_db exists open_country open_asn c a ≡ some db
      → (lookup texts (lookups texts db ss) s).1 ≡ (lookup texts db s).1
  lookup_again exists open_country open_asn c a db ss s opened =
      lookup_after exists open_country open_asn c a db ss s opened
      ∙ sym
          (lookup-Answers db s
            (empty-Coherent db (open_db-cache exists open_country open_asn c a db opened))).result
