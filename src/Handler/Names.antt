-- ===== src/Handler/Names.antt =====
-- handler/handler.go: what the handlers that answer a request change.
use bandwidth_monitor.Common.{
  ℕ, ◌≡◌, refl, Option, none, some, Option-cases, inl, inr, [], ◌∷◌, String, string_eq, arith,
}
use bandwidth_monitor.Float.{Float}
use bandwidth_monitor.Maps.{Map, get, get-put}
use bandwidth_monitor.Sorting.{Sort}
use bandwidth_monitor.Geoip.{Geo}
use bandwidth_monitor.Talkers.{Tracker, Bucket, HostAccum}
use bandwidth_monitor.Talkers.Resolve.{resolve_ip, claim}
use bandwidth_monitor.Talkers.Stats.{TalkerStat, enrich}
use bandwidth_monitor.Talkers.Volume.{top_by_volume, volumes}
use bandwidth_monitor.Talkers.Window.{window}
use bandwidth_monitor.Talkers.Bandwidth.{top_by_bandwidth, rates, report_rates, elapsed}
use bandwidth_monitor.Handler.{
  Parts, Request, interface_stats, interface_history, top_talkers_bandwidth, top_talkers_volume,
  dns_summary, wifi_summary_of, menu_bar_summary, serve,
}

-- Every name of the first cache is in the second.
abbrev pub Keeps : Map String String → Map String String → Type 0
Keeps old new = (k name : String) → get k old ≡ some name → get k new ≡ some name

resolve_ip-Keeps :
    (cache : Map String String) (ip : String) → Keeps cache (resolve_ip cache ip).cache
unfolding resolve_ip claim
resolve_ip-Keeps cache ip k name h = elim (Option-cases (get ip cache)) [
  | inl miss ↦ rw miss (ground (arith, get-put ip k ip cache, string_eq.beq_iff ip k, miss, h))
  | inr (known, hit) ↦ rw hit h
]

-- The tracker with other names.
abbrev pub renamed : Tracker → Map String String → Tracker
renamed t names = record t { dns_cache = names }

-- The second tracker is the first with more names in its cache.
pub record MoreNames (t t' : Tracker) : Type 0 where
  pub same : t' ≡ renamed t t'.dns_cache
  pub kept : Keeps t.dns_cache t'.dns_cache

module _ (fl : Float) where
  enrich-Keeps :
      (geo : Option Geo) (m : Map String (TalkerStat fl)) (cache : Map String String)
      → Keeps cache (enrich fl geo cache m).0
  unfolding enrich
  enrich-Keeps geo [] cache k name h = h
  enrich-Keeps geo ((ip, s) ∷ m) cache k name h =
      enrich-Keeps geo m (resolve_ip cache s.ip).cache k name (resolve_ip-Keeps cache s.ip k name h)

  rates-Keeps :
      (geo : Option Geo) (e : fl.F) (hosts : Map String HostAccum) (cache : Map String String)
      → Keeps cache (rates fl geo e cache hosts).0
  unfolding rates
  rates-Keeps geo e [] cache k name h = h
  rates-Keeps geo e ((ip, acc) ∷ hosts) cache k name h =
      rates-Keeps geo e hosts (resolve_ip cache ip).cache k name
        (resolve_ip-Keeps cache ip k name h)

  -- The components are the same but for the tracker, which has more names.
  pub record OnlyNames (p q : Parts fl) : Type 0 where
    pub parts : q ≡ record p { t = q.t }
    pub names : MoreNames p.t q.t

  nothing-OnlyNames : (p : Parts fl) → OnlyNames p p
  nothing-OnlyNames p = record {
    parts = refl;
    names = record { same = refl; kept = λ k name h. h };
  }

  module _ (sort : Sort) where
    top_by_volume-MoreNames : (n : ℕ) (t : Tracker) → MoreNames t (top_by_volume fl sort n t).0
    unfolding top_by_volume
    top_by_volume-MoreNames n t = record {
      same = refl;
      kept = enrich-Keeps t.geo_db (volumes fl (window t)) t.dns_cache;
    }

    report_rates-MoreNames :
        (n now : ℕ) (t : Tracker) (b : Option Bucket)
        → MoreNames t (report_rates fl sort n now t b).0
    unfolding report_rates
    report_rates-MoreNames n now t none = record { same = refl; kept = λ k name h. h }
    report_rates-MoreNames n now t (some b) = record {
      same = refl;
      kept = rates-Keeps t.geo_db (elapsed fl now b) b.hosts t.dns_cache;
    }

    pub top_by_bandwidth-MoreNames :
        (n now : ℕ) (t : Tracker) → MoreNames t (top_by_bandwidth fl sort n now t).0
    unfolding top_by_bandwidth
    top_by_bandwidth-MoreNames n now t = report_rates-MoreNames n now t t.current

    -- A request changes nothing of the components but the tracker's cache of names, and every name
    -- that was in it stays there. The address database is a function here: its own cache, which a
    -- request may fill as well, is modelled with the database.
    pub serve-OnlyNames :
        (now : ℕ) (r : Request) (p : Parts fl) → OnlyNames p (serve fl sort now r p).0
    unfolding serve
    serve-OnlyNames now interface_stats p = nothing-OnlyNames p
    serve-OnlyNames now interface_history p = nothing-OnlyNames p
    serve-OnlyNames now top_talkers_bandwidth p = record {
      parts = refl;
      names = top_by_bandwidth-MoreNames 10 now p.t;
    }
    serve-OnlyNames now top_talkers_volume p = record {
      parts = refl;
      names = top_by_volume-MoreNames 10 p.t;
    }
    serve-OnlyNames now dns_summary p = nothing-OnlyNames p
    serve-OnlyNames now wifi_summary_of p = nothing-OnlyNames p
    serve-OnlyNames now menu_bar_summary p = nothing-OnlyNames p
