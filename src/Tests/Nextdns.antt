-- ===== src/Tests/Nextdns.antt =====
-- Runs of the NextDNS client.
use bandwidth_monitor.Common.{
  Option, ◌≡◌, refl, some, none, List, [], ◌∷◌, string_eq, if◌then◌else◌, ◌==◌, ℤ, pos, ◌≤ℤ◌, arith,
  bits64, length, inl,
}
use bandwidth_monitor.Sorting.Insertion.{insertion}
use bandwidth_monitor.Nextdns.{Snapshot, summarize, get_summary, new}
use bandwidth_monitor.Http.{Response}
use bandwidth_monitor.Nextdns.Fetch.{Server}
use bandwidth_monitor.Nextdns.Requests.{polls_of, no_series, get_summary-polls_of}
use bandwidth_monitor.Nextdns.Totals.{summarize-totals}
use bandwidth_monitor.Nextdns.Series.{summarize-series, item}
use bandwidth_monitor.Tests.Samples.{whole}

abbrev some_stats : Snapshot
some_stats = record {
  status =
      record { status = "default"; queries = pos 900 }
      ∷ record { status = "blocked"; queries = pos 80 }
      ∷ record { status = "allowed"; queries = pos 20 }
      ∷ [];
  domains = record { domain = "example.org"; queries = pos 7 } ∷ [];
  blocked = [];
  clients = [];
  status_ts =
      record { status = "default"; queries = some (pos 10 ∷ pos 20 ∷ []) }
      ∷ record { status = "blocked"; queries = some (pos 1 ∷ pos 2 ∷ []) }
      ∷ record { status = "allowed"; queries = some (pos 5 ∷ pos 6 ∷ pos 7 ∷ []) }
      ∷ [];
}

abbrev answer : {A : Type 0} → A → Option (Response A)
answer data_of = some (record { status = 200; body = some data_of })

abbrev working : Server
working = record {
  status = λ url key. if key == "key" then answer some_stats.status else none;
  domains = λ url key.
      if url == "https://api.nextdns.io/profiles/abc/analytics/domains?from=-24h&limit=10"
      then answer some_stats.domains
      else answer [];
  clients = λ url key. answer [];
  series = λ url key. answer some_stats.status_ts;
}

-- The last of the five requests is refused.
abbrev failing : Server
failing = record working { series = λ url key. some (record { status = 503; body = none }) }

get_summary-polls_of_example :
    get_summary whole insertion (polls_of (failing ∷ working ∷ failing ∷ []) (new "abc" "key" 30))
    ≡ some (summarize whole insertion some_stats)
unfolding new
get_summary-polls_of_example =
    get_summary-polls_of whole insertion (new "abc" "key" 30) (failing ∷ []) working (failing ∷ [])
      some_stats
      (record { status = refl; domains = refl; blocked = refl; clients = refl; series = refl })
      (no_series (inl (omega arith)), tt)

summarize-totals_example :
    let s = summarize whole insertion some_stats in
    (s.total_queries ≡ pos 1000) × (s.blocked_total ≡ pos 80) × ◌≤ℤ◌ s.blocked_total s.total_queries
summarize-totals_example =
    summarize-totals whole insertion some_stats (refl, (refl, (refl, tt))) (omega arith)

summarize-series_example :
    let s = summarize whole insertion some_stats in
    (qs : List ℤ) × (s.queries_series ≡ some qs)
    × (length qs ≡ 2)
    × (bits64 (item 1 qs) ≡ 28)
    × (s.blocked_series ≡ some (pos 1 ∷ pos 2 ∷ []))
summarize-series_example = summarize-series whole insertion some_stats 1 (pos 10 ∷ pos 20 ∷ []) refl
