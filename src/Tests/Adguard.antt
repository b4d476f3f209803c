-- ===== src/Tests/Adguard.antt =====
-- Runs of the AdGuard Home client.
use bandwidth_monitor.Common.{◌≡◌, refl, some, none, [], ◌∷◌, pos, inr}
use bandwidth_monitor.Sorting.Insertion.{insertion}
use bandwidth_monitor.Adguard.{Stats, new, summarize, get_summary, build_upstreams}
use bandwidth_monitor.Adguard.Upstreams.{IsUpstreams, build_upstreams-IsUpstreams}
use bandwidth_monitor.Adguard.Fetch.{Server}
use bandwidth_monitor.Adguard.Requests.{polls_of, get_summary-served}
use bandwidth_monitor.Tests.Samples.{whole}

abbrev some_stats : Stats whole
some_stats = record {
  num_dns_queries = pos 1000;
  num_blocked_filtering = pos 100;
  num_replaced_safebrows = pos 1;
  num_replaced_parental = pos 2;
  num_replaced_safesrch = pos 3;
  avg_processing_time = pos 0;
  top_queried_domains = (("example.org", pos 7) ∷ []) ∷ (("example.com", pos 9) ∷ []) ∷ [];
  top_blocked_domains = (("ads.example.com", pos 90) ∷ []) ∷ [];
  top_clients = (("192.168.1.5", pos 1000) ∷ []) ∷ [];
  top_upstreams_responses = (("1.1.1.1", pos 600) ∷ []) ∷ (("8.8.8.8", pos 300) ∷ []) ∷ [];
  top_upstreams_avg_time = (("8.8.8.8", pos 2) ∷ []) ∷ (("9.9.9.9", pos 3) ∷ []) ∷ [];
  dns_queries = some (pos 400 ∷ pos 600 ∷ []);
  blocked_filtering = none;
  time_units = "hours";
}

-- A server that wants a user, one that cannot be reached, and one whose answer cannot be decoded.
abbrev working : Server whole
working url none = some (record { status = 401; body = none })
working url (some user) = some (record { status = 200; body = some some_stats })

abbrev unreachable : Server whole
unreachable url user = none

abbrev broken : Server whole
broken url user = some (record { status = 200; body = none })

get_summary-served_example :
    get_summary whole insertion (
      polls_of whole
        (broken ∷ working ∷ unreachable ∷ broken ∷ [])
        (new whole "http://dns" "admin" "secret" 10))
    ≡ some (summarize whole insertion some_stats)
unfolding new
get_summary-served_example =
    get_summary-served whole insertion (new whole "http://dns" "admin" "secret" 10) (broken ∷ [])
      working (unreachable ∷ broken ∷ []) some_stats refl (tt, (inr refl, tt))

build_upstreams-IsUpstreams_example :
    IsUpstreams whole some_stats.top_upstreams_responses some_stats.top_upstreams_avg_time (
      build_upstreams whole insertion some_stats.top_upstreams_responses
        some_stats.top_upstreams_avg_time)
build_upstreams-IsUpstreams_example =
    build_upstreams-IsUpstreams whole insertion some_stats.top_upstreams_responses
      some_stats.top_upstreams_avg_time
