-- ===== src/Nextdns.antt =====
-- nextdns/nextdns.go: the NextDNS client. What the API answers to a request is a parameter: the
-- decoded data, or `none` for an error of the request, the status or the decoding.
pub mod Totals
pub mod Series
pub mod Polling
pub mod Fetch
pub mod Requests
use bandwidth_monitor.Texts.{◌<>◌}
use bandwidth_monitor.Common.{
  ℕ, ◌≡◌, Bool, true, false, ◌||◌, if◌then◌else◌, Option, none, some, List, [], ◌∷◌, String,
  string_eq, ℤ, pos, add_i64, ltb_ℤ, length, map, ◌>>=◌,
}
use bandwidth_monitor.Float.{Float, nought, of_ℕ}
use bandwidth_monitor.Maps.{or_else, is_some}
use bandwidth_monitor.Sorting.{Sort}
use bandwidth_monitor.Dns.{DomainStat, ClientStat, Summary, more_ℤ}

pub record StatusEntry : Type 0 where
  pub status : String
  pub queries : ℤ

pub record DomainEntry : Type 0 where
  pub domain : String
  pub queries : ℤ

pub record ClientEntry : Type 0 where
  pub ip : String
  pub queries : ℤ

-- `none` is a `nil` slice.
pub record StatusTsEntry : Type 0 where
  pub status : String
  pub queries : Option (List ℤ)

pub record Snapshot : Type 0 where
  pub status : List StatusEntry
  pub domains : List DomainEntry
  pub blocked : List DomainEntry
  pub clients : List ClientEntry
  pub status_ts : List StatusTsEntry

-- `closed` says whether `stopCh` is closed; `interval` is in nanoseconds.
pub record Client : Type 0 where
  pub profile : String
  pub api_key : String
  pub interval : ℕ
  pub stats : Option Snapshot
  pub closed : Bool

unfoldable pub new : String → String → ℕ → Client
new profile api_key poll_interval = record {
  profile = profile;
  api_key = api_key;
  interval = poll_interval;
  stats = none;
  closed = false;
}

-- `Stop` may be called again.
unfoldable pub stop : Client → Client
stop c = if c.closed then c else record c { closed = true }

-- What `fetchJSON` returns for a path, for each type of data.
pub record Api : Type 0 where
  pub status : String → Option (List StatusEntry)
  pub domains : String → Option (List DomainEntry)
  pub clients : String → Option (List ClientEntry)
  pub series : String → Option (List StatusTsEntry)

-- The requests of a poll, one after the other, until one fails.
unfoldable pub fetch_all : Api → Option Snapshot
fetch_all api = do
  status ← api.status "/analytics/status?from=-24h&limit=500"
  domains ← api.domains "/analytics/domains?from=-24h&limit=10"
  blocked ← api.domains "/analytics/domains?from=-24h&status=blocked&limit=10"
  clients ← api.clients "/analytics/ips?from=-24h&limit=10"
  series ← api.series "/analytics/status;series?from=-24h&interval=1800"
  some (record {
    status = status;
    domains = domains;
    blocked = blocked;
    clients = clients;
    status_ts = series;
  })

abbrev pub store : Client → Option Snapshot → Client
store c none = c
store c (some snap) = record c { stats = some snap }

unfoldable pub poll : Api → Client → Client
unfolding fetch_all
poll api c = store c (fetch_all api)

-- `String`
unfoldable pub to_string : Client → String
to_string c = "NextDNS[profile=" <> c.profile <> "]"

unfoldable pub available : Client → Bool
available c = is_some c.stats

-- The two sums of `GetSummary`.
unfoldable pub totals : List StatusEntry → ℤ → ℤ → ℤ × ℤ
totals [] total blocked = (total, blocked)
totals (s ∷ ss) total blocked =
    totals ss (add_i64 total s.queries)
      (if string_eq.beq s.status "blocked" then add_i64 blocked s.queries else blocked)

-- `for i, v := range vs { if i < len(xs) { xs[i] += v } }`
unfoldable pub add_into : List ℤ → List ℤ → List ℤ
add_into [] vs = []
add_into (x ∷ xs) [] = x ∷ xs
add_into (x ∷ xs) (v ∷ vs) = add_i64 x v ∷ add_into xs vs

-- The elements of a slice, none if it is `nil`.
abbrev pub elements : Option (List ℤ) → List ℤ
elements q = or_else q []

-- `make([]int, len(xs))`
unfoldable pub zeros : List ℤ → List ℤ
zeros [] = []
zeros (x ∷ xs) = pos 0 ∷ zeros xs

-- A round of the loop for an entry that is `default` or `allowed`.
abbrev pub add_allowed : Option (List ℤ) → List ℤ → List ℤ
add_allowed none qs = add_into (zeros qs) qs
add_allowed (some sum) qs = add_into sum qs

abbrev pub is_allowed : String → Bool
is_allowed s = string_eq.beq s "default" || string_eq.beq s "allowed"

-- The loop over `statusTS`, with `queriesSeries` and `blockedSeries`.
unfoldable pub merge :
    List StatusTsEntry → Option (List ℤ) → Option (List ℤ) → Option (List ℤ) × Option (List ℤ)
unfolding add_into zeros
merge [] queries blocked = (queries, blocked)
merge (ts ∷ rest) queries blocked =
    merge rest
      (if is_allowed ts.status then some (add_allowed queries (elements ts.queries)) else queries)
      (if is_allowed ts.status
        then blocked
        else if string_eq.beq ts.status "blocked"
        then ts.queries
        else blocked)

-- The blocked queries are added to the others, unless one of the slices is `nil`.
abbrev pub add_blocked : Option (List ℤ) × Option (List ℤ) → Option (List ℤ)
add_blocked (some queries, some blocked) = some (add_into queries blocked)
add_blocked (queries, none) = queries
add_blocked (none, some blocked) = none

unfoldable pub to_domain_stats : Sort → List DomainEntry → List DomainStat
to_domain_stats sort entries =
    sort.slice (more_ℤ (λ d. d.count))
      (map (λ e. record { domain = e.domain; count = e.queries }) entries)

unfoldable pub to_client_stats : Sort → List ClientEntry → List ClientStat
to_client_stats sort entries =
    sort.slice (more_ℤ (λ d. d.count)) (map (λ e. record { ip = e.ip; count = e.queries }) entries)

module _ (fl : Float) where
  open fl use {mul, div, of_int}

  -- `blockedPct`
  unfoldable pub percent : ℤ → ℤ → fl.F
  percent blocked total =
      if ltb_ℤ (pos 0) total
      then mul (div (of_int blocked) (of_int total)) (of_ℕ fl 100)
      else nought fl

  unfoldable pub summarize : Sort → Snapshot → Summary fl
  unfolding totals merge percent
  summarize sort snap =
      let (total, blocked) = totals snap.status (pos 0) (pos 0) in
      let series = merge snap.status_ts none none in
      record {
        provider_name = "NextDNS";
        total_queries = total;
        blocked_total = blocked;
        blocked_percent = percent blocked total;
        avg_latency_ms = nought fl;
        top_queried = to_domain_stats sort snap.domains;
        top_blocked = to_domain_stats sort snap.blocked;
        top_clients = to_client_stats sort snap.clients;
        upstreams = [];
        queries_series = add_blocked series;
        blocked_series = series.1;
        time_units = "hours";
      }

  unfoldable pub get_summary : Sort → Client → Option (Summary fl)
  unfolding summarize
  get_summary sort c = elim c.stats [ none ↦ none | some snap ↦ some (summarize sort snap) ]
