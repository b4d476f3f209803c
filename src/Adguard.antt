-- ===== src/Adguard.antt =====
-- adguard/adguard.go: the AdGuard Home client. What a request answers is a parameter: the decoded
-- statistics, or `none` for an error of the request, the status or the decoding.
pub mod Upstreams
pub mod Summaries
pub mod Fetch
pub mod Requests
use bandwidth_monitor.Texts.{◌<>◌}
use bandwidth_monitor.Common.{
  ℕ, ◌≡◌, Bool, true, false, if◌then◌else◌, Option, none, some, List, [], ◌∷◌, ◌++◌, String,
  string_eq, ℤ, pos, add_i64, ltb_ℤ, map,
}
use bandwidth_monitor.Float.{Float, nought, of_ℕ}
use bandwidth_monitor.Maps.{Map, or_else, get, put, is_some}
use bandwidth_monitor.Sorting.{Sort, cut}
use bandwidth_monitor.Dns.{DomainStat, ClientStat, UpstreamStat, Summary, more_ℤ}

module _ (fl : Float) where
  open fl use {F, mul, div, to_int, of_int}

  -- `none` is a `nil` slice in the series.
  pub record Stats : Type 0 where
    pub num_dns_queries : ℤ
    pub num_blocked_filtering : ℤ
    pub num_replaced_safebrows : ℤ
    pub num_replaced_parental : ℤ
    pub num_replaced_safesrch : ℤ
    pub avg_processing_time : F
    pub top_queried_domains : List (Map String F)
    pub top_blocked_domains : List (Map String F)
    pub top_clients : List (Map String F)
    pub top_upstreams_responses : List (Map String F)
    pub top_upstreams_avg_time : List (Map String F)
    pub dns_queries : Option (List ℤ)
    pub blocked_filtering : Option (List ℤ)
    pub time_units : String

  -- `closed` says whether `stopCh` is closed; `interval` is in nanoseconds.
  pub record Client : Type 0 where
    pub base_url : String
    pub user : String
    pub pass : String
    pub interval : ℕ
    pub stats : Option Stats
    pub closed : Bool

  unfoldable pub new : String → String → String → ℕ → Client
  new base_url user pass poll_interval = record {
    base_url = base_url;
    user = user;
    pass = pass;
    interval = poll_interval;
    stats = none;
    closed = false;
  }

  -- `Stop` may be called again.
  unfoldable pub stop : Client → Client
  stop c = if c.closed then c else record c { closed = true }

  unfoldable pub poll : Option Stats → Client → Client
  poll none c = c
  poll (some s) c = record c { stats = some s }

  -- `String`
  unfoldable pub to_string : Client → String
  to_string c = "AdGuard[" <> c.base_url <> "]"

  unfoldable pub available : Client → Bool
  available c = is_some c.stats

  -- The entries of a list of maps, one after the other.
  unfoldable pub entries : List (Map String F) → Map String F
  entries [] = []
  entries (m ∷ ms) = m ++ entries ms

  abbrev pub as_kv : String × F → String × ℤ
  as_kv (k, v) = (k, to_int v)

  -- `less` of both functions below.
  abbrev pub larger : String × ℤ → String × ℤ → Bool
  larger = more_ℤ (λ p. p.1)

  abbrev pub domain_stat : String × ℤ → DomainStat
  domain_stat (k, v) = record { domain = k; count = v }

  abbrev pub client_stat : String × ℤ → ClientStat
  client_stat (k, v) = record { ip = k; count = v }

  unfoldable pub parse_domain_entries : Sort → List (Map String F) → ℕ → List DomainStat
  unfolding entries
  parse_domain_entries sort raw limit =
      map domain_stat (cut limit (sort.slice larger (map as_kv (entries raw))))

  unfoldable pub parse_client_entries : Sort → List (Map String F) → ℕ → List ClientStat
  unfolding entries
  parse_client_entries sort raw limit =
      map client_stat (cut limit (sort.slice larger (map as_kv (entries raw))))

  -- `for k, v := range m { to[k] = f(v) }` over all entries.
  unfoldable pub set_all : {V : Type 0} → (F → V) → Map String F → Map String V → Map String V
  set_all f [] to = to
  set_all f ((k, v) ∷ m) to = set_all f m (put k (f v) to)

  -- `respMap` and `avgMap`
  unfoldable pub resp_map : List (Map String F) → Map String ℤ
  unfolding set_all entries
  resp_map raw = set_all to_int (entries raw) []

  unfoldable pub avg_map : List (Map String F) → Map String F
  unfolding set_all entries
  avg_map raw = set_all (λ v. mul v (of_ℕ fl 1000)) (entries raw) []

  -- `for k := range m { if !seen[k] { seen[k] = true; keys = append(keys, k) } }`
  unfoldable pub collect :
      {V : Type 0} → Map String V → Map String Bool → List String → Map String Bool × List String
  collect [] seen keys = (seen, keys)
  collect ((k, v) ∷ m) seen keys =
      if or_else (get k seen) false
      then collect m seen keys
      else collect m (put k true seen) (keys ++ k ∷ [])

  abbrev pub all_keys : Map String ℤ → Map String F → List String
  all_keys resp avg = let (seen, keys) = collect resp [] [] in (collect avg seen keys).1

  abbrev pub responses_of : Map String ℤ → String → ℤ
  responses_of resp k = or_else (get k resp) (pos 0)

  abbrev pub upstream : Map String ℤ → Map String F → String → UpstreamStat fl
  upstream resp avg k = record {
    address = k;
    responses = responses_of resp k;
    avg_ms = or_else (get k avg) (nought fl);
  }

  unfoldable pub build_upstreams :
      Sort → List (Map String F) → List (Map String F) → List (UpstreamStat fl)
  unfolding collect
  build_upstreams sort resp_entries avg_entries =
      let resp = resp_map resp_entries in
      let avg = avg_map avg_entries in
      map (upstream resp avg) (sort.slice (more_ℤ (responses_of resp)) (all_keys resp avg))

  unfoldable pub blocked_total : Stats → ℤ
  blocked_total s =
      add_i64
        (add_i64 (add_i64 s.num_blocked_filtering s.num_replaced_safebrows) s.num_replaced_parental)
        s.num_replaced_safesrch

  unfoldable pub summarize : Sort → Stats → Summary fl
  unfolding parse_domain_entries parse_client_entries build_upstreams blocked_total
  summarize sort s = record {
    provider_name = "AdGuard Home";
    total_queries = s.num_dns_queries;
    blocked_total = blocked_total s;
    blocked_percent =
        if ltb_ℤ (pos 0) s.num_dns_queries
        then mul (div (of_int (blocked_total s)) (of_int s.num_dns_queries)) (of_ℕ fl 100)
        else nought fl;
    avg_latency_ms = mul s.avg_processing_time (of_ℕ fl 1000);
    top_queried = parse_domain_entries sort s.top_queried_domains 10;
    top_blocked = parse_domain_entries sort s.top_blocked_domains 10;
    top_clients = parse_client_entries sort s.top_clients 10;
    upstreams = build_upstreams sort s.top_upstreams_responses s.top_upstreams_avg_time;
    queries_series = s.dns_queries;
    blocked_series = s.blocked_filtering;
    time_units = s.time_units;
  }

  unfoldable pub get_summary : Sort → Client → Option (Summary fl)
  unfolding summarize
  get_summary sort c = elim c.stats [ none ↦ none | some s ↦ some (summarize sort s) ]
