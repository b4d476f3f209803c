-- ===== src/Nextdns/Requests.antt =====
-- nextdns/nextdns.go: many polls with their requests.
use bandwidth_monitor.Common.{
  ◌≡◌, refl, ◌∙◌, ap, Option, none, some, List, [], ◌∷◌, ◌++◌, All, map, String, arith,
}
use bandwidth_monitor.Http.{Response, decoded, Gives, Denies, decoded-Gives, decoded-Denies}
use bandwidth_monitor.Texts.{◌<>◌}
use bandwidth_monitor.Float.{Float}
use bandwidth_monitor.Sorting.{Sort}
use bandwidth_monitor.Nextdns.{
  Client, Snapshot, Api, fetch_all, store, poll, summarize, get_summary,
}
use bandwidth_monitor.Nextdns.Fetch.{Get, Server, fetch_json, api_of, poll_server}
use bandwidth_monitor.Nextdns.Polling.{polls, Fails, get_summary-polls}

-- The polls of `Run`, each with what the API answers.
unfoldable pub polls_of : List Server → Client → Client
unfolding poll_server
polls_of [] c = c
polls_of (s ∷ ss) c = polls_of ss (poll_server s c)

abbrev apis : List Server → Client → List Api
apis ss c = map (λ s. api_of s c) ss

-- A poll does not change the next requests.
poll-api_of : (api : Api) (c : Client) (s : Server) → api_of s (poll api c) ≡ api_of s c
unfolding fetch_json poll
poll-api_of api c s = stored (fetch_all api)
  where
    stored : (o : Option Snapshot) → api_of s (store c o) ≡ api_of s c
    stored none = refl
    stored (some snap) = refl

poll-apis : (api : Api) (c : Client) (ss : List Server) → apis ss (poll api c) ≡ apis ss c
poll-apis api c [] = refl
poll-apis api c (s ∷ ss) = rw (poll-api_of api c s, poll-apis api c ss) refl

polls_of-polls : (ss : List Server) (c : Client) → polls_of ss c ≡ polls (apis ss c) c
unfolding polls_of polls
polls_of-polls [] c = refl
polls_of-polls (s ∷ ss) c =
    let api = api_of s c in
    polls_of-polls ss (poll api c) ∙ ap (λ as'. polls as' (poll api c)) (poll-apis api c ss)

-- What the API answers the client for a path, with the key of the client.
abbrev pub answer_to : {A : Type 0} → Client → Get A → String → Option (Response A)
answer_to c get path = get ("https://api.nextdns.io" <> "/profiles/" <> c.profile <> path) c.api_key

fetch_json-answer_to :
    {A : Type 0} (c : Client) (get : Get A) (path : String)
    → fetch_json get c path ≡ decoded (answer_to c get path)
unfolding fetch_json
fetch_json-answer_to c get path = refl

abbrev pub status_path : String
status_path = "/analytics/status?from=-24h&limit=500"

abbrev pub domains_path : String
domains_path = "/analytics/domains?from=-24h&limit=10"

abbrev pub blocked_path : String
blocked_path = "/analytics/domains?from=-24h&status=blocked&limit=10"

abbrev pub clients_path : String
clients_path = "/analytics/ips?from=-24h&limit=10"

abbrev pub series_path : String
series_path = "/analytics/status;series?from=-24h&interval=1800"

-- The five requests are answered with the status 200 and these data.
pub record Serves (c : Client) (s : Server) (snap : Snapshot) : Type 0 where
  pub status : Gives (answer_to c s.status status_path) snap.status
  pub domains : Gives (answer_to c s.domains domains_path) snap.domains
  pub blocked : Gives (answer_to c s.domains blocked_path) snap.blocked
  pub clients : Gives (answer_to c s.clients clients_path) snap.clients
  pub series : Gives (answer_to c s.series series_path) snap.status_ts

-- One of the five is not answered with the status 200 and data.
pub data Refuses (c : Client) (s : Server) : Type 0 where
  no_status : Denies (answer_to c s.status status_path) → Refuses c s
  no_domains : Denies (answer_to c s.domains domains_path) → Refuses c s
  no_blocked : Denies (answer_to c s.domains blocked_path) → Refuses c s
  no_clients : Denies (answer_to c s.clients clients_path) → Refuses c s
  no_series : Denies (answer_to c s.series series_path) → Refuses c s

fetch_json-Gives :
    {A : Type 0} (c : Client) (get : Get A) (path : String) (body : A)
    → Gives (answer_to c get path) body
    → fetch_json get c path ≡ some body
fetch_json-Gives c get path body h =
    fetch_json-answer_to c get path ∙ decoded-Gives (answer_to c get path) body h

fetch_json-Denies :
    {A : Type 0} (c : Client) (get : Get A) (path : String)
    → Denies (answer_to c get path)
    → fetch_json get c path ≡ none
fetch_json-Denies c get path h =
    fetch_json-answer_to c get path ∙ decoded-Denies (answer_to c get path) h

Serves-fetch_all :
    (c : Client) (s : Server) (snap : Snapshot)
    → Serves c s snap
    → fetch_all (api_of s c) ≡ some snap
unfolding fetch_all
Serves-fetch_all c s snap h =
    rw
      (
        fetch_json-Gives c s.status status_path snap.status h.status,
        fetch_json-Gives c s.domains domains_path snap.domains h.domains,
        fetch_json-Gives c s.domains blocked_path snap.blocked h.blocked,
        fetch_json-Gives c s.clients clients_path snap.clients h.clients,
        fetch_json-Gives c s.series series_path snap.status_ts h.series,
      )
      refl

-- A request that gets nothing ends the poll, wherever it stands.
Refuses-Fails : (c : Client) (s : Server) → Refuses c s → Fails (api_of s c)
unfolding fetch_all
Refuses-Fails c s (no_status h) = ground (arith, fetch_json-Denies c s.status status_path h)
Refuses-Fails c s (no_domains h) = ground (arith, fetch_json-Denies c s.domains domains_path h)
Refuses-Fails c s (no_blocked h) = ground (arith, fetch_json-Denies c s.domains blocked_path h)
Refuses-Fails c s (no_clients h) = ground (arith, fetch_json-Denies c s.clients clients_path h)
Refuses-Fails c s (no_series h) = ground (arith, fetch_json-Denies c s.series series_path h)

apis-append :
    (xs : List Server) (s : Server) (ys : List Server) (c : Client)
    → apis (xs ++ (s ∷ ys)) c ≡ apis xs c ++ (api_of s c ∷ apis ys c)
apis-append [] s ys c = refl
apis-append (x ∷ xs) s ys c = ap (◌∷◌ (api_of x c)) (apis-append xs s ys c)

apis-Fails : (c : Client) (ss : List Server) → All (Refuses c) ss → All Fails (apis ss c)
apis-Fails c [] h = tt
apis-Fails c (s ∷ ss) h = (Refuses-Fails c s h.0, apis-Fails c ss h.1)

-- After any polls, the NextDNS summary is that of the latest poll whose five requests were all
-- answered with the status 200 and data. A later poll in which one of the five fails, or is answered
-- with another status or with a body that cannot be decoded, changes nothing.
pub get_summary-polls_of :
    (fl : Float) (sort : Sort) (c : Client) (earlier : List Server) (s : Server)
    (later : List Server) (snap : Snapshot)
    → Serves c s snap
    → All (Refuses c) later
    → get_summary fl sort (polls_of (earlier ++ (s ∷ later)) c) ≡ some (summarize fl sort snap)
get_summary-polls_of fl sort c earlier s later snap good bad =
    ap (get_summary fl sort) (
      polls_of-polls (earlier ++ (s ∷ later)) c
      ∙ ap (λ as'. polls as' c) (apis-append earlier s later c))
    ∙ get_summary-polls fl sort c (apis earlier c) (api_of s c) (apis later c) snap
        (Serves-fetch_all c s snap good) (apis-Fails c later bad)
