-- ===== src/Nextdns/Fetch.antt =====
-- nextdns/nextdns.go: `fetchJSON`, for an API that is a parameter.
use bandwidth_monitor.Common.{Option, List, String}
use bandwidth_monitor.Http.{Response, decoded}
use bandwidth_monitor.Texts.{◌<>◌}
use bandwidth_monitor.Nextdns.{
  Client, Api, StatusEntry, DomainEntry, ClientEntry, StatusTsEntry, poll,
}

abbrev pub api_base : String
api_base = "https://api.nextdns.io"

-- A GET request: the URL and the key in its header.
abbrev pub Get : Type 0 → Type 0
Get A = String → String → Option (Response A)

unfoldable pub fetch_json : {A : Type 0} → Get A → Client → String → Option A
fetch_json get c path = decoded (get (api_base <> "/profiles/" <> c.profile <> path) c.api_key)

-- What the API answers, for each type of data.
pub record Server : Type 0 where
  pub status : Get (List StatusEntry)
  pub domains : Get (List DomainEntry)
  pub clients : Get (List ClientEntry)
  pub series : Get (List StatusTsEntry)

abbrev pub api_of : Server → Client → Api
api_of s c = record {
  status = fetch_json s.status c;
  domains = fetch_json s.domains c;
  clients = fetch_json s.clients c;
  series = fetch_json s.series c;
}

-- `poll` with its requests.
unfoldable pub poll_server : Server → Client → Client
poll_server s c = poll (api_of s c) c
