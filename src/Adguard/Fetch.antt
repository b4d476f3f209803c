-- ===== src/Adguard/Fetch.antt =====
-- adguard/adguard.go: the request of `poll`, for a server that is a parameter.
use bandwidth_monitor.Common.{not, if◌then◌else◌, Option, none, some, String, string_eq}
use bandwidth_monitor.Float.{Float}
use bandwidth_monitor.Http.{Response, decoded}
use bandwidth_monitor.Texts.{◌<>◌}
use bandwidth_monitor.Adguard.{Client, Stats, poll}

module _ (fl : Float) where
  -- A GET request: the URL, and the user and password if there is a user.
  abbrev pub Server : Type 0
  Server = String → Option (String × String) → Option (Response (Stats fl))

  abbrev pub basic_auth : Client fl → Option (String × String)
  basic_auth c = if not (string_eq.beq c.user "") then some (c.user, c.pass) else none

  unfoldable pub fetch_stats : Server → Client fl → Option (Stats fl)
  fetch_stats get c = decoded (get (c.base_url <> "/control/stats") (basic_auth c))

  -- `poll` with its request.
  unfoldable pub poll_server : Server → Client fl → Client fl
  unfolding fetch_stats
  poll_server get c = poll fl (fetch_stats get c) c
