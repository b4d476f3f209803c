-- ===== src/Unifi/Client.antt =====
-- unifi/unifi.go: the client and its poll. The controller's answers to HTTP requests are
-- parameters: `none` is an error of the request, and a body that cannot be decoded is `none` too.
pub mod Memory
pub mod Failures
use bandwidth_monitor.Common.{
  ℕ, ◌&&◌, Bool, true, false, not, if◌then◌else◌, nat_beq, Option, none, some, List, [], ◌∷◌,
  String, string_eq, ℤ, pos, sub_i64,
}
use bandwidth_monitor.Http.{Response, decoded}
use bandwidth_monitor.Float.{Float, nought}
use bandwidth_monitor.Maps.{Map, put, is_some}
use bandwidth_monitor.Sorting.{Sort}
use bandwidth_monitor.Texts.{◌<>◌}
use bandwidth_monitor.Unifi.{Session, Reply, fresh_session, poll_devices}
use bandwidth_monitor.Unifi.Summaries.{
  ByteSnap, RawDevice, RawClient, ApInfo, SsidStat, ClientInfo, Summary, Previous, build_summary,
}

-- A GET request: the URL, and the token header if it is set.
abbrev pub Get : Type 0 → Type 0
Get A = String → Option String → Option (Response A)

-- `apiPrefix`
unfoldable pub api_prefix : String → String → Session → String
api_prefix base_url site s =
    if s.unifi_os
    then base_url <> "/proxy/network/api/s/" <> site
    else base_url <> "/api/s/" <> site

abbrev pub token_header : Session → Option String
token_header s =
    if s.unifi_os && not (string_eq.beq s.csrf_token "") then some s.csrf_token else none

-- `fetchDevices` and `fetchClients`, which differ in the end of the URL.
unfoldable pub fetch : {A : Type 0} → Get A → String → String → String → Session → Option A
unfolding api_prefix
fetch get base_url site path s = decoded (get (api_prefix base_url site s <> path) (token_header s))

-- What the controller does in a poll: the replies to the two logins, and to the requests.
pub record World : Type 0 where
  pub post : String → Option Reply
  pub relogin : String → Option Reply
  pub devices : Get (List RawDevice)
  pub devices_again : Get (List RawDevice)
  pub clients : Get (List RawClient)

-- The loops of `poll` over a summary: a later entry replaces an earlier one of the same key.
unfoldable pub keep :
    {A : Type 0} → (A → String × ByteSnap) → List A → Map String ByteSnap → Map String ByteSnap
keep snap [] m = m
keep snap (a ∷ list) m = keep snap list (put (snap a).0 (snap a).1 m)

module _ (fl : Float) where
  -- `last_poll` is `none` for the zero time, and a `nil` map is an empty one. The HTTP client is
  -- part of the `World`.
  pub record Client : Type 0 where
    pub base_url : String
    pub user : String
    pub pass : String
    pub site : String
    pub interval : ℕ
    pub summary : Option (Summary fl)
    pub closed : Bool
    pub session : Session
    pub last_poll : Option ℕ
    pub previous : Previous

  abbrev pub nothing_before : Previous
  nothing_before = record { ap = []; ssid = []; cli = [] }

  unfoldable pub new : String → String → String → String → ℕ → Client
  new base_url user pass site poll_interval = record {
    base_url = base_url;
    user = user;
    pass = pass;
    site = if string_eq.beq site "" then "default" else site;
    interval = poll_interval;
    summary = none;
    closed = false;
    session = fresh_session;
    last_poll = none;
    previous = nothing_before;
  }

  -- `Stop` may be called again.
  unfoldable pub stop : Client → Client
  stop c = if c.closed then c else record c { closed = true }

  -- `String`
  unfoldable pub to_string : Client → String
  to_string c =
      let variant = if c.session.unifi_os then "unifi-os" else "legacy" in
      "UniFi[" <> c.base_url <> "/s/" <> c.site <> " (" <> variant <> ")]"

  unfoldable pub get_summary : Client → Option (Summary fl)
  get_summary c = c.summary

  unfoldable pub available : Client → Bool
  available c = is_some c.summary

  -- Seconds since the last poll, 0 before the first.
  abbrev pub since : ℕ → Option ℕ → fl.F
  since now none = nought fl
  since now (some last) = fl.seconds (sub_i64 (pos now) (pos last))

  -- The keys and counters of `newAP`, `newSSID` and `newCli`.
  abbrev pub ap_snap : ApInfo fl → String × ByteSnap
  ap_snap a = (a.mac, record { tx = a.tx_bytes; rx = a.rx_bytes })

  abbrev pub ssid_snap : SsidStat fl → String × ByteSnap
  ssid_snap s = (s.name, record { tx = s.tx_bytes; rx = s.rx_bytes })

  abbrev pub client_snap : ClientInfo fl → String × ByteSnap
  client_snap c = (c.mac, record { tx = c.tx_bytes; rx = c.rx_bytes })

  abbrev pub snaps : Summary fl → Previous
  snaps sum = record {
    ap = keep ap_snap sum.aps [];
    ssid = keep ssid_snap sum.ssids [];
    cli = keep client_snap sum.clients [];
  }

  module _ (sort : Sort) where
    -- The end of `poll`, once devices and clients are there.
    unfoldable pub store : ℕ → List RawDevice → List RawClient → Client → Client
    unfolding keep
    store now devices clients c =
        let sum = build_summary fl sort c.previous (since now c.last_poll) devices clients in
        record c { summary = some sum; previous = snaps sum; last_poll = some now }

    unfoldable pub with_clients : ℕ → List RawDevice → Client → Option (List RawClient) → Client
    unfolding store
    with_clients now devices c none = c
    with_clients now devices c (some clients) = store now devices clients c

    unfoldable pub with_devices : World → ℕ → Client → Session × Option (List RawDevice) → Client
    unfolding with_clients fetch
    with_devices w now c (s, none) = record c { session = s }
    with_devices w now c (s, some devices) =
        with_clients now devices (record c { session = s })
          (fetch w.clients c.base_url c.site "/stat/sta" s)

    unfoldable pub poll : World → ℕ → Client → Client
    unfolding with_devices
    poll w now c = with_devices w now c (
        poll_devices w.post w.relogin (fetch w.devices c.base_url c.site "/stat/device")
          (fetch w.devices_again c.base_url c.site "/stat/device") c.session)

    -- The polls of `Run`, each with its time.
    unfoldable pub polls : List (World × ℕ) → Client → Client
    unfolding poll
    polls [] c = c
    polls ((w, now) ∷ ws) c = polls ws (poll w now c)
