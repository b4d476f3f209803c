-- ===== src/Unifi/Client/Memory.antt =====
-- unifi/unifi.go: what the client keeps from poll to poll.
use bandwidth_monitor.Common.{
  ℕ, String, ◌≡◌, refl, ◌∙◌, Option, none, some, List, [], ◌∷◌, map, nat_eq, string_eq,
}
use bandwidth_monitor.Float.{Float}
use bandwidth_monitor.Maps.{Map, get, put, get-put, last_at, is_some}
use bandwidth_monitor.Sorting.{Sort}
use bandwidth_monitor.Unifi.{Session}
use bandwidth_monitor.Unifi.Summaries.{ByteSnap, RawDevice, RawClient, Summary, build_summary}
use bandwidth_monitor.Unifi.Client.{
  Client, World, new, since, keep, ap_snap, ssid_snap, client_snap, store, with_clients,
  with_devices, poll, polls,
}

get-keep :
    {A : Type 0} (snap : A → String × ByteSnap) (k : String) (list : List A)
    (m : Map String ByteSnap)
    → get k (keep snap list m) ≡ last_at k (map snap list) (get k m)
unfolding keep
get-keep snap k [] m = refl
get-keep snap k (a ∷ list) m =
    get-keep snap k list (put (snap a).0 (snap a).1 m) ∙ rw (get-put (snap a).0 k (snap a).1 m)

module _ (fl : Float) where
  -- The counters that a summary shows, by the keys under which they are kept.
  abbrev pub ap_counters : Option (Summary fl) → Map String ByteSnap
  ap_counters none = []
  ap_counters (some s) = map (λ a. (a.mac, record { tx = a.tx_bytes; rx = a.rx_bytes })) s.aps

  abbrev pub ssid_counters : Option (Summary fl) → Map String ByteSnap
  ssid_counters none = []
  ssid_counters (some s) = map (λ n. (n.name, record { tx = n.tx_bytes; rx = n.rx_bytes })) s.ssids

  abbrev pub client_counters : Option (Summary fl) → Map String ByteSnap
  client_counters none = []
  client_counters (some s) =
      map (λ c. (c.mac, record { tx = c.tx_bytes; rx = c.rx_bytes })) s.clients

  -- The kept counters are those that the last summary shows, and there is a time of the last poll
  -- exactly if there is a summary.
  pub record Remembers (c : Client fl) : Type 0 where
    pub ap : (k : String) → get k c.previous.ap ≡ last_at k (ap_counters c.summary) none
    pub ssid : (k : String) → get k c.previous.ssid ≡ last_at k (ssid_counters c.summary) none
    pub cli : (k : String) → get k c.previous.cli ≡ last_at k (client_counters c.summary) none
    pub time : is_some c.last_poll ≡ is_some c.summary

  -- The session has no part in it.
  session-Remembers :
      (c : Client fl) (s : Session) → Remembers c → Remembers (record c { session = s })
  session-Remembers c s h = record { ap = h.ap; ssid = h.ssid; cli = h.cli; time = h.time }

  module _ (sort : Sort) where
    store-Remembers :
        (now : ℕ) (devices : List RawDevice) (clients : List RawClient) (c : Client fl)
        → Remembers (store fl sort now devices clients c)
    unfolding store get
    store-Remembers now devices clients c =
        let sum = build_summary fl sort c.previous (since fl now c.last_poll) devices clients in
        record {
          ap = λ k. get-keep (ap_snap fl) k sum.aps [];
          ssid = λ k. get-keep (ssid_snap fl) k sum.ssids [];
          cli = λ k. get-keep (client_snap fl) k sum.clients [];
          time = refl;
        }

    with_clients-Remembers :
        (now : ℕ) (devices : List RawDevice) (c : Client fl) (o : Option (List RawClient))
        → Remembers c
        → Remembers (with_clients fl sort now devices c o)
    unfolding with_clients
    with_clients-Remembers now devices c none h = h
    with_clients-Remembers now devices c (some clients) h = store-Remembers now devices clients c

    with_devices-Remembers :
        (w : World) (now : ℕ) (c : Client fl) (r : Session × Option (List RawDevice))
        → Remembers c
        → Remembers (with_devices fl sort w now c r)
    unfolding with_devices
    with_devices-Remembers w now c (s, none) h = session-Remembers c s h
    with_devices-Remembers w now c (s, some devices) h =
        with_clients-Remembers now devices (record c { session = s }) _ (session-Remembers c s h)

    steps-Remembers :
        (ws : List (World × ℕ)) (c : Client fl) → Remembers c → Remembers (polls fl sort ws c)
    unfolding polls poll
    steps-Remembers [] c h = h
    steps-Remembers ((w, now) ∷ ws) c h = steps-Remembers ws _ (with_devices-Remembers w now c _ h)

    new-Remembers :
        (base_url user pass site : String) (interval : ℕ)
        → Remembers (new fl base_url user pass site interval)
    unfolding new get
    new-Remembers base_url user pass site interval = record {
      ap = λ k. refl;
      ssid = λ k. refl;
      cli = λ k. refl;
      time = refl;
    }

    -- After any polls, whatever the controller answered, a new UniFi client keeps as its previous
    -- counters exactly those that its summary shows, by the last entry of each key, and none before the
    -- first summary; and it has a time of its last poll exactly if it has a summary.
    pub polls-Remembers :
        (ws : List (World × ℕ)) (base_url user pass site : String) (interval : ℕ)
        → Remembers (polls fl sort ws (new fl base_url user pass site interval))
    polls-Remembers ws base_url user pass site interval =
        steps-Remembers ws _ (new-Remembers base_url user pass site interval)
