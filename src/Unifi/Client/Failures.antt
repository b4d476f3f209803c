-- ===== src/Unifi/Client/Failures.antt =====
-- unifi/unifi.go: polls that fail.
use bandwidth_monitor.Common.{
  ℕ, String, ◌≡◌, refl, sym, ap, ◌∙◌, ◌⊎◌, inl, inr, Bool, true, false, Option, none, some, List,
  [], ◌∷◌, arith, nat_eq, string_eq, All,
}
use bandwidth_monitor.Float.{Float}
use bandwidth_monitor.Sorting.{Sort}
use bandwidth_monitor.Unifi.{Session, Reply, poll_devices, with_session, fetched, retried}
use bandwidth_monitor.Unifi.Summaries.{RawDevice, RawClient}
use bandwidth_monitor.Http.{decoded}
use bandwidth_monitor.Unifi.Client.{
  Client, World, Get, fetch, with_clients, with_devices, poll, polls,
}

-- A request fails, for every URL: with an error, another status than 200, or a body that cannot be
-- decoded.
abbrev pub Unanswered : {A : Type 0} → Get A → Type 0
Unanswered get = (url : String) (token : Option String) → decoded (get url token) ≡ none

-- The controller does not give the clients, or twice not the devices.
abbrev pub Fails : World → Type 0
Fails w = Unanswered w.clients ⊎ (Unanswered w.devices × Unanswered w.devices_again)

fetch-none :
    {A : Type 0} (get : Get A) (base_url site path : String) (s : Session)
    → Unanswered get
    → fetch get base_url site path s ≡ none
unfolding fetch
fetch-none get base_url site path s h = h _ _

module _ {D : Type 0} where
  retried-none :
      (again : Session → Option D) (r : Session × Bool)
      → ((s : Session) → again s ≡ none)
      → (retried again r).1 ≡ none
  unfolding retried
  retried-none again (s, false) h = refl
  retried-none again (s, true) h = h s

  fetched-none :
      (post : String → Option Reply) (again : Session → Option D) (s : Session) (o : Option D)
      → o ≡ none
      → ((t : Session) → again t ≡ none)
      → (fetched post again s o).1 ≡ none
  unfolding fetched
  fetched-none post again s none e h = retried-none again _ h
  fetched-none post again s (some d) e h = absurd (ground (arith, e))

  with_session-none :
      (post : String → Option Reply) (first again : Session → Option D) (r : Session × Bool)
      → ((s : Session) → first s ≡ none)
      → ((s : Session) → again s ≡ none)
      → (with_session post first again r).1 ≡ none
  unfolding with_session
  with_session-none post first again (s, false) e h = refl
  with_session-none post first again (s, true) e h = fetched-none post again s (first s) (e s) h

module _ (fl : Float) (sort : Sort) where
  devices-none :
      (w : World) (c : Client fl)
      → Unanswered w.devices
      → Unanswered w.devices_again
      → (poll_devices w.post w.relogin
          (fetch w.devices c.base_url c.site "/stat/device")
          (fetch w.devices_again c.base_url c.site "/stat/device")
          c.session).1
        ≡ none
  unfolding poll_devices
  devices-none w c h k =
      with_session-none w.relogin _ _ _
        (λ s. fetch-none w.devices c.base_url c.site "/stat/device" s h)
        (λ s. fetch-none w.devices_again c.base_url c.site "/stat/device" s k)

  with_clients-none :
      (now : ℕ) (devices : List RawDevice) (c : Client fl) (o : Option (List RawClient))
      → o ≡ none
      → with_clients fl sort now devices c o ≡ c
  unfolding with_clients
  with_clients-none now devices c none e = refl
  with_clients-none now devices c (some clients) e = absurd (ground (arith, e))

  abbrev KeepsAll : Client fl → Client fl → Type 0
  KeepsAll c c' = c' ≡ record c { session = c'.session }

  with_devices-KeepsAll :
      (w : World) (now : ℕ) (c : Client fl) (r : Session × Option (List RawDevice))
      → Unanswered w.clients ⊎ (r.1 ≡ none)
      → KeepsAll c (with_devices fl sort w now c r)
  unfolding with_devices
  with_devices-KeepsAll w now c (s, none) h = refl
  with_devices-KeepsAll w now c (s, some devices) (inr e) = absurd (ground (arith, e))
  with_devices-KeepsAll w now c (s, some devices) (inl h) =
      let c' : Client fl = record c { session = s } in
      let e =
        with_clients-none now devices c' (fetch w.clients c.base_url c.site "/stat/sta" s)
          (fetch-none w.clients c.base_url c.site "/stat/sta" s h) in
      e ∙ ap (λ (d : Client fl). record c { session = d.session }) (sym e)

  poll-KeepsAll :
      (w : World) (now : ℕ) (c : Client fl) → Fails w → KeepsAll c (poll fl sort w now c)
  unfolding poll
  poll-KeepsAll w now c (inl h) = with_devices-KeepsAll w now c _ (inl h)
  poll-KeepsAll w now c (inr (h, k)) = with_devices-KeepsAll w now c _ (inr (devices-none w c h k))

  -- As long as the controller does not give the clients, or the devices neither at first nor after a
  -- new login, the polls change nothing of the UniFi client but its session: the summary, the previous
  -- counters and the time of the last poll stay.
  pub polls-failed :
      (ws : List (World × ℕ)) (c : Client fl)
      → All (λ p. Fails p.0) ws
      → polls fl sort ws c ≡ record c { session = (polls fl sort ws c).session }
  unfolding polls
  polls-failed [] c h = refl
  polls-failed ((w, now) ∷ ws) c h =
      let one = poll-KeepsAll w now c h.0 in
      polls-failed ws (poll fl sort w now c) h.1
      ∙ ap
          (λ (d : Client fl). record d {
            session = (polls fl sort ws (poll fl sort w now c)).session;
          })
          one
