-- ===== src/Handler/Wifi.antt =====
-- handler/handler.go with unifi/unifi.go: the access points in the menu bar.
use bandwidth_monitor.Common.{
  ℕ, ◌+◌, ◌≡◌, refl, ◌∙◌, if◌then◌else◌, Bool-cases, inl, inr, Option, some, List, [], ◌∷◌, String,
  string_eq, ℤ, pos, negsuc, arith, length, sum_of, u64, bits64, add_i64, add_i64-bits64,
}
use bandwidth_monitor.Float.{Float}
use bandwidth_monitor.Maps.{Map}
use bandwidth_monitor.Sorting.{Sort, length-perm, sum_of-perm}
use bandwidth_monitor.Unifi.Summaries.{
  ByteSnap, RawDevice, RawClient, ApInfo, access_points, by_name, build_summary,
}
use bandwidth_monitor.Unifi.{Session, poll_devices}
use bandwidth_monitor.Unifi.Client.{
  Client, World, fetch, poll, with_devices, with_clients, store, since, get_summary,
}
use bandwidth_monitor.Handler.{Parts, WifiBrief, total_clients, menu_bar_of}

module _ (fl : Float) where
  -- A measure of the access points among the devices.
  abbrev pub of_aps : (RawDevice → ℕ) → List RawDevice → ℕ
  of_aps f = sum_of (λ d. if string_eq.beq d.kind "uap" then f d else 0)

  bits64-total_clients :
      (aps : List (ApInfo fl)) (z : ℤ)
      → bits64 (total_clients fl aps z) ≡ u64 (bits64 z + sum_of (λ a. bits64 a.num_clients) aps)
  unfolding total_clients
  bits64-total_clients [] (pos n) = omega arith
  bits64-total_clients [] (negsuc n) = omega arith
  bits64-total_clients (a ∷ aps) z =
      omega
        (arith, bits64-total_clients aps (add_i64 z a.num_clients), add_i64-bits64 z a.num_clients)

  length-access_points :
      (dt : fl.F) (prev : Map String ByteSnap) (ds : List RawDevice)
      → length (access_points fl dt prev ds) ≡ of_aps (λ d. 1) ds
  unfolding access_points
  length-access_points dt prev [] = refl
  length-access_points dt prev (d ∷ ds) = ground (arith, length-access_points dt prev ds)

  clients-access_points :
      (dt : fl.F) (prev : Map String ByteSnap) (ds : List RawDevice)
      → sum_of (λ a. bits64 a.num_clients) (access_points fl dt prev ds)
        ≡ of_aps (λ d. bits64 d.num_sta) ds
  unfolding access_points
  clients-access_points dt prev [] = refl
  clients-access_points dt prev (d ∷ ds) = elim (Bool-cases (string_eq.beq d.kind "uap")) [
    | inl here ↦ rw here (omega (arith, clients-access_points dt prev ds))
    | inr other ↦ rw other (omega (arith, clients-access_points dt prev ds))
  ]

  -- The number of access points among the devices, and, on 64 bits, of the clients they have.
  pub record CountsAps (devices : List RawDevice) (brief : Option (WifiBrief fl)) : Type 0 where
    pub brief_of : WifiBrief fl
    pub brief_lem : brief ≡ some brief_of
    pub aps_lem : brief_of.aps ≡ of_aps (λ d. 1) devices
    pub clients_lem : bits64 brief_of.clients ≡ u64 (of_aps (λ d. bits64 d.num_sta) devices)

  module _ (sort : Sort) where
    menu_bar_of-CountsAps :
        (now polled : ℕ) (devices : List RawDevice) (clients : List RawClient) (uf : Client fl)
        (p : Parts fl)
        → CountsAps devices
            (menu_bar_of fl sort now
              (record p { uf = some (store fl sort polled devices clients uf) })).wifi
    unfolding menu_bar_of store build_summary get_summary
    menu_bar_of-CountsAps now polled devices clients uf p =
        let dt = since fl polled uf.last_poll in
        let aps = access_points fl dt uf.previous.ap devices in
        let sorted = sort.slice-perm (by_name fl) aps in
        record {
          brief_of = record {
            aps = length (sort.slice (by_name fl) aps);
            clients = total_clients fl (sort.slice (by_name fl) aps) (pos 0);
          };
          brief_lem = refl;
          aps_lem = length-perm sorted ∙ length-access_points dt uf.previous.ap devices;
          clients_lem = omega (
            arith,
            bits64-total_clients (sort.slice (by_name fl) aps) (pos 0),
            sum_of-perm (λ a. bits64 a.num_clients) sorted,
            clients-access_points dt uf.previous.ap devices,
          );
        }

    -- If a poll of the UniFi client gets the devices, at first or after a new login, and then the
    -- clients, the menu bar shows how many of the devices are access points and, on 64 bits, how many
    -- clients these have together.
    pub poll-CountsAps :
        (w : World) (now polled : ℕ) (devices : List RawDevice) (clients : List RawClient)
        (s : Session) (uf : Client fl) (p : Parts fl)
        → poll_devices w.post w.relogin
            (fetch w.devices uf.base_url uf.site "/stat/device")
            (fetch w.devices_again uf.base_url uf.site "/stat/device")
            uf.session
          ≡ (s, some devices)
        → fetch w.clients uf.base_url uf.site "/stat/sta" s ≡ some clients
        → CountsAps devices
            (menu_bar_of fl sort now (record p { uf = some (poll fl sort w polled uf) })).wifi
    unfolding poll with_devices with_clients
    poll-CountsAps w now polled devices clients s uf p got heard =
        rw (got, heard)
          (menu_bar_of-CountsAps now polled devices clients (record uf { session = s }) p)
