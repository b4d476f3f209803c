-- ===== src/Tests/Unifi.antt =====
-- Runs of a session with a UniFi controller.
use bandwidth_monitor.Common.{
  ℕ, ◌≡◌, refl, true, false, if◌then◌else◌, string_eq, Option, some, none, [], ◌∷◌, String,
}
use bandwidth_monitor.Unifi.{Session, Reply, fresh_session, poll_devices}
use bandwidth_monitor.Unifi.Polls.{
  Answers, poll_one, polls, IsVariant, polls-IsVariant, poll_devices-success,
}

-- A controller of the old kind, which does not know the new path.
abbrev old_controller : String → Option Reply
old_controller path =
    if string_eq.beq path "/api/login"
    then some (record { status = 200; csrf = "" })
    else some (record { status = 404; csrf = "" })

-- A poll whose first request fails, so that it logs in again.
abbrev expired : Answers ℕ
expired = record {
  post = old_controller;
  relogin = old_controller;
  fetch = λ s. none;
  again = λ s. some 3;
}

abbrev old_session : Session
old_session = record { unifi_os = false; detected = true; csrf_token = ""; logged_in = true }

polls-IsVariant_example : IsVariant false (polls (expired ∷ expired ∷ []) old_session)
polls-IsVariant_example = polls-IsVariant false (expired ∷ expired ∷ []) old_session (refl, refl)

poll_devices-success_example :
    ((poll_one expired (polls (expired ∷ []) fresh_session)).0.logged_in ≡ true)
    × ((poll_one expired (polls (expired ∷ []) fresh_session)).0.detected ≡ true)
unfolding polls poll_devices
poll_devices-success_example = poll_devices-success (expired ∷ []) expired fresh_session 3 refl refl
