-- ===== src/Unifi.antt =====
-- unifi/unifi.go: the session with a UniFi controller. The controller is a parameter: what it
-- replies to a login under a path of its URL, `none` for an error of the request, and what the
-- request for the devices returns in a session.
pub mod Polls
pub mod Summaries
pub mod Client
use bandwidth_monitor.Http.{status_ok}
use bandwidth_monitor.Common.{
  ℕ, ◌≡◌, Bool, true, false, if◌then◌else◌, Option, none, some, List, [], ◌∷◌, String, nat_beq,
}

-- The fields of `Client` that the login reads or writes.
pub record Session : Type 0 where
  pub unifi_os : Bool
  pub detected : Bool
  pub csrf_token : String
  pub logged_in : Bool

pub record Reply : Type 0 where
  pub status : ℕ
  pub csrf : String

abbrev pub fresh_session : Session
fresh_session = record { unifi_os = false; detected = false; csrf_token = ""; logged_in = false }

-- `loginURL`, without the base URL.
abbrev pub login_path : Session → String
login_path s = if s.unifi_os then "/api/auth/login" else "/api/login"

-- The login of a controller whose variant is known, with the reply; `true` for `nil`.
unfoldable pub known_login : Session → Option Reply → Session × Bool
known_login s none = (s, false)
known_login s (some r) =
    if nat_beq r.status status_ok
    then (
      record s { csrf_token = if s.unifi_os then r.csrf else s.csrf_token; logged_in = true },
      true,
    )
    else (s, false)

-- The second try of the first login, on a legacy controller.
unfoldable pub legacy_login : Session → Option Reply → Session × Bool
legacy_login s none = (s, false)
legacy_login s (some r) =
    if nat_beq r.status status_ok
    then (record s { unifi_os = false; detected = true; logged_in = true }, true)
    else (s, false)

-- The first login, which finds out the variant: the replies under both paths.
unfoldable pub first_login : Session → Option Reply → Option Reply → Session × Bool
first_login s none legacy = legacy_login s legacy
first_login s (some r) legacy =
    if nat_beq r.status status_ok
    then (
      record s { unifi_os = true; detected = true; csrf_token = r.csrf; logged_in = true },
      true,
    )
    else legacy_login s legacy

unfoldable pub login : (String → Option Reply) → Session → Session × Bool
unfolding known_login first_login legacy_login
login post s =
    if s.detected
    then known_login s (post (login_path s))
    else first_login s (post "/api/auth/login") (post "/api/login")

module _ {D : Type 0} where
  -- The part of `poll` after a second login: `true` if it succeeded.
  unfoldable pub retried : (Session → Option D) → Session × Bool → Session × Option D
  retried fetch (s, false) = (s, none)
  retried fetch (s, true) = (s, fetch s)

  -- The part of `poll` after the first request for the devices: on an error it logs in again, once.
  unfoldable pub fetched :
      (String → Option Reply) → (Session → Option D) → Session → Option D → Session × Option D
  unfolding login retried
  fetched post again s (some d) = (s, some d)
  fetched post again s none = retried again (login post (record s { logged_in = false }))

  unfoldable pub with_session :
      (String → Option Reply)
      → (Session → Option D)
      → (Session → Option D)
      → Session × Bool
      → Session × Option D
  unfolding fetched
  with_session post fetch again (s, false) = (s, none)
  with_session post fetch again (s, true) = fetched post again s (fetch s)

  -- How `poll` gets the devices: the replies to its first and its second login, and what its first
  -- and its second request return. `none` means that it gives up.
  unfoldable pub poll_devices :
      (String → Option Reply)
      → (String → Option Reply)
      → (Session → Option D)
      → (Session → Option D)
      → Session
      → Session × Option D
  unfolding with_session
  poll_devices post relogin fetch again s =
      with_session relogin fetch again (if s.logged_in then (s, true) else login post s)
