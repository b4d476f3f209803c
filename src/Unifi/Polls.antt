-- ===== src/Unifi/Polls.antt =====
-- unifi/unifi.go: the session over any polls.
use bandwidth_monitor.Common.{
  ◌≡◌, refl, ap, ◌∙◌, Bool, true, false, if◌then◌else◌, Option, none, some, List, [], ◌∷◌, String,
  arith,
}
use bandwidth_monitor.Unifi.{
  Session, Reply, login, known_login, first_login, legacy_login, retried, fetched, with_session,
  poll_devices,
}

-- What the controller does in a poll: its replies to the two logins and to the two requests.
pub record Answers (D : Type 0) : Type 0 where
  pub post : String → Option Reply
  pub relogin : String → Option Reply
  pub fetch : Session → Option D
  pub again : Session → Option D

module _ {D : Type 0} where
  abbrev pub poll_one : Answers D → Session → Session × Option D
  poll_one a s = poll_devices a.post a.relogin a.fetch a.again s

  -- The session after the polls of `Run`.
  unfoldable pub polls : List (Answers D) → Session → Session
  polls [] s = s
  polls (a ∷ answers) s = polls answers (poll_one a s).0

-- The variant of a controller is known, and it is the given one.
abbrev pub IsVariant : Bool → Session → Type 0
IsVariant os s = (s.detected ≡ true) × (s.unifi_os ≡ os)

login-IsVariant :
    (os : Bool) (post : String → Option Reply) (s : Session)
    → IsVariant os s
    → IsVariant os (login post s).0
unfolding login known_login
login-IsVariant os post s h = ground arith

-- A session that is logged in knows the variant.
abbrev pub Sound : Session → Type 0
Sound s = (if s.logged_in then s.detected else true) ≡ true

login-Sound : (post : String → Option Reply) (s : Session) → Sound s → Sound (login post s).0
unfolding login known_login first_login legacy_login
login-Sound post s h = ground arith

login-success :
    (post : String → Option Reply) (s : Session)
    → (login post s).1 ≡ true
    → (login post s).0.logged_in ≡ true
unfolding login known_login first_login legacy_login
login-success post s h = ground arith

either :
    {A : Type 0} (P : A → Type 0) (b : Bool) (x y : A)
    → (b ≡ true → P x)
    → (b ≡ false → P y)
    → P (if b then x else y)
either P true x y h k = h refl
either P false x y h k = k refl

module _ {D : Type 0} where
  -- Whatever holds after each login holds after the poll, if it does not depend on `logged_in` being
  -- cleared.
  retried-first :
      (P : Session → Type 0) (fetch : Session → Option D) (r : Session × Bool)
      → P r.0
      → P (retried fetch r).0
  unfolding retried
  retried-first P fetch (s, false) h = h
  retried-first P fetch (s, true) h = h

  fetched-first :
      (P : Session → Type 0) (post : String → Option Reply) (again : Session → Option D)
      (s : Session) (o : Option D)
      → P s
      → P (login post (record s { logged_in = false })).0
      → P (fetched post again s o).0
  unfolding fetched
  fetched-first P post again s (some d) h k = h
  fetched-first P post again s none h k = retried-first P again _ k

  with_session-first :
      (P : Session → Type 0) (post : String → Option Reply) (fetch again : Session → Option D)
      (r : Session × Bool)
      → P r.0
      → P (login post (record r.0 { logged_in = false })).0
      → P (with_session post fetch again r).0
  unfolding with_session
  with_session-first P post fetch again (s, false) h k = h
  with_session-first P post fetch again (s, true) h k = fetched-first P post again s (fetch s) h k

  started : Answers D → Session → Session × Bool
  started a s = if s.logged_in then (s, true) else login a.post s

  poll-IsVariant :
      (os : Bool) (a : Answers D) (s : Session) → IsVariant os s → IsVariant os (poll_one a s).0
  unfolding poll_devices started
  poll-IsVariant os a s h =
      let start : IsVariant os (started a s).0 =
        either (λ (r : Session × Bool). IsVariant os r.0) s.logged_in _ _ (λ old. h)
          (λ new. login-IsVariant os a.post s h) in
      with_session-first (IsVariant os) a.relogin a.fetch a.again (started a s) start
        (login-IsVariant os a.relogin (record (started a s).0 { logged_in = false }) start)

  started-Sound : (a : Answers D) (s : Session) → Sound s → Sound (started a s).0
  unfolding started
  started-Sound a s h =
      either (λ (r : Session × Bool). Sound r.0) s.logged_in _ _ (λ old. h)
        (λ new. login-Sound a.post s h)

  started-success :
      (a : Answers D) (s : Session) → (started a s).1 ≡ true → (started a s).0.logged_in ≡ true
  unfolding started
  started-success a s h =
      either (λ (r : Session × Bool). r.1 ≡ true → r.0.logged_in ≡ true) s.logged_in _ _
        (λ old ok. old) (λ new ok. login-success a.post s ok) h

  poll-Sound : (a : Answers D) (s : Session) → Sound s → Sound (poll_one a s).0
  unfolding poll_devices started
  poll-Sound a s h =
      with_session-first Sound a.relogin a.fetch a.again (started a s) (started-Sound a s h)
        (login-Sound a.relogin (record (started a s).0 { logged_in = false }) refl)

  polls-Sound : (answers : List (Answers D)) (s : Session) → Sound s → Sound (polls answers s)
  unfolding polls
  polls-Sound [] s h = h
  polls-Sound (a ∷ answers) s h = polls-Sound answers (poll_one a s).0 (poll-Sound a s h)

  -- Once the variant of the controller is known, no poll changes it, whatever the controller answers.
  pub polls-IsVariant :
      (os : Bool) (answers : List (Answers D)) (s : Session)
      → IsVariant os s
      → IsVariant os (polls answers s)
  unfolding polls
  polls-IsVariant os [] s h = h
  polls-IsVariant os (a ∷ answers) s h =
      polls-IsVariant os answers (poll_one a s).0 (poll-IsVariant os a s h)

  retried-success :
      (fetch : Session → Option D) (r : Session × Bool) (d : D)
      → (retried fetch r).1 ≡ some d
      → (r.1 ≡ true) × ((retried fetch r).0 ≡ r.0)
  unfolding retried
  retried-success fetch (s, false) d h = absurd (ground arith)
  retried-success fetch (s, true) d h = (refl, refl)

  fetched-success :
      (post : String → Option Reply) (again : Session → Option D) (s : Session) (o : Option D)
      (d : D)
      → s.logged_in ≡ true
      → (fetched post again s o).1 ≡ some d
      → (fetched post again s o).0.logged_in ≡ true
  unfolding fetched
  fetched-success post again s (some e) d up h = up
  fetched-success post again s none d up h =
      let r = login post (record s { logged_in = false }) in
      let (ok, same) = retried-success again r d h in
      ap (λ t. t.logged_in) same ∙ login-success post (record s { logged_in = false }) ok

  with_session-success :
      (post : String → Option Reply) (fetch again : Session → Option D) (r : Session × Bool) (d : D)
      → (r.1 ≡ true → r.0.logged_in ≡ true)
      → (with_session post fetch again r).1 ≡ some d
      → (with_session post fetch again r).0.logged_in ≡ true
  unfolding with_session
  with_session-success post fetch again (s, false) d up h = absurd (ground arith)
  with_session-success post fetch again (s, true) d up h =
      fetched-success post again s (fetch s) d (up refl) h

  poll-logged_in :
      (b : Answers D) (u : Session) (e : D)
      → (poll_one b u).1 ≡ some e
      → (poll_one b u).0.logged_in ≡ true
  unfolding poll_devices started
  poll-logged_in b u e k =
      with_session-success b.relogin b.fetch b.again (started b u) e (started-success b u) k

  -- After any polls from a session that is sound, such as that of a new client, a poll that gets the
  -- devices leaves the session logged in, with the variant of the controller known.
  pub poll_devices-success :
      (answers : List (Answers D)) (a : Answers D) (s : Session) (d : D)
      → Sound s
      → (poll_one a (polls answers s)).1 ≡ some d
      → ((poll_one a (polls answers s)).0.logged_in ≡ true)
        × ((poll_one a (polls answers s)).0.detected ≡ true)
  poll_devices-success answers a s d h found =
      let t = polls answers s in
      let sound : Sound (poll_one a t).0 = poll-Sound a t (polls-Sound answers s h) in
      let up : (poll_one a t).0.logged_in ≡ true = poll-logged_in a t d found in
      (up, rw up at sound)
