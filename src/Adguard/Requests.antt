-- ===== src/Adguard/Requests.antt =====
-- adguard/adguard.go: many polls with their requests.
use bandwidth_monitor.Common.{
  ◌≡◌, refl, ◌∙◌, ap, Option, none, some, List, [], ◌∷◌, ◌++◌, All, map, if◌then◌else◌, string_eq,
  Bool-cases, inl, inr,
}
use bandwidth_monitor.Http.{Response, decoded, Gives, Denies, decoded-Gives, decoded-Denies}
use bandwidth_monitor.Texts.{◌<>◌}
use bandwidth_monitor.Float.{Float}
use bandwidth_monitor.Sorting.{Sort}
use bandwidth_monitor.Adguard.{Client, Stats, poll, summarize, get_summary}
use bandwidth_monitor.Adguard.Fetch.{Server, basic_auth, fetch_stats, poll_server}
use bandwidth_monitor.Adguard.Summaries.{polls, get_summary-answered}

module _ (fl : Float) where
  -- The polls of `Run`, each with what the server answers.
  unfoldable pub polls_of : List (Server fl) → Client fl → Client fl
  unfolding poll_server
  polls_of [] c = c
  polls_of (s ∷ ss) c = polls_of ss (poll_server fl s c)

  -- What the servers answer the client.
  abbrev answers : List (Server fl) → Client fl → List (Option (Stats fl))
  answers ss c = map (λ s. fetch_stats fl s c) ss

  -- A poll does not change the next request.
  same_request :
      (o : Option (Stats fl)) (c : Client fl) (s : Server fl)
      → fetch_stats fl s (poll fl o c) ≡ fetch_stats fl s c
  unfolding fetch_stats poll
  same_request none c s = refl
  same_request (some a) c s = refl

  same_answers :
      (o : Option (Stats fl)) (c : Client fl) (ss : List (Server fl))
      → answers ss (poll fl o c) ≡ answers ss c
  same_answers o c [] = refl
  same_answers o c (s ∷ ss) = rw (same_request o c s, same_answers o c ss) refl

  polls_of-polls :
      (ss : List (Server fl)) (c : Client fl) → polls_of ss c ≡ polls fl (answers ss c) c
  unfolding polls_of polls
  polls_of-polls [] c = refl
  polls_of-polls (s ∷ ss) c =
      let o = fetch_stats fl s c in
      polls_of-polls ss (poll fl o c) ∙ ap (λ os. polls fl os (poll fl o c)) (same_answers o c ss)

  -- What the server answers the request of a client with a user.
  abbrev pub answer_to : Client fl → Server fl → Option (Response (Stats fl))
  answer_to c s =
      s (c.base_url <> "/control/stats")
        (if string_eq.beq c.user "" then none else some (c.user, c.pass))

  basic_auth-user :
      (c : Client fl)
      → basic_auth fl c ≡ (if string_eq.beq c.user "" then none else some (c.user, c.pass))
  basic_auth-user c = elim (Bool-cases (string_eq.beq c.user "")) [
    | inl blank ↦ rw blank refl
    | inr user ↦ rw user refl
  ]

  fetch_stats-answer_to :
      (c : Client fl) (s : Server fl) → fetch_stats fl s c ≡ decoded (answer_to c s)
  unfolding fetch_stats
  fetch_stats-answer_to c s =
      ap (λ user. decoded (s (c.base_url <> "/control/stats") user)) (basic_auth-user c)

  answers-append :
      (xs : List (Server fl)) (s : Server fl) (ys : List (Server fl)) (c : Client fl)
      → answers (xs ++ (s ∷ ys)) c ≡ answers xs c ++ (fetch_stats fl s c ∷ answers ys c)
  answers-append [] s ys c = refl
  answers-append (x ∷ xs) s ys c = ap (◌∷◌ (fetch_stats fl x c)) (answers-append xs s ys c)

  refused-answers :
      (c : Client fl) (ss : List (Server fl))
      → All (λ s. Denies (answer_to c s)) ss
      → All (λ o. o ≡ none) (answers ss c)
  refused-answers c [] h = tt
  refused-answers c (s ∷ ss) h =
      (fetch_stats-answer_to c s ∙ decoded-Denies (answer_to c s) h.0, refused-answers c ss h.1)

  -- After any polls, the AdGuard summary is that of the statistics that the server gave last: it
  -- answered the request for `/control/stats`, with the user and the password if there is a user, with
  -- the status 200 and statistics. A later request that fails, another status and a body that cannot
  -- be decoded change nothing.
  pub get_summary-served :
      (sort : Sort) (c : Client fl) (earlier : List (Server fl)) (s : Server fl)
      (later : List (Server fl)) (stats : Stats fl)
      → Gives (answer_to c s) stats
      → All (λ s. Denies (answer_to c s)) later
      → get_summary fl sort (polls_of (earlier ++ (s ∷ later)) c) ≡ some (summarize fl sort stats)
  get_summary-served sort c earlier s later stats good bad =
      let got = fetch_stats-answer_to c s ∙ decoded-Gives (answer_to c s) stats good in
      ap (get_summary fl sort) (
        polls_of-polls (earlier ++ (s ∷ later)) c
        ∙ ap (λ os. polls fl os c) (answers-append earlier s later c)
        ∙ ap (λ o. polls fl (answers earlier c ++ (o ∷ answers later c)) c) got)
      ∙ get_summary-answered fl sort c (answers earlier c) stats (answers later c)
          (refused-answers c later bad)
