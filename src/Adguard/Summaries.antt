-- ===== src/Adguard/Summaries.antt =====
-- adguard/adguard.go: the polls, and the numbers and lists of the summary.
use bandwidth_monitor.Common.{
  ◌+◌, ◌%◌, ◌^◌, ◌≡◌, refl, Option, none, some, List, [], ◌∷◌, ◌++◌, String, ℤ, All, map, bits64,
}
use bandwidth_monitor.Float.{Float}
use bandwidth_monitor.Maps.{Map}
use bandwidth_monitor.Sorting.{Sort, IsTop}
use bandwidth_monitor.Dns.{Summary}
use bandwidth_monitor.Adguard.{
  Stats, Client, poll, entries, as_kv, larger, domain_stat, client_stat, blocked_total, summarize,
  get_summary,
}

module _ (fl : Float) where
  -- The polls of `Run`, each with its answer.
  unfoldable pub polls : List (Option (Stats fl)) → Client fl → Client fl
  polls [] c = c
  polls (answer ∷ answers) c = polls answers (poll fl answer c)

  failed_polls :
      (answers : List (Option (Stats fl))) (c : Client fl)
      → All (λ a. a ≡ none) answers
      → polls answers c ≡ c
  unfolding polls poll
  failed_polls [] c h = refl
  failed_polls (answer ∷ answers) c h = rw h.0 (failed_polls answers c h.1)

  -- After any polls, the AdGuard summary is that of the latest poll that was answered; the failed ones
  -- after it change nothing.
  pub get_summary-answered :
      (sort : Sort) (c : Client fl) (earlier : List (Option (Stats fl))) (s : Stats fl)
      (later : List (Option (Stats fl)))
      → All (λ a. a ≡ none) later
      → get_summary fl sort (polls (earlier ++ some s ∷ later) c) ≡ some (summarize fl sort s)
  unfolding get_summary polls poll
  get_summary-answered sort c [] s later fail =
      rw (failed_polls later (record c { stats = some s }) fail)
  get_summary-answered sort c (answer ∷ earlier) s later fail =
      get_summary-answered sort (poll fl answer c) earlier s later fail

  -- A list of names and counts is the first ten, by count, of all entries of AdGuard's maps.
  pub record IsTopTen {A : Type 0} (stat : String × ℤ → A) (raw : List (Map String fl.F))
      (list : List A) : Type 0 where
    pub ranked : List (String × ℤ)
    pub top : IsTop (larger fl) 10 (map (as_kv fl) (entries fl raw)) ranked
    pub list_lem : list ≡ map stat ranked

  -- What the summary says of AdGuard's statistics.
  pub record IsSummary (s : Stats fl) (r : Summary fl) : Type 0 where
    pub total : r.total_queries ≡ s.num_dns_queries
    pub blocked :
        bits64 r.blocked_total
        ≡ (bits64 s.num_blocked_filtering
            + bits64 s.num_replaced_safebrows
            + bits64 s.num_replaced_parental
            + bits64 s.num_replaced_safesrch)
          % 2 ^ 64
    pub queried : IsTopTen (domain_stat fl) s.top_queried_domains r.top_queried
    pub top_blocked : IsTopTen (domain_stat fl) s.top_blocked_domains r.top_blocked
    pub clients : IsTopTen (client_stat fl) s.top_clients r.top_clients
