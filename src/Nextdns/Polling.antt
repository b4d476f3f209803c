-- ===== src/Nextdns/Polling.antt =====
-- nextdns/nextdns.go: what is left of many polls.
use bandwidth_monitor.Common.{◌≡◌, refl, none, some, List, [], ◌∷◌, ◌++◌, All}
use bandwidth_monitor.Float.{Float}
use bandwidth_monitor.Sorting.{Sort}
use bandwidth_monitor.Nextdns.{Api, Client, Snapshot, fetch_all, poll, summarize, get_summary}

-- The polls of `Run`, each with its answers.
unfoldable pub polls : List Api → Client → Client
polls [] c = c
polls (api ∷ apis) c = polls apis (poll api c)

abbrev pub Fails : Api → Type 0
Fails api = fetch_all api ≡ none

failed_polls : (apis : List Api) (c : Client) → All Fails apis → polls apis c ≡ c
unfolding polls poll
failed_polls [] c h = refl
failed_polls (api ∷ apis) c h = rw h.0 (failed_polls apis c h.1)

polls-append : (xs ys : List Api) (c : Client) → polls (xs ++ ys) c ≡ polls ys (polls xs c)
unfolding polls
polls-append [] ys c = refl
polls-append (x ∷ xs) ys c = polls-append xs ys (poll x c)

-- After any polls, the NextDNS summary is that of the latest poll whose five requests all succeeded:
-- a later poll that fails halfway changes nothing.
pub get_summary-polls :
    (fl : Float) (sort : Sort) (c : Client) (earlier : List Api) (api : Api) (later : List Api)
    (snap : Snapshot)
    → fetch_all api ≡ some snap
    → All Fails later
    → get_summary fl sort (polls (earlier ++ api ∷ later) c) ≡ some (summarize fl sort snap)
unfolding get_summary polls poll
get_summary-polls fl sort c earlier api later snap complete fail =
    rw (polls-append earlier (api ∷ later) c, complete, failed_polls later _ fail)
