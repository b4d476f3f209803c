-- ===== src/Providers.antt =====
-- dns/dns.go: the interface `Provider`, with the two clients that implement it and `nil`.
use bandwidth_monitor.Common.{◌≡◌, refl, Bool, false, Option, none, some}
use bandwidth_monitor.Float.{Float}
use bandwidth_monitor.Maps.{is_some}
use bandwidth_monitor.Sorting.{Sort}
use bandwidth_monitor.Dns.{Summary}
use bandwidth_monitor.Adguard
use bandwidth_monitor.Nextdns

module _ (fl : Float) where
  pub data Provider : Type 0 where
    nil : Provider
    adguard : Adguard.Client fl → Provider
    nextdns : Nextdns.Client → Provider

  -- The methods of the interface. Every caller asks whether the provider is `nil` first; the clauses
  -- for `nil` are what the callers do then, which is nothing.
  unfoldable pub stop : Provider → Provider
  stop nil = nil
  stop (adguard c) = adguard (Adguard.stop fl c)
  stop (nextdns c) = nextdns (Nextdns.stop c)

  unfoldable pub available : Provider → Bool
  available nil = false
  available (adguard c) = Adguard.available fl c
  available (nextdns c) = Nextdns.available c

  unfoldable pub get_summary : Sort → Provider → Option (Summary fl)
  get_summary sort nil = none
  get_summary sort (adguard c) = Adguard.get_summary fl sort c
  get_summary sort (nextdns c) = Nextdns.get_summary fl sort c

  -- A DNS provider gives a summary exactly if it says that it is available, whichever it is.
  pub get_summary-available :
      (sort : Sort) (p : Provider) → is_some (get_summary sort p) ≡ available p
  unfolding get_summary available Adguard.get_summary Adguard.available Nextdns.get_summary
      Nextdns.available
  get_summary-available sort nil = refl
  get_summary-available sort (adguard c) =
      elim c.stats
        as (λ o.
          is_some (elim o [ none ↦ none | some s ↦ some (Adguard.summarize fl sort s) ])
          ≡ is_some o) [ none ↦ refl | some s ↦ refl ]
  get_summary-available sort (nextdns c) =
      elim c.stats
        as (λ o.
          is_some (elim o [ none ↦ none | some s ↦ some (Nextdns.summarize fl sort s) ])
          ≡ is_some o) [ none ↦ refl | some s ↦ refl ]
