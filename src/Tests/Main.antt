-- ===== src/Tests/Main.antt =====
-- Runs of the configuration of the local networks.
use bandwidth_monitor.Common.{
  ◌≡◌, refl, ◌↔◌, inr, true, false, none, some, List, [], ◌∷◌, String, string_eq, if◌then◌else◌,
  ◌≢◌, nat_beq, length, arith,
}
use bandwidth_monitor.Net.{IpNet, cidr}
use bandwidth_monitor.Texts.{◌<>◌}
use bandwidth_monitor.Texts.Split.{Lacks, HasNoSpace, trim_space}
use bandwidth_monitor.Main.{Env, ParseCidr, net, other, Iface, configured, local_nets}
use bandwidth_monitor.Main.Networks.{local_nets-joined, configured_without}
use bandwidth_monitor.Main.Discovery.{Among, OneGives, local_nets-OneGives}
use bandwidth_monitor.Tests.Samples.{link_local, laptop}

abbrev pub office : IpNet
office = cidr (10 ∷ 0 ∷ 0 ∷ 0 ∷ []) 8

abbrev pub unique_local : IpNet
unique_local = cidr (0xfc ∷ 0 ∷ 0 ∷ 0 ∷ 0 ∷ 0 ∷ 0 ∷ 0 ∷ 0 ∷ 0 ∷ 0 ∷ 0 ∷ 0 ∷ 0 ∷ 0 ∷ 0 ∷ []) 7

abbrev print_net : IpNet → String
print_net n = if nat_beq (length n.ip) 4 then "10.0.0.0/8" else "fc00::/7"

abbrev pub parse_net : ParseCidr
parse_net s =
    if string_eq.beq s "10.0.0.0/8"
    then some office
    else if string_eq.beq s "fc00::/7"
    then some unique_local
    else none

abbrev two_nets : Env
two_nets key = if string_eq.beq key "LOCAL_NETS" then "10.0.0.0/8,fc00::/7" else ""

not_blank : (s : String) → string_eq.beq s "" ≡ false → s ≢ ""
not_blank s h e = ground (arith, h, (string_eq.beq_iff s "").1 e)

local_nets-joined_example : local_nets parse_net two_nets none ≡ office ∷ unique_local ∷ []
unfolding Lacks HasNoSpace cidr
local_nets-joined_example =
    local_nets-joined parse_net print_net two_nets none office (unique_local ∷ [])
      (
        record {
          parsed = refl;
          no_comma =
              (refl, (refl, (refl, (refl, (refl, (refl, (refl, (refl, (refl, (refl, tt))))))))));
          no_space =
              (refl, (refl, (refl, (refl, (refl, (refl, (refl, (refl, (refl, (refl, tt))))))))));
          not_blank = not_blank "10.0.0.0/8" refl;
        },
        (
          record {
            parsed = refl;
            no_comma = (refl, (refl, (refl, (refl, (refl, (refl, (refl, (refl, tt))))))));
            no_space = (refl, (refl, (refl, (refl, (refl, (refl, (refl, (refl, tt))))))));
            not_blank = not_blank "fc00::/7" refl;
          },
          tt,
        ),
      )
      refl

configured_without_example :
    configured parse_net ("10.0.0.0/8" <> "," <> " bad" <> "," <> "fc00::/7")
    ≡ configured parse_net ("10.0.0.0/8" <> "," <> "fc00::/7")
unfolding Lacks trim_space
configured_without_example =
    configured_without parse_net "10.0.0.0/8" " bad" "fc00::/7"
      ((refl, (refl, (refl, (refl, tt)))), inr refl)

-- The loopback, an interface whose addresses cannot be had, and one with two addresses.
abbrev pub ifaces : List Iface
ifaces =
    record { loopback = true; addrs = some (net (cidr (127 ∷ 0 ∷ 0 ∷ 1 ∷ []) 8) ∷ []) }
    ∷ record { loopback = false; addrs = none }
    ∷ record {
      loopback = false;
      addrs = some (net (cidr laptop 24) ∷ other ∷ net (cidr link_local 64) ∷ []);
    }
    ∷ []

local_nets-OneGives_example :
    Among (cidr laptop 24) (local_nets parse_net (λ key. "") (some ifaces))
    ↔ OneGives (cidr laptop 24) ifaces
local_nets-OneGives_example = local_nets-OneGives parse_net (λ key. "") (cidr laptop 24) ifaces refl
