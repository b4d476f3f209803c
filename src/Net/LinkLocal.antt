-- ===== src/Net/LinkLocal.antt =====
-- `IsLinkLocalUnicast` and `IsLinkLocalMulticast` of Go's package `net`, against the address blocks.
use Prim.Native.Nat.{bit_and}
use bandwidth_monitor.Common.{Bool, false, ◌&&◌, Option, none, some, ◌∷◌, length, nat_beq}
use bandwidth_monitor.Net.{Ip, to4}

abbrev v4_unicast : Ip → Bool
v4_unicast (a ∷ b ∷ _) = nat_beq a 169 && nat_beq b 254
v4_unicast _ = false

abbrev v6_unicast : Ip → Bool
v6_unicast (a ∷ b ∷ rest) =
    nat_beq (length rest) 14 && (nat_beq a 0xfe && nat_beq (bit_and b 0xc0) 0x80)
v6_unicast _ = false

abbrev v4_multicast : Ip → Bool
v4_multicast (a ∷ b ∷ c ∷ _) = nat_beq a 224 && (nat_beq b 0 && nat_beq c 0)
v4_multicast _ = false

abbrev v6_multicast : Ip → Bool
v6_multicast (a ∷ b ∷ rest) =
    nat_beq (length rest) 14 && (nat_beq a 0xff && nat_beq (bit_and b 0x0f) 0x02)
v6_multicast _ = false

abbrev by_version : (Ip → Bool) → (Ip → Bool) → Ip → Option Ip → Bool
by_version v4 v6 ip (some ip4) = v4 ip4
by_version v4 v6 ip none = v6 ip

-- `ip.IsLinkLocalUnicast()`
unfoldable pub is_link_local_unicast : Ip → Bool
unfolding to4
is_link_local_unicast ip = by_version v4_unicast v6_unicast ip (to4 ip)

-- `ip.IsLinkLocalMulticast()`
unfoldable pub is_link_local_multicast : Ip → Bool
unfolding to4
is_link_local_multicast ip = by_version v4_multicast v6_multicast ip (to4 ip)
