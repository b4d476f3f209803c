-- ===== src/Net.antt =====
-- Addresses and networks of Go's package `net`, as far as the program uses them: `net.IP` and
-- `net.IPMask` are byte slices, and `IPNet.Contains` compares them under the mask.
pub mod Masks
pub mod LinkLocal
use Prim.Native.Nat.{bit_and}
use bandwidth_monitor.Common.{
  String, ℕ, zero, suc, ◌-◌, ◌+◌, ◌*◌, ◌^◌, Bool, true, false, ◌&&◌, ◌||◌, if◌then◌else◌, List, [],
  ◌∷◌, Option, none, some, length, ltb, leb, nat_beq, take, drop,
}

abbrev pub Ip : Type 0
Ip = List ℕ

pub record IpNet : Type 0 where
  pub ip : Ip
  pub mask : List ℕ

-- The prefix of the IPv4 addresses that are written in 16 bytes.
abbrev pub v4_in_v6 : List ℕ
v4_in_v6 = 0 ∷ 0 ∷ 0 ∷ 0 ∷ 0 ∷ 0 ∷ 0 ∷ 0 ∷ 0 ∷ 0 ∷ 255 ∷ 255 ∷ []

unfoldable pub same_bytes : List ℕ → List ℕ → Bool
same_bytes [] [] = true
same_bytes (a ∷ as') (b ∷ bs) = nat_beq a b && same_bytes as' bs
same_bytes _ _ = false

-- `ip.To4()`
unfoldable pub to4 : Ip → Option Ip
unfolding same_bytes
to4 ip =
    if nat_beq (length ip) 4
    then some ip
    else if nat_beq (length ip) 16 && same_bytes (take 12 ip) v4_in_v6
    then some (drop 12 ip)
    else none

-- `nn[i]&m[i] == ip[i]&m[i]` for all `i`.
unfoldable pub masked_eq : List ℕ → List ℕ → List ℕ → Bool
masked_eq (n ∷ ns) (m ∷ ms) (x ∷ xs) = nat_beq (bit_and n m) (bit_and x m) && masked_eq ns ms xs
masked_eq _ _ _ = true

abbrev pub narrow : Option Ip → Ip → Ip
narrow none ip = ip
narrow (some ip4) ip = ip4

-- `networkNumberAndMask`: the mask of an IPv4 network may be written in 16 bytes.
abbrev pub number_mask : Ip → List ℕ → List ℕ
number_mask number mask =
    if nat_beq (length mask) 16 && nat_beq (length number) 4 then drop 12 mask else mask

-- `n.Contains(ip)`
unfoldable pub contains : IpNet → Ip → Bool
unfolding to4 masked_eq
contains n ip =
    let number = narrow (to4 n.ip) n.ip in
    let addr = narrow (to4 ip) ip in
    nat_beq (length addr) (length number) && masked_eq number (number_mask number n.mask) addr

-- The mask of a prefix of `bits` bits, in `bytes` bytes: `net.CIDRMask`.
unfoldable pub cidr_mask : ℕ → ℕ → List ℕ
cidr_mask zero bits = []
cidr_mask (suc n) bits = (if leb 8 bits then 255 else 256 - 2 ^ (8 - bits)) ∷ cidr_mask n (bits - 8)

-- What `net.ParseCIDR` makes of an address and a prefix length, for an address whose bits after the
-- prefix are 0.
unfoldable pub cidr : Ip → ℕ → IpNet
unfolding cidr_mask
cidr ip bits = record { ip = ip; mask = cidr_mask (length ip) bits }

-- The loop that asks every network in turn.
unfoldable pub any_contains : List IpNet → Ip → Bool
any_contains [] ip = false
any_contains (n ∷ ns) ip = contains n ip || any_contains ns ip

-- The texts of addresses: `ip.String()` and `net.ParseIP(s)`.
pub record IpText : Type 0 where
  pub print : Ip → String
  pub parse : String → Option Ip
