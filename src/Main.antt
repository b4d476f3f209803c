-- ===== src/Main.antt =====
-- main.go: the configuration. The environment is a function from a variable to its value, `""` if it
-- is not set. `net.ParseCIDR` and `net.Interfaces` are parameters.
pub mod Networks
pub mod Discovery
pub mod System
pub mod Routes
pub mod Life
use Prim.Native.Char.{Char}
use bandwidth_monitor.Common.{
  ℕ, Bool, true, false, not, ◌||◌, if◌then◌else◌, Option, none, some, List, [], ◌∷◌, ◌++◌, String,
  string_eq, map,
}
use bandwidth_monitor.Net.{Ip, IpNet}
use bandwidth_monitor.Net.LinkLocal.{is_link_local_unicast, is_link_local_multicast}
use bandwidth_monitor.Texts.Split.{split_on, trim_space, comma}

abbrev pub Env : Type 0
Env = String → String

unfoldable pub env : Env → String → String → String
env getenv key fallback = if not (string_eq.beq (getenv key) "") then getenv key else fallback

abbrev pub one_of : List String → String → Bool
one_of [] s = false
one_of (t ∷ ts) s = string_eq.beq s t || one_of ts s

-- The value of `strconv.ParseBool`, which is `false` with an error.
abbrev pub parse_bool : String → Bool
parse_bool = one_of ("1" ∷ "t" ∷ "T" ∷ "TRUE" ∷ "true" ∷ "True" ∷ [])

-- `net.ParseCIDR`: `none` is an error.
abbrev pub ParseCidr : Type 0
ParseCidr = String → Option IpNet

abbrev pub add_parsed : Option IpNet → List IpNet → List IpNet
add_parsed none nets = nets
add_parsed (some n) nets = n ∷ nets

-- One entry of `LOCAL_NETS`, without the spaces around it, before the networks of the entries after.
unfoldable pub add_entry : ParseCidr → String → List IpNet → List IpNet
add_entry parse_cidr entry nets =
    if string_eq.beq entry "" then nets else add_parsed (parse_cidr entry) nets

-- The loop over the entries.
unfoldable pub entries : ParseCidr → List String → List IpNet
unfolding add_entry
entries parse_cidr [] = []
entries parse_cidr (e ∷ es) = add_entry parse_cidr (trim_space e) (entries parse_cidr es)

-- The networks that `LOCAL_NETS` names.
unfoldable pub configured : ParseCidr → String → List IpNet
unfolding entries split_on trim_space
configured parse_cidr raw = entries parse_cidr (split_on comma raw)

-- An address of an interface: a network, or something else.
pub data Addr : Type 0 where
  net : IpNet → Addr
  other : Addr

-- An interface: `addrs` is `none` if its addresses cannot be had.
pub record Iface : Type 0 where
  pub loopback : Bool
  pub addrs : Option (List Addr)

-- The loop over the addresses of an interface.
unfoldable pub own_nets : List Addr → List IpNet
unfolding is_link_local_unicast is_link_local_multicast
own_nets [] = []
own_nets (other ∷ as') = own_nets as'
own_nets (net n ∷ as') =
    let rest = own_nets as' in
    if is_link_local_unicast n.ip || is_link_local_multicast n.ip then rest else n ∷ rest

abbrev pub add_addrs : Option (List Addr) → List IpNet → List IpNet
add_addrs none nets = nets
add_addrs (some as') nets = own_nets as' ++ nets

-- The loop over the interfaces.
unfoldable pub of_ifaces : List Iface → List IpNet
unfolding own_nets
of_ifaces [] = []
of_ifaces (i ∷ is) = let rest = of_ifaces is in if i.loopback then rest else add_addrs i.addrs rest

-- The networks of the interfaces; `none` is the error of `net.Interfaces`.
unfoldable pub discovered : Option (List Iface) → List IpNet
unfolding of_ifaces
discovered none = []
discovered (some is) = of_ifaces is

-- `localNets`
unfoldable pub local_nets : ParseCidr → Env → Option (List Iface) → List IpNet
unfolding configured discovered
local_nets parse_cidr getenv ifaces =
    if not (string_eq.beq (getenv "LOCAL_NETS") "")
    then configured parse_cidr (getenv "LOCAL_NETS")
    else discovered ifaces
