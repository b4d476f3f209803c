-- ===== src/Main/Discovery.antt =====
-- main.go: which networks of the interfaces become local networks.
use bandwidth_monitor.Common.{
  ◌≡◌, refl, sym, ap, subst, ◌↔◌, ◌⊎◌, inl, inr, Bool, true, false, ◌||◌, if◌then◌else◌, arith,
  Option, none, some, List, [], ◌∷◌, ◌++◌,
}
use bandwidth_monitor.Net.{IpNet}
use bandwidth_monitor.Net.LinkLocal.{is_link_local_unicast, is_link_local_multicast}
use bandwidth_monitor.Main.{
  Addr, net, other, Iface, own_nets, add_addrs, of_ifaces, discovered, local_nets, Env, ParseCidr,
}

-- The list has the value.
abbrev pub Among : {A : Type 0} → A → List A → Type 0
Among x [] = true ≡ false
Among x (y ∷ ys) = (y ≡ x) ⊎ Among x ys

module _ {A : Type 0} where
  from-append : (x : A) (xs ys : List A) → Among x (xs ++ ys) → Among x xs ⊎ Among x ys
  from-append x [] ys h = inr h
  from-append x (y ∷ xs) ys (inl e) = inl (inl e)
  from-append x (y ∷ xs) ys (inr h) = elim (from-append x xs ys h) [
    | inl k ↦ inl (inr k)
    | inr k ↦ inr k
  ]

  to-append : (x : A) (xs ys : List A) → Among x xs ⊎ Among x ys → Among x (xs ++ ys)
  to-append x [] ys (inl h) = absurd (ground (arith, h))
  to-append x [] ys (inr h) = h
  to-append x (y ∷ xs) ys (inl (inl e)) = inl e
  to-append x (y ∷ xs) ys (inl (inr h)) = inr (to-append x xs ys (inl h))
  to-append x (y ∷ xs) ys (inr h) = inr (to-append x xs ys (inr h))

  -- A list with a value in front of it unless a test holds.
  from-unless :
      (x y : A) (b : Bool) (ys : List A)
      → Among x (if b then ys else y ∷ ys)
      → ((y ≡ x) × (b ≡ false)) ⊎ Among x ys
  from-unless x y true ys h = inr h
  from-unless x y false ys (inl e) = inl (e, refl)
  from-unless x y false ys (inr h) = inr h

  to-unless :
      (x y : A) (b : Bool) (ys : List A)
      → ((y ≡ x) × (b ≡ false)) ⊎ Among x ys
      → Among x (if b then ys else y ∷ ys)
  to-unless x y true ys (inl (e, f)) = absurd (ground (arith, f))
  to-unless x y true ys (inr h) = h
  to-unless x y false ys (inl (e, f)) = inl e
  to-unless x y false ys (inr h) = inr h

abbrev pub link_local : IpNet → Bool
link_local n = is_link_local_unicast n.ip || is_link_local_multicast n.ip

-- An interface that is not a loopback gives the network as one of its addresses, and it is not
-- link-local.
pub record Gives (n : IpNet) (i : Iface) : Type 0 where
  pub outer : i.loopback ≡ false
  pub list : List Addr
  pub list_lem : i.addrs ≡ some list
  pub here : Among (net n) list
  pub routed : link_local n ≡ false

-- One of the interfaces gives the network.
abbrev pub OneGives : IpNet → List Iface → Type 0
OneGives n [] = true ≡ false
OneGives n (i ∷ is) = Gives n i ⊎ OneGives n is

net-inj : (n m : IpNet) → net n ≡ net m → n ≡ m
net-inj n m e = cc

from-own_nets :
    (n : IpNet) (list : List Addr)
    → Among n (own_nets list)
    → Among (net n) list × (link_local n ≡ false)
unfolding own_nets
from-own_nets n [] h = absurd (ground (arith, h))
from-own_nets n (other ∷ list) h = let (k, r) = from-own_nets n list h in (inr k, r)
from-own_nets n (net m ∷ list) h = elim (from-unless n m (link_local m) (own_nets list) h) [
  | inl (e, r) ↦ (inl (ap net e), subst (λ x. link_local x ≡ false) e r)
  | inr k ↦ let (here, r) = from-own_nets n list k in (inr here, r)
]

to-own_nets :
    (n : IpNet) (list : List Addr)
    → Among (net n) list
    → link_local n ≡ false
    → Among n (own_nets list)
unfolding own_nets
to-own_nets n [] h r = h
to-own_nets n (other ∷ list) (inl e) r = absurd (ground (arith, e))
to-own_nets n (other ∷ list) (inr h) r = to-own_nets n list h r
to-own_nets n (net m ∷ list) (inl e) r =
    let same = net-inj m n e in
    to-unless n m (link_local m) (own_nets list)
      (inl (same, subst (λ x. link_local x ≡ false) (sym same) r))
to-own_nets n (net m ∷ list) (inr h) r =
    to-unless n m (link_local m) (own_nets list) (inr (to-own_nets n list h r))

-- One round of the loop over the interfaces, by its two tests.
from-iface :
    (n : IpNet) (i : Iface) (b : Bool) (o : Option (List Addr)) (rest : List IpNet)
    → i.loopback ≡ b
    → i.addrs ≡ o
    → Among n (if b then rest else add_addrs o rest)
    → Gives n i ⊎ Among n rest
from-iface n i true o rest l e h = inr h
from-iface n i false none rest l e h = inr h
from-iface n i false (some list) rest l e h = elim (from-append n (own_nets list) rest h) [
  | inl k ↦
      let (here, routed) = from-own_nets n list k in
      inl (record { outer = l; list = list; list_lem = e; here = here; routed = routed })
  | inr k ↦ inr k
]

to-iface :
    (n : IpNet) (b : Bool) (o : Option (List Addr)) (rest : List IpNet)
    → Among n rest
    → Among n (if b then rest else add_addrs o rest)
to-iface n true o rest h = h
to-iface n false none rest h = h
to-iface n false (some list) rest h = to-append n (own_nets list) rest (inr h)

from-of_ifaces : (n : IpNet) (is : List Iface) → Among n (of_ifaces is) → OneGives n is
unfolding of_ifaces
from-of_ifaces n [] h = h
from-of_ifaces n (i ∷ is) h = elim (from-iface n i i.loopback i.addrs (of_ifaces is) refl refl h) [
  | inl g ↦ inl g
  | inr k ↦ inr (from-of_ifaces n is k)
]

to-of_ifaces : (n : IpNet) (is : List Iface) → OneGives n is → Among n (of_ifaces is)
unfolding of_ifaces
to-of_ifaces n [] h = h
to-of_ifaces n (i ∷ is) (inl g) =
    rw (g.outer, g.list_lem)
      (to-append n (own_nets g.list) (of_ifaces is) (inl (to-own_nets n g.list g.here g.routed)))
to-of_ifaces n (i ∷ is) (inr h) = to-iface n i.loopback i.addrs (of_ifaces is) (to-of_ifaces n is h)

discovered-OneGives :
    (n : IpNet) (ifaces : List Iface) → Among n (discovered (some ifaces)) ↔ OneGives n ifaces
unfolding discovered
discovered-OneGives n ifaces = (from-of_ifaces n ifaces, to-of_ifaces n ifaces)

-- If `LOCAL_NETS` is not set or empty and the interfaces can be listed, a network is a local network
-- exactly if an interface that is not a loopback has it as one of its addresses, and its address is
-- not link-local.
pub local_nets-OneGives :
    (parse_cidr : ParseCidr) (getenv : Env) (n : IpNet) (ifaces : List Iface)
    → getenv "LOCAL_NETS" ≡ ""
    → Among n (local_nets parse_cidr getenv (some ifaces)) ↔ OneGives n ifaces
unfolding local_nets
local_nets-OneGives parse_cidr getenv n ifaces e = rw e (discovered-OneGives n ifaces)
