-- ===== src/Talkers/PrivateV6.antt =====
-- Which IPv6 addresses are private: unique local addresses, the loopback and link-local addresses.
use Prim.Native.Nat.{bit_and}
use bandwidth_monitor.Common.{
  ℕ, zero, suc, ◌<◌, ◌≡◌, refl, Bool, true, false, ◌&&◌, ◌||◌, none, some, List, [], ◌∷◌, String,
  ltb, leb, nat_beq, arith, All, length, drop,
}
use bandwidth_monitor.Net.{
  IpNet, Ip, IpText, contains, any_contains, cidr, to4, same_bytes, masked_eq, narrow,
}
use bandwidth_monitor.Net.Masks.{mask_none, mask_all, mask_high7, mask_high2}
use bandwidth_monitor.Talkers.{is_private_ip}
use bandwidth_monitor.Talkers.Private.{masked_nothing, masked_exactly}

abbrev pub loopback : Ip
loopback = 0 ∷ 0 ∷ 0 ∷ 0 ∷ 0 ∷ 0 ∷ 0 ∷ 0 ∷ 0 ∷ 0 ∷ 0 ∷ 0 ∷ 0 ∷ 0 ∷ 0 ∷ 1 ∷ []

abbrev zeros : ℕ → List ℕ
zeros zero = []
zeros (suc n) = 0 ∷ zeros n

abbrev ones : ℕ → List ℕ
ones zero = []
ones (suc n) = 255 ∷ ones n

-- The IPv6 addresses of fc00::/7 and fe80::/10, by their first two bytes, and ::1.
abbrev pub in_private_v6 : ℕ → ℕ → List ℕ → Bool
in_private_v6 x y xs =
    leb 252 x && ltb x 254
    || same_bytes (x ∷ y ∷ xs) loopback
    || nat_beq x 254 && (leb 128 y && ltb y 192)

module _ (x y : ℕ) (xs : List ℕ) (hx : x < 256) (hy : y < 256) (hxs : All (λ b. b < 256) xs)
    (size : length xs ≡ 14) (plain : to4 (x ∷ y ∷ xs) ≡ none) where
  -- An IPv4 network has no such address.
  v4_network :
      (n : IpNet)
      → nat_beq 16 (length (narrow (to4 n.ip) n.ip)) ≡ false
      → contains n (x ∷ y ∷ xs) ≡ false
  unfolding contains
  v4_network n h = rw plain (ground (arith, h))

  rest_free : masked_eq (zeros 14) (zeros 14) xs ≡ true
  rest_free = masked_nothing (zeros 14) (zeros 14) xs (omega arith) (omega arith) hxs

  rest_one : masked_eq (drop 2 loopback) (ones 14) xs ≡ same_bytes xs (drop 2 loopback)
  rest_one =
      masked_exactly (drop 2 loopback) (ones 14) xs (omega arith) (omega arith) hxs (omega arith)
        (omega arith)

  unique_local : contains (cidr (0xfc ∷ zeros 15) 7) (x ∷ y ∷ xs) ≡ (leb 252 x && ltb x 254)
  unfolding contains cidr same_bytes
  unique_local = rw plain (ground (arith, mask_high7 x hx, mask_none y hy, rest_free))

  second : nat_beq 128 (bit_and y 192) ≡ (leb 128 y && ltb y 192)
  second = rw (mask_high2 y hy) (ground arith)

  link_local :
      contains (cidr (0xfe ∷ 0x80 ∷ zeros 14) 10) (x ∷ y ∷ xs)
      ≡ (nat_beq x 254 && (leb 128 y && ltb y 192))
  unfolding contains cidr same_bytes
  link_local = rw plain (rw (second, mask_all x hx) (ground (arith, rest_free, size)))

  is_loopback : contains (cidr loopback 128) (x ∷ y ∷ xs) ≡ same_bytes (x ∷ y ∷ xs) loopback
  unfolding contains cidr same_bytes
  is_loopback = rw plain (ground (arith, mask_all x hx, mask_all y hy, rest_one))

-- A text that is parsed as an IPv6 address of 16 bytes, not an IPv4 address written in 16, is private
-- exactly if the address lies in fc00::/7 or fe80::/10 or is ::1.
pub is_private_ip_v6 :
    (texts : IpText) (s : String) (x y : ℕ) (xs : List ℕ)
    → texts.parse s ≡ some (x ∷ y ∷ xs)
    → length xs ≡ 14
    → x < 256
    → y < 256
    → All (λ b. b < 256) xs
    → to4 (x ∷ y ∷ xs) ≡ none
    → is_private_ip texts s ≡ in_private_v6 x y xs
unfolding is_private_ip any_contains same_bytes cidr to4
is_private_ip_v6 texts s x y xs parsed size hx hy hxs plain =
    rw
      (
        parsed,
        v4_network x y xs hx hy hxs size plain (cidr (10 ∷ 0 ∷ 0 ∷ 0 ∷ []) 8) refl,
        v4_network x y xs hx hy hxs size plain (cidr (172 ∷ 16 ∷ 0 ∷ 0 ∷ []) 12) refl,
        v4_network x y xs hx hy hxs size plain (cidr (192 ∷ 168 ∷ 0 ∷ 0 ∷ []) 16) refl,
        v4_network x y xs hx hy hxs size plain (cidr (127 ∷ 0 ∷ 0 ∷ 0 ∷ []) 8) refl,
        unique_local x y xs hx hy hxs size plain,
        link_local x y xs hx hy hxs size plain,
        is_loopback x y xs hx hy hxs size plain,
      )
      (ground arith)
