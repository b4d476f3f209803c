-- ===== src/Talkers/Private.antt =====
-- Which addresses are private: the address blocks of RFC 1918, loopback, and their IPv6 kin.
use bandwidth_monitor.Common.{
  ℕ, ◌<◌, ◌≡◌, refl, Bool, true, false, ◌&&◌, ◌||◌, some, List, [], ◌∷◌, ◌++◌, String, ltb, leb,
  nat_beq, arith, All, length, ◌∙◌,
}
use bandwidth_monitor.Net.{
  IpNet, IpText, contains, any_contains, cidr, v4_in_v6, narrow, to4, same_bytes, masked_eq,
}
use bandwidth_monitor.Net.Masks.{mask_none, mask_all, mask_high4}
use bandwidth_monitor.Talkers.{private_ranges, is_private_ip}

-- The IPv4 addresses of 10/8, 172.16/12, 192.168/16 and 127/8, by their first two bytes.
abbrev pub in_private_block : ℕ → ℕ → Bool
in_private_block a b =
    nat_beq a 10
    || nat_beq a 172 && (leb 16 b && ltb b 32)
    || nat_beq a 192 && nat_beq b 168
    || nat_beq a 127

module _ (a b c d : ℕ) (ha : a < 256) (hb : b < 256) (hc : c < 256) (hd : d < 256) where
  block_10 : contains (cidr (10 ∷ 0 ∷ 0 ∷ 0 ∷ []) 8) (a ∷ b ∷ c ∷ d ∷ []) ≡ nat_beq a 10
  unfolding contains cidr
  block_10 = ground (arith, mask_all a ha, mask_none b hb, mask_none c hc, mask_none d hd)

  block_172 :
      contains (cidr (172 ∷ 16 ∷ 0 ∷ 0 ∷ []) 12) (a ∷ b ∷ c ∷ d ∷ [])
      ≡ (nat_beq a 172 && (leb 16 b && ltb b 32))
  unfolding contains cidr
  block_172 = ground (arith, mask_all a ha, mask_high4 b hb, mask_none c hc, mask_none d hd)

  block_192 :
      contains (cidr (192 ∷ 168 ∷ 0 ∷ 0 ∷ []) 16) (a ∷ b ∷ c ∷ d ∷ [])
      ≡ (nat_beq a 192 && nat_beq b 168)
  unfolding contains cidr
  block_192 = ground (arith, mask_all a ha, mask_all b hb, mask_none c hc, mask_none d hd)

  block_127 : contains (cidr (127 ∷ 0 ∷ 0 ∷ 0 ∷ []) 8) (a ∷ b ∷ c ∷ d ∷ []) ≡ nat_beq a 127
  unfolding contains cidr
  block_127 = ground (arith, mask_all a ha, mask_none b hb, mask_none c hc, mask_none d hd)

  block_v6 :
      (n : IpNet)
      → nat_beq 4 (length (narrow (to4 n.ip) n.ip)) ≡ false
      → contains n (a ∷ b ∷ c ∷ d ∷ []) ≡ false
  unfolding contains
  block_v6 n h = rw h

  private_v4 : any_contains private_ranges (a ∷ b ∷ c ∷ d ∷ []) ≡ in_private_block a b
  unfolding any_contains to4 same_bytes cidr
  private_v4 =
      rw
        (
          block_10,
          block_172,
          block_192,
          block_127,
          block_v6 (cidr (0xfc ∷ 0 ∷ 0 ∷ 0 ∷ 0 ∷ 0 ∷ 0 ∷ 0 ∷ 0 ∷ 0 ∷ 0 ∷ 0 ∷ 0 ∷ 0 ∷ 0 ∷ 0 ∷ []) 7)
              refl,
          block_v6 (cidr (0 ∷ 0 ∷ 0 ∷ 0 ∷ 0 ∷ 0 ∷ 0 ∷ 0 ∷ 0 ∷ 0 ∷ 0 ∷ 0 ∷ 0 ∷ 0 ∷ 0 ∷ 1 ∷ []) 128)
              refl,
          block_v6
              (cidr (0xfe ∷ 0x80 ∷ 0 ∷ 0 ∷ 0 ∷ 0 ∷ 0 ∷ 0 ∷ 0 ∷ 0 ∷ 0 ∷ 0 ∷ 0 ∷ 0 ∷ 0 ∷ 0 ∷ []) 10)
              refl,
        )
        (ground arith)

-- `net.ParseIP` gives an IPv4 address in 16 bytes; it lies in the same networks.
mapped :
    (n : IpNet) (a b c d : ℕ)
    → contains n (v4_in_v6 ++ a ∷ b ∷ c ∷ d ∷ []) ≡ contains n (a ∷ b ∷ c ∷ d ∷ [])
unfolding contains same_bytes
mapped n a b c d = refl

mapped_any :
    (ns : List IpNet) (a b c d : ℕ)
    → any_contains ns (v4_in_v6 ++ a ∷ b ∷ c ∷ d ∷ []) ≡ any_contains ns (a ∷ b ∷ c ∷ d ∷ [])
unfolding any_contains
mapped_any [] a b c d = refl
mapped_any (n ∷ ns) a b c d = rw (mapped n a b c d, mapped_any ns a b c d)

-- A text that is parsed as an IPv4 address, in the 16 bytes that `net.ParseIP` gives it, is private
-- exactly if the address lies in 10/8, 172.16/12, 192.168/16 or 127/8.
pub is_private_ip_v4 :
    (texts : IpText) (s : String) (a b c d : ℕ)
    → texts.parse s ≡ some (v4_in_v6 ++ a ∷ b ∷ c ∷ d ∷ [])
    → a < 256
    → b < 256
    → c < 256
    → d < 256
    → is_private_ip texts s ≡ in_private_block a b
unfolding is_private_ip
is_private_ip_v4 texts s a b c d parsed ha hb hc hd =
    rw parsed (mapped_any private_ranges a b c d ∙ private_v4 a b c d ha hb hc hd)

-- A mask of 0 asks nothing, and a mask of 255 asks for the byte.
pub masked_nothing :
    (ns ms xs : List ℕ)
    → All (λ n. n ≡ 0) ns
    → All (λ m. m ≡ 0) ms
    → All (λ x. x < 256) xs
    → masked_eq ns ms xs ≡ true
unfolding masked_eq
masked_nothing (n ∷ ns) (m ∷ ms) (x ∷ xs) hn hm hx =
    rw (hn.0, hm.0, mask_none x hx.0, masked_nothing ns ms xs hn.1 hm.1 hx.1)
masked_nothing _ _ _ hn hm hx = refl

pub masked_exactly :
    (ns ms xs : List ℕ)
    → All (λ n. n < 256) ns
    → All (λ m. m ≡ 255) ms
    → All (λ x. x < 256) xs
    → length ns ≡ length xs
    → length ms ≡ length xs
    → masked_eq ns ms xs ≡ same_bytes xs ns
unfolding masked_eq same_bytes
masked_exactly [] [] [] hn hm hx e f = refl
masked_exactly (n ∷ ns) (m ∷ ms) (x ∷ xs) hn hm hx e f =
    rw
      (
        hm.0,
        mask_all x hx.0,
        mask_all n hn.0,
        masked_exactly ns ms xs hn.1 hm.1 hx.1 (omega arith) (omega arith),
      )
      (ground arith)
masked_exactly [] _ (x ∷ xs) hn hm hx e f = absurd (omega arith)
masked_exactly _ [] (x ∷ xs) hn hm hx e f = absurd (omega arith)
masked_exactly (n ∷ ns) _ [] hn hm hx e f = absurd (omega arith)
masked_exactly _ (m ∷ ms) [] hn hm hx e f = absurd (omega arith)
