-- ===== src/Net/Masks.antt =====
-- Masked bytes: what the masks of a prefix keep of a byte.
use Prim.Native.Nat.{bit_and}
use bandwidth_monitor.Common.{
  ℕ, zero, suc, ◌*◌, ◌/◌, ◌<◌, ◌≡◌, refl, Bool, true, false, if◌then◌else◌, arith, nat_beq,
  nat_beq_iff,
}

-- Whether a test passes at each of the first `n` numbers.
passes : (ℕ → Bool) → ℕ → Bool
passes test zero = true
passes test (suc n) = if test n then passes test n else false

passes-at : (test : ℕ → Bool) (n x : ℕ) → x < n → passes test n ≡ true → test x ≡ true
unfolding passes
passes-at test zero x below all = absurd (omega arith)
passes-at test (suc n) x below all = ground (arith, passes-at test n x)

module _ (x : ℕ) (small : x < 256) where
  pub mask_none : bit_and x 0 ≡ 0
  unfolding passes
  mask_none = (nat_beq_iff _ _).0 (passes-at (λ b. nat_beq (bit_and b 0) 0) 256 x small refl)

  pub mask_all : bit_and x 255 ≡ x
  unfolding passes
  mask_all = (nat_beq_iff _ _).0 (passes-at (λ b. nat_beq (bit_and b 255) b) 256 x small refl)

  pub mask_high4 : bit_and x 240 ≡ x / 16 * 16
  unfolding passes
  mask_high4 =
      (nat_beq_iff _ _).0 (passes-at (λ b. nat_beq (bit_and b 240) (b / 16 * 16)) 256 x small refl)

  pub mask_high7 : bit_and x 254 ≡ x / 2 * 2
  unfolding passes
  mask_high7 =
      (nat_beq_iff _ _).0 (passes-at (λ b. nat_beq (bit_and b 254) (b / 2 * 2)) 256 x small refl)

  pub mask_high2 : bit_and x 192 ≡ x / 64 * 64
  unfolding passes
  mask_high2 =
      (nat_beq_iff _ _).0 (passes-at (λ b. nat_beq (bit_and b 192) (b / 64 * 64)) 256 x small refl)
