-- ===== src/Float.antt =====
-- Go's `float64`. The checker has no floating-point numbers: the program's uses of them are an
-- interface, and `Laws` states what IEEE 754 gives for those uses.
use bandwidth_monitor.Common.{false, ℕ, ◌<◌, ◌^◌, ◌≡◌, Bool, true, ℤ, pos, negsuc, ◌≤ℤ◌}
use bandwidth_monitor.Sorting.{IsOrder}

pub record Float : Type 1 where
  pub F : Type 0
  pub of_int : ℤ → F  -- float64(z)
  pub lt : F → F → Bool  -- a < b
  pub le : F → F → Bool  -- a <= b
  pub mul : F → F → F
  pub div : F → F → F
  pub to_int : F → ℤ  -- int(x)
  pub seconds : ℤ → F  -- Duration.Seconds(), of nanoseconds

-- `nought` is the constant 0.
abbrev pub nought : (fl : Float) → fl.F
nought fl = fl.of_int (pos 0)

abbrev pub of_ℕ : (fl : Float) → ℕ → fl.F
of_ℕ fl n = fl.of_int (pos n)

-- `IsNumber` holds of every value but NaN.
pub record Laws (fl : Float) : Type 1 where
  pub IsNumber : fl.F → Type 0
  pub lt-IsOrder : IsOrder IsNumber fl.lt
  pub of_int-IsNumber : (z : ℤ) → IsNumber (fl.of_int z)
  pub nought-lt-one : fl.lt (fl.of_int (pos 0)) (fl.of_int (pos 1)) ≡ true
  pub seconds-IsNumber : (z : ℤ) → IsNumber (fl.seconds z)
  pub div-IsNumber :
      (z : ℤ) (d : fl.F) → fl.lt (nought fl) d ≡ true → IsNumber (fl.div (fl.of_int z) d)
  pub div-not-below :
      (n : ℕ) (z : ℤ)
      → fl.lt (nought fl) (fl.seconds z) ≡ true
      → fl.lt (fl.div (of_ℕ fl n) (fl.seconds z)) (nought fl) ≡ false
  pub div-below :
      (n : ℕ) (z : ℤ)
      → fl.lt (nought fl) (fl.seconds z) ≡ true
      → fl.lt (fl.div (fl.of_int (negsuc n)) (fl.seconds z)) (nought fl) ≡ true
  pub to_int_nonneg :
      (i n m : ℕ)
      → i < m
      → n < 2 ^ 62
      → ◌≤ℤ◌ (pos 0) (fl.to_int (fl.mul (of_ℕ fl i) (fl.div (of_ℕ fl n) (of_ℕ fl m))))
