-- ===== src/Sorting.antt =====
-- What `sort.Slice` promises: the same elements, in the order of `less`. It is not stable and its
-- choice among equal elements is not documented, so the model takes any function that keeps the
-- promise. With it come the slices that the program cuts off after sorting.
pub mod Insertion
use mathlib.Core.List.{Pairwise, Permᴰ, append-nil}
use mathlib.Core.Logic.{∥∥₁_elim}
use mathlib.Core.Path.{ap₂}
use native.Mathlib.Nat.{ℕ_set}
use bandwidth_monitor.Common.{
  sum_of, ap, ◌∙◌, ◌+◌, Bool-cases, inl, inr, ltb-false, ℕ, ◌≡◌, refl, sym, subst, Bool, true,
  false, List, [], ◌∷◌, ◌++◌, Perm, length, take, drop, min, ltb, All, take-append-drop,
  length-take, arith, if◌then◌else◌, ◌≤◌,
}

-- `less` is a strict weak order on the values that satisfy `P`.
pub record IsOrder {ℓ} {A : Type ℓ} (P : A → Type 0) (less : A → A → Bool) : Type ℓ where
  pub asymm : (a b : A) → P a → P b → less a b ≡ true → less b a ≡ false
  pub trans : (a b c : A) → P a → P b → P c → less b a ≡ false → less c b ≡ false → less c a ≡ false

-- No element comes after one that should follow it.
abbrev pub IsSorted {ℓ} : {A : Type ℓ} → (A → A → Bool) → List A → Type ℓ
IsSorted less = Pairwise (λ a b. less b a ≡ false)

pub record Sort : Type 1 where
  pub slice : {A : Type 0} → (A → A → Bool) → List A → List A
  pub slice-perm : {A : Type 0} (less : A → A → Bool) (xs : List A) → Perm (slice less xs) xs
  pub slice-IsSorted :
      {A : Type 0} (P : A → Type 0) (less : A → A → Bool) (xs : List A)
      → IsOrder P less
      → All P xs
      → IsSorted less (slice less xs)

-- `ys` are the first `n` elements of `xs` in the order of `less`: `rest` is what was cut off.
pub record IsTop {A : Type 0} (less : A → A → Bool) (n : ℕ) (xs ys : List A) : Type 0 where
  pub rest : List A
  pub same : Perm (ys ++ rest) xs
  pub sorted : IsSorted less (ys ++ rest)
  pub size : length ys ≡ min n (length xs)

-- `if len(list) > n { list = list[:n] }`
abbrev pub cut {ℓ} : {A : Type ℓ} → ℕ → List A → List A
cut n xs = if ltb n (length xs) then take n xs else xs

sum_of-permᴰ {ℓ} :
    {A : Type ℓ} (f : A → ℕ) {xs ys : List A} → Permᴰ xs ys → sum_of f xs ≡ sum_of f ys
sum_of-permᴰ f Permᴰ.nil = refl
sum_of-permᴰ f (Permᴰ.cons e p) = ap₂ ◌+◌ (ap f e) (sum_of-permᴰ f p)
sum_of-permᴰ f (Permᴰ.swap e d) = omega (arith, ap f e, ap f d)
sum_of-permᴰ f (Permᴰ.trans p q) = sum_of-permᴰ f p ∙ sum_of-permᴰ f q

-- A sum does not depend on the order.
pub sum_of-perm {ℓ} :
    {A : Type ℓ} (f : A → ℕ) {xs ys : List A} → Perm xs ys → sum_of f xs ≡ sum_of f ys
sum_of-perm f p = ∥∥₁_elim p (ℕ_set _ _) (sum_of-permᴰ f)

length-sum_of {ℓ} : {A : Type ℓ} (xs : List A) → length xs ≡ sum_of (λ x. 1) xs
length-sum_of [] = refl
length-sum_of (x ∷ xs) = omega (arith, length-sum_of xs)

pub length-perm {ℓ} : {A : Type ℓ} {xs ys : List A} → Perm xs ys → length xs ≡ length ys
length-perm {xs = xs} {ys = ys} p =
    length-sum_of xs ∙ sum_of-perm (λ x. 1) p ∙ sym (length-sum_of ys)

-- Sorting and cutting gives the first elements in the order.
pub cut-IsTop :
    (sort : Sort) {A : Type 0} (P : A → Type 0) (less : A → A → Bool) (n : ℕ) (xs : List A)
    → IsOrder P less
    → All P xs
    → IsTop less n xs (cut n (sort.slice less xs))
cut-IsTop sort {A} P less n xs order all = elim (Bool-cases (ltb n (length ys))) [
  | inl long ↦ rw long (record {
    rest = drop n ys;
    same = rw (take-append-drop n ys) (sort.slice-perm less xs);
    sorted = rw (take-append-drop n ys) (sort.slice-IsSorted P less xs order all);
    size = omega (arith, length-take n ys, same_length);
  })
  | inr short ↦ rw short (record {
    rest = [];
    same = rw (append-nil ys) (sort.slice-perm less xs);
    sorted = rw (append-nil ys) (sort.slice-IsSorted P less xs order all);
    size = omega (arith, ltb-false _ _ short, same_length);
  })
]
  where
    ys : List A
    ys = sort.slice less xs

    same_length : length ys ≡ length xs
    same_length = length-perm (sort.slice-perm less xs)

-- `less` by a number, the largest first.
abbrev pub more {ℓ} : {A : Type ℓ} → (A → ℕ) → A → A → Bool
more f a b = ltb (f b) (f a)

abbrev pub Any {ℓ} : {A : Type ℓ} → A → Type 0
Any a = Unit

pub All-Any {ℓ} : {A : Type ℓ} (xs : List A) → All Any xs
All-Any [] = tt
All-Any (x ∷ xs) = (tt, All-Any xs)

pub more-IsOrder {ℓ} : {A : Type ℓ} (f : A → ℕ) → IsOrder Any (more f)
more-IsOrder f = record {
  asymm = λ a b _ _ h. ground arith;
  trans = λ a b c _ _ _ h k. ground arith;
}

-- A test that fails on all elements fails on them in any order: none is counted.
abbrev hits {ℓ} : {A : Type ℓ} → (A → Bool) → List A → ℕ
hits test = sum_of (λ a. if test a then 1 else 0)

All-hits {ℓ} :
    {A : Type ℓ} (test : A → Bool) (xs : List A) → All (λ a. test a ≡ false) xs → hits test xs ≡ 0
All-hits test [] h = refl
All-hits test (x ∷ xs) h = ground (arith, h.0, All-hits test xs h.1)

hits-All {ℓ} :
    {A : Type ℓ} (test : A → Bool) (xs : List A) → hits test xs ≡ 0 → All (λ a. test a ≡ false) xs
hits-All test [] h = tt
hits-All test (x ∷ xs) h = (ground (arith, h), hits-All test xs (ground (arith, h)))

pub All-perm {ℓ} :
    {A : Type ℓ} (test : A → Bool) {xs ys : List A}
    → Perm ys xs
    → All (λ a. test a ≡ false) xs
    → All (λ a. test a ≡ false) ys
All-perm test {xs} {ys} p h =
    hits-All test ys (sum_of-perm (λ a. if test a then 1 else 0) p ∙ All-hits test xs h)
