-- ===== src/Maps/Group.antt =====
-- The loops that fill a map: for each element, find or create the entry of its key, and update it.
use bandwidth_monitor.Common.{
  Eq, ◌==◌, if◌then◌else◌, ◌≡◌, refl, List, [], ◌∷◌, Option, none, some, arith, ℕ, ◌+◌, ◌<◌,
  u64_mod, u64, add64, sum_of, Option-cases, inl, inr, Bool, false, ◌||◌, ◌++◌,
}
use bandwidth_monitor.Maps.{
  is_some, Map, or_else, get, put, get-put, DistinctKeys, put-DistinctKeys, sum_of-put,
  sum_of-put_new,
}

-- The counter `f` of an entry, 0 if there is none.
abbrev pub count_of {ℓ} : {S : Type ℓ} → (S → ℕ) → Option S → ℕ
count_of f none = 0
count_of f (some s) = f s

-- `key a` is `none` for the elements that the loop skips, and `fresh a` is a new entry's value.
module _ {ℓ κ μ} {A : Type ℓ} {K : Type κ} {S : Type μ} ⦃e : Eq K⦄ (key : A → Option K)
    (fresh : A → S) (upd : S → A → S) where
  group_step : Option K → A → Map K S → Map K S
  group_step none a t = t
  group_step (some k) a t = put k (upd (or_else (get k t) (fresh a)) a) t

  unfoldable pub group : List A → Map K S → Map K S
  unfolding group_step
  group [] t = t
  group (a ∷ xs) t = group xs (group_step (key a) a t)

  group_step-DistinctKeys :
      (k : Option K) (a : A) (t : Map K S) → DistinctKeys t → DistinctKeys (group_step k a t)
  unfolding group_step
  group_step-DistinctKeys none a t h = h
  group_step-DistinctKeys (some k) a t h = put-DistinctKeys k _ t h

  pub group-DistinctKeys : (xs : List A) (t : Map K S) → DistinctKeys t → DistinctKeys (group xs t)
  unfolding group
  group-DistinctKeys [] t h = h
  group-DistinctKeys (a ∷ xs) t h = group-DistinctKeys xs _ (group_step-DistinctKeys (key a) a t h)

-- The measure `n` of an element counts for its own key only.
abbrev pub share_if {ℓ} : {K : Type ℓ} ⦃e : Eq K⦄ → Option K → ℕ → K → ℕ
share_if none n j = 0
share_if (some k) n j = if k == j then n else 0

-- What the elements of one key add up to.
module _ {ℓ κ} {A : Type ℓ} {K : Type κ} ⦃e : Eq K⦄ where
  abbrev pub share : (A → Option K) → (A → ℕ) → K → List A → ℕ
  share key g j [] = 0
  share key g j (a ∷ xs) = share_if (key a) (g a) j + share key g j xs

  -- Some element has the key.
  abbrev pub hits : (A → Option K) → K → List A → Bool
  hits key j [] = false
  hits key j (a ∷ xs) = elim (key a) [ none ↦ false | some k ↦ k == j ] || hits key j xs

  -- What all elements with a key add up to.
  abbrev pub kept : (A → Option K) → (A → ℕ) → List A → ℕ
  kept key g [] = 0
  kept key g (a ∷ xs) = elim (key a) [ none ↦ 0 | some k ↦ g a ] + kept key g xs

module _ {ℓ κ μ} {A : Type ℓ} {K : Type κ} {S : Type μ} ⦃e : Eq K⦄ (key : A → Option K)
    (fresh : A → S) (upd : S → A → S) (f : S → ℕ) (g : A → ℕ) (starts : (a : A) → f (fresh a) ≡ 0)
    (adds : (s : S) (a : A) → f (upd s a) ≡ add64 (f s) (g a)) where
  count_of-group_step :
      (k : Option K) (a : A) (j : K) (t : Map K S)
      → count_of f (get j t) < u64_mod
      → count_of f (get j (group_step key fresh upd k a t))
        ≡ add64 (count_of f (get j t)) (share_if k (g a) j)
  unfolding group_step
  count_of-group_step none a j t small = omega arith
  count_of-group_step (some k) a j t small = ground (
    arith,
    get-put k j (upd (or_else (get k t) (fresh a)) a) t,
    e.beq_iff k j,
    starts a,
    adds (or_else (get k t) (fresh a)) a,
  )

  -- A counter that starts at 0 and to which each element adds its measure holds, at the end, what
  -- it held before and the share of its key, on `uint64`.
  pub count_of-group :
      (j : K) (xs : List A) (t : Map K S)
      → count_of f (get j t) < u64_mod
      → count_of f (get j (group key fresh upd xs t))
        ≡ add64 (count_of f (get j t)) (share key g j xs)
  unfolding group
  count_of-group j [] t small = omega arith
  count_of-group j (a ∷ xs) t small =
      let step = count_of-group_step (key a) a j t small in
      omega (
        arith,
        step,
        count_of-group j xs (group_step key fresh upd (key a) a t) (omega (arith, step)),
      )

  total-group_step :
      (k : Option K) (a : A) (t : Map K S)
      → u64 (sum_of (λ p. f p.1) (group_step key fresh upd k a t))
        ≡ u64 (sum_of (λ p. f p.1) t + elim k [ none ↦ 0 | some k ↦ g a ])
  unfolding group_step
  total-group_step none a t = omega arith
  total-group_step (some k) a t = elim (Option-cases (get k t)) [
    | inl new ↦
        rw new
          (omega (arith, sum_of-put_new f k (upd (fresh a) a) t new, starts a, adds (fresh a) a))
    | inr (s, old) ↦ rw old (omega (arith, sum_of-put f k (upd s a) s t old, adds s a))
  ]

  -- No measure is lost: all entries together hold what they held before and what all elements add.
  pub total-group :
      (xs : List A) (t : Map K S)
      → u64 (sum_of (λ p. f p.1) (group key fresh upd xs t))
        ≡ u64 (sum_of (λ p. f p.1) t + kept key g xs)
  unfolding group
  total-group [] t = omega arith
  total-group (a ∷ xs) t =
      omega
        (arith, total-group_step (key a) a t, total-group xs (group_step key fresh upd (key a) a t))

module _ {ℓ κ μ} {A : Type ℓ} {K : Type κ} {S : Type μ} ⦃e : Eq K⦄ (key : A → Option K)
    (fresh : A → S) (upd : S → A → S) where
  group_step-hits :
      (k : Option K) (a : A) (j : K) (t : Map K S)
      → is_some (get j (group_step key fresh upd k a t))
        ≡ (is_some (get j t) || elim k [ none ↦ false | some k ↦ k == j ])
  unfolding group_step
  group_step-hits none a j t = ground arith
  group_step-hits (some k) a j t =
      ground (arith, get-put k j (upd (or_else (get k t) (fresh a)) a) t, e.beq_iff k j)

  -- The loop leaves an entry for each key that an element has, and for no other.
  pub group-hits :
      (j : K) (xs : List A) (t : Map K S)
      → is_some (get j (group key fresh upd xs t)) ≡ (is_some (get j t) || hits key j xs)
  unfolding group
  group-hits j [] t = ground arith
  group-hits j (a ∷ xs) t =
      ground (
        arith,
        group_step-hits (key a) a j t,
        group-hits j xs (group_step key fresh upd (key a) a t),
      )

pub hits-append {ℓ κ} :
    {A : Type ℓ} {K : Type κ} ⦃e : Eq K⦄ (key : A → Option K) (j : K) (xs ys : List A)
    → hits key j (xs ++ ys) ≡ (hits key j xs || hits key j ys)
hits-append key j [] ys = refl
hits-append key j (x ∷ xs) ys = ground (arith, hits-append key j xs ys)

-- A map has the keys of its entries.
pub hits-map {κ μ} :
    {K : Type κ} {S : Type μ} ⦃e : Eq K⦄ (j : K) (m : Map K S)
    → hits (λ p. some p.0) j m ≡ is_some (get j m)
unfolding get
hits-map j [] = refl
hits-map ⦃e⦄ j ((k, s) ∷ m) = ground (arith, hits-map j m)

-- The share of a key in a map whose keys are distinct is the counter at that key.
pub share-DistinctKeys {κ μ} :
    {K : Type κ} {S : Type μ} ⦃e : Eq K⦄ (f : S → ℕ) (j : K) (m : Map K S)
    → DistinctKeys m
    → share (λ p. some p.0) (λ p. f p.1) j m ≡ count_of f (get j m)
unfolding get
share-DistinctKeys f j [] h = refl
share-DistinctKeys ⦃e⦄ f j ((k, s) ∷ m) h =
    ground (arith, e.beq_iff k j, share-DistinctKeys f j m h.1)
