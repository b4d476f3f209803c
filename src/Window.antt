-- ===== src/Window.antt =====
-- Sliding windows: lists in the order of a time stamp, from whose front the old elements are dropped.
use bandwidth_monitor.Common.{
  true, false, leb, ℕ, ◌≤◌, ◌<◌, ◌≡◌, refl, ap, Bool, List, [], ◌∷◌, ◌++◌, All, if◌then◌else◌, ltb,
  arith, Bool-cases, inl, inr, ltb-false, ltb→lt,
}

-- The loop `for i < len(s) && p(s[i]) { i++ }; s = s[i:]`.
unfoldable pub drop_while {ℓ} : {A : Type ℓ} → (A → Bool) → List A → List A
drop_while p [] = []
drop_while p (x ∷ xs) = if p x then drop_while p xs else x ∷ xs

module _ {ℓ} {A : Type ℓ} (stamp : A → ℕ) where
  -- Time stamps never fall along the list.
  abbrev pub Ascending : List A → Type 0
  Ascending [] = Unit
  Ascending (x ∷ xs) = All (λ y. stamp x ≤ stamp y) xs × Ascending xs

  abbrev pub older_than : ℕ → A → Bool
  older_than cutoff x = ltb (stamp x) cutoff

  -- What is dropped from the front.
  pub stale : ℕ → List A → List A
  stale cutoff [] = []
  stale cutoff (x ∷ xs) = if older_than cutoff x then x ∷ stale cutoff xs else []

  abbrev pub fresh : ℕ → List A → List A
  fresh cutoff xs = drop_while (older_than cutoff) xs

  pub stale-append-fresh : (cutoff : ℕ) (xs : List A) → stale cutoff xs ++ fresh cutoff xs ≡ xs
  unfolding stale drop_while
  stale-append-fresh cutoff [] = refl
  stale-append-fresh cutoff (x ∷ xs) = elim (Bool-cases (older_than cutoff x)) [
    | inl old ↦ rw old (ap (◌∷◌ x) (stale-append-fresh cutoff xs))
    | inr recent ↦ rw recent
  ]

  pub stale-All : (cutoff : ℕ) (xs : List A) → All (λ x. stamp x < cutoff) (stale cutoff xs)
  unfolding stale
  stale-All cutoff [] = tt
  stale-All cutoff (x ∷ xs) = elim (Bool-cases (older_than cutoff x)) [
    | inl old ↦ rw old (ltb→lt _ _ old, stale-All cutoff xs)
    | inr recent ↦ rw recent tt
  ]

  All-raise :
      (m n : ℕ) (xs : List A) → m ≤ n → All (λ y. n ≤ stamp y) xs → All (λ y. m ≤ stamp y) xs
  All-raise m n [] h a = tt
  All-raise m n (x ∷ xs) h a = (omega arith, All-raise m n xs h a.1)

  All-lower :
      (m n : ℕ) (xs : List A) → m ≤ n → All (λ y. stamp y ≤ m) xs → All (λ y. stamp y ≤ n) xs
  All-lower m n [] h a = tt
  All-lower m n (x ∷ xs) h a = (omega arith, All-lower m n xs h a.1)

  -- In an ascending list all that is old stands in front, so nothing old is left.
  pub fresh-All :
      (cutoff : ℕ) (xs : List A) → Ascending xs → All (λ x. cutoff ≤ stamp x) (fresh cutoff xs)
  unfolding drop_while
  fresh-All cutoff [] h = tt
  fresh-All cutoff (x ∷ xs) h = elim (Bool-cases (older_than cutoff x)) [
    | inl old ↦ rw old (fresh-All cutoff xs h.1)
    | inr recent ↦
        rw recent (ltb-false _ _ recent, All-raise cutoff (stamp x) xs (ltb-false _ _ recent) h.0)
  ]

  -- The elements that are not older than the cutoff, wherever they stand.
  abbrev pub within : ℕ → List A → List A
  within cutoff [] = []
  within cutoff (x ∷ xs) =
      let rest = within cutoff xs in if leb cutoff (stamp x) then x ∷ rest else rest

  within-All : (cutoff : ℕ) (xs : List A) → All (λ x. cutoff ≤ stamp x) xs → within cutoff xs ≡ xs
  within-All cutoff [] h = refl
  within-All cutoff (x ∷ xs) h =
      let new : leb cutoff (stamp x) ≡ true = ground (arith, h.0) in
      rw new (ap (◌∷◌ x) (within-All cutoff xs h.1))

  -- In an ascending list dropping from the front leaves exactly these.
  pub fresh-within : (cutoff : ℕ) (xs : List A) → Ascending xs → fresh cutoff xs ≡ within cutoff xs
  unfolding drop_while
  fresh-within cutoff [] h = refl
  fresh-within cutoff (x ∷ xs) h = elim (Bool-cases (older_than cutoff x)) [
    | inl old ↦
        let gone : leb cutoff (stamp x) ≡ false = ground (arith, old) in
        rw (old, gone) (fresh-within cutoff xs h.1)
    | inr recent ↦
        let new : leb cutoff (stamp x) ≡ true = ground (arith, recent) in
        let later = All-raise cutoff (stamp x) xs (ltb-false _ _ recent) h.0 in
        rw (recent, new, within-All cutoff xs later) refl
  ]

  pub fresh-Ascending : (cutoff : ℕ) (xs : List A) → Ascending xs → Ascending (fresh cutoff xs)
  unfolding drop_while
  fresh-Ascending cutoff [] h = tt
  fresh-Ascending cutoff (x ∷ xs) h = elim (Bool-cases (older_than cutoff x)) [
    | inl old ↦ rw old (fresh-Ascending cutoff xs h.1)
    | inr recent ↦ rw recent h
  ]

  pub fresh-All_of {κ} :
      (P : A → Type κ) (cutoff : ℕ) (xs : List A) → All P xs → All P (fresh cutoff xs)
  unfolding drop_while
  fresh-All_of P cutoff [] h = tt
  fresh-All_of P cutoff (x ∷ xs) h = elim (Bool-cases (older_than cutoff x)) [
    | inl old ↦ rw old (fresh-All_of P cutoff xs h.1)
    | inr recent ↦ rw recent h
  ]

  -- A recent last element is never dropped.
  pub fresh-snoc :
      (cutoff : ℕ) (xs : List A) (x : A)
      → cutoff ≤ stamp x
      → fresh cutoff (xs ++ x ∷ []) ≡ fresh cutoff xs ++ x ∷ []
  unfolding drop_while
  fresh-snoc cutoff [] x h = ground arith
  fresh-snoc cutoff (y ∷ ys) x h = elim (Bool-cases (older_than cutoff y)) [
    | inl old ↦ rw old (fresh-snoc cutoff ys x h)
    | inr recent ↦ rw recent
  ]

  pub Ascending-snoc :
      (xs : List A) (x : A)
      → Ascending xs
      → All (λ y. stamp y ≤ stamp x) xs
      → Ascending (xs ++ x ∷ [])
  Ascending-snoc [] x h a = (tt, tt)
  Ascending-snoc (y ∷ ys) x h a = (All-snoc ys h.0, Ascending-snoc ys x h.1 a.1)
    where
      All-snoc :
          (zs : List A)
          → All (λ z. stamp y ≤ stamp z) zs
          → All (λ z. stamp y ≤ stamp z) (zs ++ x ∷ [])
      All-snoc [] b = (a.0, tt)
      All-snoc (z ∷ zs) b = (b.0, All-snoc zs b.1)

  -- Every element is at most as late as `n`.
  abbrev pub UpTo : ℕ → List A → Type 0
  UpTo n = All (λ y. stamp y ≤ n)

  pub UpTo-mono : (m n : ℕ) (xs : List A) → m ≤ n → UpTo m xs → UpTo n xs
  UpTo-mono m n xs h a = All-lower m n xs h a

  -- The other way round.
  pub Ascending-unsnoc :
      (xs : List A) (x : A) → Ascending (xs ++ x ∷ []) → Ascending xs × UpTo (stamp x) xs
  Ascending-unsnoc [] x h = (tt, tt)
  Ascending-unsnoc (y ∷ ys) x h =
      let (a, u) = Ascending-unsnoc ys x h.1 in
      let (front, last) = All-unsnoc ys h.0 in ((front, a), (last, u))
    where
      All-unsnoc :
          (zs : List A)
          → All (λ z. stamp y ≤ stamp z) (zs ++ x ∷ [])
          → All (λ z. stamp y ≤ stamp z) zs × (stamp y ≤ stamp x)
      All-unsnoc [] b = (tt, b.0)
      All-unsnoc (z ∷ zs) b = let (front, last) = All-unsnoc zs b.1 in ((b.0, front), last)

  pub UpTo-unsnoc : (n : ℕ) (xs ys : List A) → UpTo n (xs ++ ys) → UpTo n xs × UpTo n ys
  UpTo-unsnoc n [] ys h = (tt, h)
  UpTo-unsnoc n (x ∷ xs) ys h = let (a, b) = UpTo-unsnoc n xs ys h.1 in ((h.0, a), b)

  -- A last element may be replaced by one of the same time.
  pub Ascending-last :
      (xs : List A) (x y : A)
      → stamp y ≡ stamp x
      → Ascending (xs ++ x ∷ [])
      → Ascending (xs ++ y ∷ [])
  Ascending-last xs x y e h = let (a, u) = Ascending-unsnoc xs x h in Ascending-snoc xs y a (rw e u)
