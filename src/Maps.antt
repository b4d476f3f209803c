-- ===== src/Maps.antt =====
-- Go maps as association lists. The order of the list stands for the order of `range`.
pub mod Group
use bandwidth_monitor.Common.{
  subst, Eq, ◌==◌, if◌then◌else◌, ◌≡◌, refl, true, List, [], ◌∷◌, Option, none, some, arith, ℕ, ◌+◌,
  ◌<◌, ◌≤◌, u64_mod, u64, add64, sum_of, Bool-cases, string_eq, String, Option-cases, inl, inr, All,
  Bool, false, ap, map,
}

abbrev pub Map {ℓ κ} : Type ℓ → Type κ → Type (ℓ ⊔ κ)
Map K V = List (K × V)

-- The value of a lookup that falls back to `d`.
abbrev pub or_else {ℓ} : {A : Type ℓ} → Option A → A → A
or_else none d = d
or_else (some a) d = a

abbrev pub is_some {ℓ} : {A : Type ℓ} → Option A → Bool
is_some none = false
is_some (some a) = true

pub beq_refl {ℓ} : {K : Type ℓ} ⦃e : Eq K⦄ → (k : K) → (k == k) ≡ true
beq_refl ⦃e⦄ k = (e.beq_iff k k).1 refl

module _ {ℓ κ} {K : Type ℓ} {V : Type κ} ⦃e : Eq K⦄ where
  -- `v, ok := m[k]`
  unfoldable pub get : K → Map K V → Option V
  get k [] = none
  get k ((j, v) ∷ m) = if j == k then some v else get k m

  -- `m[k] = v`
  unfoldable pub put : K → V → Map K V → Map K V
  put k v [] = (k, v) ∷ []
  put k v ((j, w) ∷ m) = if j == k then (j, v) ∷ m else (j, w) ∷ put k v m

  pub get-put :
      (k j : K) (v : V) (m : Map K V) → get j (put k v m) ≡ (if k == j then some v else get j m)
  unfolding get put
  get-put k j v [] = refl
  get-put k j v ((i, w) ∷ m) =
      ground (arith, e.beq_iff k j, e.beq_iff i k, e.beq_iff i j, get-put k j v m)

  -- Every key stands once.
  abbrev pub DistinctKeys : Map K V → Type κ
  DistinctKeys [] = Unit
  DistinctKeys ((j, v) ∷ m) = (get j m ≡ none) × DistinctKeys m

  pub put-DistinctKeys : (k : K) (v : V) (m : Map K V) → DistinctKeys m → DistinctKeys (put k v m)
  unfolding get put
  put-DistinctKeys k v [] h = (refl, tt)
  put-DistinctKeys k v ((j, w) ∷ m) h = elim (Bool-cases (j == k)) [
    | inl same ↦ rw same h
    | inr other ↦
        rw other (
          ground (arith, get-put k j v m, e.beq_iff k j, e.beq_iff j k),
          put-DistinctKeys k v m h.1,
        )
  ]

  -- A sum over the entries, when one is written.
  pub sum_of-put :
      (f : V → ℕ) (k : K) (v w : V) (m : Map K V)
      → get k m ≡ some w
      → sum_of (λ p. f p.1) (put k v m) + f w ≡ sum_of (λ p. f p.1) m + f v
  unfolding get put
  sum_of-put f k v w [] h = ground arith
  sum_of-put f k v w ((j, x) ∷ m) h = ground (arith, sum_of-put f k v w m)

  pub sum_of-put_new :
      (f : V → ℕ) (k : K) (v : V) (m : Map K V)
      → get k m ≡ none
      → sum_of (λ p. f p.1) (put k v m) ≡ sum_of (λ p. f p.1) m + f v
  unfolding get put
  sum_of-put_new f k v [] h = omega arith
  sum_of-put_new f k v ((j, x) ∷ m) h = ground (arith, sum_of-put_new f k v m)

  -- A property of every entry survives a write that has it.
  pub put-All {μ} :
      (P : K × V → Type μ) (k : K) (v : V) (m : Map K V)
      → ((j : K) → (j == k) ≡ true → P (j, v))
      → P (k, v)
      → All P m
      → All P (put k v m)
  unfolding put
  put-All P k v [] hj hk h = (hk, tt)
  put-All P k v ((j, w) ∷ m) hj hk h = elim (Bool-cases (j == k)) [
    | inl same ↦ rw same (hj j same, h.1)
    | inr other ↦ rw other (h.0, put-All P k v m hj hk h.1)
  ]

  pub get-All {μ} :
      (P : K × V → Type μ) (k : K) (v : V) (m : Map K V)
      → All P m
      → get k m ≡ some v
      → (j : K) × ((j == k) ≡ true) × P (j, v)
  unfolding get
  get-All P k v [] h e = absurd (ground arith)
  get-All P k v ((j, w) ∷ m) h found = elim (Bool-cases (j == k)) [
    | inl same ↦ let q : w ≡ v = ground arith in (j, same, subst (λ x. P (j, x)) q h.0)
    | inr other ↦ get-All P k v m h.1 (rw other at found)
  ]

-- The last value at a key of a list of entries, `o` if there is none.
abbrev pub last_at {ℓ} : {A : Type ℓ} → String → Map String A → Option A → Option A
last_at k [] o = o
last_at k ((j, v) ∷ m) o = last_at k m (if j == k then some v else o)
