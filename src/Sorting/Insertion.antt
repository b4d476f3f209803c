-- ===== src/Sorting/Insertion.antt =====
-- A sort that keeps the promise of `sort.Slice`, for runs of the model.
use mathlib.Core.List.{Pairwise, Mem, mem-cons, not-mem-nil}
use mathlib.Core.List.Perm
use mathlib.Core.Bool.{Bool-set}
use mathlib.Core.Logic.Or
use bandwidth_monitor.Common.{
  subst, sym, ◌≡◌, Bool, false, List, [], ◌∷◌, Perm, All, if◌then◌else◌, Bool-cases, inl, inr,
}
use bandwidth_monitor.Sorting.{Sort, IsOrder, IsSorted}

module _ {ℓ} {A : Type ℓ} (less : A → A → Bool) where
  pub insert : A → List A → List A
  insert x [] = x ∷ []
  insert x (y ∷ ys) = if less y x then y ∷ insert x ys else x ∷ y ∷ ys

  pub sort : List A → List A
  unfolding insert
  sort [] = []
  sort (x ∷ xs) = insert x (sort xs)

  insert-perm : (x : A) (ys : List A) → Perm (insert x ys) (x ∷ ys)
  unfolding insert
  insert-perm x [] = Perm.refl (x ∷ [])
  insert-perm x (y ∷ ys) = elim (Bool-cases (less y x)) [
    | inl later ↦ rw later (Perm.trans (Perm.cons y (insert-perm x ys)) (Perm.swap x y ys))
    | inr here ↦ rw here (Perm.refl (x ∷ y ∷ ys))
  ]

  pub sort-perm : (xs : List A) → Perm (sort xs) xs
  unfolding sort
  sort-perm [] = Perm.refl []
  sort-perm (x ∷ xs) = Perm.trans (insert-perm x (sort xs)) (Perm.cons x (sort-perm xs))

  All-insert {κ} : (P : A → Type κ) (x : A) (ys : List A) → P x → All P ys → All P (insert x ys)
  unfolding insert
  All-insert P x [] p a = (p, tt)
  All-insert P x (y ∷ ys) p a = elim (Bool-cases (less y x)) [
    | inl later ↦ rw later (a.0, All-insert P x ys p a.1)
    | inr here ↦ rw here (p, a)
  ]

  All-sort {κ} : (P : A → Type κ) (xs : List A) → All P xs → All P (sort xs)
  unfolding sort
  All-sort P [] a = tt
  All-sort P (x ∷ xs) a = All-insert P x (sort xs) a.0 (All-sort P xs a.1)

  -- The order, head by head.
  pub Ordered : List A → Type 0
  Ordered [] = Unit
  Ordered (x ∷ xs) = All (λ y. less y x ≡ false) xs × Ordered xs

  All-after :
      (P : A → Type 0) (x y : A) (zs : List A)
      → IsOrder P less
      → P x
      → P y
      → All P zs
      → less y x ≡ false
      → All (λ z. less z y ≡ false) zs
      → All (λ z. less z x ≡ false) zs
  All-after P x y [] o px py pz h a = tt
  All-after P x y (z ∷ zs) o px py pz h a =
      (o.trans x y z px py pz.0 h a.0, All-after P x y zs o px py pz.1 h a.1)

  insert-Ordered :
      (P : A → Type 0) (x : A) (ys : List A)
      → IsOrder P less
      → P x
      → All P ys
      → Ordered ys
      → Ordered (insert x ys)
  unfolding insert Ordered
  insert-Ordered P x [] o px pys h = (tt, tt)
  insert-Ordered P x (y ∷ ys) o px pys h = elim (Bool-cases (less y x)) [
    | inl later ↦ rw later (
      All-insert (λ z. less z y ≡ false) x ys (o.asymm y x pys.0 px later) h.0,
      insert-Ordered P x ys o px pys.1 h.1,
    )
    | inr here ↦ rw here ((here, All-after P x y ys o px pys.0 pys.1 here h.0), h)
  ]

  pub sort-Ordered : (P : A → Type 0) (xs : List A) → IsOrder P less → All P xs → Ordered (sort xs)
  unfolding sort Ordered
  sort-Ordered P [] o a = tt
  sort-Ordered P (x ∷ xs) o a =
      insert-Ordered P x (sort xs) o a.0 (All-sort P xs a.1) (sort-Ordered P xs o a.1)

  All-mem :
      {x : A} (xs : List A) → All (λ y. less y x ≡ false) xs → (y : A) → Mem y xs → less y x ≡ false
  All-mem {x} [] a y m = absurd (not-mem-nil m)
  All-mem {x} (z ∷ zs) a y m =
      Or.elim (Bool-set (less y x) false) (mem-cons.0 m)
        (λ e. subst (λ w. less w x ≡ false) (sym e) a.0) (All-mem zs a.1 y)

  pub Ordered-IsSorted : (xs : List A) → Ordered xs → IsSorted less xs
  unfolding Ordered
  Ordered-IsSorted [] h = Pairwise.nil
  Ordered-IsSorted (x ∷ xs) h = Pairwise.cons (All-mem xs h.0) (Ordered-IsSorted xs h.1)

abbrev pub insertion : Sort
insertion = record {
  slice = sort;
  slice-perm = sort-perm;
  slice-IsSorted =
      λ P less xs o a. Ordered-IsSorted less (sort less xs) (sort-Ordered less P xs o a);
}
