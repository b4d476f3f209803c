-- ===== src/Nextdns/Series.antt =====
-- nextdns/nextdns.go: the merged series of the summary.
use bandwidth_monitor.Common.{
  ℕ, zero, suc, ◌+◌, ◌%◌, ◌^◌, ◌<◌, ◌≡◌, refl, ap, ◌∙◌, Option, none, some, List, [], ◌∷◌,
  string_eq, if◌then◌else◌, ℤ, pos, negsuc, bits64, add_i64-bits64, sum_of, length, get_elem?,
  arith, Bool-cases, inl, inr, ◌≤◌, ltb, ltb→lt, ltb-false,
}
use bandwidth_monitor.Float.{Float}
use bandwidth_monitor.Maps.{or_else}
use bandwidth_monitor.Sorting.{Sort}
use bandwidth_monitor.Nextdns.{
  StatusTsEntry, Snapshot, add_into, elements, zeros, is_allowed, merge, add_blocked, summarize,
}

-- An element, 0 past the end.
abbrev pub item : ℕ → List ℤ → ℤ
item i xs = or_else (get_elem? xs i) (pos 0)

length-add_into : (xs vs : List ℤ) → length (add_into xs vs) ≡ length xs
unfolding add_into
length-add_into [] vs = refl
length-add_into (x ∷ xs) [] = refl
length-add_into (x ∷ xs) (v ∷ vs) = ap suc (length-add_into xs vs)

bits64-lt : (z : ℤ) → bits64 z < 2 ^ 64
bits64-lt (pos n) = omega arith
bits64-lt (negsuc n) = omega arith

item-add_into :
    (i : ℕ) (xs vs : List ℤ)
    → i < length xs
    → bits64 (item i (add_into xs vs)) ≡ (bits64 (item i xs) + bits64 (item i vs)) % 2 ^ 64
unfolding add_into
item-add_into i [] vs h = absurd (omega arith)
item-add_into zero (x ∷ xs) [] h = omega (arith, bits64-lt x)
item-add_into (suc i) (x ∷ xs) [] h = omega (arith, bits64-lt (item i xs))
item-add_into zero (x ∷ xs) (v ∷ vs) h = add_i64-bits64 x v
item-add_into (suc i) (x ∷ xs) (v ∷ vs) h = item-add_into i xs vs (omega arith)

length-zeros : (xs : List ℤ) → length (zeros xs) ≡ length xs
unfolding zeros
length-zeros [] = refl
length-zeros (x ∷ xs) = ap suc (length-zeros xs)

item-zeros : (i : ℕ) (xs : List ℤ) → item i (zeros xs) ≡ pos 0
unfolding zeros
item-zeros i [] = refl
item-zeros zero (x ∷ xs) = refl
item-zeros (suc i) (x ∷ xs) = item-zeros i xs

-- What the entries that are `default` or `allowed` have at an index, all together.
abbrev allowed_part : ℕ → StatusTsEntry → ℕ
allowed_part i ts = if is_allowed ts.status then bits64 (item i (elements ts.queries)) else 0

abbrev pub allowed_sum : ℕ → List StatusTsEntry → ℕ
allowed_sum i = sum_of (allowed_part i)

-- The first of these entries.
abbrev pub first_allowed : List StatusTsEntry → Option (List ℤ)
first_allowed [] = none
first_allowed (ts ∷ rest) =
    if is_allowed ts.status then some (elements ts.queries) else first_allowed rest

-- The last entry that is `blocked`, or `b` if there is none.
abbrev pub last_blocked : List StatusTsEntry → Option (List ℤ) → Option (List ℤ)
last_blocked [] b = b
last_blocked (ts ∷ rest) b = last_blocked rest (
    if is_allowed ts.status then b else if string_eq.beq ts.status "blocked" then ts.queries else b)

-- `r` are the two series after a run of the loop: the first has `n` elements, and at `i` it has `v`.
abbrev Merged : ℕ → ℕ → ℕ → Option (List ℤ) → Option (List ℤ) × Option (List ℤ) → Type 0
Merged i n v blocked r =
    (qs : List ℤ) × (r ≡ (some qs, blocked)) × (length qs ≡ n) × (bits64 (item i qs) ≡ v % 2 ^ 64)

merge-Merged :
    (i : ℕ) (entries : List StatusTsEntry) (qs : List ℤ) (b : Option (List ℤ))
    → i < length qs
    → Merged i
        (length qs)
        (bits64 (item i qs) + allowed_sum i entries)
        (last_blocked entries b)
        (merge entries (some qs) b)
unfolding merge
merge-Merged i [] qs b h = (qs, refl, refl, omega (arith, bits64-lt (item i qs)))
merge-Merged i (ts ∷ rest) qs b h = elim (Bool-cases (is_allowed ts.status)) [
  | inl allowed ↦
      let vs = elements ts.queries in
      let (qs', e, len, v) =
        merge-Merged i rest (add_into qs vs) b (omega (arith, length-add_into qs vs)) in
      rw allowed (
        qs',
        e,
        omega (arith, len, length-add_into qs vs),
        omega (arith, v, item-add_into i qs vs h),
      )
  | inr other ↦
      let (qs', e, len, v) = merge-Merged i rest qs _ h in rw other (qs', e, len, omega (arith, v))
]

merge_first :
    (i : ℕ) (entries : List StatusTsEntry) (b : Option (List ℤ)) (fs : List ℤ)
    → first_allowed entries ≡ some fs
    → i < length fs
    → Merged i (length fs) (allowed_sum i entries) (last_blocked entries b) (merge entries none b)
unfolding merge
merge_first i [] b fs e h = absurd (ground arith)
merge_first i (ts ∷ rest) b fs e h = elim (Bool-cases (is_allowed ts.status)) [
  | inl allowed ↦
      let vs = elements ts.queries in
      let first : vs ≡ fs = ground (arith, e, allowed) in
      let start = add_into (zeros vs) vs in
      let len = length-add_into (zeros vs) vs ∙ length-zeros vs in
      let short : i < length vs = rw first h in
      let (qs, r, n, v) = merge-Merged i rest start b (omega (arith, len, short)) in
      let at = item-add_into i (zeros vs) vs (omega (arith, length-zeros vs, short)) in
      rw allowed (qs, r, n ∙ len ∙ ap length first, omega (arith, v, rw (item-zeros i vs) at at))
  | inr other ↦
      let (qs, r, n, v) = merge_first i rest _ fs (rw other at e) h in
      rw other (qs, r, n, omega (arith, v))
]

add_blocked-item :
    (i n : ℕ) (v : ℕ) (qs : List ℤ) (blocked : Option (List ℤ))
    → i < n
    → length qs ≡ n
    → bits64 (item i qs) ≡ v % 2 ^ 64
    → (rs : List ℤ) × (add_blocked (some qs, blocked) ≡ some rs)
      × (length rs ≡ n)
      × (bits64 (item i rs) ≡ (v + bits64 (item i (elements blocked))) % 2 ^ 64)
add_blocked-item i n v qs none h len e = (qs, refl, len, omega (arith, e))
add_blocked-item i n v qs (some vs) h len e = (
  add_into qs vs,
  refl,
  length-add_into qs vs ∙ len,
  omega (arith, e, item-add_into i qs vs (omega (arith, len))),
)

-- The lengths alone, whatever the index.
abbrev Lengths : ℕ → Option (List ℤ) → Option (List ℤ) × Option (List ℤ) → Type 0
Lengths n blocked r = (qs : List ℤ) × (r ≡ (some qs, blocked)) × (length qs ≡ n)

merge-Lengths :
    (entries : List StatusTsEntry) (qs : List ℤ) (b : Option (List ℤ))
    → Lengths (length qs) (last_blocked entries b) (merge entries (some qs) b)
unfolding merge
merge-Lengths [] qs b = (qs, refl, refl)
merge-Lengths (ts ∷ rest) qs b = elim (Bool-cases (is_allowed ts.status)) [
  | inl allowed ↦
      let vs = elements ts.queries in
      let (qs', e, len) = merge-Lengths rest (add_into qs vs) b in
      rw allowed (qs', e, len ∙ length-add_into qs vs)
  | inr other ↦ let (qs', e, len) = merge-Lengths rest qs _ in rw other (qs', e, len)
]

merge_first-Lengths :
    (entries : List StatusTsEntry) (b : Option (List ℤ)) (fs : List ℤ)
    → first_allowed entries ≡ some fs
    → Lengths (length fs) (last_blocked entries b) (merge entries none b)
unfolding merge
merge_first-Lengths [] b fs e = absurd (ground arith)
merge_first-Lengths (ts ∷ rest) b fs e = elim (Bool-cases (is_allowed ts.status)) [
  | inl allowed ↦
      let vs = elements ts.queries in
      let first : vs ≡ fs = ground (arith, e, allowed) in
      let (qs, r, n) = merge-Lengths rest (add_into (zeros vs) vs) b in
      rw allowed (qs, r, n ∙ length-add_into (zeros vs) vs ∙ length-zeros vs ∙ ap length first)
  | inr other ↦
      let (qs, r, n) = merge_first-Lengths rest _ fs (rw other at e) in rw other (qs, r, n)
]

add_blocked-length :
    (n : ℕ) (qs : List ℤ) (blocked : Option (List ℤ))
    → length qs ≡ n
    → (rs : List ℤ) × (add_blocked (some qs, blocked) ≡ some rs) × (length rs ≡ n)
add_blocked-length n qs none len = (qs, refl, len)
add_blocked-length n qs (some vs) len = (add_into qs vs, refl, length-add_into qs vs ∙ len)

item-past : (i : ℕ) (xs : List ℤ) → length xs ≤ i → item i xs ≡ pos 0
item-past i [] h = refl
item-past zero (x ∷ xs) h = absurd (omega arith)
item-past (suc i) (x ∷ xs) h = item-past i xs (omega arith)

-- If the NextDNS series have an entry that is `default` or `allowed`, also if it is empty, the
-- summary's series of queries is as long as the first such entry, and holds at each index below that
-- the sum of what all such entries and the last `blocked` entry have there, on 64 bits; an entry
-- counts as 0 past its end. The series of blocked queries is that last `blocked` entry.
pub summarize-series :
    (fl : Float) (sort : Sort) (snap : Snapshot) (i : ℕ) (fs : List ℤ)
    → first_allowed snap.status_ts ≡ some fs
    → let s = summarize fl sort snap in
      (qs : List ℤ) × (s.queries_series ≡ some qs)
      × (length qs ≡ length fs)
      × (bits64 (item i qs) ≡ (
          if ltb i (length fs)
          then (allowed_sum i snap.status_ts
              + bits64 (item i (elements (last_blocked snap.status_ts none))))
            % 2 ^ 64
          else 0))
      × (s.blocked_series ≡ last_blocked snap.status_ts none)
unfolding summarize
summarize-series fl sort snap i fs first = elim (Bool-cases (ltb i (length fs))) [
  | inl inside ↦
      let short = ltb→lt i (length fs) inside in
      let (qs, merged, len, v) = merge_first i snap.status_ts none fs first short in
      let (rs, added, n, w) =
        add_blocked-item i (length fs) (allowed_sum i snap.status_ts) qs
          (last_blocked snap.status_ts none) short len v in
      rw (merged, inside) (rs, added, n, w, refl)
  | inr outside ↦
      let (qs, merged, len) = merge_first-Lengths snap.status_ts none fs first in
      let (rs, added, n) =
        add_blocked-length (length fs) qs (last_blocked snap.status_ts none) len in
      let past = item-past i rs (omega (arith, n, ltb-false i (length fs) outside)) in
      rw (merged, outside) (rs, added, n, ap bits64 past, refl)
]
