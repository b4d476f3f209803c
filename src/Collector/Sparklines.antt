-- ===== src/Collector/Sparklines.antt =====
-- collector/collector.go: `GetSparklines`, the last part of the history thinned out to few points.
use bandwidth_monitor.Common.{
  ℕ, zero, suc, ◌-◌, ◌+◌, ◌^◌, ◌≤◌, ◌<◌, ◌≡◌, refl, ap, List, [], ◌∷◌, map, All, length, min, arith,
  Bool-cases, inl, inr, ◌⊎◌, if◌then◌else◌, ltb, leb, leb→le, Option, none, some, get_elem?, ℤ, pos,
  negsuc, ◌≤ℤ◌, String, nat_beq, length-map,
}
use bandwidth_monitor.Float.{Float, Laws, of_ℕ}
use bandwidth_monitor.Window.{drop_while, within, fresh-within, Ascending}
use bandwidth_monitor.Collector.{Collector, HistoryPoint, SparkPoint, unix_milli}

module _ (fl : Float) where
  open fl use {F, mul, div, to_int}

  abbrev spark : HistoryPoint fl → SparkPoint fl
  spark p = record { rx = p.rx_rate; tx = p.tx_rate }

  -- `pts[idx]` after the clamp of `idx`; a negative index panics, which is `none`.
  spark_at : List (HistoryPoint fl) → ℤ → Option (HistoryPoint fl)
  spark_at pts (pos idx) = get_elem? pts (if leb (length pts) idx then length pts - 1 else idx)
  spark_at pts (negsuc n) = none

  -- `int(float64(i) * step)`
  abbrev index : F → ℕ → ℤ
  index step i = to_int (mul (of_ℕ fl i) step)

  abbrev add_spark :
      Option (HistoryPoint fl) → Option (List (SparkPoint fl)) → Option (List (SparkPoint fl))
  add_spark (some p) (some sp) = some (spark p ∷ sp)
  add_spark _ _ = none

  -- The loop over `i`, with the rounds that are left.
  thin : List (HistoryPoint fl) → F → ℕ → ℕ → Option (List (SparkPoint fl))
  unfolding spark_at
  thin pts step zero i = some []
  thin pts step (suc n) i = add_spark (spark_at pts (index step i)) (thin pts step n (i + 1))

  -- The points since `now - duration`.
  unfoldable pub recent : ℕ → ℕ → Collector fl → List (HistoryPoint fl)
  recent now duration c = drop_while (λ p. ltb p.timestamp (unix_milli (now - duration))) c.history

  -- The points to show; `none` is a panic.
  pub sparks : ℕ → List (HistoryPoint fl) → Option (List (SparkPoint fl))
  unfolding thin
  sparks max_points pts =
      if leb (length pts) max_points
      then some (map spark pts)
      else thin pts (div (of_ℕ fl (length pts)) (of_ℕ fl max_points)) max_points 0

  -- The result is a `nil` map, a map with one key, or a panic.
  pub data Lines : Type 0 where
    nothing : Lines
    lines : String → List (SparkPoint fl) → Lines
    panics : Lines

  abbrev as_lines : String → Option (List (SparkPoint fl)) → Lines
  as_lines device none = panics
  as_lines device (some sp) = lines device sp

  unfoldable pub get_sparklines : ℕ → ℕ → ℕ → Collector fl → Lines
  unfolding recent sparks
  get_sparklines now duration max_points c =
      if nat_beq (length (recent now duration c)) 0
      then nothing
      else as_lines c.device (sparks max_points (recent now duration c))

  -- The pair of rates `s` is that of a point of `pts`.
  abbrev pub IsShown : List (HistoryPoint fl) → SparkPoint fl → Type 0
  IsShown [] s = ⊥
  IsShown (p ∷ pts) s = (s ≡ spark p) ⊎ IsShown pts s

  IsShown-weaken :
      (p : HistoryPoint fl) (pts : List (HistoryPoint fl)) (sp : List (SparkPoint fl))
      → All (IsShown pts) sp
      → All (IsShown (p ∷ pts)) sp
  IsShown-weaken p pts [] h = tt
  IsShown-weaken p pts (s ∷ sp) h = (inr h.0, IsShown-weaken p pts sp h.1)

  map-IsShown : (pts : List (HistoryPoint fl)) → All (IsShown pts) (map spark pts)
  map-IsShown [] = tt
  map-IsShown (p ∷ pts) = (inl refl, IsShown-weaken p pts (map spark pts) (map-IsShown pts))

  get_elem?-IsShown :
      (pts : List (HistoryPoint fl)) (i : ℕ)
      → i < length pts
      → (p : HistoryPoint fl) × (get_elem? pts i ≡ some p) × IsShown pts (spark p)
  get_elem?-IsShown [] i h = absurd (omega arith)
  get_elem?-IsShown (p ∷ pts) zero h = (p, refl, inl refl)
  get_elem?-IsShown (p ∷ pts) (suc i) h =
      let (q, found, shown) = get_elem?-IsShown pts i (omega arith) in (q, found, inr shown)

  spark_at-IsShown :
      (pts : List (HistoryPoint fl)) (z : ℤ)
      → ◌≤ℤ◌ (pos 0) z
      → 0 < length pts
      → (p : HistoryPoint fl) × (spark_at pts z ≡ some p) × IsShown pts (spark p)
  unfolding spark_at
  spark_at-IsShown pts (pos idx) h some_left = get_elem?-IsShown pts _ (ground arith)
  spark_at-IsShown pts (negsuc n) h some_left = absurd (omega arith)

  -- What `sparks` returns: `n` points, each of them one of `pts`.
  abbrev Shows : List (HistoryPoint fl) → ℕ → Option (List (SparkPoint fl)) → Type 0
  Shows pts n r =
      (sp : List (SparkPoint fl)) × (r ≡ some sp) × (length sp ≡ n) × All (IsShown pts) sp

  module _ (law : Laws fl) (pts : List (HistoryPoint fl)) (m : ℕ) (some_left : 0 < length pts)
      (few : length pts < 2 ^ 62) where
    thin-Shows :
        (n i : ℕ) → i + n ≤ m → Shows pts n (thin pts (div (of_ℕ fl (length pts)) (of_ℕ fl m)) n i)
    unfolding thin
    thin-Shows zero i h = ([], refl, refl, tt)
    thin-Shows (suc n) i h =
        let (sp, e, len, shown) = thin-Shows n (i + 1) (omega arith) in
        let (p, found, here) =
          spark_at-IsShown pts _ (law.to_int_nonneg i (length pts) m (omega arith) few) some_left in
        (spark p ∷ sp, rw (found, e), ap suc len, (here, shown))

    sparks-Shows : Shows pts (min m (length pts)) (sparks m pts)
    unfolding sparks
    sparks-Shows = elim (Bool-cases (leb (length pts) m)) [
      | inl all ↦ rw all (
        map spark pts,
        refl,
        omega (arith, length-map spark pts, leb→le _ _ all),
        map-IsShown pts,
      )
      | inr many ↦
          let (sp, e, len, shown) = thin-Shows m 0 (omega arith) in
          rw many (sp, e, ground (arith, len), shown)
    ]

  -- The result for the points `pts`: nothing if there are none, and otherwise at most `m` points.
  abbrev pub Answers : Collector fl → ℕ → List (HistoryPoint fl) → Lines → Type 0
  Answers c m pts r =
      ((pts ≡ []) × (r ≡ nothing))
      ⊎ ((sp : List (SparkPoint fl)) × (r ≡ lines c.device sp)
          × (length sp ≡ min m (length pts))
          × All (IsShown pts) sp)

  answer :
      (law : Laws fl) (c : Collector fl) (m : ℕ) (pts : List (HistoryPoint fl))
      → length pts < 2 ^ 62
      → Answers c m pts
          (if nat_beq (length pts) 0 then nothing else as_lines c.device (sparks m pts))
  answer law c m [] few = inl (refl, refl)
  answer law c m (p ∷ pts) few =
      let (sp, e, len, shown) = sparks-Shows law (p ∷ pts) m (omega arith) few in
      inr (sp, ground (arith, e), len, shown)

  -- The points of the history that are not older than `duration`.
  abbrev pub of_last : ℕ → ℕ → Collector fl → List (HistoryPoint fl)
  of_last now duration c = within (λ p. p.timestamp) (unix_milli (now - duration)) c.history

  pub get_sparklines-Answers :
      (law : Laws fl) (now duration max_points : ℕ) (c : Collector fl)
      → Ascending (λ p. p.timestamp) c.history
      → length (of_last now duration c) < 2 ^ 62
      → Answers c max_points (of_last now duration c) (get_sparklines now duration max_points c)
  unfolding get_sparklines recent
  get_sparklines-Answers law now duration max_points c a few =
      rw (fresh-within (λ p. p.timestamp) (unix_milli (now - duration)) c.history a)
        (answer law c max_points (of_last now duration c) few)
