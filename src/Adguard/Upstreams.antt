-- ===== src/Adguard/Upstreams.antt =====
-- adguard/adguard.go: what `buildUpstreams` reports.
use bandwidth_monitor.Common.{
  ℕ, ◌≡◌, refl, ◌∙◌, Bool, true, false, ◌||◌, if◌then◌else◌, Option, none, some, List, [], ◌∷◌,
  ◌++◌, String, string_eq, ◌==◌, ℤ, pos, arith, sum_of, sum_of-append, map, Bool-cases, inl, inr,
}
use bandwidth_monitor.Float.{Float, nought, of_ℕ}
use bandwidth_monitor.Maps.{last_at, Map, or_else, get, put, get-put, is_some}
use bandwidth_monitor.Sorting.{Sort, IsSorted, sum_of-perm, Any, All-Any}
use bandwidth_monitor.Dns.{UpstreamStat, more_ℤ, more_ℤ-IsOrder}
use bandwidth_monitor.Adguard.{
  entries, set_all, resp_map, avg_map, collect, all_keys, responses_of, build_upstreams,
}

-- How often a key stands in a list.
abbrev pub times : String → List String → ℕ
times k = sum_of (λ j. if j == k then 1 else 0)

abbrev pub one_if : Bool → ℕ
one_if b = if b then 1 else 0

abbrev pub mapped {ℓ κ} : {A : Type ℓ} {B : Type κ} → (A → B) → Option A → Option B
mapped f none = none
mapped f (some a) = some (f a)

module _ (fl : Float) where
  abbrev seen_at : String → Map String Bool → Bool
  seen_at k seen = or_else (get k seen) false

  -- The keys that are seen are those that are in the list, once.
  abbrev Once : Map String Bool → List String → Type 0
  Once seen keys = (k : String) → times k keys ≡ one_if (seen_at k seen)

  collect-Once :
      {V : Type 0} (m : Map String V) (seen : Map String Bool) (keys : List String)
      → Once seen keys
      → let r = collect fl m seen keys in
        Once r.0 r.1 × ((k : String) → seen_at k r.0 ≡ (seen_at k seen || is_some (get k m)))
  unfolding collect get
  collect-Once [] seen keys h = (h, λ k. ground arith)
  collect-Once ((j, v) ∷ m) seen keys h = elim (Bool-cases (seen_at j seen)) [
    | inl old ↦
        let (once, all) = collect-Once m seen keys h in
        rw old (once, λ k. all k ∙ ground (arith, old, string_eq.beq_iff j k))
    | inr new ↦
        let (once, all) = collect-Once m (put j true seen) (keys ++ j ∷ []) (λ k. ground (
          arith,
          new,
          h k,
          sum_of-append (λ i. if i == k then 1 else 0) keys (j ∷ []),
          get-put j k true seen,
          string_eq.beq_iff j k,
        )) in
        rw new
          (once, λ k. all k ∙ ground (arith, new, get-put j k true seen, string_eq.beq_iff j k))
  ]

  get-set_all :
      {V : Type 0} (f : fl.F → V) (k : String) (m : Map String fl.F) (to : Map String V)
      (o : Option fl.F)
      → get k to ≡ mapped f o
      → get k (set_all fl f m to) ≡ mapped f (last_at k m o)
  unfolding set_all
  get-set_all f k [] to o h = h
  get-set_all f k ((j, v) ∷ m) to o h =
      get-set_all f k m (put j (f v) to) (if j == k then some v else o)
        (ground (arith, get-put j k (f v) to, string_eq.beq_iff j k, h))

  -- The report of the upstream servers: one entry for each server in either list, in the order of
  -- the responses, with the last values of the lists.
  pub record IsUpstreams (resp avg : List (Map String fl.F)) (report : List (UpstreamStat fl))
      : Type 0 where
    pub keys : List String
    pub once :
        (k : String)
        → times k keys
          ≡ one_if (
              is_some (last_at k (entries fl resp) none)
              || is_some (last_at k (entries fl avg) none))
    pub responses : String → ℤ
    pub responses_lem :
        (k : String)
        → responses k ≡ or_else (mapped fl.to_int (last_at k (entries fl resp) none)) (pos 0)
    pub avg_ms : String → fl.F
    pub avg_ms_lem :
        (k : String)
        → avg_ms k
          ≡ or_else
              (mapped (λ v. fl.mul v (of_ℕ fl 1000)) (last_at k (entries fl avg) none))
              (nought fl)
    pub sorted : IsSorted (more_ℤ responses) keys
    pub report_lem :
        report ≡ map (λ k. record { address = k; responses = responses k; avg_ms = avg_ms k }) keys

  get-resp_map :
      (k : String) (raw : List (Map String fl.F))
      → get k (resp_map fl raw) ≡ mapped fl.to_int (last_at k (entries fl raw) none)
  unfolding resp_map get
  get-resp_map k raw = get-set_all fl.to_int k (entries fl raw) [] none refl

  get-avg_map :
      (k : String) (raw : List (Map String fl.F))
      → get k (avg_map fl raw)
        ≡ mapped (λ v. fl.mul v (of_ℕ fl 1000)) (last_at k (entries fl raw) none)
  unfolding avg_map get
  get-avg_map k raw = get-set_all (λ v. fl.mul v (of_ℕ fl 1000)) k (entries fl raw) [] none refl

  is_some-mapped {ℓ κ} :
      {A : Type ℓ} {B : Type κ} (f : A → B) (o : Option A) → is_some (mapped f o) ≡ is_some o
  is_some-mapped f none = refl
  is_some-mapped f (some a) = refl

  all_keys-once :
      {V W : Type 0} (k : String) (resp : Map String V) (avg : Map String W)
      → times k (collect fl avg (collect fl resp [] []).0 (collect fl resp [] []).1).1
        ≡ one_if (is_some (get k resp) || is_some (get k avg))
  unfolding get
  all_keys-once k resp avg =
      let (once, all) = collect-Once resp [] [] (λ j. refl) in
      let (both, whole) =
        collect-Once avg (collect fl resp [] []).0 (collect fl resp [] []).1 once in
      rw (both k, whole k, all k)

  -- `buildUpstreams` returns each server that stands in either list of AdGuard exactly once, the one
  -- with the most responses first, with its last number of responses, or 0, and its last average
  -- time in milliseconds, or 0.
  pub build_upstreams-IsUpstreams :
      (sort : Sort) (resp avg : List (Map String fl.F))
      → IsUpstreams resp avg (build_upstreams fl sort resp avg)
  unfolding build_upstreams
  build_upstreams-IsUpstreams sort resp avg =
      let r = resp_map fl resp in
      let a = avg_map fl avg in
      let keys = all_keys fl r a in
      record {
        keys = sort.slice (more_ℤ (responses_of fl r)) keys;
        once = λ k.
            sum_of-perm (λ j. if j == k then 1 else 0)
              (sort.slice-perm (more_ℤ (responses_of fl r)) keys)
            ∙ rw (
              all_keys-once k r a,
              get-resp_map k resp,
              get-avg_map k avg,
              is_some-mapped fl.to_int (last_at k (entries fl resp) none),
              is_some-mapped (λ v. fl.mul v (of_ℕ fl 1000)) (last_at k (entries fl avg) none),
            );
        responses = responses_of fl r;
        responses_lem = λ k. rw (get-resp_map k resp);
        avg_ms = λ k. or_else (get k a) (nought fl);
        avg_ms_lem = λ k. rw (get-avg_map k avg);
        sorted =
            sort.slice-IsSorted Any (more_ℤ (responses_of fl r)) keys
              (more_ℤ-IsOrder (responses_of fl r)) (All-Any keys);
        report_lem = refl;
      }
