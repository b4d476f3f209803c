-- ===== src/Talkers/Breakdown.antt =====
-- talkers/talkers.go: `GetProtocolBreakdown` and `GetIPVersionBreakdown`, and what they report.
use bandwidth_monitor.Common.{
  ℕ, ◌+◌, ◌≡◌, refl, Option, some, List, [], ◌∷◌, String, u64_mod, u64, add64, ◌<◌, All, sum_of,
  arith, string_eq,
}
use bandwidth_monitor.Maps.{Map, get, DistinctKeys}
use bandwidth_monitor.Maps.Group.{
  group, count_of, count_of-group, total-group, share-DistinctKeys, kept,
}
use bandwidth_monitor.Talkers.{Bucket, Tracker}
use bandwidth_monitor.Talkers.Window.{window}

abbrev entry_key : String × ℕ → Option String
entry_key p = some p.0

abbrev from_zero : String × ℕ → ℕ
from_zero p = 0

abbrev add_entry : ℕ → String × ℕ → ℕ
add_entry n p = add64 n p.1

-- `for k, n := range m { totals[k] += n }`
pub add_counts : Map String ℕ → Map String ℕ → Map String ℕ
add_counts m totals = group entry_key from_zero add_entry m totals

-- The same for one map of each bucket.
pub add_all : (Bucket → Map String ℕ) → List Bucket → Map String ℕ → Map String ℕ
unfolding add_counts
add_all part [] totals = totals
add_all part (b ∷ bs) totals = add_all part bs (add_counts (part b) totals)

unfoldable pub get_protocol_breakdown : Tracker → Map String ℕ
unfolding add_all
get_protocol_breakdown t = add_all (λ b. b.proto_bytes) (window t) []

unfoldable pub get_ip_version_breakdown : Tracker → Map String ℕ
unfolding add_all
get_ip_version_breakdown t = add_all (λ b. b.ip_ver_bytes) (window t) []

-- The number at a key, 0 if there is none.
abbrev pub bytes_at : String → Map String ℕ → ℕ
bytes_at k m = count_of (λ n. n) (get k m)

-- All numbers of a map together.
abbrev pub total : Map String ℕ → ℕ
total = sum_of (λ p. p.1)

kept-all : (m : Map String ℕ) → kept entry_key (λ p. p.1) m ≡ total m
kept-all [] = refl
kept-all (p ∷ m) = omega (arith, kept-all m)

add_counts-total :
    (m totals : Map String ℕ) → u64 (total (add_counts m totals)) ≡ u64 (total totals + total m)
unfolding add_counts
add_counts-total m totals = omega (
  arith,
  total-group entry_key from_zero add_entry (λ n. n) (λ p. p.1) (λ a. refl) (λ s a. refl) m totals,
  kept-all m,
)

module _ (part : Bucket → Map String ℕ) where
  abbrev pub Distinct : List Bucket → Type 0
  Distinct = All (λ b. DistinctKeys (part b))

  add_counts-at :
      (k : String) (m totals : Map String ℕ)
      → DistinctKeys m
      → bytes_at k totals < u64_mod
      → bytes_at k (add_counts m totals) ≡ add64 (bytes_at k totals) (bytes_at k m)
  unfolding add_counts
  add_counts-at k m totals d small = omega (
    arith,
    count_of-group entry_key from_zero add_entry (λ n. n) (λ p. p.1) (λ a. refl) (λ s a. refl) k m
        totals small,
    share-DistinctKeys (λ n. n) k m d,
  )

  pub add_all-at :
      (k : String) (bs : List Bucket) (totals : Map String ℕ)
      → Distinct bs
      → bytes_at k totals < u64_mod
      → bytes_at k (add_all part bs totals)
        ≡ add64 (bytes_at k totals) (sum_of (λ b. bytes_at k (part b)) bs)
  unfolding add_all
  add_all-at k [] totals d small = omega arith
  add_all-at k (b ∷ bs) totals d small =
      let step = add_counts-at k (part b) totals d.0 small in
      omega (arith, step, add_all-at k bs (add_counts (part b) totals) d.1 (omega (arith, step)))

  pub add_all-total :
      (bs : List Bucket) (totals : Map String ℕ)
      → u64 (total (add_all part bs totals)) ≡ u64 (total totals + sum_of (λ b. total (part b)) bs)
  unfolding add_all
  add_all-total [] totals = omega arith
  add_all-total (b ∷ bs) totals =
      omega (arith, add_counts-total (part b) totals, add_all-total bs (add_counts (part b) totals))

-- The breakdown by protocol has for every protocol its bytes in all buckets of the window
-- together, on `uint64`, if the maps of the buckets have each key once.
get_protocol_breakdown-at :
    (t : Tracker) (k : String)
    → Distinct (λ b. b.proto_bytes) (window t)
    → bytes_at k (get_protocol_breakdown t)
      ≡ u64 (sum_of (λ b. bytes_at k b.proto_bytes) (window t))
unfolding get_protocol_breakdown get
get_protocol_breakdown-at t k d =
    omega (arith, add_all-at (λ b. b.proto_bytes) k (window t) [] d (omega arith))

-- The breakdown by IP version has for every version its bytes in all buckets of the window
-- together, on `uint64`, if the maps of the buckets have each key once.
get_ip_version_breakdown-at :
    (t : Tracker) (k : String)
    → Distinct (λ b. b.ip_ver_bytes) (window t)
    → bytes_at k (get_ip_version_breakdown t)
      ≡ u64 (sum_of (λ b. bytes_at k b.ip_ver_bytes) (window t))
unfolding get_ip_version_breakdown get
get_ip_version_breakdown-at t k d =
    omega (arith, add_all-at (λ b. b.ip_ver_bytes) k (window t) [] d (omega arith))

-- The breakdown by protocol, and the one by IP version, has for every protocol or version its bytes in
-- all buckets of the window together, on `uint64`, if the maps of the buckets have each key once.
pub breakdowns-at :
    (t : Tracker) (k : String)
    → Distinct (λ b. b.proto_bytes) (window t)
    → Distinct (λ b. b.ip_ver_bytes) (window t)
    → (bytes_at k (get_protocol_breakdown t)
        ≡ u64 (sum_of (λ b. bytes_at k b.proto_bytes) (window t)))
      × (bytes_at k (get_ip_version_breakdown t)
          ≡ u64 (sum_of (λ b. bytes_at k b.ip_ver_bytes) (window t)))
breakdowns-at t k d e = (get_protocol_breakdown-at t k d, get_ip_version_breakdown-at t k e)
