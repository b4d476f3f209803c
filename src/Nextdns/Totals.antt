-- ===== src/Nextdns/Totals.antt =====
-- nextdns/nextdns.go: the two totals of the summary.
use bandwidth_monitor.Common.{
  ℕ, ◌+◌, ◌^◌, ◌<◌, ◌≤◌, ◌≡◌, refl, List, [], ◌∷◌, string_eq, if◌then◌else◌, ℤ, pos, negsuc,
  pos_part, neg_part, ◌≤ℤ◌, add_i64_pos, All, sum_of, arith, Bool-cases, inl, inr,
}
use bandwidth_monitor.Float.{Float}
use bandwidth_monitor.Sorting.{Sort}
use bandwidth_monitor.Nextdns.{StatusEntry, Snapshot, totals, summarize}

abbrev pub blocked_part : StatusEntry → ℕ
blocked_part s = if string_eq.beq s.status "blocked" then pos_part s.queries else 0

-- Counts are not negative.
abbrev pub Counts : List StatusEntry → Type 0
Counts = All (λ s. neg_part s.queries ≡ 0)

abbrev pub all_queries : List StatusEntry → ℕ
all_queries = sum_of (λ s. pos_part s.queries)

abbrev pub blocked_queries : List StatusEntry → ℕ
blocked_queries = sum_of blocked_part

pub as_pos : (z : ℤ) → neg_part z ≡ 0 → z ≡ pos (pos_part z)
as_pos (pos n) h = refl
as_pos (negsuc n) h = absurd (omega arith)

blocked_queries_le : (ss : List StatusEntry) → blocked_queries ss ≤ all_queries ss
blocked_queries_le [] = omega arith
blocked_queries_le (s ∷ ss) = ground (arith, blocked_queries_le ss)

totals_lem :
    (ss : List StatusEntry) (total blocked : ℕ)
    → Counts ss
    → total + all_queries ss < 2 ^ 63
    → blocked + blocked_queries ss < 2 ^ 63
    → totals ss (pos total) (pos blocked)
      ≡ (pos (total + all_queries ss), pos (blocked + blocked_queries ss))
unfolding totals
totals_lem [] total blocked h a b = ground arith
totals_lem (s ∷ ss) total blocked h a b = elim (Bool-cases (string_eq.beq s.status "blocked")) [
  | inl stopped ↦
      let q = pos_part s.queries in
      let rest =
        totals_lem ss (total + q) (blocked + q) h.1 (omega (arith, a))
          (ground (arith, b, stopped)) in
      rw
        (
          stopped,
          as_pos s.queries h.0,
          add_i64_pos total q (omega (arith, a)),
          add_i64_pos blocked q (ground (arith, b, stopped)),
        )
        (ground (arith, rest))
  | inr passed ↦
      let q = pos_part s.queries in
      let rest =
        totals_lem ss (total + q) blocked h.1 (omega (arith, a)) (ground (arith, b, passed)) in
      rw (passed, as_pos s.queries h.0, add_i64_pos total q (omega (arith, a)))
        (ground (arith, rest))
]

-- If no count is negative and all together are below `2 ^ 63`, the NextDNS summary has as its total
-- the sum of all counts, as its blocked total the sum of those with status `blocked`, and the second
-- is at most the first.
pub summarize-totals :
    (fl : Float) (sort : Sort) (snap : Snapshot)
    → Counts snap.status
    → all_queries snap.status < 2 ^ 63
    → let s = summarize fl sort snap in
      (s.total_queries ≡ pos (all_queries snap.status))
      × (s.blocked_total ≡ pos (blocked_queries snap.status))
      × ◌≤ℤ◌ s.blocked_total s.total_queries
unfolding summarize
summarize-totals fl sort snap h small =
    let le = blocked_queries_le snap.status in
    let q = totals_lem snap.status 0 0 h (omega arith) (omega (arith, le)) in
    rw q (ground arith, ground arith, omega (arith, le))
