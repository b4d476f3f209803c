-- ===== src/Talkers/Resolve.antt =====
-- talkers/talkers.go: `resolveIP`, a cache of host names that is filled by lookups in the background.
use Prim.Native.Char.{code}
use bandwidth_monitor.Common.{
  ℕ, ◌+◌, ◌≤◌, ◌≡◌, refl, Bool, true, false, if◌then◌else◌, Option, none, some, List, [], ◌∷◌,
  String, string_eq, arith, nat_beq, ◌==◌, Bool-cases, not, inl, inr,
}
use bandwidth_monitor.Maps.{Map, get, put, get-put, is_some}

-- The name without a dot at its end.
unfoldable pub trim_dot : String → String
trim_dot String.[] = String.[]
trim_dot (String.◌∷◌ c String.[]) =
    if nat_beq (code c) b'.' then String.[] else String.◌∷◌ c String.[]
trim_dot (String.◌∷◌ c (String.◌∷◌ d s)) = String.◌∷◌ c (trim_dot (String.◌∷◌ d s))

-- What `resolveIP` leaves behind and returns; `starts` says whether it started a lookup.
pub record Resolved : Type 0 where
  pub cache : Map String String
  pub name : String
  pub starts : Bool

abbrev claimed : Map String String → String → Option String → Resolved
claimed cache ip (some name) = record { cache = cache; name = name; starts = false }
claimed cache ip none = record { cache = put ip ip cache; name = ip; starts = true }

-- What is done under the write lock, by a caller that has not found the address before: the second
-- look, and the placeholder that keeps others from starting the same lookup.
unfoldable pub claim : Map String String → String → Resolved
claim cache ip = claimed cache ip (get ip cache)

abbrev looked : Map String String → String → Option String → Resolved
looked cache ip (some name) = record { cache = cache; name = name; starts = false }
looked cache ip none = claim cache ip

-- A call that no other comes between.
unfoldable pub resolve_ip : Map String String → String → Resolved
unfolding claim
resolve_ip cache ip = looked cache ip (get ip cache)

-- The end of the lookup: `none` is the error of `net.LookupAddr`.
unfoldable pub finish : Map String String → String → Option (List String) → Map String String
unfolding trim_dot
finish cache ip none = cache
finish cache ip (some []) = cache
finish cache ip (some (name ∷ names)) = put ip (trim_dot name) cache

-- What happens to the cache, in the order in which its lock is taken for writing.
pub data Event : Type 0 where
  claims : String → Event
  finishes : String → Option (List String) → Event

unfoldable pub write : Map String String → Event → Map String String
write cache (claims ip) = (claim cache ip).cache
write cache (finishes ip r) = finish cache ip r

abbrev starts_at : String → Map String String → Event → ℕ
starts_at j cache (claims ip) = if ip == j then (if (claim cache ip).starts then 1 else 0) else 0
starts_at j cache (finishes ip r) = 0

-- How many lookups of `j` are started.
unfoldable pub starts : String → Map String String → List Event → ℕ
starts j cache [] = 0
starts j cache (e ∷ es) = starts_at j cache e + starts j (write cache e) es

abbrev pub known : String → Map String String → Bool
known j cache = is_some (get j cache)

write-known :
    (j : String) (cache : Map String String) (e : Event)
    → known j cache ≡ true
    → known j (write cache e) ≡ true
unfolding write claim finish
write-known j cache (claims ip) h = ground (arith, get-put ip j ip cache)
write-known j cache (finishes ip none) h = h
write-known j cache (finishes ip (some [])) h = h
write-known j cache (finishes ip (some (name ∷ names))) h =
    ground (arith, get-put ip j (trim_dot name) cache)

claim-starts :
    (cache : Map String String) (ip : String) → (claim cache ip).starts ≡ not (known ip cache)
unfolding claim
claim-starts cache ip = ground arith

claim-known :
    (j ip : String) (cache : Map String String)
    → (ip == j) ≡ true
    → known j (write cache (claims ip)) ≡ true
unfolding write claim
claim-known j ip cache same = ground (arith, string_eq.beq_iff ip j, get-put ip j ip cache)

starts-known :
    (j : String) (cache : Map String String) (es : List Event)
    → known j cache ≡ true
    → starts j cache es ≡ 0
unfolding starts
starts-known j cache [] h = refl
starts-known j cache (finishes ip r ∷ es) h =
    omega (
      arith,
      starts-known j (write cache (finishes ip r)) es (write-known j cache (finishes ip r) h),
    )
starts-known j cache (claims ip ∷ es) h = ground (
  arith,
  claim-starts cache ip,
  string_eq.beq_iff ip j,
  starts-known j (write cache (claims ip)) es (write-known j cache (claims ip) h),
)

-- However the calls of `resolveIP` and the ends of lookups interleave, no address is looked up
-- twice, and one that is in the cache at the start is not looked up at all.
pub starts_once :
    (j : String) (cache : Map String String) (es : List Event)
    → starts j cache es + (if known j cache then 1 else 0) ≤ 1
unfolding starts
starts_once j cache [] = ground arith
starts_once j cache (finishes ip r ∷ es) =
    let rest = starts_once j (write cache (finishes ip r)) es in
    elim (Bool-cases (known j cache)) [
      | inl old ↦ rw old (
          omega (
            arith,
            starts-known j (write cache (finishes ip r)) es
                (write-known j cache (finishes ip r) old),
          ))
      | inr new ↦ rw new (omega (arith, rest))
    ]
starts_once j cache (claims ip ∷ es) = elim (Bool-cases (known j cache)) [
  | inl old ↦ rw old (omega (arith, starts-known j cache (claims ip ∷ es) old))
  | inr new ↦ rw new (elim (Bool-cases (ip == j)) [
    | inl same ↦
        rw same (
          ground (arith, starts-known j (write cache (claims ip)) es (claim-known j ip cache same)))
    | inr other ↦ rw other (omega (arith, starts_once j (write cache (claims ip)) es))
  ])
]
