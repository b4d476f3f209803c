-- ===== src/Http.antt =====
-- The answers to HTTP requests, as far as the clients of the DNS servers and of the UniFi controller
-- use them. The requests themselves are parameters: `none` is an error of the request.
use bandwidth_monitor.Common.{
  ℕ, if◌then◌else◌, nat_beq, nat_eq, Option, none, some, ◌≡◌, refl, ◌⊎◌, inl, inr, arith,
}

-- `body` is `none` if it cannot be decoded.
pub record Response (A : Type 0) : Type 0 where
  pub status : ℕ
  pub body : Option A

-- `http.StatusOK`
abbrev pub status_ok : ℕ
status_ok = 200

-- What the clients make of an answer: an error of the request, another status or a body that cannot
-- be decoded is `none`.
abbrev pub decoded : {A : Type 0} → Option (Response A) → Option A
decoded none = none
decoded (some r) = if nat_beq r.status status_ok then r.body else none

-- The server answers with the status 200 and a body that can be decoded.
abbrev pub Gives : {A : Type 0} → Option (Response A) → A → Type 0
Gives answer body = answer ≡ some (record { status = 200; body = some body })

-- It does not: the request fails, or the status is another, or the body cannot be decoded.
abbrev pub Denies : {A : Type 0} → Option (Response A) → Type 0
Denies none = Unit
Denies (some r) = (¬ (r.status ≡ 200)) ⊎ (r.body ≡ none)

pub decoded-Gives :
    {A : Type 0} (answer : Option (Response A)) (body : A)
    → Gives answer body
    → decoded answer ≡ some body
decoded-Gives answer body given = rw given refl

pub decoded-Denies :
    {A : Type 0} (answer : Option (Response A)) → Denies answer → decoded answer ≡ none
decoded-Denies none h = refl
decoded-Denies (some r) (inl other) = ground (arith, other, nat_eq.beq_iff r.status 200)
decoded-Denies (some r) (inr broken) = ground (arith, broken)
