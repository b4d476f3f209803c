-- ===== src/Dns.antt =====
-- dns/dns.go: the summary that every DNS provider gives. `int` is `ℤ` with the arithmetic of 64 bits.
use bandwidth_monitor.Common.{Bool, List, String, Option, ℤ, ltb_ℤ, arith}
use bandwidth_monitor.Float.{Float}
use bandwidth_monitor.Sorting.{IsOrder, Any}

pub record DomainStat : Type 0 where
  pub domain : String
  pub count : ℤ

pub record ClientStat : Type 0 where
  pub ip : String
  pub count : ℤ

-- `none` stands for a `nil` slice in the series.
module _ (fl : Float) where
  open fl use {F}

  pub record UpstreamStat : Type 0 where
    pub address : String
    pub responses : ℤ
    pub avg_ms : F

  pub record Summary : Type 0 where
    pub provider_name : String
    pub total_queries : ℤ
    pub blocked_total : ℤ
    pub blocked_percent : F
    pub avg_latency_ms : F
    pub top_queried : List DomainStat
    pub top_blocked : List DomainStat
    pub top_clients : List ClientStat
    pub upstreams : List UpstreamStat
    pub queries_series : Option (List ℤ)
    pub blocked_series : Option (List ℤ)
    pub time_units : String

-- `less` by an `int`, the largest first.
abbrev pub more_ℤ {ℓ} : {A : Type ℓ} → (A → ℤ) → A → A → Bool
more_ℤ f a b = ltb_ℤ (f b) (f a)

pub more_ℤ-IsOrder {ℓ} : {A : Type ℓ} (f : A → ℤ) → IsOrder Any (more_ℤ f)
more_ℤ-IsOrder f = record {
  asymm = λ a b _ _ h. ground arith;
  trans = λ a b c _ _ _ h k. ground arith;
}
