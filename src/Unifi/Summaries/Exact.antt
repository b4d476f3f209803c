-- ===== src/Unifi/Summaries/Exact.antt =====
-- unifi/unifi.go: what a rate is, for counters that are not negative.
use bandwidth_monitor.Common.{
  ℕ, ◌-◌, ◌^◌, ◌<◌, ◌≡◌, inl, inr, true, false, some, arith, ltb, leb, if◌then◌else◌, Bool-cases,
  nat_eq, string_eq, ℤ, pos, sub_i64_pos,
}
use bandwidth_monitor.Float.{Float, Laws, nought, of_ℕ}
use bandwidth_monitor.Unifi.Summaries.{rates, clamped_rate}

module _ (fl : Float) where
  open fl use {F, lt, div, seconds}

  -- What a counter has gained over a time: nothing if it has fallen, as after a restart.
  abbrev pub gained : ℤ → ℕ → ℕ → F
  gained z cur prev = if ltb cur prev then nought fl else div (of_ℕ fl (cur - prev)) (seconds z)

  clamped_rate-gained :
      (laws : Laws fl) (z : ℤ) (cur prev : ℕ)
      → lt (nought fl) (seconds z) ≡ true
      → cur < 2 ^ 63
      → prev < 2 ^ 63
      → clamped_rate fl (seconds z) (pos cur) (pos prev) ≡ gained z cur prev
  unfolding clamped_rate
  clamped_rate-gained laws z cur prev moved hc hp =
      rw (sub_i64_pos cur prev hc hp) (elim (Bool-cases (ltb cur prev)) [
        | inl fell ↦
            let behind : leb prev cur ≡ false = ground (arith, fell) in
            rw (behind, fell, laws.div-below (prev - cur - 1) z moved)
        | inr rose ↦
            let ahead : leb prev cur ≡ true = ground (arith, rose) in
            rw (ahead, rose, laws.div-not-below (cur - prev) z moved)
      ])

  -- If the time since the last poll is positive and the counters are not negative, the two rates of a
  -- UniFi entry are exactly what its counters have gained over that time, and 0 for a counter that has
  -- fallen.
  pub rates-gained :
      (laws : Laws fl) (z : ℤ) (tx rx prev_tx prev_rx : ℕ)
      → lt (nought fl) (seconds z) ≡ true
      → tx < 2 ^ 63
      → rx < 2 ^ 63
      → prev_tx < 2 ^ 63
      → prev_rx < 2 ^ 63
      → rates fl
          (seconds z)
          (some (record { tx = pos prev_tx; rx = pos prev_rx }))
          (pos tx)
          (pos rx)
        ≡ (gained z tx prev_tx, gained z rx prev_rx)
  unfolding rates
  rates-gained laws z tx rx prev_tx prev_rx moved ht hr hpt hpr = rw (
    moved,
    clamped_rate-gained laws z tx prev_tx moved ht hpt,
    clamped_rate-gained laws z rx prev_rx moved hr hpr,
  )
