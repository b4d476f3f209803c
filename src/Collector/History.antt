-- ===== src/Collector/History.antt =====
-- The rate history: it stays in order, and holds a day at most once it is long.
use bandwidth_monitor.Common.{
  ℕ, length-append, ◌-◌, ◌≤◌, ◌<◌, ◌≡◌, refl, false, List, [], ◌∷◌, ◌++◌, All, All-append, length,
  sub_ℕ, arith, Bool-cases, inl, inr, ◌⊎◌, ltb, ltb-false, ltb→lt,
}
use bandwidth_monitor.Float.{Float, nought}
use bandwidth_monitor.Packet.{Packet}
use bandwidth_monitor.Window.{
  Ascending, UpTo, UpTo-mono, stale, fresh, fresh-All, fresh-Ascending, fresh-All_of, fresh-snoc,
  Ascending-snoc, stale-append-fresh, stale-All,
}
use bandwidth_monitor.Collector.{
  Collector, HistoryPoint, process_packet, history_max_age, history_prune_at, unix_milli,
}
use bandwidth_monitor.Collector.Rates.{RateLoop, Event, arrives, ticks, tick, prune, steps}

-- The clock of the ticks, which starts at `t`, does not go back.
abbrev pub Clock : ℕ → List Event → Type 0
Clock t [] = Unit
Clock t (arrives p ∷ es) = Clock t es
Clock t (ticks now ∷ es) = (t ≤ now) × Clock now es

module _ {fl : Float} where
  abbrev stamp : HistoryPoint fl → ℕ
  stamp p = p.timestamp

  -- The history is in the order of time, and not ahead of the rate loop.
  pub record InOrder (s : Collector fl × RateLoop) : Type 0 where
    pub ascending : Ascending stamp s.0.history
    pub up_to : UpTo stamp (unix_milli s.1.prev_time) s.0.history

  module _ (now : ℕ) (h : List (HistoryPoint fl)) (p : HistoryPoint fl) (t : ℕ) where
    prune-InOrder :
        Ascending stamp h
        → UpTo stamp (unix_milli t) h
        → t ≤ now
        → p.timestamp ≡ unix_milli now
        → Ascending stamp (prune fl now (h ++ p ∷ []))
          × UpTo stamp (unix_milli now) (prune fl now (h ++ p ∷ []))
    unfolding prune
    prune-InOrder a u le e = elim (Bool-cases (ltb history_prune_at (length (h ++ p ∷ [])))) [
      | inl long ↦ rw long (fresh-Ascending stamp _ _ whole.0, fresh-All_of stamp _ _ _ whole.1)
      | inr short ↦ rw short whole
    ]
      where
        later : UpTo stamp (unix_milli now) h
        later = UpTo-mono stamp (unix_milli t) (unix_milli now) h (omega arith) u

        whole : Ascending stamp (h ++ p ∷ []) × UpTo stamp (unix_milli now) (h ++ p ∷ [])
        whole = (
          Ascending-snoc stamp h p a (rw e later),
          All-append _ h (p ∷ []) later (omega arith, tt),
        )

  packet-history : (c : Collector fl) (p : Packet) → (process_packet fl c p).history ≡ c.history
  unfolding process_packet
  packet-history c p = ground arith

  tick-InOrder :
      (now : ℕ) (c : Collector fl) (l : RateLoop)
      → l.prev_time ≤ now
      → InOrder (c, l)
      → InOrder (tick fl now c l)
  unfolding tick
  tick-InOrder now c l le h =
      elim (Bool-cases (fl.le (fl.seconds (sub_ℕ now l.prev_time)) (nought fl))) [
        | inl stuck ↦ rw stuck h
        | inr moved ↦
            let (a, u) = prune-InOrder now c.history _ l.prev_time h.ascending h.up_to le refl in
            rw moved (record { ascending = a; up_to = u })
      ]

  pub tick-prev_time :
      (now : ℕ) (c : Collector fl) (l : RateLoop)
      → l.prev_time ≤ now
      → (tick fl now c l).1.prev_time ≤ now
  unfolding tick
  tick-prev_time now c l le = ground arith

  -- Whatever packets and ticks come in, in whatever order, a history that is in the order of time
  -- and not ahead of the rate loop stays so, if the clock does not go back.
  pub steps-InOrder :
      (t : ℕ) (s : Collector fl × RateLoop) (es : List Event)
      → s.1.prev_time ≤ t
      → Clock t es
      → InOrder s
      → InOrder (steps fl s es)
  unfolding steps
  steps-InOrder t s [] le k h = h
  steps-InOrder t (c, l) (arrives p ∷ es) le k h =
      steps-InOrder t (process_packet fl c p, l) es le k
        (record {
          ascending = rw (packet-history c p) h.ascending;
          up_to = rw (packet-history c p) h.up_to;
        })
  steps-InOrder t (c, l) (ticks now ∷ es) le k h =
      steps-InOrder now (tick fl now c l) es (tick-prev_time now c l (omega arith)) k.1
        (tick-InOrder now c l (omega arith) h)

  -- What a tick makes of the history `h`, when it adds the point `p`: `dropped` are the points that
  -- it drops from the front, all more than a day old, and the new point stays. A history of at least
  -- `history_prune_at` points then holds nothing older than a day; any other loses nothing.
  pub record Extends (now : ℕ) (h : List (HistoryPoint fl)) (p : HistoryPoint fl)
      (h' : List (HistoryPoint fl)) : Type 0 where
    pub dropped : List (HistoryPoint fl)
    pub kept : List (HistoryPoint fl)
    pub split : dropped ++ kept ≡ h
    pub ends : h' ≡ kept ++ p ∷ []
    pub dropped_old : All (λ q. q.timestamp < unix_milli (now - history_max_age)) dropped
    pub bounded :
        ((length h < history_prune_at) × (dropped ≡ []))
        ⊎ ((history_prune_at ≤ length h)
            × All (λ q. unix_milli (now - history_max_age) ≤ q.timestamp) h')

  prune-Extends :
      (now : ℕ) (h : List (HistoryPoint fl)) (p : HistoryPoint fl)
      → Ascending stamp (h ++ p ∷ [])
      → p.timestamp ≡ unix_milli now
      → Extends now h p (prune fl now (h ++ p ∷ []))
  unfolding prune
  prune-Extends now h p a e = elim (Bool-cases (ltb history_prune_at (length (h ++ p ∷ [])))) [
    | inl long ↦
        let cutoff = unix_milli (now - history_max_age) in
        rw long (record {
          dropped = stale stamp cutoff h;
          kept = fresh stamp cutoff h;
          split = stale-append-fresh stamp cutoff h;
          ends = fresh-snoc stamp cutoff h p (omega arith);
          dropped_old = stale-All stamp cutoff h;
          bounded = inr (
            omega (arith, length-append h (p ∷ []), ltb→lt _ _ long),
            fresh-All stamp cutoff (h ++ p ∷ []) a,
          );
        })
    | inr short ↦ rw short (record {
      dropped = [];
      kept = h;
      split = refl;
      ends = refl;
      dropped_old = tt;
      bounded = inl (omega (arith, length-append h (p ∷ []), ltb-false _ _ short), refl);
    })
  ]

  -- If the history is in order and the clock has moved on, a tick adds one point, of its time and
  -- the rates that it reports, and drops only points from the front that are more than a day old:
  -- all such points if the history had at least 86400 points, and otherwise none.
  pub tick-Extends :
      (now : ℕ) (c : Collector fl) (l : RateLoop)
      → InOrder (c, l)
      → l.prev_time ≤ now
      → fl.le (fl.seconds (sub_ℕ now l.prev_time)) (nought fl) ≡ false
      → let c' = (tick fl now c l).0 in
        Extends now c.history
          (record {
            timestamp = unix_milli now;
            rx_rate = c'.stat.rx_rate;
            tx_rate = c'.stat.tx_rate;
          })
          c'.history
  unfolding tick
  tick-Extends now c l h le moved = rw moved (
      prune-Extends now c.history _
        (Ascending-snoc stamp c.history _ h.ascending (
          UpTo-mono stamp (unix_milli l.prev_time) (unix_milli now) c.history (omega arith)
            h.up_to))
        refl)
