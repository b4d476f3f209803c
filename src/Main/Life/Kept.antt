-- ===== src/Main/Life/Kept.antt =====
-- main.go: what the steps of the capturing goroutines keep.
use bandwidth_monitor.Common.{
  ap, ◌∙◌, inl, inr, ℕ, ◌≤◌, ◌≡◌, refl, sym, subst, Option, none, some, List, [], ◌∷◌, String,
  arith, All, All-append, ◌++◌,
}
use bandwidth_monitor.Float.{Float}
use bandwidth_monitor.Net.{IpText}
use bandwidth_monitor.Window.{Ascending, Ascending-snoc, UpTo-mono}
use bandwidth_monitor.Packet.{Packet}
use bandwidth_monitor.Collector
use bandwidth_monitor.Collector.{Collector, unix_milli}
use bandwidth_monitor.Collector.Rates.{RateLoop, start_rate_loop, tick}
use bandwidth_monitor.Talkers
use bandwidth_monitor.Talkers.{Tracker, Bucket, truncate, empty_bucket}
use bandwidth_monitor.Talkers.Packets.{Flow, on_current, process_flow, process_packet}
use bandwidth_monitor.Talkers.Window.{window, rotate, as_list}
use bandwidth_monitor.Talkers.Balance.{TrackerOk, empty_bucket-BucketOk}
use bandwidth_monitor.Handler.Names.{MoreNames}

-- A tracker that is well-formed at a time is so later.
pub TrackerOk-mono :
    (now later : ℕ) (t : Tracker) → now ≤ later → TrackerOk now t → TrackerOk later t
TrackerOk-mono now later t le h = record {
  buckets_ok = h.buckets_ok;
  current_ok = h.current_ok;
  ascending = h.ascending;
  up_to =
      UpTo-mono (λ b. b.timestamp) (truncate now) (truncate later) (window t) (omega arith) h.up_to;
}

-- Other names make no difference to it.
pub names-TrackerOk :
    (now : ℕ) (t t' : Tracker) → MoreNames t t' → TrackerOk now t → TrackerOk now t'
names-TrackerOk now t t' m h = subst (TrackerOk now) (sym m.same) (record {
  buckets_ok = h.buckets_ok;
  current_ok = h.current_ok;
  ascending = h.ascending;
  up_to = h.up_to;
})

All-left {ℓ} : {A : Type ℓ} (P : A → Type 0) (xs ys : List A) → All P (xs ++ ys) → All P xs
All-left P [] ys h = tt
All-left P (x ∷ xs) ys h = (h.0, All-left P xs ys h.1)

Ascending-left {ℓ} :
    {A : Type ℓ} (stamp : A → ℕ) (xs ys : List A) → Ascending stamp (xs ++ ys) → Ascending stamp xs
Ascending-left stamp [] ys h = tt
Ascending-left stamp (x ∷ xs) ys h = (All-left _ xs ys h.0, Ascending-left stamp xs ys h.1)

start-TrackerOk : (now : ℕ) (t : Tracker) → TrackerOk now t → TrackerOk now (Talkers.start now t)
unfolding Talkers.start
start-TrackerOk now t h =
    let before = All-left _ t.buckets (as_list t.current) h.up_to in
    record {
      buckets_ok = h.buckets_ok;
      current_ok = (empty_bucket-BucketOk now, tt);
      ascending =
          Ascending-snoc (λ b. b.timestamp) t.buckets (empty_bucket now)
            (Ascending-left _ t.buckets (as_list t.current) h.ascending) before;
      up_to = All-append _ t.buckets (empty_bucket now ∷ []) before (omega arith, tt);
    }

start-closed : (now : ℕ) (t : Tracker) → (Talkers.start now t).closed ≡ t.closed
unfolding Talkers.start
start-closed now t = refl

pub run-TrackerOk :
    (now : ℕ) (t : Tracker) (listed : Option (List (String × ℕ)))
    → TrackerOk now t
    → TrackerOk now (Talkers.run now t listed).0
run-TrackerOk now t listed h = elim (Talkers.run-start now t listed) [
  | inl same ↦ subst (TrackerOk now) (sym same) h
  | inr started ↦ subst (TrackerOk now) (sym started) (start-TrackerOk now t h)
]

pub run-closed :
    (now : ℕ) (t : Tracker) (listed : Option (List (String × ℕ)))
    → (Talkers.run now t listed).0.closed ≡ t.closed
run-closed now t listed = elim (Talkers.run-start now t listed) [
  | inl same ↦ ap (λ (u : Tracker). u.closed) same
  | inr started ↦ ap (λ (u : Tracker). u.closed) started ∙ start-closed now t
]

pub rotate-closed : (now : ℕ) (t : Tracker) → (rotate now t).closed ≡ t.closed
unfolding rotate
rotate-closed now t = refl

pub start-behind : (now : ℕ) → (start_rate_loop now).prev_time ≤ now
unfolding start_rate_loop
start-behind now = omega arith

current-closed :
    (g : Bucket → Bucket) (t : Tracker) (c : Option Bucket) → (on_current g t c).closed ≡ t.closed
current-closed g t none = refl
current-closed g t (some b) = refl

flow-closed :
    (texts : IpText) (t : Tracker) (pr : String) (f : Option Flow)
    → (process_flow texts t pr f).closed ≡ t.closed
flow-closed texts t pr none = refl
flow-closed texts t pr (some f) = current-closed _ t t.current

pub tracker-closed :
    (texts : IpText) (t : Tracker) (p : Packet) → (process_packet texts t p).closed ≡ t.closed
unfolding process_packet
tracker-closed texts t p = flow-closed texts t _ _

module _ {fl : Float} where
  pub packet-closed :
      (c : Collector fl) (p : Packet) → (Collector.process_packet fl c p).closed ≡ c.closed
  unfolding Collector.process_packet
  packet-closed c p = ground arith

  pub tick-closed :
      (now : ℕ) (c : Collector fl) (r : RateLoop) → (tick fl now c r).0.closed ≡ c.closed
  unfolding tick
  tick-closed now c r = ground arith
