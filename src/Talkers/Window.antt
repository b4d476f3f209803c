-- ===== src/Talkers/Window.antt =====
-- talkers/talkers.go: `rotateBuckets`, and the buckets that the reports read.
use bandwidth_monitor.Common.{ℕ, ◌-◌, Option, none, some, List, [], ◌∷◌, ◌++◌, ltb}
use bandwidth_monitor.Window.{drop_while}
use bandwidth_monitor.Packet.{Packet}
use bandwidth_monitor.Net.{IpText}
use bandwidth_monitor.Talkers.{Bucket, Tracker, max_age, empty_bucket}
use bandwidth_monitor.Talkers.Packets.{process_packet}

abbrev pub as_list : Option Bucket → List Bucket
as_list none = []
as_list (some b) = b ∷ []

-- The reports go through `buckets` and then through `current`, if there is one.
abbrev pub window : Tracker → List Bucket
window t = t.buckets ++ as_list t.current

-- One tick of `rotateBuckets`. Bucket times are not negative, so a cutoff that `-` stops at 0
-- passes the same buckets.
unfoldable pub rotate : ℕ → Tracker → Tracker
rotate now t = record t {
  buckets = drop_while (λ b. ltb b.timestamp (now - max_age)) (window t);
  current = some (empty_bucket now);
}

-- What happens to the tracker, in the order in which `mu` is taken.
pub data Event : Type 0 where
  arrives : Packet → Event
  turns : ℕ → Event

module _ (texts : IpText) where
  unfoldable pub step : Tracker → Event → Tracker
  step t (arrives p) = process_packet texts t p
  step t (turns now) = rotate now t

  unfoldable pub steps : Tracker → List Event → Tracker
  unfolding step
  steps t [] = t
  steps t (e ∷ es) = steps (step t e) es
