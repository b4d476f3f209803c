-- ===== src/Handler/Reports.antt =====
-- handler/handler.go: what a tick of the web socket sends, call by call.
use bandwidth_monitor.Common.{
  ℕ, ◌≡◌, ◌^◌, ◌<◌, ◌≤◌, ◌*◌, ◌∙◌, String, sum_of, sym, subst, ap, List, [], ◌∷◌, ◌++◌, length, All,
  All-append, u64, string_eq, nat_eq, arith, Option, none, some,
}
use bandwidth_monitor.Float.{Float, Laws}
use bandwidth_monitor.Sorting.{Sort}
use bandwidth_monitor.Window.{Ascending, UpTo}
use bandwidth_monitor.Collector.Sparklines.{
  Answers, of_last, get_sparklines, get_sparklines-Answers,
}
use bandwidth_monitor.Talkers.{Tracker, Bucket, truncate}
use bandwidth_monitor.Talkers.Window.{window, as_list}
use bandwidth_monitor.Talkers.Balance.{TrackerOk, BucketOk}
use bandwidth_monitor.Talkers.Breakdown.{
  Distinct, bytes_at, breakdowns-at, get_protocol_breakdown, get_ip_version_breakdown,
}
use bandwidth_monitor.Talkers.Bandwidth.{
  IsBandwidthReport, top_by_bandwidth, top_by_bandwidth-IsBandwidthReport,
}
use bandwidth_monitor.Talkers.Volume.{
  IsVolumeReport, HostsDistinct, top_by_volume, top_by_volume-IsVolumeReport,
}
use bandwidth_monitor.Talkers.Places.{
  CountryStat, AsnStat, country_stat, asn_stat, get_country_breakdown, get_asn_breakdown,
}
use bandwidth_monitor.Talkers.Places.Shares.{
  Reports, IsPlaceReport, by_country, by_asn, get_country_breakdown-Reports,
  get_asn_breakdown-Reports,
}
use bandwidth_monitor.Handler.{
  Parts, Payload, Turn, Call, for_interfaces, for_sparklines, for_protocols, for_ip_versions,
  for_countries, for_asns, for_bandwidth, for_volume, payload, bandwidth_call, spark_duration,
  spark_points,
}

All-HostsDistinct : (bs : List Bucket) → All BucketOk bs → HostsDistinct bs
All-HostsDistinct [] h = tt
All-HostsDistinct (b ∷ bs) h = (h.0.hosts_distinct, All-HostsDistinct bs h.1)

pub window-HostsDistinct : (now : ℕ) (t : Tracker) → TrackerOk now t → HostsDistinct (window t)
window-HostsDistinct now t h =
    All-HostsDistinct (window t)
      (All-append _ t.buckets (as_list t.current) h.buckets_ok h.current_ok)

All-Distinct :
    (bs : List Bucket)
    → All BucketOk bs
    → Distinct (λ b. b.proto_bytes) bs × Distinct (λ b. b.ip_ver_bytes) bs
All-Distinct [] h = (tt, tt)
All-Distinct (b ∷ bs) h =
    let (ps, vs) = All-Distinct bs h.1 in ((h.0.protos_distinct, ps), (h.0.versions_distinct, vs))

pub window-Distinct :
    (now : ℕ) (t : Tracker)
    → TrackerOk now t
    → Distinct (λ b. b.proto_bytes) (window t) × Distinct (λ b. b.ip_ver_bytes) (window t)
window-Distinct now t h =
    All-Distinct (window t) (All-append _ t.buckets (as_list t.current) h.buckets_ok h.current_ok)

All-right {ℓ} : {A : Type ℓ} (P : A → Type 0) (xs ys : List A) → All P (xs ++ ys) → All P ys
All-right P [] ys h = h
All-right P (x ∷ xs) ys h = All-right P xs ys h.1

optional_before :
    (since : ℕ) (b : Option Bucket)
    → since < 2 ^ 63
    → UpTo (λ b. b.timestamp) (truncate since) (as_list b)
    → All (λ b. b.timestamp < 2 ^ 63) (as_list b)
optional_before since none small h = tt
optional_before since (some b) small h = (omega (arith, h.0), tt)

current_before :
    (since : ℕ) (t : Tracker)
    → since < 2 ^ 63
    → TrackerOk since t
    → All (λ b. b.timestamp < 2 ^ 63) (as_list t.current)
current_before since t small h =
    optional_before since t.current small (All-right _ t.buckets (as_list t.current) h.up_to)

abbrev pub CountriesOf : Tracker → List CountryStat → Type 0
CountriesOf t =
    Reports t.geo_db (λ geo. IsPlaceReport (by_country geo) country_stat (λ s. s.bytes) (window t))

abbrev pub AsnsOf : Tracker → List AsnStat → Type 0
AsnsOf t = Reports t.geo_db (λ geo. IsPlaceReport (by_asn geo) asn_stat (λ s. s.bytes) (window t))

module _ (fl : Float) where
  -- `seen` are the components as each call of a tick finds them: those that the call before has
  -- left, and what other goroutines have done to them since.
  pub record Sees (sort : Sort) (turn : Turn fl) (p : Parts fl) (seen : Call → Parts fl)
      : Type 0 where
    pub at_interfaces : seen for_interfaces ≡ turn.before for_interfaces p
    pub at_sparklines : seen for_sparklines ≡ turn.before for_sparklines (seen for_interfaces)
    pub at_protocols : seen for_protocols ≡ turn.before for_protocols (seen for_sparklines)
    pub at_ip_versions : seen for_ip_versions ≡ turn.before for_ip_versions (seen for_protocols)
    pub at_countries : seen for_countries ≡ turn.before for_countries (seen for_ip_versions)
    pub at_asns : seen for_asns ≡ turn.before for_asns (seen for_countries)
    pub at_bandwidth : seen for_bandwidth ≡ turn.before for_bandwidth (seen for_asns)
    pub at_volume :
        seen for_volume
        ≡ turn.before for_volume
            (bandwidth_call fl sort (turn.clock for_bandwidth) (seen for_bandwidth)).0

  -- What a payload says of the components, each part of those that its own call found.
  pub record IsPayload (clock : Call → ℕ) (seen : Call → Parts fl) (d : Payload fl) : Type 0 where
    pub sparklines :
        Answers fl
          (seen for_sparklines).c
          spark_points
          (of_last fl (clock for_sparklines) (5 * 60 * 1_000_000_000) (seen for_sparklines).c)
          d.sparklines
    pub protocols :
        (k : String)
        → bytes_at k d.protocols
          ≡ u64 (sum_of (λ b. bytes_at k b.proto_bytes) (window (seen for_protocols).t))
    pub ip_versions :
        (k : String)
        → bytes_at k d.ip_versions
          ≡ u64 (sum_of (λ b. bytes_at k b.ip_ver_bytes) (window (seen for_ip_versions).t))
    pub countries : CountriesOf (seen for_countries).t d.countries
    pub asns : AsnsOf (seen for_asns).t d.asns
    pub top_bandwidth :
        IsBandwidthReport fl 10 (clock for_bandwidth) (seen for_bandwidth).t.current d.top_bandwidth
    pub top_volume : IsVolumeReport fl 10 (window (seen for_volume).t) d.top_volume

  -- The parts of a payload, each from what its call found.
  pub record FromSeen (sort : Sort) (clock : Call → ℕ) (seen : Call → Parts fl) (d : Payload fl)
      : Type 0 where
    pub sparklines :
        d.sparklines
        ≡ get_sparklines fl
            (clock for_sparklines)
            spark_duration
            spark_points
            (seen for_sparklines).c
    pub protocols : d.protocols ≡ get_protocol_breakdown (seen for_protocols).t
    pub ip_versions : d.ip_versions ≡ get_ip_version_breakdown (seen for_ip_versions).t
    pub countries : d.countries ≡ get_country_breakdown sort (seen for_countries).t
    pub asns : d.asns ≡ get_asn_breakdown sort (seen for_asns).t
    pub top_bandwidth :
        d.top_bandwidth
        ≡ (top_by_bandwidth fl sort 10 (clock for_bandwidth) (seen for_bandwidth).t).1
    pub top_volume : d.top_volume ≡ (top_by_volume fl sort 10 (seen for_volume).t).1

  payload-FromSeen :
      (sort : Sort) (turn : Turn fl) (p : Parts fl) (seen : Call → Parts fl)
      → Sees sort turn p seen
      → FromSeen sort turn.clock seen (payload fl sort turn p).1
  unfolding payload
  payload-FromSeen sort turn p seen h =
      let s1 = h.at_interfaces in
      let s2 = h.at_sparklines ∙ ap (turn.before for_sparklines) s1 in
      let s3 = h.at_protocols ∙ ap (turn.before for_protocols) s2 in
      let s4 = h.at_ip_versions ∙ ap (turn.before for_ip_versions) s3 in
      let s5 = h.at_countries ∙ ap (turn.before for_countries) s4 in
      let s6 = h.at_asns ∙ ap (turn.before for_asns) s5 in
      let s7 = h.at_bandwidth ∙ ap (turn.before for_bandwidth) s6 in
      let s8 =
        h.at_volume
        ∙ ap (λ q. turn.before for_volume (bandwidth_call fl sort (turn.clock for_bandwidth) q).0)
            s7 in
      record {
        sparklines =
            ap
              (λ (q : Parts fl).
                get_sparklines fl (turn.clock for_sparklines) spark_duration spark_points q.c)
              (sym s2);
        protocols = ap (λ (q : Parts fl). get_protocol_breakdown q.t) (sym s3);
        ip_versions = ap (λ (q : Parts fl). get_ip_version_breakdown q.t) (sym s4);
        countries = ap (λ (q : Parts fl). get_country_breakdown sort q.t) (sym s5);
        asns = ap (λ (q : Parts fl). get_asn_breakdown sort q.t) (sym s6);
        top_bandwidth =
            ap (λ (q : Parts fl). (top_by_bandwidth fl sort 10 (turn.clock for_bandwidth) q.t).1)
              (sym s7);
        top_volume = ap (λ (q : Parts fl). (top_by_volume fl sort 10 q.t).1) (sym s8);
      }

  -- What a call has to find: a tracker that is well-formed at some time, and a history in the order
  -- of time.
  pub record Sound (since : ℕ) (p : Parts fl) : Type 0 where
    pub tracker_ok : TrackerOk since p.t
    pub ascending : Ascending (λ h. h.timestamp) p.c.history

  pub payload-IsPayload :
      (laws : Laws fl) (sort : Sort) (turn : Turn fl) (p : Parts fl) (seen : Call → Parts fl)
      (since : Call → ℕ)
      → Sees sort turn p seen
      → ((call : Call) → Sound (since call) (seen call))
      → length (of_last fl (turn.clock for_sparklines) spark_duration (seen for_sparklines).c)
        < 2 ^ 62
      → since for_bandwidth ≤ turn.clock for_bandwidth
      → turn.clock for_bandwidth < 2 ^ 63
      → IsPayload turn.clock seen (payload fl sort turn p).1
  payload-IsPayload laws sort turn p seen since h ok few late small =
      let from = payload-FromSeen sort turn p seen h in
      let distinct =
        λ (call : Call). window-HostsDistinct (since call) (seen call).t (ok call).tracker_ok in
      let keys = λ (call : Call). window-Distinct (since call) (seen call).t (ok call).tracker_ok in
      record {
        sparklines =
            subst
              (Answers fl (seen for_sparklines).c spark_points
                (of_last fl (turn.clock for_sparklines) spark_duration (seen for_sparklines).c))
              (sym from.sparklines)
              (get_sparklines-Answers fl laws (turn.clock for_sparklines) spark_duration
                spark_points (seen for_sparklines).c (ok for_sparklines).ascending few);
        protocols = λ k.
            ap (bytes_at k) from.protocols
            ∙ (breakdowns-at (seen for_protocols).t k (keys for_protocols).0
                (keys for_protocols).1).0;
        ip_versions = λ k.
            ap (bytes_at k) from.ip_versions
            ∙ (breakdowns-at (seen for_ip_versions).t k (keys for_ip_versions).0
                (keys for_ip_versions).1).1;
        countries =
            subst (CountriesOf (seen for_countries).t) (sym from.countries)
              (get_country_breakdown-Reports sort (seen for_countries).t (distinct for_countries));
        asns =
            subst (AsnsOf (seen for_asns).t) (sym from.asns)
              (get_asn_breakdown-Reports sort (seen for_asns).t (distinct for_asns));
        top_bandwidth = subst (IsBandwidthReport fl 10 _ _) (sym from.top_bandwidth) (
            top_by_bandwidth-IsBandwidthReport fl laws sort 10 (turn.clock for_bandwidth)
              (seen for_bandwidth).t small
              (current_before (since for_bandwidth) (seen for_bandwidth).t (omega arith)
                (ok for_bandwidth).tracker_ok));
        top_volume =
            subst (IsVolumeReport fl 10 _) (sym from.top_volume)
              (top_by_volume-IsVolumeReport fl sort 10 (seen for_volume).t (distinct for_volume));
      }
