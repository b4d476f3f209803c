-- ===== src/Unifi/Summaries/Networks.antt =====
-- unifi/unifi.go: what a summary counts for the networks.
use bandwidth_monitor.Common.{
  ℕ, String, ◌≡◌, List, map, Perm, if◌then◌else◌, nat_eq, string_eq, length, sum_of, u64, bits64,
}
use bandwidth_monitor.Float.{Float}
use bandwidth_monitor.Maps.{Map, get, DistinctKeys}
use bandwidth_monitor.Maps.Group.{count_of, share, kept}
use bandwidth_monitor.Sorting.{IsSorted}
use bandwidth_monitor.Unifi.Summaries.{
  RawClient, SsidAgg, Summary, Previous, network_of, ssid_stat, by_clients,
}

-- The clients of each network, all together: one entry for each name, with their number and, on
-- 64 bits, their bytes.
pub record IsNetworks (clients : List RawClient) (entries : Map String SsidAgg) : Type 0 where
  pub distinct : DistinctKeys entries
  pub count_lem :
      (name : String)
      → count_of (λ a. u64 a.count) (get name entries)
        ≡ u64 (share network_of (λ c. 1) name clients)
  pub tx_lem :
      (name : String)
      → count_of (λ a. bits64 a.tx_bytes) (get name entries)
        ≡ u64 (share network_of (λ c. bits64 c.tx_bytes) name clients)
  pub rx_lem :
      (name : String)
      → count_of (λ a. bits64 a.rx_bytes) (get name entries)
        ≡ u64 (share network_of (λ c. bits64 c.rx_bytes) name clients)
  pub total_lem : u64 (sum_of (λ p. u64 p.1.count) entries) ≡ u64 (kept network_of (λ c. 1) clients)

-- How many clients are not wired.
abbrev pub wireless_clients : List RawClient → ℕ
wireless_clients = sum_of (λ c. if c.is_wired then 0 else 1)

module _ (fl : Float) where
  -- What the networks of a summary are.
  pub record HasNetworks (prev : Previous) (dt : fl.F) (clients : List RawClient) (sum : Summary fl)
      : Type 0 where
    pub entries : Map String SsidAgg
    pub entries_lem : IsNetworks clients entries
    pub same : Perm sum.ssids (map (ssid_stat fl dt prev.ssid) entries)
    pub sorted : IsSorted (by_clients fl) sum.ssids
    pub wireless_lem : sum.total_clients ≡ wireless_clients clients
    pub listed : length sum.clients ≡ wireless_clients clients
