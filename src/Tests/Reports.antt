-- ===== src/Tests/Reports.antt =====
-- Runs of the reports on the top talkers and on places.
use bandwidth_monitor.Common.{arith, ◌*◌, refl, string_eq, nat_eq}
use bandwidth_monitor.Maps.{get}
use bandwidth_monitor.Sorting.Insertion.{insertion}
use bandwidth_monitor.Talkers.Window.{window}
use bandwidth_monitor.Talkers.Volume.{IsVolumeReport, top_by_volume, top_by_volume-IsVolumeReport}
use bandwidth_monitor.Talkers.Bandwidth.{
  IsBandwidthReport, top_by_bandwidth, top_by_bandwidth-IsBandwidthReport,
}
use bandwidth_monitor.Tests.Samples.{whole, whole-Laws, busy, minute}

top_by_volume-IsVolumeReport_example :
    IsVolumeReport whole 10 (window busy) (top_by_volume whole insertion 10 busy).1
unfolding get
top_by_volume-IsVolumeReport_example =
    top_by_volume-IsVolumeReport whole insertion 10 busy ((refl, tt), ((refl, tt), tt))

top_by_bandwidth-IsBandwidthReport_example :
    IsBandwidthReport whole 10
      (3 * minute)
      busy.current
      (top_by_bandwidth whole insertion 10 (3 * minute) busy).1
top_by_bandwidth-IsBandwidthReport_example =
    top_by_bandwidth-IsBandwidthReport whole whole-Laws insertion 10 (3 * minute) busy (omega arith)
      (omega arith, tt)
