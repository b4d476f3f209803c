-- ===== src/Main/Routes.antt =====
-- main.go: the paths of the handlers. A pattern of `http.ServeMux` without a slash at its end matches
-- its path only, and `/` matches all the others.
use bandwidth_monitor.Common.{if◌then◌else◌, String, string_eq}
use bandwidth_monitor.Handler.{
  Request, interface_stats, interface_history, top_talkers_bandwidth, top_talkers_volume,
  dns_summary, wifi_summary_of, menu_bar_summary,
}

-- A handler, the web socket, or the server of the static files.
pub data Target : Type 0 where
  api : Request → Target
  web_socket : Target
  files : Target

unfoldable pub route : String → Target
route path =
    if string_eq.beq path "/api/interfaces"
    then api interface_stats
    else if string_eq.beq path "/api/interfaces/history"
    then api interface_history
    else if string_eq.beq path "/api/talkers/bandwidth"
    then api top_talkers_bandwidth
    else if string_eq.beq path "/api/talkers/volume"
    then api top_talkers_volume
    else if string_eq.beq path "/api/dns"
    then api dns_summary
    else if string_eq.beq path "/api/wifi"
    then api wifi_summary_of
    else if string_eq.beq path "/api/summary"
    then api menu_bar_summary
    else if string_eq.beq path "/api/ws"
    then web_socket
    else files
