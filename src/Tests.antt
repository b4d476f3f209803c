-- ===== src/Tests.antt =====
-- Runs of the program's parts on small inputs.
pub mod Samples
pub mod Collector
pub mod Talkers
pub mod Reports
pub mod Geoip
pub mod Nextdns
pub mod Unifi
pub mod UnifiClient
pub mod Adguard
pub mod Main
pub mod Handler
pub mod Life
