-- ===== src/Lib.antt =====
-- Verification of bandwidth-monitor, a network monitor: it captures packets on a mirror port, counts
-- what comes in and goes out, keeps a day of rates and of top talkers, and serves them over HTTP.
--
-- The parts and how they work together
--   collector/collector.go  captures on one device, classifies each packet by LOCAL_NETS, and turns
--                           its counters into rates once a second.
--   talkers/talkers.go      captures too, counts bytes for each remote host in buckets of a minute,
--                           keeps a day of them and reports the top hosts, protocols and places.
--   nextdns/nextdns.go, adguard/adguard.go  poll a DNS server's statistics and make the summary of
--                           dns/dns.go of them.
--   unifi/unifi.go          keeps a session with a UniFi controller, polls it, and sums up its access
--                           points, networks and clients.
--   handler/handler.go      serves what the others report, on request and over a web socket.
--   main.go                 reads the configuration, starts all of them and stops them on a signal.
--   geoip/geoip.go          answers the talkers' question for the country and network of an address.
--
-- Which file models what
--   Collector.antt          `Collector`, New, Stop, processPacket, Run, GetAll, GetHistory
--   Collector/Rates.antt    rateLoop: `tick` is one round, `steps` any interleaving with packets
--   Collector/Traffic.antt  what the counters and rates hold
--   Collector/History.antt  the history: its order and what a round drops from it
--   Collector/Sparklines.antt  GetSparklines
--   Talkers.antt            `Tracker`, New, Stop, getDevices, isPrivateIP, isLocalNet
--   Talkers/Packets.antt    processPacket and captureDevice
--   Talkers/Accounting, Hosts, Traffic  what a bucket counts for the hosts
--   Talkers/Window.antt     rotateBuckets, and the buckets that the reports read
--   Talkers/Balance.antt    the invariant of the tracker
--   Talkers/Breakdown.antt  GetProtocolBreakdown and GetIPVersionBreakdown
--   Talkers/Stats, Volume, Bandwidth  TopByVolume and TopByBandwidth
--   Talkers/Places.antt     GetCountryBreakdown and GetASNBreakdown
--   Talkers/Resolve.antt    resolveIP
--   Talkers/Private, PrivateV6  isPrivateIP against the address blocks
--   Geoip.antt              Open, Available, Lookup; Geoip/Cache.antt its cache
--   Dns.antt                the summary of dns/dns.go
--   Nextdns.antt            the NextDNS client, Nextdns/Fetch.antt fetchJSON; Totals, Series, Polling and
--                           Requests below it what it reports
--   Adguard.antt            the AdGuard client, Adguard/Fetch.antt its request; Upstreams, Summaries and
--                           Requests below it what it reports
--   Unifi.antt              login and the session in poll; Unifi/Polls over many polls
--   Unifi/Summaries.antt    buildSummary; Rates, Exact and Networks below it what it reports
--   Unifi/Client.antt       the client and the whole poll; Memory and Failures below it over many polls
--   Providers.antt          the interface Provider of dns/dns.go
--   Handler.antt            the handlers; Handler/Stream.antt the loop of the web socket
--   Handler/Reports, Names, Wifi  what the handlers send and what they change
--   Main.antt               env, LOCAL_NETS and the discovery of networks; Main/Networks, Discovery
--   Main/System.antt        the start and the shutdown; Main/Routes.antt the paths of the handlers
--   Main/Life.antt          a run of the whole program; Kept, Invariant, Moments and Signals
--                           below it
--   Common, Maps, Sorting, Net, Float, Packet, Window, Texts, Http  what the parts share: numbers and lists,
--                           maps as association lists, what sort.Slice promises, package net, float64,
--                           captured packets, lists in the order of time, strings, and the
--                           answers to HTTP requests.
--   Tests                   runs on small inputs.
--
-- Conventions
--   State is passed: an operation takes the state and returns the new one. A mutex makes an operation
--   atomic, and what several goroutines do is a list of events in the order in which they take the
--   lock. Time is an argument, a number of nanoseconds since 1970 that does not pass the range of
--   `int64`. Counters of 64 bits wrap around. `float64` is the interface `Float`, and theorems that
--   need more of it take its `Laws`. A Go map is an association list; the order in which Go walks a
--   map is not fixed, and no theorem on a report depends on the order of the list. sort.Slice is any
--   function that satisfies `Sort`. Texts of addresses are the interface `IpText`.
--   The talkers take the address database as a function from addresses to results: the cache that its
--   Lookup fills is state of the database, modelled in Geoip.antt, where Geoip/Cache.antt says that it
--   changes no answer, and it is not state of the tracker here. A tick of the web socket calls the
--   components one after the other, with other goroutines between its calls; the four calls of Stop on a
--   signal are one step. Main/Life.antt lets every goroutine do its steps at any time, also those that a
--   configuration does not start.
--   Loops are recursion on the list they walk, so none needs fuel; the endless loops of the
--   goroutines are modelled round by round.
--
-- Not modelled
--   pcap, gopacket, the MaxMind readers (their Close too), net.ParseCIDR and net.Interfaces, which are parameters; HTTP,
--   JSON and the frames of the web socket; log messages and the static files.
pub mod Common
pub mod Maps
pub mod Sorting
pub mod Net
pub mod Float
pub mod Packet
pub mod Window
pub mod Texts
pub mod Http
pub mod Collector
pub mod Geoip
pub mod Dns
pub mod Nextdns
pub mod Adguard
pub mod Unifi
pub mod Providers
pub mod Main
pub mod Talkers
pub mod Handler
pub mod Tests
