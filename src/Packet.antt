-- ===== src/Packet.antt =====
-- A captured packet: what `gopacket` answers to the program's questions about its layers.
use bandwidth_monitor.Common.{ℕ, Bool, Option, List, [], ◌∷◌}
use bandwidth_monitor.Net.{Ip}

-- The addresses and the length field of an IPv4 or IPv6 header; the field has 16 bits.
pub record Header : Type 0 where
  pub src : Ip
  pub dst : Ip
  pub len : ℕ

-- `pkt.Layer(...)` for each layer that the program asks for.
pub record Packet : Type 0 where
  pub ipv4 : Option Header
  pub ipv6 : Option Header
  pub tcp : Bool
  pub udp : Bool
  pub icmpv4 : Bool
  pub icmpv6 : Bool

-- What `select` and `ReadPacketData` give a capture loop, in turn.
pub data Read : Type 0 where
  stopped : Read
  timeout : Read
  failure : Read
  captured : Packet → Read

-- The packets that a capture loop takes in before it stops.
abbrev pub delivered : List Read → List Packet
delivered [] = []
delivered (Read.stopped ∷ rs) = []
delivered (Read.timeout ∷ rs) = delivered rs
delivered (Read.failure ∷ rs) = []
delivered (captured p ∷ rs) = p ∷ delivered rs
