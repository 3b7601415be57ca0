-- ===== src/Rtcp.antt =====
-- The RTCP layer, src/rtcp/.
pub mod Events
pub mod Report
pub mod Packet
pub mod Check
pub mod Sdes
pub mod Receive
