-- ===== src/Rtp.antt =====
-- The RTP layer, src/rtp/.
pub mod Buffer
pub mod Source
pub mod Header
pub mod Lookup
pub mod State
pub mod Receive
pub mod Recv
pub mod Fill
pub mod Transport
