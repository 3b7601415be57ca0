-- ===== src/Rtsp.antt =====
-- The RTSP client, src/rtsp.
pub mod Text
pub mod Buffer
pub mod Session
pub mod Thread
pub mod Send
pub mod Setup
pub mod Open
pub mod Token
pub mod Reply
pub mod Handlers
pub mod Describe
pub mod Machine
pub mod Loop
pub mod Control
pub mod Init
pub mod Reach
mod Examples
