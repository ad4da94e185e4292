-- ===== src/Kalay.antt =====
-- The transport: kalay/.
pub mod Rdt
pub mod Channel
pub mod Transcode
pub mod Control
pub mod Reassembler
pub mod Inbound
pub mod GoBackN
pub mod Dtls
pub mod Prf
pub mod Hello
pub mod Handshake
pub mod Address
pub mod Session
pub mod Tunnel
pub mod Setup
pub mod Pump
mod Examples
