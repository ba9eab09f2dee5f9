-- ===== src/Tests.antt =====
-- Each theorem on concrete packets, buffers and measurements.
pub mod Rfc
mod Packets
mod Network
mod Retransmission
mod Buffers
mod Quality
mod Session
mod Reports
mod Feedback
mod Video
mod Sending
mod Commands
mod Lives
mod Chains
