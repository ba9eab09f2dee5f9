-- ===== src/Transport.antt =====
-- video/video_transport_handler.cpp and .hpp.
pub mod Metadata
pub mod State
pub mod Gate
pub mod Drain
pub mod Nack
pub mod Receive
pub mod Sender
pub mod Rtx
pub mod Reports
