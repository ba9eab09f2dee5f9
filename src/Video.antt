-- ===== src/Video.antt =====
-- The two ends of the video: what the receiver decodes and shows, and what the sender reads and sends.
pub mod Renderer
pub mod Drawing
pub mod Idr
pub mod Receiver
pub mod Reader
pub mod Handles
pub mod Sender
