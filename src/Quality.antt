-- ===== src/Quality.antt =====
-- The directory quality, but for media_statistics_handler.cpp.
pub mod Doubles
pub mod Estimator
pub mod Adaptation
pub mod ReceiveStats
