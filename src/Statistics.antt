-- ===== src/Statistics.antt =====
-- quality/media_statistics_handler.cpp and .hpp.
pub mod Sequence
pub mod Feedback
pub mod Observe
pub mod Handler
