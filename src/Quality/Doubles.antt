-- ===== src/Quality/Doubles.antt =====
-- The double arithmetic that quality/network_quality_estimator.cpp uses. The double type is no part
-- of the repository, so it is a parameter.
use web_rtc_weak_network_vid.Common.{ℕ, Bool}

pub record Doubles (D : Type 0) : Type 0 where
  pub num : ℕ → D
  pub lt : D → D → Bool
  pub plus : D → D → D
  pub minus : D → D → D
  pub times : D → D → D
  pub over : D → D → D
  pub absolute : D → D
