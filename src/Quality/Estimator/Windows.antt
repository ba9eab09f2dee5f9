-- ===== src/Quality/Estimator/Windows.antt =====
-- Trimming the windows of the estimator.
use web_rtc_weak_network_vid.Common.{
  ℕ, ◌-◌, leb, ◌≡◌, ◌≤◌, refl, false, List, [], ◌∷◌, arith, if◌then◌else◌,
}
use web_rtc_weak_network_vid.Quality.Estimator.{trim_window, is_old}

module _ {ℓ} {A : Type ℓ} (time : A → ℕ) where
  -- The samples stand in the order of their times.
  unfoldable pub InOrder : ℕ → List A → Type 0
  InOrder from [] = Unit
  InOrder from (a ∷ window) = (from ≤ time a) × InOrder (time a) window

  -- The samples that are at most two seconds old.
  unfoldable pub recent : ℕ → List A → List A
  recent now [] = []
  recent now (a ∷ window) =
      let rest = recent now window in if leb (now - time a) 2000000 then a ∷ rest else rest

  trim_all_recent :
      (now : ℕ) (from : ℕ) (window : List A)
      → is_old now from ≡ false
      → InOrder from window
      → recent now window ≡ window
  unfolding recent InOrder
  trim_all_recent now from [] h o = refl
  trim_all_recent now from (a ∷ window) h o = ground (arith, trim_all_recent now (time a) window)

  -- On a window whose samples stand in the order of their times, the loop that takes old samples
  -- from the front leaves the samples that are at most two seconds old, and no other.
  pub trim_window-recent :
      (now from : ℕ) (window : List A)
      → InOrder from window
      → trim_window time now window ≡ recent now window
  unfolding trim_window recent InOrder
  trim_window-recent now from [] o = refl
  trim_window-recent now from (a ∷ window) o =
      ground (arith, trim_window-recent now (time a) window, trim_all_recent now (time a) window)
