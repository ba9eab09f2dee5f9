-- ===== src/Quality/Adaptation/Levels.antt =====
-- The levels that the adaptation controller chooses.
use web_rtc_weak_network_vid.Common.{List, [], ◌∷◌, ℕ, zero, suc, ◌≡◌, ◌≤◌, refl, Bool, max, arith}
use web_rtc_weak_network_vid.Quality.Adaptation.{
  NetworkQuality, Controller, profile_for_level, new_controller, updates, required_level,
  loss_level, rtt_level, next_level, update,
}

-- What holds of a controller between calls. Five good windows are never counted: the fifth one
-- starts the count again.
unfoldable pub IsController : Controller → Type 0
IsController c =
    (c.level ≤ 4)
    × (c.recovery_windows ≤ 4)
    × (c.max_video_kbps ≤ 2000)
    × (150 ≤ c.max_video_kbps)
    × (c.profile ≡ profile_for_level c.max_video_kbps c.level)
    × (c.profile.level ≡ c.level)
    × (c.profile.bitrate_kbps ≤ c.max_video_kbps)

profile_lem :
    (limit level : ℕ)
    → level ≤ 4
    → ((profile_for_level limit level).level ≡ level)
      × ((profile_for_level limit level).bitrate_kbps ≤ limit)
unfolding profile_for_level
profile_lem limit zero h = (refl, omega arith)
profile_lem limit (suc zero) h = (refl, omega arith)
profile_lem limit (suc (suc zero)) h = (refl, omega arith)
profile_lem limit (suc (suc (suc zero))) h = (refl, omega arith)
profile_lem limit (suc (suc (suc (suc zero)))) h = (refl, omega arith)
profile_lem limit (suc (suc (suc (suc (suc n))))) h = omega arith

module _ {D : Type 0} (lt : D → D → Bool) (num : ℕ → D) (quality : NetworkQuality D) where
  required_level-le : required_level lt num quality ≤ 4
  unfolding required_level rtt_level loss_level
  required_level-le = ground arith

  next_level_bounds :
      (level windows : ℕ)
      → level ≤ 4
      → windows ≤ 4
      → ((next_level lt num quality level windows).0 ≤ 4)
        × ((next_level lt num quality level windows).1 ≤ 4)
        × (level ≤ suc (next_level lt num quality level windows).0)
        × ((next_level lt num quality level windows).0 ≤ max level (required_level lt num quality))
  unfolding next_level
  next_level_bounds level windows hl hw = ground (arith, required_level-le)

  -- If a controller is well formed, then `update` returns one that is, which is at most one level
  -- lower, and no higher than the old level or the one that the measurements require.
  pub update-IsController :
      (c : Controller)
      → IsController c
      → IsController (update lt num quality c)
        × (c.level ≤ suc (update lt num quality c).level)
        × ((update lt num quality c).level ≤ max c.level (required_level lt num quality))
  unfolding IsController update
  update-IsController c i =
      let b = next_level_bounds c.level c.recovery_windows i.0 i.1 in
      let p =
        profile_lem c.max_video_kbps (next_level lt num quality c.level c.recovery_windows).0 b.0 in
      ((b.0, b.1, i.2, i.3, refl, p.0, p.1), b.2, b.3)

new_controller-IsController : (limit : ℕ) → IsController (new_controller limit)
unfolding IsController new_controller profile_for_level
new_controller-IsController limit =
    (omega arith, omega arith, omega arith, omega arith, refl, refl, omega arith)

module _ {D : Type 0} (lt : D → D → Bool) (num : ℕ → D) where
  updates_from :
      (qualities : List (NetworkQuality D)) (c : Controller)
      → IsController c
      → IsController (updates lt num qualities c)
  unfolding updates
  updates_from [] c i = i
  updates_from (quality ∷ rest) c i =
      updates_from rest (update lt num quality c) (update-IsController lt num quality c i).0

  -- From a new controller, any sequence of measurements leads to one that is well formed: the level
  -- is at most 4, at most four good windows are counted, the limit is between 150 and 2000, and the
  -- profile is the one of the level, with a bitrate within the limit.
  pub updates-IsController :
      (qualities : List (NetworkQuality D)) (limit : ℕ)
      → IsController (updates lt num qualities (new_controller limit))
  updates-IsController qualities limit =
      updates_from qualities (new_controller limit) (new_controller-IsController limit)
