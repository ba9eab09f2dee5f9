-- ===== src/Quality/Adaptation.antt =====
-- quality/video_adaptation.cpp and common/types.hpp: the controller that chooses the video profile.
-- A double is a value of a type `D` with its `<`, and `num` makes the literals of the source.
pub mod Levels
pub mod Recovery
use web_rtc_weak_network_vid.Common.{
  ℕ, zero, suc, ◌+◌, ◌-◌, ◌≡◌, Bool, true, false, ◌&&◌, min, max, List, [], ◌∷◌, ltb, leb, ◌==◌,
  ◌<◌, if◌then◌else◌, get_or, Option, none, some,
}

pub record VideoProfile : Type 0 where
  pub level : ℕ
  pub bitrate_kbps : ℕ
  pub fps : ℕ
  pub width : ℕ
  pub height : ℕ

pub record NetworkQuality (D : Type 0) : Type 0 where
  pub rtt_ms : D
  pub loss_percent : D
  pub jitter_ms : D
  pub transport_loss_percent : D
  pub send_kbps : D
  pub receive_kbps : D
  pub ack_kbps : D

abbrev pub profile_row : ℕ → ℕ → ℕ → ℕ → ℕ → VideoProfile
profile_row level bitrate_kbps fps width height = record {
  level = level;
  bitrate_kbps = bitrate_kbps;
  fps = fps;
  width = width;
  height = height;
}

abbrev pub profiles : List VideoProfile
profiles =
    profile_row 0 2000 30 1280 720
    ∷ profile_row 1 1200 24 960 540
    ∷ profile_row 2 600 15 640 360
    ∷ profile_row 3 300 10 426 240
    ∷ profile_row 4 150 5 320 180
    ∷ []

-- `kRecoveryLossThreshold[level_]`; outside the table, which `IsController` excludes, the last entry.
abbrev pub recovery_loss_threshold : ℕ → ℕ
recovery_loss_threshold zero = 0
recovery_loss_threshold (suc zero) = 1
recovery_loss_threshold (suc (suc zero)) = 7
recovery_loss_threshold (suc (suc (suc zero))) = 25
recovery_loss_threshold (suc (suc (suc (suc n)))) = 50

pub record Controller : Type 0 where
  pub max_video_kbps : ℕ
  pub level : ℕ
  pub recovery_windows : ℕ
  pub profile : VideoProfile

-- `kProfiles[std::clamp(level, 0, 4)]`, the bitrate limited.
unfoldable pub profile_for_level : ℕ → ℕ → VideoProfile
profile_for_level max_video_kbps level =
    let row = get_or profiles (min level 4) (profile_row 4 150 5 320 180) in
    record row { bitrate_kbps = min row.bitrate_kbps max_video_kbps }

-- The constructor, for a limit that is not negative.
unfoldable pub new_controller : ℕ → Controller
unfolding profile_for_level
new_controller max_video_kbps =
    let limit = max 150 (min max_video_kbps 2000) in
    record {
      max_video_kbps = limit;
      level = 0;
      recovery_windows = 0;
      profile = profile_for_level limit 0;
    }

module _ {D : Type 0} (lt : D → D → Bool) (num : ℕ → D) where
  -- `std::max`
  abbrev pub max_double : D → D → D
  max_double a b = if lt a b then b else a

  abbrev pub loss : NetworkQuality D → D
  loss quality = max_double quality.loss_percent quality.transport_loss_percent

  unfoldable pub loss_level : NetworkQuality D → ℕ
  loss_level quality =
      if lt (num 60) (loss quality)
      then 4
      else if lt (num 30) (loss quality)
      then 3
      else if lt (num 10) (loss quality)
      then 2
      else if lt (num 3) (loss quality)
      then 1
      else 0

  unfoldable pub rtt_level : NetworkQuality D → ℕ → ℕ
  rtt_level quality level =
      if lt (num 350) quality.rtt_ms
      then max level 3
      else if lt (num 180) quality.rtt_ms
      then max level 2
      else level

  unfoldable pub required_level : NetworkQuality D → ℕ
  unfolding loss_level rtt_level
  required_level quality =
      if lt (num 50) quality.jitter_ms
      then max (rtt_level quality (loss_level quality)) 1
      else rtt_level quality (loss_level quality)

  -- The second condition of `update`.
  unfoldable pub is_good : NetworkQuality D → ℕ → Bool
  is_good quality level =
      ltb 0 level
      && lt (loss quality) (num (recovery_loss_threshold level))
      && lt quality.rtt_ms (num 150)
      && lt quality.jitter_ms (num 40)

  -- The level and the count of good windows after `update`.
  unfoldable pub next_level : NetworkQuality D → ℕ → ℕ → ℕ × ℕ
  unfolding required_level is_good
  next_level quality level windows =
      if ltb level (required_level quality)
      then (required_level quality, 0)
      else if is_good quality level
      then (if leb 5 (windows + 1) then (level - 1, 0) else (level, windows + 1))
      else (level, 0)

  -- `update` returns the profile of the new state.
  unfoldable pub update : NetworkQuality D → Controller → Controller
  unfolding next_level profile_for_level
  update quality c =
      let (level, windows) = next_level quality c.level c.recovery_windows in
      record c {
        level = level;
        recovery_windows = windows;
        profile = profile_for_level c.max_video_kbps level;
      }

  -- `update` once per element, the first of them first.
  unfoldable pub updates : List (NetworkQuality D) → Controller → Controller
  unfolding update
  updates [] c = c
  updates (quality ∷ rest) c = updates rest (update quality c)
