-- ===== src/Session/Pacing.antt =====
-- The rate that a round of `stats_loop` sets the sender's pacing to.
use web_rtc_weak_network_vid.Common.{ℕ, ◌≡◌, ◌≤◌, refl, true, false, some, arith}
use web_rtc_weak_network_vid.Quality.Doubles.{Doubles}
use web_rtc_weak_network_vid.Quality.Adaptation.{VideoProfile, NetworkQuality, update}
use web_rtc_weak_network_vid.Quality.Adaptation.Levels.{IsController, update-IsController}
use web_rtc_weak_network_vid.Quality.Estimator.Snapshot.{snapshot}
use web_rtc_weak_network_vid.Video.Sender.{update_profile, double_clamp, pacing_bps}
use web_rtc_weak_network_vid.Session.Stats.{SenderSession, adapt, stats_round}

module _ {D : Type 0} (double : Doubles D) (irreflexive : (x : D) → double.lt x x ≡ false)
    (in_reach : (b : ℕ)
      → b ≤ 2000
      → double.lt (double.num 8000000) (double.times (double.num b) (double.num 1150))
        ≡ false) where
  clamp_bounds :
      (v low high : D)
      → double.lt high low ≡ false
      → (double.lt (double_clamp double v low high) low ≡ false)
        × (double.lt high (double_clamp double v low high) ≡ false)
  clamp_bounds v low high ordered = ground (arith, irreflexive low, irreflexive high)

  pacing_bps_bounds :
      (quality : NetworkQuality D) (profile : VideoProfile)
      → profile.bitrate_kbps ≤ 2000
      → (double.lt
            (pacing_bps double quality profile)
            (double.times (double.num profile.bitrate_kbps) (double.num 1150))
          ≡ false)
        × (double.lt (double.num 8000000) (pacing_bps double quality profile) ≡ false)
  unfolding pacing_bps
  pacing_bps_bounds quality profile small =
      clamp_bounds _ (double.times (double.num profile.bitrate_kbps) (double.num 1150))
        (double.num 8000000) (in_reach profile.bitrate_kbps small)

  small_bitrate :
      {S : Type 0} (quality : NetworkQuality D) (s : SenderSession S D)
      → IsController s.adaptation
      → (update double.lt double.num quality s.adaptation).profile.bitrate_kbps ≤ 2000
  unfolding IsController
  small_bitrate quality s v =
      let (w, _, _) = update-IsController double.lt double.num quality s.adaptation v in
      omega (arith, w.2, w.6)

  -- If no double is below itself, the literal 8000000 is not below 1150 times a bitrate of at most 2000,
  -- a session's controller is well formed and the sender has a track, then a round of the statistics
  -- sets the pacing to a rate that is not below 1150 bits per second for each kbps of the sender's
  -- new profile, and not above 8000000.
  pub stats_round_pacing :
      {S : Type 0} (s : SenderSession S D) (clock : ℕ → ℕ)
      → IsController s.adaptation
      → s.video_sender.has_track ≡ true
      → (rate : D) × ((stats_round double clock s).1 ≡ some rate)
        × (double.lt rate (
              double.times
                (double.num (stats_round double clock s).0.video_sender.profile.bitrate_kbps)
                (double.num 1150))
            ≡ false)
        × (double.lt (double.num 8000000) rate ≡ false)
  unfolding stats_round adapt update_profile
  stats_round_pacing s clock v tracked =
      let quality = (snapshot double clock s.estimator).0 in
      let profile = (update double.lt double.num quality s.adaptation).profile in
      let (low, high) = pacing_bps_bounds quality profile (small_bitrate quality s v) in
      (pacing_bps double quality profile, rw tracked refl, low, high)
