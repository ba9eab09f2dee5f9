-- ===== src/Session/Stats.antt =====
-- webrtc/webrtc_session.cpp: a round of `stats_loop`, which joins the estimator, the controller and the
-- sender.
use web_rtc_weak_network_vid.Common.{
  ℕ, ◌≡◌, ◌≤◌, ◌<◌, ◌⊎◌, inl, inr, refl, sym, true, Option, none, some, if◌then◌else◌, arith,
  Bool-cases,
}
use web_rtc_weak_network_vid.Quality.Doubles.{Doubles}
use web_rtc_weak_network_vid.Quality.Adaptation.{
  VideoProfile, profile_row, NetworkQuality, Controller, required_level, update,
}
use web_rtc_weak_network_vid.Quality.Adaptation.Levels.{IsController, update-IsController}
use web_rtc_weak_network_vid.Quality.Adaptation.Recovery.{update-required}
use web_rtc_weak_network_vid.Quality.Estimator.{Estimator}
use web_rtc_weak_network_vid.Quality.Estimator.Snapshot.{snapshot}
use web_rtc_weak_network_vid.Video.Reader.{same_profile}
use web_rtc_weak_network_vid.Video.Sender.{VideoSender, update_profile, pacing_bps}

-- The parts of a sender's session that a round uses.
pub record SenderSession (S D : Type 0) : Type 0 where
  pub estimator : Estimator D
  pub adaptation : Controller
  pub video_sender : VideoSender S D

-- What `update_network_quality` sets the pacing to, if there is a pacing handler.
abbrev pub pacing_of : {S D : Type 0} → Doubles D → NetworkQuality D → VideoSender S D → Option D
pacing_of double quality s =
    if s.has_track then some (pacing_bps double quality s.profile) else none

-- The session after the measurements, and the rate that the pacing is set to.
unfoldable pub adapt :
    {S D : Type 0}
    → Doubles D
    → NetworkQuality D
    → Estimator D
    → SenderSession S D
    → SenderSession S D × Option D
unfolding pacing_bps
adapt double quality estimator s =
    let adaptation = update double.lt double.num quality s.adaptation in
    let video_sender = update_profile adaptation.profile s.video_sender in
    (
      record { estimator = estimator; adaptation = adaptation; video_sender = video_sender },
      pacing_of double quality video_sender,
    )

-- A round of `stats_loop`.
unfoldable pub stats_round :
    {S D : Type 0} → Doubles D → (ℕ → ℕ) → SenderSession S D → SenderSession S D × Option D
stats_round double clock s =
    let (quality, estimator) = snapshot double clock s.estimator in adapt double quality estimator s

profile_eq :
    (level bitrate_kbps fps width height : ℕ) (p : VideoProfile)
    → p.level ≡ level
    → p.bitrate_kbps ≡ bitrate_kbps
    → p.fps ≡ fps
    → p.width ≡ width
    → p.height ≡ height
    → p ≡ profile_row level bitrate_kbps fps width height
profile_eq level bitrate_kbps fps width height p a b c d e =
    λ i. record { level = a i; bitrate_kbps = b i; fps = c i; width = d i; height = e i }

same_profile_sound : (p q : VideoProfile) → same_profile p q ≡ true → p ≡ q
same_profile_sound p q same =
    profile_eq q.level q.bitrate_kbps q.fps q.width q.height p (ground (arith, same))
      (ground (arith, same)) (ground (arith, same)) (ground (arith, same)) (ground (arith, same))

module _ {S D : Type 0} (double : Doubles D)
    (between : (a b : ℕ) (x : D)
      → double.lt (double.num a) x ≡ true
      → double.lt x (double.num b) ≡ true
      → a < b)
    (s : SenderSession S D) (v : IsController s.adaptation) where
  adapt_lem :
      (quality : NetworkQuality D) (estimator : Estimator D)
      → IsController (adapt double quality estimator s).0.adaptation
        × ((adapt double quality estimator s).0.video_sender.profile
            ≡ (adapt double quality estimator s).0.adaptation.profile)
        × (((adapt double quality estimator s).0.video_sender.profile ≡ s.video_sender.profile)
            ⊎ ((adapt double quality estimator s).0.video_sender.force_keyframe ≡ true))
        × (required_level double.lt double.num quality
            ≤ (adapt double quality estimator s).0.adaptation.level)
  unfolding adapt update_profile
  adapt_lem quality estimator =
      let profile = (update double.lt double.num quality s.adaptation).profile in
      (
        (update-IsController double.lt double.num quality s.adaptation v).0,
        refl,
        elim (Bool-cases (same_profile s.video_sender.profile profile)) [
          | inl same ↦ inl (sym (same_profile_sound s.video_sender.profile profile same))
          | inr other ↦ inr (rw other refl)
        ],
        update-required double.lt double.num between quality s.adaptation,
      )

  -- If a double above the literal `a` and below the literal `b` implies that `a` is less than `b`,
  -- and a session's controller is well formed, then a round of the statistics leaves it well formed
  -- and at a level no lower than the measurements require, the sender has its profile, and a
  -- keyframe is requested unless that profile is the sender's old one.
  pub stats_round_lem :
      (clock : ℕ → ℕ)
      → IsController (stats_round double clock s).0.adaptation
        × ((stats_round double clock s).0.video_sender.profile
            ≡ (stats_round double clock s).0.adaptation.profile)
        × (((stats_round double clock s).0.video_sender.profile ≡ s.video_sender.profile)
            ⊎ ((stats_round double clock s).0.video_sender.force_keyframe ≡ true))
        × (required_level double.lt double.num (snapshot double clock s.estimator).0
            ≤ (stats_round double clock s).0.adaptation.level)
  unfolding stats_round
  stats_round_lem clock =
      adapt_lem (snapshot double clock s.estimator).0 (snapshot double clock s.estimator).1
