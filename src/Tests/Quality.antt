-- ===== src/Tests/Quality.antt =====
-- The adaptation controller and the estimator on whole numbers in place of doubles.
use web_rtc_weak_network_vid.Common.{
  ℕ, zero, suc, ◌+◌, ◌≡◌, ◌≤◌, ◌<◌, refl, true, List, [], ◌∷◌, none, some, arith, ltb, length, All,
}
use web_rtc_weak_network_vid.Quality.Adaptation.{
  NetworkQuality, Controller, new_controller, profile_for_level, updates,
}
use web_rtc_weak_network_vid.Quality.Adaptation.Levels.{IsController, updates-IsController}
use web_rtc_weak_network_vid.Quality.Adaptation.Recovery.{updates-recovers}
use web_rtc_weak_network_vid.Quality.Estimator.{
  Estimator, TransportLossSample, on_rtp_received, transport_loss_report, trim_window,
}
use web_rtc_weak_network_vid.Quality.Estimator.Losses.{
  IsLossSample, on_rtp_received-IsLossSample, transport_loss_report-received,
}
use web_rtc_weak_network_vid.Quality.Estimator.Windows.{InOrder, recent, trim_window-recent}

abbrev quality_of : ℕ → ℕ → ℕ → NetworkQuality ℕ
quality_of loss rtt jitter = record {
  rtt_ms = rtt;
  loss_percent = 0;
  jitter_ms = jitter;
  transport_loss_percent = loss;
  send_kbps = 0;
  receive_kbps = 0;
  ack_kbps = 0;
}

abbrev num : ℕ → ℕ
num n = n

between : (a b x : ℕ) → ltb (num a) x ≡ true → ltb x (num b) ≡ true → a < b
between a b x h k = ground arith

weaken : (a b x : ℕ) → a ≤ b → ltb x (num a) ≡ true → ltb x (num b) ≡ true
weaken a b x l h = ground arith

-- A controller at level 3 with two good windows.
abbrev lowered : Controller
lowered = record {
  max_video_kbps = 1000;
  level = 3;
  recovery_windows = 2;
  profile = record { level = 3; bitrate_kbps = 300; fps = 10; width = 426; height = 240 };
}

lowered-IsController : IsController lowered
unfolding IsController profile_for_level
lowered-IsController = (omega arith, omega arith, omega arith, omega arith, refl, refl, omega arith)

updates-IsController_example :
    IsController
      (updates ltb num (quality_of 40 100 5 ∷ quality_of 0 20 1 ∷ []) (new_controller 1500))
updates-IsController_example =
    updates-IsController ltb num (quality_of 40 100 5 ∷ quality_of 0 20 1 ∷ []) 1500

-- Three good measurements, which differ, over and over.
abbrev calming : ℕ → List (NetworkQuality ℕ)
calming zero = quality_of 0 149 39 ∷ []
calming (suc n) = quality_of 0 20 1 ∷ quality_of 0 50 7 ∷ quality_of 0 100 30 ∷ calming n

updates-recovers_example : (updates ltb num (calming 4) lowered).level ≡ 0
updates-recovers_example =
    updates-recovers ltb num between weaken (calming 4) lowered (ground arith) (omega arith)
      (omega arith)

abbrev samples : List TransportLossSample
samples =
    record { at_us = 100; expected_packets = 1; lost_packets = 0 }
    ∷ record { at_us = 2000500; expected_packets = 3; lost_packets = 2 }
    ∷ []

abbrev estimator : Estimator ℕ
estimator = record {
  sent_packets = [];
  received_packets = [];
  sent_bytes_window = [];
  received_bytes_window = [];
  rtcp_bytes_window = [];
  transport_loss_samples = samples;
  remote_report = none;
  remote_transport_loss = none;
  twcc_report = none;
  last_transport_sequence = some 65534;
}

samples-IsLossSample : All IsLossSample samples
unfolding IsLossSample
samples-IsLossSample = ((refl, omega arith), ((refl, omega arith), tt))

on_rtp_received-IsLossSample_example :
    All IsLossSample
      (on_rtp_received (λ k. 2000600 + k) 3 90000 1200 estimator).transport_loss_samples
on_rtp_received-IsLossSample_example =
    on_rtp_received-IsLossSample (λ k. 2000600 + k) 3 90000 1200 estimator samples-IsLossSample

transport_loss_report-received_example :
    (transport_loss_report (λ k. 2000600 + k) estimator).0.0
    ≡ (transport_loss_report (λ k. 2000600 + k) estimator).0.1
      + length (transport_loss_report (λ k. 2000600 + k) estimator).1.transport_loss_samples
transport_loss_report-received_example =
    transport_loss_report-received (λ k. 2000600 + k) estimator samples-IsLossSample (omega arith)

samples-InOrder : InOrder (λ (s : TransportLossSample). s.at_us) 100 samples
unfolding InOrder
samples-InOrder = (omega arith, (omega arith, tt))

trim_window-recent_example :
    trim_window (λ (s : TransportLossSample). s.at_us) 2000600 samples
    ≡ recent (λ (s : TransportLossSample). s.at_us) 2000600 samples
trim_window-recent_example =
    trim_window-recent (λ (s : TransportLossSample). s.at_us) 2000600 100 samples samples-InOrder
