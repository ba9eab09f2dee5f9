-- ===== src/Quality/ReceiveStats.antt =====
-- video/video_stats.cpp: the statistics of a receiver.
use web_rtc_weak_network_vid.Common.{ℕ, ◌+◌, ◌%◌, ◌^◌, Bool, List, [], ◌∷◌, ◌++◌}
use web_rtc_weak_network_vid.Quality.Doubles.{Doubles}
use web_rtc_weak_network_vid.Quality.Estimator.{ByteSample, trim_byte_window}
use web_rtc_weak_network_vid.Quality.Estimator.Snapshot.{bitrate_kbps}

pub record VideoReceiveStats : Type 0 where
  pub frames : ℕ
  pub dropped_frames : ℕ
  pub nack_packets : ℕ
  pub retransmitted_packets : ℕ
  pub pli_packets : ℕ
  pub decoder_errors : ℕ
  pub synchronized : Bool
  pub bytes_window : List ByteSample

pub record VideoReceiveStatsSnapshot (D : Type 0) : Type 0 where
  pub frames : ℕ
  pub dropped_frames : ℕ
  pub nack_packets : ℕ
  pub retransmitted_packets : ℕ
  pub pli_packets : ℕ
  pub decoder_errors : ℕ
  pub synchronized : Bool
  pub bitrate_kbps : D

-- `at_us` is what `now_us()` reads; the cutoff is the one of the estimator's windows.
unfoldable pub on_encoded_frame : ℕ → ℕ → VideoReceiveStats → VideoReceiveStats
unfolding trim_byte_window
on_encoded_frame at_us bytes s = record s {
  frames = (s.frames + 1) % 2 ^ 64;
  bytes_window =
      trim_byte_window at_us (s.bytes_window ++ (record { at_us = at_us; bytes = bytes } ∷ []));
}

unfoldable pub on_decoder_error : VideoReceiveStats → VideoReceiveStats
on_decoder_error s = record s { decoder_errors = (s.decoder_errors + 1) % 2 ^ 64 }

pub set_transport : ℕ → ℕ → ℕ → ℕ → Bool → VideoReceiveStats → VideoReceiveStats
set_transport dropped nacks retransmitted plis synchronized s = record s {
  dropped_frames = dropped;
  nack_packets = nacks;
  retransmitted_packets = retransmitted;
  pli_packets = plis;
  synchronized = synchronized;
}

-- The bitrate is computed as the estimator computes its own.
pub receive_snapshot : {D : Type 0} → Doubles D → VideoReceiveStats → VideoReceiveStatsSnapshot D
unfolding bitrate_kbps
receive_snapshot double s = record {
  frames = s.frames;
  dropped_frames = s.dropped_frames;
  nack_packets = s.nack_packets;
  retransmitted_packets = s.retransmitted_packets;
  pli_packets = s.pli_packets;
  decoder_errors = s.decoder_errors;
  synchronized = s.synchronized;
  bitrate_kbps = bitrate_kbps double s.bytes_window;
}
