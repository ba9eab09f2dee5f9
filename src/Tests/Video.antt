-- ===== src/Tests/Video.antt =====
-- Frames at the receiver: decoded, written, shown, and asked for.
use web_rtc_weak_network_vid.Common.{
  ℕ, ◌+◌, ◌≡◌, ◌<◌, ◌↔◌, refl, true, false, some, List, [], ◌∷◌, arith, length, if◌then◌else◌, ltb,
}
use web_rtc_weak_network_vid.Transport.State.{Handler, new_handler, receiver}
use web_rtc_weak_network_vid.Transport.Gate.Buffer.{IsBuffer}
use web_rtc_weak_network_vid.Quality.ReceiveStats.{VideoReceiveStats}
use web_rtc_weak_network_vid.Video.Idr.{contains_h264_idr, IsIdr, contains_h264_idr-IsIdr}
use web_rtc_weak_network_vid.Video.Receiver.{
  DecoderLib, VideoReceiver, Round, new_receiver, on_frames, recovery_loop, arrival, undecodable,
}
use web_rtc_weak_network_vid.Video.Receiver.Frames.{IsOutput, on_frames-IsOutput}
use web_rtc_weak_network_vid.Video.Receiver.Recovery.{IsTimed, Spaced, recovery_loop-Spaced}
use web_rtc_weak_network_vid.Transport.Receive.{Clock}
use web_rtc_weak_network_vid.Tests.Rfc.{packet, rfc_lib}

-- An IDR slice behind a start code of four bytes, and a slice of another type.
abbrev idr_frame : List ℕ
idr_frame = 0 ∷ 0 ∷ 0 ∷ 1 ∷ 101 ∷ 1 ∷ []

abbrev other_frame : List ℕ
other_frame = 0 ∷ 0 ∷ 0 ∷ 1 ∷ 65 ∷ 1 ∷ []

idr_test : contains_h264_idr idr_frame ≡ true
unfolding contains_h264_idr
idr_test = refl

other_test : contains_h264_idr other_frame ≡ false
unfolding contains_h264_idr
other_test = refl

contains_h264_idr-IsIdr_example :
    (contains_h264_idr idr_frame ≡ true)
    ↔ ((i : ℕ) × (i + 4 < length idr_frame) × IsIdr idr_frame i)
contains_h264_idr-IsIdr_example = contains_h264_idr-IsIdr idr_frame

-- A decoder that counts, and that cannot decode a frame of fewer than six bytes.
abbrev counting : DecoderLib ℕ
counting = record {
  reset = λ n. (true, 0);
  decode = λ frame n. (if ltb (length frame) 6 then false else true, n + 1);
}

abbrev no_stats : VideoReceiveStats
no_stats = record {
  frames = 0;
  dropped_frames = 0;
  nack_packets = 0;
  retransmitted_packets = 0;
  pli_packets = 0;
  decoder_errors = 0;
  synchronized = false;
  bytes_window = [];
}

abbrev receiving : Handler
receiving = new_handler receiver 200

abbrev started : VideoReceiver ℕ
started = new_receiver 4 no_stats (some receiving)

on_frames-IsOutput_example :
    IsOutput
      (on_frames counting
        ((10, other_frame) ∷ (20, idr_frame) ∷ (30, other_frame) ∷ [])
        started).output_started
      (on_frames counting
        ((10, other_frame) ∷ (20, idr_frame) ∷ (30, other_frame) ∷ [])
        started).output
on_frames-IsOutput_example =
    on_frames-IsOutput counting ((10, other_frame) ∷ (20, idr_frame) ∷ (30, other_frame) ∷ []) 4
      no_stats (some receiving)

abbrev ticking : Clock
ticking = record { packet = λ i k. 2000; drain_us = 3000; poll_us = 4000 }

-- A round with a message before its poll, and a frame that cannot be decoded behind it.
abbrev round_at : ℕ → Round
round_at at_us = record {
  before = arrival ticking (some (packet 7) ∷ []) ∷ [];
  between = undecodable ∷ [];
  poll_us = at_us;
  at_us = at_us;
  track_open = true;
  accepted = true;
}

round_at-IsTimed : (at_us : ℕ) → IsTimed (round_at at_us)
round_at-IsTimed at_us = ((λ i k. omega arith, tt), (tt, tt))

receiving-IsBuffer : IsBuffer rfc_lib receiving
unfolding new_handler
receiving-IsBuffer = record { bounded = omega arith; ascending = tt; assemblies = tt }

recovery_loop-Spaced_example :
    (h' : Handler) × (times : List ℕ) × (recovery_loop rfc_lib
        (round_at 300000 ∷ round_at 400000 ∷ round_at 560000 ∷ [])
        receiving
        0
      ≡ some (h', times))
    × Spaced 0 times
    × IsBuffer rfc_lib h'
recovery_loop-Spaced_example =
    recovery_loop-Spaced rfc_lib (round_at 300000 ∷ round_at 400000 ∷ round_at 560000 ∷ [])
      receiving 0
      (round_at-IsTimed 300000, (round_at-IsTimed 400000, (round_at-IsTimed 560000, tt)))
      receiving-IsBuffer
