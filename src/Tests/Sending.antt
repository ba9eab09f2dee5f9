-- ===== src/Tests/Sending.antt =====
-- A sender with a file of two frames, on an encoder that gives a keyframe each time.
use web_rtc_weak_network_vid.Common.{
  ltb, ℕ, zero, suc, ◌+◌, ◌*◌, ◌≡◌, ◌≢◌, ◌≤◌, ◌<◌, ◌⊎◌, inl, refl, sym, ap, Bool, true, false, not,
  ◌||◌, Option, none, some, [], ◌∷◌, arith, if◌then◌else◌,
}
use mathlib.Core.Bool.{false≢true}
use web_rtc_weak_network_vid.Quality.Adaptation.{
  VideoProfile, profile_row, new_controller, required_level, updates,
}
use web_rtc_weak_network_vid.Video.Reader.{
  returned, thrown, Decoded, got_frame, again, got_packet, FileLib, EncodedVideoFrame,
  VideoFileReader, next_frame, next_epoch, same_profile, configure_encoder, frame_loop,
  next_decoded_frame, should_output_decoded_frame, should_output, encode, feed,
}
use web_rtc_weak_network_vid.Video.Reader.Decoding.{IsFinite}
use web_rtc_weak_network_vid.Video.Reader.Epochs.{IsReader, next_frame_ends, next_frame-IsReader}
use web_rtc_weak_network_vid.Video.Receiver.Recovery.{Spaced}
use web_rtc_weak_network_vid.Video.Sender.{
  VideoSender, Outcome, waited, sent, send_round, send_ready, after_reading, send_encoded, SendsAt,
}
use web_rtc_weak_network_vid.Video.Sender.Keyframes.{EncodedOnRequest, send_round_forced}
use web_rtc_weak_network_vid.Video.Sender.Recovery.{SendsAt-Spaced}
use web_rtc_weak_network_vid.Quality.Adaptation.Levels.{IsController, updates-IsController}
use web_rtc_weak_network_vid.Quality.Estimator.Snapshot.{snapshot}
use web_rtc_weak_network_vid.Session.Stats.{SenderSession, stats_round, stats_round_lem}
use web_rtc_weak_network_vid.Session.Pacing.{stats_round_pacing}
use web_rtc_weak_network_vid.Tests.Feedback.{naturals, no_measurements, clock}

-- The packets that are not read yet, and the frames that the decoder holds.
pub data FileState : Type 0 where
  holds : ℕ → ℕ → FileState

abbrev left : FileState → ℕ
left (holds unread pending) = 2 * unread + pending

abbrev receive : FileState → Decoded × FileState
receive (holds unread zero) = (again, holds unread zero)
receive (holds unread (suc pending)) = (got_frame, holds unread pending)

abbrev read : FileState → Bool × FileState
read (holds zero pending) = (false, holds zero pending)
read (holds (suc unread) pending) = (true, holds unread pending)

abbrev push : FileState → Bool × FileState
push (holds unread pending) = (true, holds unread (suc pending))

abbrev two_frames : FileLib FileState ℕ
two_frames = record {
  open_file = λ s. some (holds 2 0);
  close_file = λ s. s;
  receive_frame = receive;
  flush = λ s. (true, s);
  read_packet = read;
  send_packet = push;
  source_seconds = λ s. none;
  scale = λ profile s. some s;
  open_encoder = λ profile s. some s;
  send_frame = λ pts key s. some s;
  receive_packet = λ s. (got_packet (1 ∷ 2 ∷ []) true, s);
}

abbrev is_again : Decoded → Bool
is_again again = true
is_again d = false

abbrev held : Option FileState → ℕ
held none = 0
held (some s) = left s

same_left : {s s' : FileState} → some s ≡ some s' → left s' ≤ left s
same_left e = omega (arith, ap held e)

receive_less : (s : FileState) → left (receive s).1 ≤ left s
receive_less (holds unread zero) = omega arith
receive_less (holds unread (suc pending)) = omega arith

frame_less : (s : FileState) → (receive s).0 ≡ got_frame → left (receive s).1 < left s
frame_less (holds unread zero) e = absurd (false≢true (sym (ap is_again e)))
frame_less (holds unread (suc pending)) e = omega arith

read_less : (s : FileState) → left (read s).1 ≤ left s
read_less (holds zero pending) = omega arith
read_less (holds (suc unread) pending) = omega arith

push_less : (s : FileState) → (read s).0 ≡ true → left (push (read s).1).1 < left s
push_less (holds zero pending) e = absurd (false≢true e)
push_less (holds (suc unread) pending) e = omega arith

finite : IsFinite two_frames left
finite = record {
  receive_law = receive_less;
  frame_law = frame_less;
  flush_law = λ s. omega arith;
  read_law = read_less;
  send_law = push_less;
  scale_law = λ profile s s' e. same_left e;
  open_law = λ profile s s' e. same_left e;
  send_frame_law = λ pts key s s' e. same_left e;
  receive_packet_law = λ s. omega arith;
}

abbrev profile : VideoProfile
profile = profile_row 2 600 15 640 360

abbrev reader : VideoFileReader FileState ℕ
reader = record {
  file = holds 2 0;
  input_eof = false;
  decoder_flushed = false;
  encoder_configured = false;
  encoder_profile = profile_row 0 2000 30 1280 720;
  epoch = 65535;
  encoder_pts = 0;
  next_output_source_seconds = 0;
}

next_frame_ends_example :
    (next_frame naturals two_frames 10 profile false reader ≡ thrown)
    ⊎ ((out : Option EncodedVideoFrame) × (r' : VideoFileReader FileState ℕ) × (next_frame naturals
            two_frames 10 profile false reader
          ≡ returned (out, r'))
        × (same_profile r'.encoder_profile profile ≡ true)
        × (r'.epoch ≡ (
            if not reader.encoder_configured || not (same_profile reader.encoder_profile profile)
            then next_epoch reader.epoch
            else reader.epoch))
        × ((out ≡ none)
            ⊎ ((frame : EncodedVideoFrame) × (out ≡ some frame) × (frame.frame_epoch ≡ r'.epoch))))
next_frame_ends_example =
    next_frame_ends naturals two_frames left finite 10 profile false reader (omega arith)

next_frame-IsReader_example :
    (next_frame naturals two_frames 10 profile false reader ≡ thrown)
    ⊎ ((out : Option EncodedVideoFrame) × (r' : VideoFileReader FileState ℕ) × (next_frame naturals
            two_frames 10 profile false reader
          ≡ returned (out, r'))
        × IsReader r'
        × ((out ≡ none)
            ⊎ ((frame : EncodedVideoFrame) × (out ≡ some frame) × (1 ≤ frame.frame_epoch)))
        × (((same_profile reader.encoder_profile profile ≡ true) × (r'.epoch ≡ reader.epoch))
            ⊎ (r'.epoch ≢ reader.epoch)))
next_frame-IsReader_example =
    next_frame-IsReader naturals two_frames left finite 10 profile false reader (omega arith)
      (omega arith, inl refl)

abbrev sender : VideoSender FileState ℕ
sender = record {
  has_track = true;
  transport_handler = none;
  file_reader = some reader;
  profile = profile;
  stopping = false;
  track_open = true;
  force_keyframe = true;
  recovery_mode = true;
  timestamp = 1;
  frame_index = 0;
  last_recovery_frame_us = 1000;
}

send_round_forced_example :
    (send_round naturals two_frames 10 true 300000 sender ≡ thrown)
    ⊎ ((s' : VideoSender FileState ℕ) × (outcome : Outcome) × (send_round naturals two_frames 10
            true 300000 sender
          ≡ returned (s', outcome))
        × ((s'.force_keyframe ≡ true) ⊎ EncodedOnRequest two_frames outcome))
send_round_forced_example =
    send_round_forced naturals two_frames 10 left finite true 300000 sender reader refl refl
      (omega arith)

waits_test : send_round naturals two_frames 10 true 200000 sender ≡ returned (sender, waited)
unfolding send_round
waits_test = refl

abbrev first_frame : EncodedVideoFrame
first_frame = record {
  data_bytes = 1 ∷ 2 ∷ [];
  duration_90khz = 6000;
  frame_epoch = 1;
  keyframe = true;
}

abbrev after_first : VideoSender FileState ℕ
after_first = record sender {
  file_reader = some (record reader {
    file = holds 1 0;
    encoder_configured = true;
    encoder_profile = profile;
    epoch = 1;
    encoder_pts = 1;
    next_output_source_seconds = 0;
  });
  force_keyframe = false;
  timestamp = 6001;
  frame_index = 1;
  last_recovery_frame_us = 300000;
}

sends_test :
    send_round naturals two_frames 10 true 300000 sender ≡ returned (after_first, sent first_frame)
unfolding send_round send_ready after_reading send_encoded next_frame configure_encoder next_epoch
    frame_loop next_decoded_frame feed should_output_decoded_frame should_output encode
sends_test = refl

SendsAt-Spaced_example : Spaced 1000 (300000 ∷ [])
SendsAt-Spaced_example =
    SendsAt-Spaced naturals two_frames 10
      (SendsAt.rounds true 200000 waits_test (SendsAt.rounds true 300000 sends_test SendsAt.ends))
      refl (omega arith)

between : (a b x : ℕ) → ltb a x ≡ true → ltb x b ≡ true → a < b
between a b x h k = ground arith

abbrev session : SenderSession FileState ℕ
session = record {
  estimator = no_measurements.estimator;
  adaptation = new_controller 1500;
  video_sender = sender;
}

session-IsController : IsController session.adaptation
unfolding updates
session-IsController = updates-IsController ltb (λ n. n) [] 1500

stats_round_lem_example :
    IsController (stats_round naturals clock session).0.adaptation
    × ((stats_round naturals clock session).0.video_sender.profile
        ≡ (stats_round naturals clock session).0.adaptation.profile)
    × (((stats_round naturals clock session).0.video_sender.profile ≡ session.video_sender.profile)
        ⊎ ((stats_round naturals clock session).0.video_sender.force_keyframe ≡ true))
    × (required_level ltb (λ n. n) (snapshot naturals clock session.estimator).0
        ≤ (stats_round naturals clock session).0.adaptation.level)
stats_round_lem_example = stats_round_lem naturals between session session-IsController clock

not_below_itself : (x : ℕ) → ltb x x ≡ false
not_below_itself x = ground arith

paced_in_reach : (b : ℕ) → b ≤ 2000 → ltb 8000000 (b * 1150) ≡ false
paced_in_reach b small = ground arith

stats_round_pacing_example :
    (rate : ℕ) × ((stats_round naturals clock session).1 ≡ some rate)
    × (ltb rate ((stats_round naturals clock session).0.video_sender.profile.bitrate_kbps * 1150)
        ≡ false)
    × (ltb 8000000 rate ≡ false)
stats_round_pacing_example =
    stats_round_pacing naturals not_below_itself paced_in_reach session clock session-IsController
      refl
