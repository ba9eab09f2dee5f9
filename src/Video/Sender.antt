-- ===== src/Video/Sender.antt =====
-- video/video_sender.cpp: the rounds of the loop that sends frames, and what changes its state between
-- them. The track and the pacing are libdatachannel's. The flags that other threads set are read once
-- in a round.
pub mod Keyframes
pub mod Recovery
use web_rtc_weak_network_vid.Common.{
  ℕ, ◌+◌, ◌*◌, ◌%◌, ◌^◌, ◌≡◌, Bool, true, false, not, ◌&&◌, ◌||◌, Option, none, some, List, [], ◌∷◌,
  ◌==◌, ltb, if◌then◌else◌,
}
use web_rtc_weak_network_vid.Transport.State.{Handler, VideoTransportStats, set_outgoing_frame}
use web_rtc_weak_network_vid.Quality.Doubles.{Doubles}
use web_rtc_weak_network_vid.Quality.Adaptation.{VideoProfile, NetworkQuality}
use web_rtc_weak_network_vid.Video.Reader.{
  Result, returned, thrown, out_of_fuel, FileLib, EncodedVideoFrame, VideoFileReader, same_profile,
  reset, next_frame,
}

-- `has_track`: `track_` is set. The pacing handler is there with it.
pub record VideoSender (S D : Type 0) : Type 0 where
  pub has_track : Bool
  pub transport_handler : Option Handler
  pub file_reader : Option (VideoFileReader S D)
  pub profile : VideoProfile
  pub stopping : Bool
  pub track_open : Bool
  pub force_keyframe : Bool
  pub recovery_mode : Bool
  pub timestamp : ℕ
  pub frame_index : ℕ
  pub last_recovery_frame_us : ℕ

-- What a round comes to.
pub data Outcome : Type 0 where
  waited no_input rewound : Outcome
  not_sent sent : EncodedVideoFrame → Outcome

abbrev pub outgoing_frame : EncodedVideoFrame → Option Handler → Option Handler
outgoing_frame frame none = none
outgoing_frame frame (some h) = some (set_outgoing_frame frame.frame_epoch frame.keyframe h)

module _ {S D : Type 0} where
  -- The callbacks of the track and of the transport handler.
  unfoldable pub track_opened : VideoSender S D → VideoSender S D
  track_opened s = record s { track_open = true }

  unfoldable pub track_closed : VideoSender S D → VideoSender S D
  track_closed s = record s { track_open = false; stopping = true }

  unfoldable pub keyframe_requested : VideoSender S D → VideoSender S D
  keyframe_requested s = record s { recovery_mode = true; force_keyframe = true }

  unfoldable pub keyframe_acknowledged : VideoSender S D → VideoSender S D
  keyframe_acknowledged s = record s { recovery_mode = false }

  unfoldable pub start : VideoSender S D → VideoSender S D
  start s = record s { stopping = false }

  unfoldable pub stop : VideoSender S D → VideoSender S D
  stop s = record s { stopping = true }

  unfoldable pub update_profile : VideoProfile → VideoSender S D → VideoSender S D
  update_profile profile s = record s {
    force_keyframe = if same_profile s.profile profile then s.force_keyframe else true;
    profile = profile;
  }

  -- The end of a round that has a frame: `accepted` says that `sendFrame` does not throw.
  unfoldable pub send_encoded :
      Bool → ℕ → EncodedVideoFrame → VideoSender S D → VideoSender S D × Outcome
  send_encoded true at_us frame s = (
    record s {
      transport_handler = outgoing_frame frame s.transport_handler;
      frame_index = (s.frame_index + 1) % 2 ^ 64;
      last_recovery_frame_us = if s.recovery_mode then at_us else s.last_recovery_frame_us;
      timestamp = (s.timestamp + frame.duration_90khz) % 2 ^ 32;
    },
    sent frame,
  )
  send_encoded false at_us frame s =
      (record s { transport_handler = outgoing_frame frame s.transport_handler }, not_sent frame)

  -- The two tests that make a round wait.
  abbrev pub waits : ℕ → VideoSender S D → Bool
  waits at_us s =
      not (s.has_track && s.track_open)
      || (s.recovery_mode
          && not (s.last_recovery_frame_us == 0)
          && ltb at_us (s.last_recovery_frame_us + 250000))

-- The times at which frames are sent, with one round more.
abbrev pub note_sent : ℕ → Outcome → List ℕ → List ℕ
note_sent at_us (sent frame) times = at_us ∷ times
note_sent at_us (not_sent frame) times = times
note_sent at_us waited times = times
note_sent at_us no_input times = times
note_sent at_us rewound times = times

module _ {S D : Type 0} (double : Doubles D) (lib : FileLib S D) (limit : ℕ) where
  -- A round with its reader, and what the reader gives. `force_keyframe_` is exchanged before.
  unfoldable pub after_reading :
      Bool
      → ℕ
      → VideoSender S D
      → Result (Option EncodedVideoFrame × VideoFileReader S D)
      → Result (VideoSender S D × Outcome)
  after_reading accepted at_us s thrown = thrown
  after_reading accepted at_us s out_of_fuel = out_of_fuel
  after_reading accepted at_us s (returned (some frame, r)) = returned (
      send_encoded accepted at_us frame (record s { force_keyframe = false; file_reader = some r }))
  after_reading accepted at_us s (returned (none, r)) = elim (reset double lib r) [
    | none ↦ thrown
    | some rewound_reader ↦
        returned (record s { force_keyframe = true; file_reader = some rewound_reader }, rewound)
  ]

  -- The round, once it does not wait, with `file_reader_`.
  unfoldable pub send_ready :
      Bool → ℕ → Option (VideoFileReader S D) → VideoSender S D → Result (VideoSender S D × Outcome)
  send_ready accepted at_us none s = returned (record s { stopping = true }, no_input)
  send_ready accepted at_us (some r) s =
      after_reading accepted at_us s
        (next_frame double lib limit s.profile (s.force_keyframe || s.recovery_mode) r)

  -- A round of `send_loop` at `at_us`.
  unfoldable pub send_round : Bool → ℕ → VideoSender S D → Result (VideoSender S D × Outcome)
  send_round accepted at_us s =
      if waits at_us s then returned (s, waited) else send_ready accepted at_us s.file_reader s

  -- A run of the sender: its rounds, with what other threads do between them, up to the next
  -- acknowledgement; and the times at which it sends frames.
  pub data SendsAt : VideoSender S D → List ℕ → VideoSender S D → Type 0 where
    ends : {s : VideoSender S D} → SendsAt s [] s
    rounds :
        (accepted : Bool) (at_us : ℕ) {s s' s'' : VideoSender S D} {outcome : Outcome}
        {times : List ℕ}
        → send_round accepted at_us s ≡ returned (s', outcome)
        → SendsAt s' times s''
        → SendsAt s (note_sent at_us outcome times) s''
    requests :
        {s s' : VideoSender S D} {times : List ℕ}
        → SendsAt (keyframe_requested s) times s'
        → SendsAt s times s'
    profiles :
        (profile : VideoProfile) {s s' : VideoSender S D} {times : List ℕ}
        → SendsAt (update_profile profile s) times s'
        → SendsAt s times s'

-- `std::max` and `std::clamp`, on doubles.
module _ {D : Type 0} (double : Doubles D) where
  abbrev pub double_max : D → D → D
  double_max a b = if double.lt a b then b else a

  abbrev pub double_clamp : D → D → D → D
  double_clamp v low high = if double.lt v low then low else if double.lt high v then high else v

  -- `pacing_bps` of `update_network_quality`.
  unfoldable pub pacing_bps : NetworkQuality D → VideoProfile → D
  pacing_bps quality profile =
      let loss = double_max quality.loss_percent quality.transport_loss_percent in
      let survival =
        double_max (double.over (double.num 1) (double.num 5))
          (double.minus (double.num 1) (double.over loss (double.num 100))) in
      double_clamp
        (double.over
          (double.times (double.times (double.num profile.bitrate_kbps) (double.num 1000))
            (double.over (double.num 115) (double.num 100)))
          survival)
        (double.times (double.num profile.bitrate_kbps) (double.num 1150)) (double.num 8000000)
