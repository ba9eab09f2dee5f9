-- ===== src/Video/Reader.antt =====
-- video/video_file_reader.cpp: frames are decoded from a file, some of them chosen, and encoded again.
-- FFmpeg, with the file, is a parameter. Allocations do not fail.
pub mod Decoding
pub mod Ending
pub mod Epochs
use web_rtc_weak_network_vid.Common.{
  ℕ, zero, suc, ◌+◌, ◌/◌, ◌%◌, ◌^◌, Bool, true, false, not, ◌&&◌, ◌||◌, max, Option, none, some,
  List, ◌==◌, if◌then◌else◌,
}
use web_rtc_weak_network_vid.Quality.Doubles.{Doubles}
use web_rtc_weak_network_vid.Quality.Adaptation.{VideoProfile}

-- What a call comes to: the loops take fuel.
pub data Result (A : Type 0) : Type 0 where
  returned : A → Result A
  thrown : Result A
  out_of_fuel : Result A

-- What `avcodec_receive_frame` and `avcodec_receive_packet` return; a packet is its bytes and its key
-- flag.
pub data Decoded : Type 0 where
  got_frame end_of_file again failed : Decoded

pub data Encoded : Type 0 where
  got_packet : List ℕ → Bool → Encoded
  not_yet broken : Encoded

-- FFmpeg on a state `S`. `read_packet` reads up to a packet of the video stream, and `send_packet` sends
-- it: `false` is an error other than EAGAIN. `source_seconds` is computed from the time stamp of the
-- decoded frame, if it has one. `none` is a failure, which the code turns into an exception.
pub record FileLib (S D : Type 0) : Type 0 where
  pub open_file : S → Option S
  pub close_file : S → S
  pub receive_frame : S → Decoded × S
  pub flush : S → Bool × S
  pub read_packet : S → Bool × S
  pub send_packet : S → Bool × S
  pub source_seconds : S → Option D
  pub scale : VideoProfile → S → Option S
  pub open_encoder : VideoProfile → S → Option S
  pub send_frame : ℕ → Bool → S → Option S
  pub receive_packet : S → Encoded × S

pub record EncodedVideoFrame : Type 0 where
  pub data_bytes : List ℕ
  pub duration_90khz : ℕ
  pub frame_epoch : ℕ
  pub keyframe : Bool

pub record VideoFileReader (S D : Type 0) : Type 0 where
  pub file : S
  pub input_eof : Bool
  pub decoder_flushed : Bool
  pub encoder_configured : Bool
  pub encoder_profile : VideoProfile
  pub epoch : ℕ
  pub encoder_pts : ℕ
  pub next_output_source_seconds : D

abbrev pub same_profile : VideoProfile → VideoProfile → Bool
same_profile p q =
    p.level == q.level
    && p.bitrate_kbps == q.bitrate_kbps
    && p.fps == q.fps
    && p.width == q.width
    && p.height == q.height

-- `++epoch_`, and 1 in place of 0.
unfoldable pub next_epoch : ℕ → ℕ
next_epoch epoch = if (epoch + 1) % 65536 == 0 then 1 else (epoch + 1) % 65536

-- What a round of the decoder's loop does when the decoder asks for input.
pub data Fed (R : Type 0) : Type 0 where
  go_on : R → Fed R
  at_end : R → Fed R
  fed_nothing : Fed R

module _ {S D : Type 0} (double : Doubles D) (lib : FileLib S D) where
  abbrev pub minus_one : D
  minus_one = double.minus (double.num 0) (double.num 1)

  unfoldable pub reset : VideoFileReader S D → Option (VideoFileReader S D)
  reset r = elim (lib.open_file (lib.close_file r.file)) [
    | none ↦ none
    | some file ↦ some (record r {
      file = file;
      input_eof = false;
      decoder_flushed = false;
      encoder_configured = false;
      next_output_source_seconds = minus_one;
    })
  ]

  unfoldable pub configure_encoder :
      VideoProfile → VideoFileReader S D → Option (VideoFileReader S D)
  configure_encoder profile r = elim (lib.open_encoder profile r.file) [
    | none ↦ none
    | some file ↦ some (record r {
      file = file;
      encoder_configured = true;
      encoder_profile = profile;
      epoch = next_epoch r.epoch;
      encoder_pts = 0;
      next_output_source_seconds = minus_one;
    })
  ]

  -- The decoder has returned EAGAIN, and `file` is the state after it; the flags are `input_eof_` and
  -- `decoder_flushed_`.
  unfoldable pub feed : Bool → Bool → S → VideoFileReader S D → Fed (VideoFileReader S D)
  feed true true file r = at_end (record r { file = file })
  feed true false file r = elim (lib.flush file).0 [
    | true ↦ go_on (record r { file = (lib.flush file).1; decoder_flushed = true })
    | false ↦ fed_nothing
  ]
  feed false decoder_flushed file r = elim (lib.read_packet file).0 [
    | false ↦ go_on (record r { file = (lib.read_packet file).1; input_eof = true })
    | true ↦ elim (lib.send_packet (lib.read_packet file).1).0 [
      | true ↦ go_on (record r { file = (lib.send_packet (lib.read_packet file).1).1 })
      | false ↦ fed_nothing
    ]
  ]

  -- The `while (true)`.
  unfoldable pub next_decoded_frame : ℕ → VideoFileReader S D → Result (Bool × VideoFileReader S D)
  unfolding feed
  next_decoded_frame zero r = out_of_fuel
  next_decoded_frame (suc fuel) r = elim (lib.receive_frame r.file).0 [
    | got_frame ↦ returned (true, record r { file = (lib.receive_frame r.file).1 })
    | end_of_file ↦ returned (false, record r { file = (lib.receive_frame r.file).1 })
    | failed ↦ thrown
    | again ↦ elim (feed r.input_eof r.decoder_flushed (lib.receive_frame r.file).1 r) [
      | go_on fed ↦ next_decoded_frame fuel fed
      | at_end ended ↦ returned (false, ended)
      | fed_nothing ↦ thrown
    ]
  ]

  abbrev pub seconds_of : Option D → D → D
  seconds_of none next = if double.lt next (double.num 0) then double.num 0 else next
  seconds_of (some seconds) next = seconds

  -- The answer, and `next_output_source_seconds_`.
  unfoldable pub should_output : ℕ → Option D → D → Bool × D
  should_output fps stamped next =
      let seconds = seconds_of stamped next in
      let due = if double.lt next (double.num 0) then seconds else next in
      if double.lt (double.plus seconds (double.over (double.num 1) (double.num 10000))) due
      then (false, due)
      else (true, double.plus due (double.over (double.num 1) (double.num fps)))

  unfoldable pub should_output_decoded_frame : ℕ → VideoFileReader S D → Bool × VideoFileReader S D
  unfolding should_output
  should_output_decoded_frame fps r =
      let (output, next) =
        should_output fps (lib.source_seconds r.file) r.next_output_source_seconds in
      (output, record r { next_output_source_seconds = next })

  -- Scaling and encoding the decoded frame.
  unfoldable pub encode :
      VideoProfile → Bool → VideoFileReader S D → Option (Encoded × VideoFileReader S D)
  encode profile force_keyframe r = elim (lib.scale profile r.file) [
    | none ↦ none
    | some scaled ↦ elim (lib.send_frame r.encoder_pts force_keyframe scaled) [
      | none ↦ none
      | some sent ↦ some (
        (lib.receive_packet sent).0,
        record r { file = (lib.receive_packet sent).1; encoder_pts = (r.encoder_pts + 1) % 2 ^ 64 },
      )
    ]
  ]

  abbrev pub encoded_frame : VideoProfile → ℕ → List ℕ → Bool → EncodedVideoFrame
  encoded_frame profile epoch bytes key = record {
    data_bytes = bytes;
    duration_90khz = max 1 (90000 / profile.fps);
    frame_epoch = epoch;
    keyframe = key;
  }

  -- The `while` of `next_frame`; `limit` is the fuel of the decoder's loop.
  unfoldable pub frame_loop :
      ℕ
      → ℕ
      → VideoProfile
      → Bool
      → VideoFileReader S D
      → Result (Option EncodedVideoFrame × VideoFileReader S D)
  frame_loop zero limit profile force_keyframe r = out_of_fuel
  frame_loop (suc fuel) limit profile force_keyframe r = elim (next_decoded_frame limit r) [
    | thrown ↦ thrown
    | out_of_fuel ↦ out_of_fuel
    | returned (found, decoded) ↦ elim found [
      | false ↦ returned (none, decoded)
      | true ↦ elim (should_output_decoded_frame profile.fps decoded).0 [
        | false ↦
            frame_loop fuel limit profile force_keyframe
              (should_output_decoded_frame profile.fps decoded).1
        | true ↦
            elim (encode profile force_keyframe
              (should_output_decoded_frame profile.fps decoded).1) [
                | none ↦ thrown
                | some (encoded, after) ↦ elim encoded [
                  | not_yet ↦ frame_loop fuel limit profile force_keyframe after
                  | broken ↦ thrown
                  | got_packet bytes key ↦
                      returned (some (encoded_frame profile after.epoch bytes key), after)
                ]
              ]
      ]
    ]
  ]

  unfoldable pub next_frame :
      ℕ
      → VideoProfile
      → Bool
      → VideoFileReader S D
      → Result (Option EncodedVideoFrame × VideoFileReader S D)
  next_frame limit profile force_keyframe r =
      if not r.encoder_configured || not (same_profile r.encoder_profile profile)
      then elim (configure_encoder profile r) [
        | none ↦ thrown
        | some configured ↦ frame_loop limit limit profile true configured
      ]
      else frame_loop limit limit profile force_keyframe r
