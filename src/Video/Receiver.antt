-- ===== src/Video/Receiver.antt =====
-- video/video_receiver.cpp: what the receiver does with a frame, its statistics, and the loop that asks
-- for keyframes.
pub mod Frames
pub mod Recovery
use web_rtc_weak_network_vid.Common.{
  ℕ, ◌+◌, Bool, true, false, not, ◌&&◌, ◌||◌, Option, none, some, List, [], ◌∷◌, ◌++◌, leb,
  if◌then◌else◌, length, ◌>>=◌,
}
use web_rtc_weak_network_vid.Transport.State.{
  Handler, invalidate_sync, record_pli_sent, needs_keyframe,
}
use web_rtc_weak_network_vid.Transport.Drain.{Effect}
use web_rtc_weak_network_vid.Rtc.{RtpLib, MessagePtr}
use web_rtc_weak_network_vid.Transport.Receive.{Clock, receiver_incoming, poll}
use web_rtc_weak_network_vid.Quality.Doubles.{Doubles}
use web_rtc_weak_network_vid.Quality.ReceiveStats.{
  VideoReceiveStats, VideoReceiveStatsSnapshot, on_encoded_frame, on_decoder_error, set_transport,
  receive_snapshot,
}
use web_rtc_weak_network_vid.Video.Idr.{contains_h264_idr}

-- `H264Decoder`, which is FFmpeg's decoder: its state after `reset`, with whether it does not throw, and
-- after `decode`, with what it returns.
pub record DecoderLib (S : Type 0) : Type 0 where
  pub reset : S → Bool × S
  pub decode : List ℕ → S → Bool × S

-- The receiver. `output` holds the frames that are written to the file, and is `none` if none is open;
-- `rtx_packets` is what the RTX handler has counted, if there is one.
pub record VideoReceiver (S : Type 0) : Type 0 where
  pub stats : VideoReceiveStats
  pub output : Option (List (List ℕ))
  pub output_started : Bool
  pub transport_handler : Option Handler
  pub rtx_packets : Option ℕ
  pub reset_decoder : Bool
  pub decoder : S

abbrev pub write : Bool → List ℕ → Option (List (List ℕ)) → Option (List (List ℕ))
write started frame none = none
write started frame (some frames) = if started then some (frames ++ (frame ∷ [])) else some frames

abbrev pub invalidate : Option Handler → Option Handler
invalidate none = none
invalidate (some h) = some (invalidate_sync h)

-- The rest of the callback of `onFrame`, with what `decode` returns.
unfoldable pub after_decode :
    {S : Type 0} → Bool → S → ℕ → List ℕ → VideoReceiver S → VideoReceiver S
after_decode false decoder at_us frame r = record r {
  reset_decoder = true;
  decoder = decoder;
  stats = on_decoder_error r.stats;
  transport_handler = invalidate r.transport_handler;
}
after_decode true decoder at_us frame r = record r {
  decoder = decoder;
  stats = on_encoded_frame at_us (length frame) r.stats;
  output_started = r.output_started || contains_h264_idr frame;
  output = write (r.output_started || contains_h264_idr frame) frame r.output;
}

module _ {S : Type 0} (lib : DecoderLib S) where
  -- `reset_decoder_.exchange(false)` and the reset.
  unfoldable pub reset_if_needed : VideoReceiver S → Bool × VideoReceiver S
  reset_if_needed r =
      if r.reset_decoder
      then (
        (lib.reset r.decoder).0,
        record r { reset_decoder = false; decoder = (lib.reset r.decoder).1 },
      )
      else (true, r)

  -- The callback of `onFrame`; it ends where the reset throws. `at_us` is what the statistics read as
  -- the time.
  unfoldable pub on_frame : ℕ → List ℕ → VideoReceiver S → VideoReceiver S
  on_frame at_us frame r =
      let (whole, ready) = reset_if_needed r in
      let (decoded, decoder) = lib.decode frame ready.decoder in
      if whole then after_decode decoded decoder at_us frame ready else ready

  -- The frames that come in, with the readings for each.
  unfoldable pub on_frames : List (ℕ × List ℕ) → VideoReceiver S → VideoReceiver S
  unfolding on_frame
  on_frames [] r = r
  on_frames ((at_us, frame) ∷ frames) r = on_frames frames (on_frame at_us frame r)

-- What the constructors and `set_output_file` make, before the first frame: the decoder is reset first.
unfoldable pub new_receiver :
    {S : Type 0} → S → VideoReceiveStats → Option Handler → VideoReceiver S
new_receiver decoder stats transport = record {
  stats = stats;
  output = some [];
  output_started = false;
  transport_handler = transport;
  rtx_packets = some 0;
  reset_decoder = true;
  decoder = decoder;
}

abbrev pub packets_or_zero : Option ℕ → ℕ
packets_or_zero none = 0
packets_or_zero (some packets) = packets

abbrev pub transport_stats : Option Handler → Option ℕ → VideoReceiveStats → VideoReceiveStats
transport_stats none rtx_packets stats = stats
transport_stats (some h) rtx_packets stats =
    set_transport h.stats.dropped_frames h.stats.nack_packets (packets_or_zero rtx_packets)
      h.stats.pli_packets h.stats.synchronized stats

-- `snapshot`: the statistics that it sets, and what it returns.
pub receiver_snapshot :
    {S D : Type 0} → Doubles D → VideoReceiver S → VideoReceiver S × VideoReceiveStatsSnapshot D
receiver_snapshot double r =
    let stats = transport_stats r.transport_handler r.rtx_packets r.stats in
    (record r { stats = stats }, receive_snapshot double stats)

-- A call that another thread makes of the handler: the track's `incoming`, with its readings of the
-- clock, or `invalidate_sync` for a frame that cannot be decoded.
pub data Call : Type 0 where
  arrival : Clock → List MessagePtr → Call
  undecodable : Call

unfoldable pub apply_call : RtpLib → Call → Handler → Option Handler
apply_call lib (arrival clock messages) h = elim (receiver_incoming lib clock messages h) [
  | none ↦ none
  | some (h', passed, effects) ↦ some h'
]
apply_call lib undecodable h = some (invalidate_sync h)

unfoldable pub apply_calls : RtpLib → List Call → Handler → Option Handler
apply_calls lib [] h = some h
apply_calls lib (c ∷ calls) h = elim (apply_call lib c h) [
  | none ↦ none
  | some h' ↦ apply_calls lib calls h'
]

-- One round of `recovery_loop`: the calls of other threads before its poll and those between its poll
-- and its test, the two readings of the clock, whether the track is open, and whether
-- `requestKeyframe` succeeds.
pub record Round : Type 0 where
  pub before : List Call
  pub between : List Call
  pub poll_us : ℕ
  pub at_us : ℕ
  pub track_open : Bool
  pub accepted : Bool

-- What a round ends in: the handler, `last_pli_us`, what was sent, and whether a keyframe was requested.
pub record Recovered : Type 0 where
  pub handler : Handler
  pub last_pli_us : ℕ
  pub effects : List Effect
  pub requested : Bool

-- `transport->needs_keyframe() && at_us - last_pli_us >= 250'000`, on an open track.
abbrev pub is_due : Round → Handler → ℕ → Bool
is_due round h last_pli_us =
    round.track_open && needs_keyframe h && leb (last_pli_us + 250000) round.at_us

-- The part of the round after the poll, with its test.
unfoldable pub request_keyframe : Bool → Round → Handler → ℕ → List Effect → Recovered
request_keyframe true round h last_pli_us effects = record {
  handler = if round.accepted then record_pli_sent h else h;
  last_pli_us = round.at_us;
  effects = effects;
  requested = true;
}
request_keyframe false round h last_pli_us effects = record {
  handler = h;
  last_pli_us = last_pli_us;
  effects = effects;
  requested = false;
}

-- A round in which both the handler and the track are set.
unfoldable pub recovery_round : RtpLib → Round → Handler → ℕ → Option Recovered
recovery_round lib round h last_pli_us = do
  found ← apply_calls lib round.before h
  (polled, effects) ← poll round.poll_us found
  tested ← apply_calls lib round.between polled
  some (request_keyframe (is_due round tested last_pli_us) round tested last_pli_us effects)

-- The rounds of `recovery_loop`: the handler, and the times of the requests.
unfoldable pub recovery_loop : RtpLib → List Round → Handler → ℕ → Option (Handler × List ℕ)
recovery_loop lib [] h last_pli_us = some (h, [])
recovery_loop lib (round ∷ rounds) h last_pli_us = elim (recovery_round lib round h last_pli_us) [
  | none ↦ none
  | some recovered ↦ elim (recovery_loop lib rounds recovered.handler recovered.last_pli_us) [
    | none ↦ none
    | some (h', times) ↦ some (h', if recovered.requested then round.at_us ∷ times else times)
  ]
]
