-- ===== src/Transport/Sender.antt =====
-- video/video_transport_handler.cpp: `sender_outgoing`, which numbers the packets of a frame.
pub mod Numbering
use web_rtc_weak_network_vid.Common.{
  ℕ, zero, suc, ◌+◌, ◌%◌, ◌^◌, Bool, true, false, not, Option, none, some, List, [], ◌∷◌, min, ltb,
  if◌then◌else◌,
}
use web_rtc_weak_network_vid.Rtc.{RtpLib, MessagePtr, is_rtp}
use web_rtc_weak_network_vid.Transport.Metadata.{FrameMetadata, add_frame_metadata}
use web_rtc_weak_network_vid.Transport.State.{Handler}

module _ (lib : RtpLib) where
  -- The size of `media_packets`.
  unfoldable pub media_count : List MessagePtr → ℕ
  media_count [] = 0
  media_count (message ∷ messages) =
      if is_rtp lib message then suc (media_count messages) else media_count messages

  -- The loop over the media packets, in the place where each of them stands in `messages`. The messages
  -- are taken to be different objects.
  unfoldable pub number_loop : (ℕ → FrameMetadata) → ℕ → ℕ → List MessagePtr → List MessagePtr
  number_loop metadata count index [] = []
  number_loop metadata count index (message ∷ messages) =
      if is_rtp lib message
      then (if ltb index count then add_frame_metadata lib message (metadata index) else message)
        ∷ number_loop metadata count (index + 1) messages
      else message ∷ number_loop metadata count index messages

  abbrev pub metadata_of : Handler → ℕ → ℕ → FrameMetadata
  metadata_of h count index = record {
    epoch = h.epoch;
    frame_id = h.next_frame_id;
    packet_index = index;
    packet_count = count;
    keyframe = h.next_frame_keyframe;
  }

  -- The messages after the call, and the handler. `++` on a uint32_t wraps around.
  unfoldable pub sender_outgoing : List MessagePtr → Handler → List MessagePtr × Handler
  unfolding media_count number_loop
  sender_outgoing messages h = elim (media_count messages) [
    | zero ↦ (messages, h)
    | suc n ↦ (
      number_loop (metadata_of h (min (suc n) 65535)) (min (suc n) 65535) 0 messages,
      record h { next_frame_id = (h.next_frame_id + 1) % 2 ^ 32 },
    )
  ]
