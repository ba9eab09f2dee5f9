-- ===== src/Tests/Packets.antt =====
-- Packets on their way: numbering, the sequence number, and the metadata.
use web_rtc_weak_network_vid.Common.{
  ◌≡◌, refl, true, false, none, some, inl, inr, List, [], ◌∷◌, arith, All,
}
use web_rtc_weak_network_vid.Rtc.{Message, MessagePtr, is_rtp}
use web_rtc_weak_network_vid.Extension.{
  CanRewrite, fixed_header_size, old_extension, extension_value, payload_of,
}
use web_rtc_weak_network_vid.Transport.Metadata.{
  FrameMetadata, add_frame_metadata, read_frame_metadata,
}
use web_rtc_weak_network_vid.Transport.Metadata.RoundTrip.{IsMetadata, add_frame_metadata-keeps}
use web_rtc_weak_network_vid.Transport.State.{Handler, new_handler, sender}
use web_rtc_weak_network_vid.Transport.Sender.{media_count, metadata_of, sender_outgoing}
use web_rtc_weak_network_vid.Transport.Sender.Numbering.{
  IsFresh, readings, numbered, sender_outgoing-readings,
}
use web_rtc_weak_network_vid.Statistics.Sequence.{write_twcc_extension, read_twcc_sequence}
use web_rtc_weak_network_vid.Statistics.Sequence.RoundTrip.{sent_packet_reads_back}
use web_rtc_weak_network_vid.Tests.Rfc.{rfc_lib, rfc_layout, packet}

pub packet-is_rtp : is_rtp rfc_lib (some (packet 7)) ≡ true
unfolding is_rtp
packet-is_rtp = refl

pub packet-CanRewrite : CanRewrite rfc_lib (packet 7).bytes
unfolding fixed_header_size old_extension
packet-CanRewrite = record {
  header_there = omega arith;
  first_byte = omega arith;
  short = omega arith;
  payload = 12;
  body = [];
  extension_whole = refl;
}

pub packet-fresh :
    (extension_value rfc_lib 4 12 (packet 7).bytes ≡ none)
    × (extension_value rfc_lib 3 2 (packet 7).bytes ≡ none)
unfolding extension_value
packet-fresh = (refl, refl)

abbrev some_metadata : FrameMetadata
some_metadata = record {
  epoch = 2;
  frame_id = 70000;
  packet_index = 1;
  packet_count = 3;
  keyframe = true;
}

some_metadata-IsMetadata : IsMetadata some_metadata
some_metadata-IsMetadata = record {
  epoch_fits = omega arith;
  frame_id_fits = omega arith;
  index_fits = omega arith;
  count_fits = omega arith;
}

add_frame_metadata-keeps_example :
    (new : Message) × (add_frame_metadata rfc_lib (some (packet 7)) some_metadata ≡ some new)
    × (new.control ≡ false)
    × (new.stream ≡ 0)
    × (payload_of rfc_lib new.bytes ≡ payload_of rfc_lib (packet 7).bytes)
    × (extension_value rfc_lib 3 2 new.bytes ≡ extension_value rfc_lib 3 2 (packet 7).bytes)
add_frame_metadata-keeps_example =
    add_frame_metadata-keeps rfc_lib rfc_layout (packet 7) some_metadata packet-is_rtp
      packet-CanRewrite 3 2 (omega arith)

sent_packet_reads_back_example :
    (read_twcc_sequence rfc_lib (
        add_frame_metadata rfc_lib
          ((write_twcc_extension rfc_lib (some (packet 7)) 65535).0)
          some_metadata)
      ≡ some 65535)
    × (read_frame_metadata rfc_lib (
          add_frame_metadata rfc_lib
            ((write_twcc_extension rfc_lib (some (packet 7)) 65535).0)
            some_metadata)
        ≡ some some_metadata)
sent_packet_reads_back_example =
    sent_packet_reads_back rfc_lib rfc_layout (packet 7) 65535 packet-is_rtp refl refl
      packet-CanRewrite some_metadata (omega arith) (omega arith) some_metadata-IsMetadata
      packet-fresh.1 packet-fresh.0

-- Two packets of one frame with a report between them.
abbrev outgoing : List MessagePtr
outgoing =
    some (packet 7)
    ∷ some (record { control = true; bytes = 128 ∷ 200 ∷ 0 ∷ 0 ∷ []; stream = 0 })
    ∷ some (packet 7)
    ∷ []

abbrev sending : Handler
sending = new_handler sender 200

outgoing-IsFresh : All (IsFresh rfc_lib) outgoing
unfolding IsFresh is_rtp
outgoing-IsFresh = (
  inr (packet-CanRewrite, packet-fresh.0),
  (inl refl, (inr (packet-CanRewrite, packet-fresh.0), tt)),
)

sender_outgoing-readings_example :
    readings rfc_lib (sender_outgoing rfc_lib outgoing sending).0
    ≡ numbered
        (metadata_of rfc_lib sending (media_count rfc_lib outgoing))
        0
        (media_count rfc_lib outgoing)
unfolding new_handler media_count is_rtp
sender_outgoing-readings_example =
    sender_outgoing-readings rfc_lib rfc_layout outgoing sending outgoing-IsFresh (omega arith)
      (omega arith) (omega arith)
