-- ===== src/Transport/Metadata/RoundTrip.antt =====
-- The metadata of a packet, from the sender's write to the receiver's read.
use web_rtc_weak_network_vid.Common.{ℕ, ◌≡◌, ◌≢◌, refl, true, none, some, List, arith}
use web_rtc_weak_network_vid.Common.Words.{IsU16, IsU32}
use web_rtc_weak_network_vid.Rtc.{RtpLib, HasRtpLayout, Message, is_rtp}
use web_rtc_weak_network_vid.Extension.{
  CanRewrite, HeaderKept, payload_of, extension_value, put_element, extension_value-put_element,
  put_element-HeaderKept, length-put_element, extension_value-put_element_ne,
  payload_of-put_element,
}
use web_rtc_weak_network_vid.Transport.Metadata.{
  FrameMetadata, add_frame_metadata, read_frame_metadata, decode_metadata, metadata_value,
}

-- The fields fit their widths.
pub record IsMetadata (metadata : FrameMetadata) : Type 0 where
  pub epoch_fits : IsU16 metadata.epoch
  pub frame_id_fits : IsU32 metadata.frame_id
  pub index_fits : IsU16 metadata.packet_index
  pub count_fits : IsU16 metadata.packet_count

decode-metadata_value :
    (metadata : FrameMetadata)
    → IsMetadata metadata
    → decode_metadata (metadata_value metadata) ≡ some metadata
unfolding decode_metadata
decode-metadata_value metadata v = ground arith

module _ (lib : RtpLib) (layout : HasRtpLayout lib) (message : Message) (metadata : FrameMetadata)
    (rtp : is_rtp lib (some message) ≡ true) (can : CanRewrite lib message.bytes) where
  -- The packet after the rewrite.
  abbrev pub rewritten : List ℕ
  rewritten =
      put_element lib layout message.bytes can 4 (metadata_value metadata) (omega arith)
        (omega arith) (omega arith) (omega arith)

  pub add_frame_metadata_lem :
      add_frame_metadata lib (some message) metadata ≡ some (record message { bytes = rewritten })
  unfolding add_frame_metadata
  add_frame_metadata_lem = rw (rtp, can.extension_whole) (ground (arith, can.header_there))

  abbrev kept : HeaderKept lib message.bytes rewritten
  kept =
      put_element-HeaderKept lib layout message.bytes can 4 (metadata_value metadata) (omega arith)
        (omega arith) (omega arith) (omega arith)

  -- The rewritten packet is RTP still.
  pub rewritten-is_rtp : is_rtp lib (some (record message { bytes = rewritten })) ≡ true
  unfolding is_rtp
  rewritten-is_rtp =
      rw (kept.same_kind, layout.rtp_header_size)
        (ground
          (arith, length-put_element lib layout message.bytes can 4 (metadata_value metadata)))

  -- Under the layout of RTP headers: if a packet is RTP, can take an element and has no metadata
  -- yet, and the metadata fit their widths, then a receiver reads from the packet the metadata that
  -- the sender wrote.
  pub read_frame_metadata-add_frame_metadata :
      IsMetadata metadata
      → extension_value lib 4 12 message.bytes ≡ none
      → read_frame_metadata lib (add_frame_metadata lib (some message) metadata) ≡ some metadata
  unfolding read_frame_metadata
  read_frame_metadata-add_frame_metadata v fresh =
      rw
        (
          add_frame_metadata_lem,
          rewritten-is_rtp,
          extension_value-put_element lib layout message.bytes can 4 (metadata_value metadata)
              (omega arith) (omega arith) (omega arith) (omega arith) 4 12,
          fresh,
        )
        (decode-metadata_value metadata v)

  -- Under the layout of RTP headers: if a packet is RTP and can take an element, then writing the
  -- metadata keeps the message's type and stream, its payload, and what is read under any id other
  -- than 4.
  pub add_frame_metadata-keeps :
      (id size : ℕ)
      → id ≢ 4
      → (new : Message) × (add_frame_metadata lib (some message) metadata ≡ some new)
        × (new.control ≡ message.control)
        × (new.stream ≡ message.stream)
        × (payload_of lib new.bytes ≡ payload_of lib message.bytes)
        × (extension_value lib id size new.bytes ≡ extension_value lib id size message.bytes)
  add_frame_metadata-keeps id size other = (
    record message { bytes = rewritten },
    add_frame_metadata_lem,
    refl,
    refl,
    payload_of-put_element lib layout message.bytes can 4 (metadata_value metadata) (omega arith)
        (omega arith) (omega arith) (omega arith),
    extension_value-put_element_ne lib layout message.bytes can 4 (metadata_value metadata)
        (omega arith) (omega arith) (omega arith) (omega arith) id size other,
  )
