-- ===== src/Statistics/Sequence/RoundTrip.antt =====
-- The transport-wide sequence number and the metadata of a packet, from the sender's handlers to the
-- receiver's.
use web_rtc_weak_network_vid.Common.{
  ℕ, ◌+◌, ◌/◌, ◌%◌, ◌<◌, ◌≡◌, ◌∙◌, true, false, none, some, List, [], ◌∷◌, arith, length,
}
use web_rtc_weak_network_vid.Common.Words.{IsU16}
use web_rtc_weak_network_vid.Rtc.{RtpLib, HasRtpLayout, Message, is_rtp}
use web_rtc_weak_network_vid.Extension.{
  CanRewrite, HeaderKept, extension_value, put_element, extension_value-put_element,
  put_element-HeaderKept, length-put_element, extension_value-put_element_ne,
  put_element-CanRewrite,
}
use web_rtc_weak_network_vid.Transport.Metadata.{
  FrameMetadata, metadata_value, add_frame_metadata, read_frame_metadata,
}
use web_rtc_weak_network_vid.Transport.Metadata.RoundTrip.{
  IsMetadata, rewritten, rewritten-is_rtp, add_frame_metadata_lem,
  read_frame_metadata-add_frame_metadata,
}
use web_rtc_weak_network_vid.Statistics.Sequence.{write_twcc_extension, read_twcc_sequence}

module _ (lib : RtpLib) (layout : HasRtpLayout lib) (message : Message) (next : ℕ)
    (rtp : is_rtp lib (some message) ≡ true) (version : lib.version message.bytes ≡ 2)
    (unpadded : lib.padding message.bytes ≡ false) (can : CanRewrite lib message.bytes) where
  abbrev value : List ℕ
  value = next / 256 % 256 ∷ next % 256 ∷ []

  -- The packet after the write.
  abbrev numbered_bytes : List ℕ
  numbered_bytes =
      put_element lib layout message.bytes can 3 value (omega arith) (omega arith) (omega arith)
        (omega arith)

  abbrev pub numbered : Message
  numbered = record message { bytes = numbered_bytes }

  abbrev numbered_kept : HeaderKept lib message.bytes numbered_bytes
  numbered_kept =
      put_element-HeaderKept lib layout message.bytes can 3 value (omega arith) (omega arith)
        (omega arith) (omega arith)

  pub write_twcc_extension_lem :
      write_twcc_extension lib (some message) next ≡ (some numbered, (next + 1) % 65536)
  unfolding write_twcc_extension is_rtp
  write_twcc_extension_lem =
      rw (version, unpadded, can.extension_whole) (ground (arith, can.header_there, rtp))

  pub numbered-is_rtp : is_rtp lib (some numbered) ≡ true
  unfolding is_rtp
  numbered-is_rtp =
      rw (numbered_kept.same_kind, layout.rtp_header_size)
        (ground (arith, length-put_element lib layout message.bytes can 3 value))

  numbered_value :
      extension_value lib 3 2 message.bytes ≡ none
      → extension_value lib 3 2 numbered_bytes ≡ some value
  numbered_value fresh = rw (
    extension_value-put_element lib layout message.bytes can 3 value (omega arith) (omega arith)
        (omega arith) (omega arith) 3 2,
    fresh,
  )

  -- Under the layout of RTP headers: if a packet is RTP of version 2 without padding, can take an
  -- element and has no sequence number yet, and the number fits 16 bits, then the number that is
  -- written on it is read back.
  read_twcc_sequence-write_twcc_extension :
      IsU16 next
      → extension_value lib 3 2 message.bytes ≡ none
      → read_twcc_sequence lib ((write_twcc_extension lib (some message) next).0) ≡ some next
  unfolding read_twcc_sequence is_rtp
  read_twcc_sequence-write_twcc_extension h fresh =
      rw (write_twcc_extension_lem, numbered_kept.same_version, version, numbered_value fresh)
        (ground (arith, numbered-is_rtp))

  pub numbered-CanRewrite : length message.bytes < 65536 → CanRewrite lib numbered_bytes
  numbered-CanRewrite datagram =
      put_element-CanRewrite lib layout message.bytes can 3 value (omega arith) (omega arith)
        (omega arith) (omega arith)
        (omega (
          arith,
          length-put_element lib layout message.bytes can 3 value (omega arith) (omega arith)
              (omega arith) (omega arith),
        ))

  pub numbered_fresh :
      extension_value lib 4 12 message.bytes ≡ none → extension_value lib 4 12 numbered_bytes ≡ none
  numbered_fresh fresh =
      extension_value-put_element_ne lib layout message.bytes can 3 value (omega arith)
        (omega arith) (omega arith) (omega arith) 4 12 (omega arith)
      ∙ fresh

  -- The rest of the sender's chain: the frame metadata.
  module _ (metadata : FrameMetadata) (datagram : length message.bytes < 65536) where
    abbrev can_again : CanRewrite lib numbered_bytes
    can_again = numbered-CanRewrite datagram

    abbrev sent_bytes : List ℕ
    sent_bytes = rewritten lib layout numbered metadata numbered-is_rtp can_again

    abbrev sent_kept : HeaderKept lib numbered_bytes sent_bytes
    sent_kept =
        put_element-HeaderKept lib layout numbered_bytes can_again 4 (metadata_value metadata)
          (omega arith) (omega arith) (omega arith) (omega arith)

    sent_value :
        extension_value lib 3 2 message.bytes ≡ none
        → extension_value lib 3 2 sent_bytes ≡ some value
    sent_value fresh =
        extension_value-put_element_ne lib layout numbered_bytes can_again 4
          (metadata_value metadata) (omega arith) (omega arith) (omega arith) (omega arith) 3 2
          (omega arith)
        ∙ numbered_value fresh

    -- Under the layout of RTP headers: if a packet is RTP of version 2 without padding, can take an
    -- element, is shorter than 65536 bytes and has neither element, and the number and the metadata
    -- fit their widths, then after the sender's two handlers have rewritten it, the statistics
    -- first, the receiver's handlers read that number and that metadata.
    pub sent_packet_reads_back :
        IsU16 next
        → IsMetadata metadata
        → extension_value lib 3 2 message.bytes ≡ none
        → extension_value lib 4 12 message.bytes ≡ none
        → (read_twcc_sequence lib
              (add_frame_metadata lib ((write_twcc_extension lib (some message) next).0) metadata)
            ≡ some next)
          × (read_frame_metadata lib
                (add_frame_metadata lib ((write_twcc_extension lib (some message) next).0) metadata)
              ≡ some metadata)
    unfolding read_twcc_sequence is_rtp
    sent_packet_reads_back h v no_twcc no_info = rw write_twcc_extension_lem (
      rw
          (
            add_frame_metadata_lem lib layout numbered metadata numbered-is_rtp can_again,
            sent_kept.same_version,
            numbered_kept.same_version,
            version,
            sent_value no_twcc,
          )
          (ground (arith, rewritten-is_rtp lib layout numbered metadata numbered-is_rtp can_again)),
      read_frame_metadata-add_frame_metadata lib layout numbered metadata numbered-is_rtp can_again
          v (numbered_fresh no_info),
    )
