-- ===== src/Rtc.antt =====
-- What the handlers take from libdatachannel (rtc/rtp.hpp, rtc/message.hpp), which is not part of
-- this repository: the RTP and RTCP views of a byte buffer, as a parameter, with the layout of
-- RFC 3550, RFC 5285 and RFC 5761 as its laws. `is_rtp` of video/video_transport_handler.cpp is here.
use web_rtc_weak_network_vid.Common.{
  ℕ, ◌+◌, ◌*◌, ◌/◌, ◌%◌, ◌≤◌, ◌≡◌, Bool, true, false, not, ◌&&◌, Option, none, some, List, ◌∷◌,
  ◌==◌, leb, length,
}

-- A non-null `rtc::message_ptr`: `control` says that the type is `Message::Control`.
pub record Message : Type 0 where
  pub control : Bool
  pub bytes : List ℕ
  pub stream : ℕ

-- `nullptr` is `none`.
abbrev pub MessagePtr : Type 0
MessagePtr = Option Message

-- `rtc::IsRtcp`, and the accessors of `RtpHeader`, `RtpExtensionHeader` and `RtcpHeader` on the bytes
-- where the header stands; the setters return the bytes after the write. `nack_sequences` are the
-- numbers that `getSequenceNumbers` gives for the `getSeqNoCount` parts of an `RtcpNack`, and
-- `sizeof_nack_without_parts` is `offsetof(RtcpNack, parts)`.
pub record RtpLib : Type 0 where
  pub sizeof_rtp_header : ℕ
  pub sizeof_extension_header : ℕ
  pub sizeof_rtcp_header : ℕ
  pub is_rtcp : List ℕ → Bool
  pub version : List ℕ → ℕ
  pub padding : List ℕ → Bool
  pub extension : List ℕ → Bool
  pub csrc_count : List ℕ → ℕ
  pub marker : List ℕ → Bool
  pub payload_type : List ℕ → ℕ
  pub seq_number : List ℕ → ℕ
  pub timestamp : List ℕ → ℕ
  pub ssrc : List ℕ → ℕ
  pub set_payload_type : ℕ → List ℕ → List ℕ
  pub set_seq_number : ℕ → List ℕ → List ℕ
  pub set_ssrc : ℕ → List ℕ → List ℕ
  pub profile_specific_id : List ℕ → ℕ
  pub header_length : List ℕ → ℕ
  pub length_in_bytes : List ℕ → ℕ
  pub rtcp_payload_type : List ℕ → ℕ
  pub report_count : List ℕ → ℕ
  pub nack_sequences : List ℕ → List ℕ
  pub sizeof_nack_without_parts : ℕ

-- The layout of the first byte of an RTP header and of an extension header. Whether a packet is
-- RTCP is read off its second byte, the payload type.
pub record HasRtpLayout (lib : RtpLib) : Type 0 where
  pub rtp_header_size : lib.sizeof_rtp_header ≡ 12
  pub extension_header_size : lib.sizeof_extension_header ≡ 4
  pub version_bits : (b : ℕ) (bs : List ℕ) → lib.version (b ∷ bs) ≡ b / 64
  pub padding_bit : (b : ℕ) (bs : List ℕ) → lib.padding (b ∷ bs) ≡ (b / 32 % 2 == 1)
  pub extension_bit : (b : ℕ) (bs : List ℕ) → lib.extension (b ∷ bs) ≡ (b / 16 % 2 == 1)
  pub csrc_bits : (b : ℕ) (bs : List ℕ) → lib.csrc_count (b ∷ bs) ≡ b % 16
  pub profile_bytes : (p q : ℕ) (bs : List ℕ) → lib.profile_specific_id (p ∷ q ∷ bs) ≡ p * 256 + q
  pub length_bytes :
      (p q l m : ℕ) (bs : List ℕ) → lib.header_length (p ∷ q ∷ l ∷ m ∷ bs) ≡ l * 256 + m
  pub is_rtcp_by_second :
      (b c t : ℕ) (bs cs : List ℕ)
      → 6 ≤ length bs
      → 6 ≤ length cs
      → lib.is_rtcp (b ∷ t ∷ bs) ≡ lib.is_rtcp (c ∷ t ∷ cs)

-- The layout of an RTCP header, and its payload types behind those of RTP.
pub record HasRtcpLayout (lib : RtpLib) : Type 0 where
  pub rtcp_header_size : lib.sizeof_rtcp_header ≡ 4
  pub rtcp_length :
      (v t l m : ℕ) (bs : List ℕ) → lib.length_in_bytes (v ∷ t ∷ l ∷ m ∷ bs) ≡ (l * 256 + m + 1) * 4
  pub rtcp_type : (v t : ℕ) (bs : List ℕ) → lib.rtcp_payload_type (v ∷ t ∷ bs) ≡ t
  pub rtcp_count : (v t : ℕ) (bs : List ℕ) → lib.report_count (v ∷ t ∷ bs) ≡ v % 32
  pub rtcp_kind :
      (v t : ℕ) (bs : List ℕ) → 192 ≤ t → t ≤ 223 → 6 ≤ length bs → lib.is_rtcp (v ∷ t ∷ bs) ≡ true

-- The second byte of an RTP header, its sequence number and its source, as they are read and written.
pub record HasRtpFields (lib : RtpLib) : Type 0 where
  pub payload_type_bits : (b t : ℕ) (bs : List ℕ) → lib.payload_type (b ∷ t ∷ bs) ≡ t % 128
  pub payload_type_written :
      (p b t : ℕ) (bs : List ℕ)
      → lib.set_payload_type p (b ∷ t ∷ bs) ≡ b ∷ (t / 128 * 128 + p % 128) ∷ bs
  pub sequence_written :
      (n b t p q : ℕ) (bs : List ℕ)
      → lib.set_seq_number n (b ∷ t ∷ p ∷ q ∷ bs) ≡ b ∷ t ∷ (n / 256 % 256) ∷ (n % 256) ∷ bs
  pub ssrc_bytes :
      (b t p q w x y z s u v r : ℕ) (bs : List ℕ)
      → lib.ssrc (b ∷ t ∷ p ∷ q ∷ w ∷ x ∷ y ∷ z ∷ s ∷ u ∷ v ∷ r ∷ bs)
        ≡ s * 16777216 + u * 65536 + v * 256 + r
  pub ssrc_written :
      (n b t p q w x y z s u v r : ℕ) (bs : List ℕ)
      → lib.set_ssrc n (b ∷ t ∷ p ∷ q ∷ w ∷ x ∷ y ∷ z ∷ s ∷ u ∷ v ∷ r ∷ bs)
        ≡ b
          ∷ t
          ∷ p
          ∷ q
          ∷ w
          ∷ x
          ∷ y
          ∷ z
          ∷ (n / 16777216 % 256)
          ∷ (n / 65536 % 256)
          ∷ (n / 256 % 256)
          ∷ (n % 256)
          ∷ bs

module _ (lib : RtpLib) where
  unfoldable pub is_rtp : MessagePtr → Bool
  is_rtp none = false
  is_rtp (some message) =
      not message.control
      && leb lib.sizeof_rtp_header (length message.bytes)
      && not (lib.is_rtcp message.bytes)
