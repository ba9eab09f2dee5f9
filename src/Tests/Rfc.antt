-- ===== src/Tests/Rfc.antt =====
-- A concrete RTP library: the accessors as RFC 3550, RFC 5285 and RFC 5761 lay the headers out. Of a
-- NACK it reads one part without a mask, which is what the tests send.
use web_rtc_weak_network_vid.Common.{
  ℕ, ◌+◌, ◌*◌, ◌/◌, ◌%◌, ◌≤◌, ◌≡◌, refl, Bool, true, false, ◌&&◌, List, [], ◌∷◌, ◌++◌, ◌==◌, leb,
  arith, length, take, drop,
}
use web_rtc_weak_network_vid.Common.Words.{be16, be32, byte_at}
use web_rtc_weak_network_vid.Rtc.{RtpLib, HasRtpLayout, HasRtcpLayout, Message}

abbrev two_bytes : List ℕ → ℕ → ℕ
two_bytes bytes i = byte_at bytes i * 256 + byte_at bytes (i + 1)

abbrev pub four_bytes : List ℕ → ℕ → ℕ
four_bytes bytes i = two_bytes bytes i * 65536 + two_bytes bytes (i + 2)

abbrev rfc_is_rtcp : List ℕ → Bool
rfc_is_rtcp bytes =
    leb 8 (length bytes) && leb 64 (byte_at bytes 1 % 128) && leb (byte_at bytes 1 % 128) 95

abbrev pub rfc_lib : RtpLib
rfc_lib = record {
  sizeof_rtp_header = 12;
  sizeof_extension_header = 4;
  sizeof_rtcp_header = 4;
  is_rtcp = rfc_is_rtcp;
  version = λ bytes. byte_at bytes 0 / 64;
  padding = λ bytes. byte_at bytes 0 / 32 % 2 == 1;
  extension = λ bytes. byte_at bytes 0 / 16 % 2 == 1;
  csrc_count = λ bytes. byte_at bytes 0 % 16;
  marker = λ bytes. byte_at bytes 1 / 128 == 1;
  payload_type = λ bytes. byte_at bytes 1 % 128;
  seq_number = λ bytes. two_bytes bytes 2;
  timestamp = λ bytes. four_bytes bytes 4;
  ssrc = λ bytes. four_bytes bytes 8;
  set_payload_type =
      λ t bytes. take 1 bytes ++ ((byte_at bytes 1 / 128 * 128 + t % 128) ∷ drop 2 bytes);
  set_seq_number = λ n bytes. take 2 bytes ++ (be16 n ++ drop 4 bytes);
  set_ssrc = λ n bytes. take 8 bytes ++ (be32 n ++ drop 12 bytes);
  profile_specific_id = λ bytes. two_bytes bytes 0;
  header_length = λ bytes. two_bytes bytes 2;
  length_in_bytes = λ bytes. (two_bytes bytes 2 + 1) * 4;
  rtcp_payload_type = λ bytes. byte_at bytes 1;
  report_count = λ bytes. byte_at bytes 0 % 32;
  nack_sequences = λ bytes. two_bytes bytes 12 ∷ [];
  sizeof_nack_without_parts = 12;
}

pub same_kind :
    (b c t : ℕ) (bs cs : List ℕ)
    → 6 ≤ length bs
    → 6 ≤ length cs
    → rfc_is_rtcp (b ∷ t ∷ bs) ≡ rfc_is_rtcp (c ∷ t ∷ cs)
same_kind b c t bs cs h k = ground arith

abbrev pub rfc_layout : HasRtpLayout rfc_lib
rfc_layout = record {
  rtp_header_size = refl;
  extension_header_size = refl;
  version_bits = λ b bs. refl;
  padding_bit = λ b bs. refl;
  extension_bit = λ b bs. refl;
  csrc_bits = λ b bs. refl;
  profile_bytes = λ p q bs. refl;
  length_bytes = λ p q l m bs. refl;
  is_rtcp_by_second = same_kind;
}

-- An RTP packet with a payload of three bytes, of payload type 102, without an extension.
abbrev pub packet : ℕ → Message
packet sequence = record {
  control = false;
  bytes = 128 ∷ 102 ∷ (be16 sequence ++ (be32 90000 ++ (be32 305419896 ++ (1 ∷ 2 ∷ 3 ∷ []))));
  stream = 0;
}

pub high_types :
    (v t : ℕ) (bs : List ℕ) → 192 ≤ t → t ≤ 223 → 6 ≤ length bs → rfc_is_rtcp (v ∷ t ∷ bs) ≡ true
high_types v t bs low high long = ground arith

abbrev pub rfc_rtcp_layout : HasRtcpLayout rfc_lib
rfc_rtcp_layout = record {
  rtcp_header_size = refl;
  rtcp_length = λ v t l m bs. refl;
  rtcp_type = λ v t bs. refl;
  rtcp_count = λ v t bs. refl;
  rtcp_kind = high_types;
}
