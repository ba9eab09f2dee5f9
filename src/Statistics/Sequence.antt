-- ===== src/Statistics/Sequence.antt =====
-- quality/media_statistics_handler.cpp: the transport-wide sequence number of a packet
-- (`write_twcc_extension`, `read_twcc_sequence`), an element of 2 bytes under id 3.
pub mod RoundTrip
use web_rtc_weak_network_vid.Common.{
  ℕ, ◌+◌, ◌*◌, ◌/◌, ◌%◌, Bool, true, false, not, ◌||◌, Option, none, some, List, [], ◌∷◌, ◌++◌,
  bit_or, ◌==◌, ltb, if◌then◌else◌, length,
}
use web_rtc_weak_network_vid.Common.Words.{byte_at}
use web_rtc_weak_network_vid.Rtc.{RtpLib, Message, MessagePtr}
use web_rtc_weak_network_vid.Extension.{
  fixed_header_size, old_extension, put_extension, extension_value, pad,
}

abbrev pub twcc_ext_map_id : ℕ
twcc_ext_map_id = 3

-- `(kTwccExtMapId << 4U) | 1U` and the two bytes of the number
abbrev pub twcc_element : ℕ → List ℕ
twcc_element sequence = bit_or (twcc_ext_map_id * 16) 1 ∷ sequence / 256 % 256 ∷ sequence % 256 ∷ []

module _ (lib : RtpLib) where
  -- `!message || message->size() < sizeof(rtc::RtpHeader) || rtc::IsRtcp(*message)`, of a message
  abbrev pub is_no_rtp : Message → Bool
  is_no_rtp message = ltb (length message.bytes) lib.sizeof_rtp_header || lib.is_rtcp message.bytes

  -- The message, and `next_twcc_sequence_` after the call.
  unfoldable pub write_twcc_extension : MessagePtr → ℕ → MessagePtr × ℕ
  write_twcc_extension none next = (none, next)
  write_twcc_extension (some message) next =
      if is_no_rtp message
      then (some message, next)
      else if not (lib.version message.bytes == 2) || lib.padding message.bytes
      then (some message, next)
      else if ltb (length message.bytes) (fixed_header_size lib message.bytes)
      then (some message, next)
      else elim (old_extension lib message.bytes) [
        | none ↦ (some message, next)
        | some (payload, body) ↦ (
          some (record message {
            bytes = put_extension lib message.bytes payload (pad (body ++ twcc_element next));
          }),
          (next + 1) % 65536,
        )
      ]

  unfoldable pub read_twcc_sequence : MessagePtr → Option ℕ
  read_twcc_sequence none = none
  read_twcc_sequence (some message) =
      if is_no_rtp message
      then none
      else if not (lib.version message.bytes == 2)
      then none
      else elim (extension_value lib twcc_ext_map_id 2 message.bytes) [
        | none ↦ none
        | some value ↦ some (byte_at value 0 * 256 + byte_at value 1)
      ]
