-- ===== src/Transport/Rtx.antt =====
-- video/video_transport_handler.cpp: `RtxReceivingHandler`, which turns a retransmitted packet back
-- into the packet that it carries.
pub mod RoundTrip
use web_rtc_weak_network_vid.Common.{
  ℕ, ◌+◌, ◌*◌, ◌%◌, ◌^◌, not, ◌||◌, Option, none, some, List, [], ◌∷◌, ◌++◌, ◌==◌, ltb,
  if◌then◌else◌, length, take, drop,
}
use web_rtc_weak_network_vid.Rtc.{RtpLib, Message, MessagePtr, is_rtp}
use web_rtc_weak_network_vid.Extension.{fixed_header_size}
use web_rtc_weak_network_vid.Transport.Metadata.{read_u16}

pub record RtxHandler : Type 0 where
  pub primary_payload_type : ℕ
  pub rtx_payload_type : ℕ
  pub primary_ssrc : ℕ
  pub rtx_ssrc : ℕ
  pub retransmitted_packets : ℕ

module _ (lib : RtpLib) (h : RtxHandler) where
  -- Where the payload begins; `none` where the extension's header is cut off.
  unfoldable pub rtx_payload_offset : List ℕ → Option ℕ
  unfolding fixed_header_size
  rtx_payload_offset bytes =
      let fixed = fixed_header_size lib bytes in
      if not (lib.extension bytes)
      then some fixed
      else if ltb (length bytes) (fixed + lib.sizeof_extension_header)
      then none
      else some (fixed + (lib.sizeof_extension_header + lib.header_length (drop fixed bytes) * 4))

  -- The packet without the two bytes of the original number, under its own number again.
  unfoldable pub original_packet : Message → ℕ → Message
  original_packet message offset =
      let original_sequence = read_u16 message.bytes offset in
      let moved = take offset message.bytes ++ drop (offset + 2) message.bytes in
      record message {
        bytes = lib.set_ssrc h.primary_ssrc (
            lib.set_seq_number original_sequence
              (lib.set_payload_type h.primary_payload_type moved));
        stream = h.primary_ssrc;
      }

  -- The packet that a message carries, if it is a retransmission.
  unfoldable pub carried_packet : MessagePtr → Option Message
  unfolding rtx_payload_offset original_packet fixed_header_size
  carried_packet none = none
  carried_packet (some message) =
      if not (is_rtp lib (some message))
      then none
      else if not (lib.payload_type message.bytes == h.rtx_payload_type)
          || not (lib.ssrc message.bytes == h.rtx_ssrc)
      then none
      else if ltb (length message.bytes) (fixed_header_size lib message.bytes)
      then none
      else elim (rtx_payload_offset message.bytes) [
        | none ↦ none
        | some offset ↦
            if ltb (length message.bytes) (offset + 2)
            then none
            else some (original_packet message offset)
      ]

module _ (lib : RtpLib) where
  -- The messages after the call, and the handler.
  unfoldable pub rtx_incoming : List MessagePtr → RtxHandler → List MessagePtr × RtxHandler
  unfolding carried_packet
  rtx_incoming [] h = ([], h)
  rtx_incoming (message ∷ messages) h = elim (carried_packet lib h message) [
    | none ↦ let (rest, h') = rtx_incoming messages h in (message ∷ rest, h')
    | some original ↦
        let (rest, h') =
          rtx_incoming messages
            (record h { retransmitted_packets = (h.retransmitted_packets + 1) % 2 ^ 64 }) in
        (some original ∷ rest, h')
  ]
