-- ===== src/Tests/Retransmission.antt =====
-- A packet with a header extension, and its retransmission.
use web_rtc_weak_network_vid.Common.{◌≡◌, refl, false, some, [], ◌∷◌, arith}
use web_rtc_weak_network_vid.Rtc.{HasRtpFields, is_rtp}
use web_rtc_weak_network_vid.Transport.Rtx.{RtxHandler, carried_packet}
use web_rtc_weak_network_vid.Transport.Rtx.RoundTrip.{
  Packet, HasHeader, extended, retransmission, message_of, carried_packet-retransmission,
}
use web_rtc_weak_network_vid.Tests.Rfc.{rfc_lib, rfc_layout}

abbrev rfc_fields : HasRtpFields rfc_lib
rfc_fields = record {
  payload_type_bits = λ b t bs. refl;
  payload_type_written = λ p b t bs. refl;
  sequence_written = λ n b t p q bs. refl;
  ssrc_bytes = λ b t p q w x y z s u v r bs. omega arith;
  ssrc_written = λ n b t p q w x y z s u v r bs. refl;
}

-- As `attach_track` makes it.
abbrev handler : RtxHandler
handler = record {
  primary_payload_type = 102;
  rtx_payload_type = 103;
  primary_ssrc = 305419896;
  rtx_ssrc = 305419897;
  retransmitted_packets = 0;
}

-- The marker is set.
abbrev with_extension : Packet
with_extension = record {
  first = 144;
  second = 230;
  sequence = 700;
  stamp0 = 0;
  stamp1 = 1;
  stamp2 = 95;
  stamp3 = 144;
  source = 305419896;
  more_header = 190 ∷ 222 ∷ 0 ∷ 1 ∷ 17 ∷ 2 ∷ 3 ∷ 0 ∷ [];
  payload = 101 ∷ 7 ∷ [];
}

with_extension-HasHeader : HasHeader with_extension
with_extension-HasHeader = extended [] (17 ∷ 2 ∷ 3 ∷ 0 ∷ []) 190 222 0 1 refl refl refl refl

carried_packet-retransmission_example :
    carried_packet rfc_lib handler
      (some (message_of (retransmission handler 9 with_extension) false 305419897))
    ≡ some (message_of with_extension false 305419896)
unfolding is_rtp
carried_packet-retransmission_example =
    carried_packet-retransmission rfc_lib rfc_layout handler rfc_fields with_extension 9 false
      305419897 with_extension-HasHeader (omega arith) (omega arith) refl refl refl
