-- ===== src/Tests/Chains.antt =====
-- The chains of both sides, with a packetizer that makes two packets of any frame and a pacing handler
-- that keeps them for later.
use web_rtc_weak_network_vid.Common.{
  ℕ, ◌≡◌, refl, true, some, List, [], ◌∷◌, ◌++◌, arith, All, length,
}
use web_rtc_weak_network_vid.Common.Maps.{find}
use web_rtc_weak_network_vid.Rtc.{MessagePtr}
use web_rtc_weak_network_vid.Transport.State.{Handler, FrameAssembly, new_handler, complete}
use web_rtc_weak_network_vid.Transport.Gate.Buffer.{IsBuffer}
use web_rtc_weak_network_vid.Transport.Gate.Gathering.Steps.{Awaits}
use web_rtc_weak_network_vid.Transport.Drain.{Effect}
use web_rtc_weak_network_vid.Transport.Drain.Synchronized.{packets_of}
use web_rtc_weak_network_vid.Transport.Receive.{receiver_incoming}
use web_rtc_weak_network_vid.Transport.Receive.AnyOrder.{arrivals}
use web_rtc_weak_network_vid.Transport.Receive.Network.{frame_of}
use web_rtc_weak_network_vid.Transport.Rtx.{RtxHandler}
use web_rtc_weak_network_vid.Statistics.Feedback.{StatisticsDirection, new_statistics_handler}
use web_rtc_weak_network_vid.Chain.{
  Library, packetizer, sr_reporter, nack_responder, pacing, depacketizer, rtcp_session,
  set_track_chain, attach_track_chain, SenderChain, ReceiverChain, Answer, ChainClock,
  outgoing_chain, incoming_chain,
}
use web_rtc_weak_network_vid.Chain.Delivery.{IsPacketized, receiver_incoming-outgoing_chain}
use web_rtc_weak_network_vid.Chain.Receiving.{incoming_chain-IsBuffer}
use web_rtc_weak_network_vid.Tests.Rfc.{rfc_lib, rfc_layout, packet}
use web_rtc_weak_network_vid.Tests.Packets.{packet-is_rtp, packet-CanRewrite, packet-fresh}
use web_rtc_weak_network_vid.Tests.Feedback.{
  naturals, rfc_reports, no_measurements, clock, reporting,
}
use web_rtc_weak_network_vid.Tests.Network.{
  two_packets, sending, waiting, waiting-Awaits, ticking, disorder,
}

abbrev pass : Library → List MessagePtr → List MessagePtr
pass packetizer messages = two_packets
pass sr_reporter messages = messages
pass nack_responder messages = messages
pass pacing messages = []
pass depacketizer messages = messages
pass rtcp_session messages = messages

abbrev sender_chain : SenderChain ℕ
sender_chain = record {
  stats_handler = new_statistics_handler StatisticsDirection.sender;
  noted = no_measurements;
  transport_handler = sending;
}

abbrev rtx : RtxHandler
rtx = record {
  primary_payload_type = 102;
  rtx_payload_type = 103;
  primary_ssrc = 305419896;
  rtx_ssrc = 305419897;
  retransmitted_packets = 0;
}

abbrev receiver_chain : ReceiverChain ℕ
receiver_chain = record {
  stats_handler = reporting;
  noted = no_measurements;
  transport_handler = waiting;
  rtx_handler = rtx;
}

abbrev chain_clock : ChainClock
chain_clock = record { arrivals = clock; feedback_us = 1200000; gathering = ticking }

two_packets-IsPacketized : All (IsPacketized rfc_lib) two_packets
unfolding IsPacketized
two_packets-IsPacketized =
    let one : IsPacketized rfc_lib (some (packet 7)) =
      (packet-is_rtp, refl, refl, packet-CanRewrite, omega arith, packet-fresh.0) in
    (one, (one, tt))

waiting_still : Awaits rfc_lib (frame_of rfc_lib sending []) waiting
waiting_still = record {
  in_epoch = waiting-Awaits.in_epoch;
  awaited = waiting-Awaits.awaited;
  in_sync = waiting-Awaits.in_sync;
  buffer = waiting-Awaits.buffer;
}

receiver_incoming-outgoing_chain_example :
    (packets : List MessagePtr) × (c' : SenderChain ℕ) × (outgoing_chain naturals rfc_lib
        rfc_reports clock pass
        (set_track_chain true)
        []
        sender_chain
      ≡ some ([], c'))
    × (length packets ≡ 2)
    × ((h' : Handler) × (rest : List FrameAssembly) × (effects : List Effect) × (receiver_incoming
            rfc_lib ticking
            (arrivals packets disorder)
            waiting
          ≡ some (h', packets ++ packets_of rest, effects))
        × All (λ g. complete g ≡ true) rest
        × IsBuffer rfc_lib h')
unfolding new_handler new_statistics_handler find
receiver_incoming-outgoing_chain_example =
    receiver_incoming-outgoing_chain naturals rfc_lib rfc_layout rfc_reports clock pass true []
      sender_chain waiting ticking 1 (0 ∷ 1 ∷ []) two_packets-IsPacketized (omega arith) refl
      (omega arith) (omega arith) (λ i k. omega arith) waiting_still refl (omega arith)
      (omega arith, (omega arith, (omega arith, tt))) (λ i below. ground arith)

incoming_chain-IsBuffer_example :
    (passed : List MessagePtr) × (c' : ReceiverChain ℕ) × (answers : List Answer) × (incoming_chain
        naturals rfc_lib rfc_reports clock pass chain_clock
        (attach_track_chain true)
        two_packets
        receiver_chain
      ≡ some (passed, c', answers))
    × IsBuffer rfc_lib c'.transport_handler
incoming_chain-IsBuffer_example =
    incoming_chain-IsBuffer naturals rfc_lib rfc_reports clock (omega arith) pass chain_clock
      (λ i k. omega arith) true two_packets receiver_chain waiting-Awaits.buffer
