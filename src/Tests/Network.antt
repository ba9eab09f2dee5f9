-- ===== src/Tests/Network.antt =====
-- A frame of two packets that come in the wrong order, one of them twice.
use web_rtc_weak_network_vid.Common.{ℕ, ◌≡◌, refl, true, some, List, [], ◌∷◌, ◌++◌, arith, All}
use web_rtc_weak_network_vid.Common.Maps.{find}
use web_rtc_weak_network_vid.Rtc.{MessagePtr}
use web_rtc_weak_network_vid.Transport.State.{
  Handler, FrameAssembly, new_handler, sender, receiver, set_synchronized, complete,
}
use web_rtc_weak_network_vid.Transport.Sender.{sender_outgoing}
use web_rtc_weak_network_vid.Transport.Gate.Buffer.{IsBuffer}
use web_rtc_weak_network_vid.Transport.Gate.Gathering.Steps.{Awaits}
use web_rtc_weak_network_vid.Transport.Drain.{Effect}
use web_rtc_weak_network_vid.Transport.Drain.Synchronized.{packets_of}
use web_rtc_weak_network_vid.Transport.Receive.{Clock, receiver_incoming}
use web_rtc_weak_network_vid.Transport.Receive.AnyOrder.{arrivals}
use web_rtc_weak_network_vid.Transport.Receive.Network.{
  IsMedia, frame_of, receiver_incoming-sender_outgoing,
}
use web_rtc_weak_network_vid.Tests.Rfc.{rfc_lib, rfc_layout, packet}
use web_rtc_weak_network_vid.Tests.Packets.{packet-is_rtp, packet-CanRewrite, packet-fresh}

abbrev pub two_packets : List MessagePtr
two_packets = some (packet 7) ∷ some (packet 7) ∷ []

abbrev pub sending : Handler
sending = new_handler sender 200

abbrev pub waiting : Handler
waiting =
    set_synchronized true
      (record (new_handler receiver 200) { receiver_epoch = some 1; next_output_frame_id = some 1 })

abbrev pub ticking : Clock
ticking = record { packet = λ i k. 2000; drain_us = 3000; poll_us = 4000 }

abbrev pub disorder : List ℕ
disorder = 1 ∷ 0 ∷ 1 ∷ []

two_packets-IsMedia : All (IsMedia rfc_lib) two_packets
unfolding IsMedia
two_packets-IsMedia = (
  (packet-is_rtp, packet-CanRewrite, packet-fresh.0),
  ((packet-is_rtp, packet-CanRewrite, packet-fresh.0), tt),
)

pub waiting-Awaits : Awaits rfc_lib (frame_of rfc_lib sending two_packets) waiting
unfolding new_handler
waiting-Awaits = record {
  in_epoch = refl;
  awaited = refl;
  in_sync = refl;
  buffer = record { bounded = omega arith; ascending = tt; assemblies = tt };
}

receiver_incoming-sender_outgoing_example :
    (h' : Handler) × (rest : List FrameAssembly) × (effects : List Effect) × (receiver_incoming
        rfc_lib ticking
        (arrivals (sender_outgoing rfc_lib two_packets sending).0 disorder)
        waiting
      ≡ some (h', (sender_outgoing rfc_lib two_packets sending).0 ++ packets_of rest, effects))
    × All (λ g. complete g ≡ true) rest
    × IsBuffer rfc_lib h'
unfolding new_handler find
receiver_incoming-sender_outgoing_example =
    receiver_incoming-sender_outgoing rfc_lib rfc_layout two_packets sending waiting ticking 1
      (0 ∷ 1 ∷ []) two_packets-IsMedia (omega arith) (omega arith) (omega arith)
      (λ i k. omega arith) waiting-Awaits refl (omega arith)
      (omega arith, (omega arith, (omega arith, tt))) (λ i below. ground arith)
