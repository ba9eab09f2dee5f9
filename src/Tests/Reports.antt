-- ===== src/Tests/Reports.antt =====
-- Reports that come to a sender.
use web_rtc_weak_network_vid.Common.{◌≡◌, refl, Bool, true, false, some, List, [], ◌∷◌, arith}
use web_rtc_weak_network_vid.Rtc.{MessagePtr}
use web_rtc_weak_network_vid.Transport.State.{
  Handler, new_handler, on_keyframe_acknowledged, sender,
}
use web_rtc_weak_network_vid.Transport.Reports.{sender_incoming}
use web_rtc_weak_network_vid.Transport.Reports.Walk.{
  ack_message, sender_incoming_returns, sender_incoming-keyframe_ack,
}
use web_rtc_weak_network_vid.Tests.Rfc.{rfc_lib}

abbrev listening : Handler
listening = on_keyframe_acknowledged (new_handler sender 200)

-- A request for a keyframe, a NACK behind it in the same message, and a report that is cut off.
abbrev reports : List MessagePtr
reports =
    some (record {
      control = true;
      bytes =
          129 ∷ 206 ∷ 0 ∷ 2 ∷ 0 ∷ 0 ∷ 0 ∷ 1 ∷ 0 ∷ 0 ∷ 0 ∷ 2 ∷ 129 ∷ 205 ∷ 0 ∷ 3 ∷ 0 ∷ 0 ∷ 0 ∷ 1 ∷ 0
          ∷ 0 ∷ 0 ∷ 2 ∷ 0 ∷ 9 ∷ 0 ∷ 0 ∷ 128 ∷ 204 ∷ 0 ∷ 4 ∷ [];
      stream = 0;
    })
    ∷ ack_message 2 5
    ∷ []

sender_incoming_returns_example :
    (h' : Handler) × (request : Bool) × (acknowledged : Bool) × (sender_incoming rfc_lib reports
        listening
      ≡ some (h', request, acknowledged))
    × (h'.frames ≡ listening.frames)
    × (h'.next_frame_id ≡ listening.next_frame_id)
sender_incoming_returns_example = sender_incoming_returns rfc_lib (omega arith) listening reports

sender_incoming-keyframe_ack_example :
    sender_incoming rfc_lib (ack_message 2 5 ∷ []) listening
    ≡ some (listening, false, listening.keyframe_acknowledged_callback)
sender_incoming-keyframe_ack_example =
    sender_incoming-keyframe_ack rfc_lib listening 2 5 refl (λ v t l m bs. refl) (λ v t bs. refl)
