-- ===== src/Chain/Receiving.antt =====
-- Messages through the whole chain of the receiver.
use web_rtc_weak_network_vid.Common.{
  ℕ, ◌<◌, ◌≡◌, refl, Bool, true, false, some, List, [], ◌∷◌, ◌++◌,
}
use web_rtc_weak_network_vid.Rtc.{RtpLib, MessagePtr}
use web_rtc_weak_network_vid.Quality.Doubles.{Doubles}
use web_rtc_weak_network_vid.Statistics.Handler.{ReportLib}
use web_rtc_weak_network_vid.Statistics.Handler.Walk.{incoming_returns}
use web_rtc_weak_network_vid.Transport.Gate.Buffer.{IsBuffer}
use web_rtc_weak_network_vid.Transport.Receive.Delivery.{receiver_incoming-IsBuffer}
use web_rtc_weak_network_vid.Transport.Rtx.{rtx_incoming}
use web_rtc_weak_network_vid.Chain.{
  Library, depacketizer, rtcp_session, attach_track_chain, ReceiverChain, Answer, transport,
  ChainClock, answer_of, incoming_of, incoming_chain,
}

module _ {D : Type 0} (double : Doubles D) (lib : RtpLib) (reports : ReportLib) (clock : ℕ → ℕ)
    (sized : 0 < lib.sizeof_rtcp_header) (pass : Library → List MessagePtr → List MessagePtr)
    (at : ChainClock) (later : (i k : ℕ) → 0 < at.gathering.packet i k) where
  -- If the RTCP header has a size, the receiver's buffer is in order and `now_us()` reads more than 0,
  -- then whatever messages arrive at the receiver's chain, with statistics or without, and whatever
  -- libdatachannel's handlers make of them, the handlers of the chain return, and the buffer is in
  -- order after it.
  pub incoming_chain-IsBuffer :
      (has_estimator : Bool) (messages : List MessagePtr) (c : ReceiverChain D)
      → IsBuffer lib c.transport_handler
      → (passed : List MessagePtr) × (c' : ReceiverChain D) × (answers : List Answer)
        × (incoming_chain double lib reports clock pass at
              (attach_track_chain has_estimator)
              messages
              c
            ≡ some (passed, c', answers))
        × IsBuffer lib c'.transport_handler
  unfolding incoming_chain incoming_of attach_track_chain
  incoming_chain-IsBuffer false messages c v =
      let (restored, rtx) = rtx_incoming lib messages c.rtx_handler in
      let (h, passed, effects, e, w) =
        receiver_incoming-IsBuffer lib at.gathering (pass rtcp_session restored) c.transport_handler
          later v in
      (
        pass depacketizer passed,
        record c { transport_handler = h; rtx_handler = rtx },
        transport effects ∷ [],
        rw (e, incoming_chain, incoming_of) refl,
        w,
      )
  incoming_chain-IsBuffer true messages c v =
      let (restored, rtx) = rtx_incoming lib messages c.rtx_handler in
      let (stats, noted, sent, counted, _) =
        incoming_returns double lib reports clock sized (pass rtcp_session restored) at.arrivals
          at.feedback_us c.stats_handler c.noted in
      let (h, passed, effects, e, w) =
        receiver_incoming-IsBuffer lib at.gathering (pass rtcp_session restored) c.transport_handler
          later v in
      (
        pass depacketizer passed,
        record { stats_handler = stats; noted = noted; transport_handler = h; rtx_handler = rtx },
        (answer_of sent ++ (transport effects ∷ [])) ++ [],
        rw (counted, e, incoming_chain, incoming_of) refl,
        w,
      )
