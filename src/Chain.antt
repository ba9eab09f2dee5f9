-- ===== src/Chain.antt =====
-- The chains of handlers that `set_track` of video/video_sender.cpp and `attach_track` of
-- video/video_receiver.cpp build, and how messages pass them: outgoing ones from the first handler on,
-- incoming ones from the last. What libdatachannel's handlers make of messages is a parameter.
pub mod Delivery
pub mod Receiving
use web_rtc_weak_network_vid.Common.{
  ℕ, Bool, Option, none, some, List, [], ◌∷◌, ◌++◌, if◌then◌else◌,
}
use web_rtc_weak_network_vid.Rtc.{RtpLib, MessagePtr}
use web_rtc_weak_network_vid.Quality.Doubles.{Doubles}
use web_rtc_weak_network_vid.Statistics.Feedback.{StatisticsHandler}
use web_rtc_weak_network_vid.Statistics.Handler.{ReportLib, Noted, incoming, outgoing}
use web_rtc_weak_network_vid.Transport.State.{Handler}
use web_rtc_weak_network_vid.Transport.Sender.{sender_outgoing}
use web_rtc_weak_network_vid.Transport.Drain.{Effect}
use web_rtc_weak_network_vid.Transport.Receive.{Clock, receiver_incoming}
use web_rtc_weak_network_vid.Transport.Rtx.{RtxHandler, rtx_incoming}

-- The handlers of libdatachannel.
pub data Library : Type 0 where
  packetizer sr_reporter nack_responder pacing depacketizer rtcp_session : Library

pub data MediaHandler : Type 0 where
  media_statistics video_transport rtx_receiving : MediaHandler
  library : Library → MediaHandler

abbrev pub add_to_chain : List MediaHandler → MediaHandler → List MediaHandler
add_to_chain chain handler = chain ++ (handler ∷ [])

abbrev pub add_if : Bool → List MediaHandler → List MediaHandler
add_if has_estimator chain = if has_estimator then add_to_chain chain media_statistics else chain

-- The chain of `set_track`, and that of `attach_track`; the argument says whether there is an estimator.
unfoldable pub set_track_chain : Bool → List MediaHandler
set_track_chain has_estimator =
    let counted = add_if has_estimator (library packetizer ∷ []) in
    let numbered = add_to_chain counted video_transport in
    let reported = add_to_chain numbered (library sr_reporter) in
    add_to_chain (add_to_chain reported (library nack_responder)) (library pacing)

unfoldable pub attach_track_chain : Bool → List MediaHandler
attach_track_chain has_estimator =
    let gathered = add_to_chain (library depacketizer ∷ []) video_transport in
    let counted = add_if has_estimator gathered in
    add_to_chain (add_to_chain counted (library rtcp_session)) rtx_receiving

-- This repository's handlers on either side.
pub record SenderChain (D : Type 0) : Type 0 where
  pub stats_handler : StatisticsHandler
  pub noted : Noted D
  pub transport_handler : Handler

pub record ReceiverChain (D : Type 0) : Type 0 where
  pub stats_handler : StatisticsHandler
  pub noted : Noted D
  pub transport_handler : Handler
  pub rtx_handler : RtxHandler

-- What a receiver's handlers send back: feedback, and what the transport handler sends and calls.
pub data Answer : Type 0 where
  feedback : List ℕ → Answer
  transport : List Effect → Answer

-- The readings of the clock for the messages that come in at once.
pub record ChainClock : Type 0 where
  pub arrivals : ℕ → ℕ
  pub feedback_us : ℕ
  pub gathering : Clock

abbrev pub answer_of : Option (List ℕ) → List Answer
answer_of none = []
answer_of (some bytes) = feedback bytes ∷ []

module _ {D : Type 0} (double : Doubles D) (lib : RtpLib) (reports : ReportLib) (clock : ℕ → ℕ)
    (pass : Library → List MessagePtr → List MessagePtr) where
  unfoldable pub outgoing_of :
      MediaHandler → List MessagePtr → SenderChain D → Option (List MessagePtr × SenderChain D)
  outgoing_of media_statistics messages c =
      elim (outgoing double lib reports clock messages c.stats_handler c.noted) [
        | none ↦ none
        | some (passed, h, s) ↦ some (passed, record c { stats_handler = h; noted = s })
      ]
  outgoing_of video_transport messages c =
      let (passed, h) = sender_outgoing lib messages c.transport_handler in
      some (passed, record c { transport_handler = h })
  outgoing_of rtx_receiving messages c = some (messages, c)
  outgoing_of (library handler) messages c = some (pass handler messages, c)

  unfoldable pub outgoing_chain :
      List MediaHandler → List MessagePtr → SenderChain D → Option (List MessagePtr × SenderChain D)
  outgoing_chain [] messages c = some (messages, c)
  outgoing_chain (handler ∷ chain) messages c = elim (outgoing_of handler messages c) [
    | none ↦ none
    | some (passed, c') ↦ outgoing_chain chain passed c'
  ]

  module _ (at : ChainClock) where
    unfoldable pub incoming_of :
        MediaHandler
        → List MessagePtr
        → ReceiverChain D
        → Option (List MessagePtr × ReceiverChain D × List Answer)
    incoming_of media_statistics messages c =
        elim (incoming double lib reports clock at.arrivals at.feedback_us messages c.stats_handler
          c.noted) [
            | none ↦ none
            | some (h, s, sent) ↦
                some (messages, record c { stats_handler = h; noted = s }, answer_of sent)
          ]
    incoming_of video_transport messages c =
        elim (receiver_incoming lib at.gathering messages c.transport_handler) [
          | none ↦ none
          | some (h, passed, effects) ↦
              some (passed, record c { transport_handler = h }, transport effects ∷ [])
        ]
    incoming_of rtx_receiving messages c =
        let (passed, h) = rtx_incoming lib messages c.rtx_handler in
        some (passed, record c { rtx_handler = h }, [])
    incoming_of (library handler) messages c = some (pass handler messages, c, [])

    -- The last handler of the chain comes first.
    unfoldable pub incoming_chain :
        List MediaHandler
        → List MessagePtr
        → ReceiverChain D
        → Option (List MessagePtr × ReceiverChain D × List Answer)
    incoming_chain [] messages c = some (messages, c, [])
    incoming_chain (handler ∷ chain) messages c = elim (incoming_chain chain messages c) [
      | none ↦ none
      | some (passed, c', answers) ↦ elim (incoming_of handler passed c') [
        | none ↦ none
        | some (passed', c'', more) ↦ some (passed', c'', answers ++ more)
      ]
    ]
