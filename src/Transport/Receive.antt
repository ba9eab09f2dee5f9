-- ===== src/Transport/Receive.antt =====
-- video/video_transport_handler.cpp: `receiver_incoming`, and `poll`, on the receiver's side.
pub mod Delivery
pub mod AnyOrder
pub mod Network
pub mod Resuming
use web_rtc_weak_network_vid.Common.{
  ℕ, zero, suc, ◌+◌, Bool, true, false, not, ◌&&◌, Option, none, some, List, [], ◌∷◌, ◌++◌,
  if◌then◌else◌,
}
use web_rtc_weak_network_vid.Rtc.{RtpLib, MessagePtr, is_rtp}
use web_rtc_weak_network_vid.Transport.State.{Handler, is_sender}
use web_rtc_weak_network_vid.Transport.Gate.{process_receiver_packet}
use web_rtc_weak_network_vid.Transport.Drain.{Effect, drain_complete_frames}
use web_rtc_weak_network_vid.Transport.Nack.{receiver_poll}

-- The readings of `now_us()` in one call: `packet i k` is that for message `i` when it makes the
-- assembly of frame `k`, then one in the drain and one in the poll.
pub record Clock : Type 0 where
  pub packet : ℕ → ℕ → ℕ
  pub drain_us : ℕ
  pub poll_us : ℕ

module _ (lib : RtpLib) where
  -- The loop over the messages, from message `i` on: what is not RTP is passed on.
  unfoldable pub receive_loop :
      (ℕ → ℕ → ℕ) → ℕ → List MessagePtr → Handler → Option (Handler × List MessagePtr)
  receive_loop clock i [] h = some (h, [])
  receive_loop clock i (message ∷ messages) h =
      if not (is_rtp lib message)
      then elim (receive_loop clock (i + 1) messages h) [
        | none ↦ none
        | some (h', control) ↦ some (h', message ∷ control)
      ]
      else elim (process_receiver_packet lib (clock i) message h) [
        | none ↦ none
        | some h' ↦ receive_loop clock (i + 1) messages h'
      ]

  -- The handler, the messages that are passed up, and the effects.
  unfoldable pub receiver_incoming :
      Clock → List MessagePtr → Handler → Option (Handler × List MessagePtr × List Effect)
  receiver_incoming clock messages h =
      elim (receive_loop clock.packet 0 messages (record h { receiver_send = true })) [
        | none ↦ none
        | some (filled, control) ↦ elim (drain_complete_frames clock.drain_us filled) [
          | none ↦ none
          | some (drained, ready, effects) ↦ elim (receiver_poll clock.poll_us drained) [
            | none ↦ none
            | some (polled, nacks) ↦ some (polled, control ++ ready, effects ++ nacks)
          ]
        ]
      ]

-- `poll`, on either side: the receiver polls once it has been given a way to send.
unfoldable pub poll : ℕ → Handler → Option (Handler × List Effect)
poll at_us h =
    if not (is_sender h.direction) && h.receiver_send then receiver_poll at_us h else some (h, [])
