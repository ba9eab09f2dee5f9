-- ===== src/Transport/Gate/Awaited.antt =====
-- A packet of the frame that the receiver waits for, in the epoch that it is in: the blocks before the
-- frame is looked up change nothing.
use web_rtc_weak_network_vid.Common.{ℕ, ◌-◌, ◌<◌, ◌≡◌, refl, ap, ◌∙◌, Option, none, some, arith}
use web_rtc_weak_network_vid.Rtc.{RtpLib, Message}
use web_rtc_weak_network_vid.Transport.Metadata.{FrameMetadata, read_frame_metadata}
use web_rtc_weak_network_vid.Transport.State.{Handler}
use web_rtc_weak_network_vid.Transport.Gate.{
  enter_epoch, start_output, placeholders_loop, add_to_frame, frame_of_packet, add_placeholders,
  accept_packet, process_receiver_packet,
}

module _ (lib : RtpLib) (clock : ℕ → ℕ) (message : Message) (metadata : FrameMetadata) (h : Handler)
    (reads : read_frame_metadata lib (some message) ≡ some metadata)
    (counted : metadata.packet_index < metadata.packet_count)
    (in_epoch : h.receiver_epoch ≡ some metadata.epoch)
    (awaited : h.next_output_frame_id ≡ some metadata.frame_id) where
  enter_epoch_same : enter_epoch metadata h ≡ h
  unfolding enter_epoch
  enter_epoch_same = ground arith

  start_output_same : start_output metadata h ≡ h
  unfolding start_output
  start_output_same = ground arith

  add_placeholders_none : add_placeholders clock metadata h ≡ some h
  unfolding add_placeholders
  add_placeholders_none =
      let z : metadata.frame_id - metadata.frame_id ≡ 0 = omega arith in
      ap
        (λ (next : Option ℕ). elim next [
          | none ↦ none
          | some k ↦ some (record h {
            frames = placeholders_loop clock metadata (metadata.frame_id - k) k h.frames;
          })
        ])
        awaited
      ∙ rw z refl

  accept_packet_awaited :
      accept_packet lib clock message metadata h
      ≡ add_to_frame lib clock message metadata (frame_of_packet lib clock message metadata h) h
  unfolding accept_packet
  accept_packet_awaited =
      ap
        (λ (r : Option Handler). elim r [
          | none ↦ none
          | some ready ↦
              add_to_frame lib clock message metadata
                (frame_of_packet lib clock message metadata ready) ready
        ])
        (ap (λ (x : Handler). add_placeholders clock metadata (start_output metadata x))
            enter_epoch_same
          ∙ ap (λ (x : Handler). add_placeholders clock metadata x) start_output_same
          ∙ add_placeholders_none)

  -- Only the frame of the packet is touched.
  pub process_receiver_packet_awaited :
      process_receiver_packet lib clock (some message) h
      ≡ add_to_frame lib clock message metadata (frame_of_packet lib clock message metadata h) h
  unfolding process_receiver_packet
  process_receiver_packet_awaited =
      rw (reads, process_receiver_packet) (ground (arith, accept_packet_awaited))
