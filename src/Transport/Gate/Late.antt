-- ===== src/Transport/Gate/Late.antt =====
-- A frame whose first packet comes after a packet of a later frame: its placeholder has no slots, so
-- it does not match the packet.
use web_rtc_weak_network_vid.Common.{ℕ, ◌<◌, ◌≡◌, refl, ap, ◌∙◌, true, false, none, some, arith}
use web_rtc_weak_network_vid.Common.Maps.{Ascending, find, put, erase, find-erase, put-Ascending}
use web_rtc_weak_network_vid.Rtc.{RtpLib, Message}
use web_rtc_weak_network_vid.Transport.Metadata.{FrameMetadata, read_frame_metadata}
use web_rtc_weak_network_vid.Transport.State.{Handler, FrameAssembly, mark_unsynchronized}
use web_rtc_weak_network_vid.Transport.Gate.{
  open_frame, mismatch, add_to_frame, frame_of_packet, process_receiver_packet,
}
use web_rtc_weak_network_vid.Transport.Gate.Awaited.{process_receiver_packet_awaited}

module _ (lib : RtpLib) (clock : ℕ → ℕ) (message : Message) (metadata : FrameMetadata) (h : Handler)
    (frame : FrameAssembly) (reads : read_frame_metadata lib (some message) ≡ some metadata)
    (counted : metadata.packet_index < metadata.packet_count)
    (in_epoch : h.receiver_epoch ≡ some metadata.epoch)
    (awaited : h.next_output_frame_id ≡ some metadata.frame_id) (ascending : Ascending 0 h.frames)
    (there : find metadata.frame_id h.frames ≡ some frame) (no_slots : frame.packet_count ≡ 0)
    (seen : 0 < frame.first_seen_us) where
  open_frame_same : open_frame lib clock message metadata frame ≡ frame
  unfolding open_frame
  open_frame_same = ground arith

  placeholder_mismatch : mismatch lib clock message metadata frame ≡ true
  unfolding mismatch
  placeholder_mismatch = ground arith

  frame_of_packet_there : frame_of_packet lib clock message metadata h ≡ frame
  unfolding frame_of_packet
  frame_of_packet_there = rw (there, frame_of_packet) open_frame_same

  late_handler : Handler
  late_handler = record (mark_unsynchronized h) {
    frames = erase metadata.frame_id (put metadata.frame_id frame h.frames);
  }

  add_to_frame_late : add_to_frame lib clock message metadata frame h ≡ some late_handler
  unfolding add_to_frame late_handler
  add_to_frame_late = rw (placeholder_mismatch, add_to_frame) refl

  process_receiver_packet_late :
      process_receiver_packet lib clock (some message) h ≡ some late_handler
  process_receiver_packet_late =
      process_receiver_packet_awaited lib clock message metadata h reads counted in_epoch awaited
      ∙ ap (λ (x : FrameAssembly). add_to_frame lib clock message metadata x h)
          frame_of_packet_there
      ∙ add_to_frame_late

  find_late : find metadata.frame_id late_handler.frames ≡ none
  unfolding late_handler
  find_late = ground (
    arith,
    find-erase metadata.frame_id metadata.frame_id 0 (put metadata.frame_id frame h.frames)
        (put-Ascending metadata.frame_id 0 frame h.frames ascending (omega arith)),
  )

  -- If a packet, with an index below its count, is of the receiver's epoch and of the frame that is
  -- to be passed on next, and the buffer holds an entry with no slots and a time for that frame, as
  -- the code makes it when a later frame comes first, then taking in the packet makes the receiver
  -- unsynchronized and drops the frame.
  pub late_packet_lem :
      (h' : Handler) × (process_receiver_packet lib clock (some message) h ≡ some h')
      × (h'.stats.synchronized ≡ false)
      × (find metadata.frame_id h'.frames ≡ none)
  unfolding late_handler mark_unsynchronized
  late_packet_lem = (late_handler, process_receiver_packet_late, refl, find_late)
