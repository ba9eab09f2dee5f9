-- ===== src/Transport/Receive/Delivery.antt =====
-- What a receiver passes up, and the packets of its frames.
use web_rtc_weak_network_vid.Common.{
  ℕ, zero, suc, ◌+◌, ◌<◌, ◌≡◌, refl, ◌⊎◌, inl, inr, true, false, Option, none, some, List, [], ◌∷◌,
  ◌++◌, arith, length, get_elem?, Bool-cases, Option-cases,
}
use web_rtc_weak_network_vid.Rtc.{RtpLib, Message, MessagePtr, is_rtp}
use web_rtc_weak_network_vid.Transport.State.{Handler, FrameAssembly, complete, all_present}
use web_rtc_weak_network_vid.Transport.Metadata.{FrameMetadata, read_frame_metadata}
use web_rtc_weak_network_vid.Transport.Gate.Buffer.{IsAssembly, IsBuffer, Slots, slot_metadata}
use web_rtc_weak_network_vid.Transport.Gate.Invariant.{process_receiver_packet-IsBuffer}
use web_rtc_weak_network_vid.Transport.Drain.{
  Effect, drain_synchronized, drain_unsynchronized, drain_complete_frames,
}
use web_rtc_weak_network_vid.Transport.Drain.Synchronized.{
  packets_of, Delivers, Waits, drain_synchronized-Drained,
}
use web_rtc_weak_network_vid.Transport.Drain.Resync.{Resynced, drain_unsynchronized-Resynced}
use web_rtc_weak_network_vid.Transport.Nack.Poll.{receiver_poll-IsBuffer}
use web_rtc_weak_network_vid.Transport.Receive.{Clock, receive_loop, receiver_incoming}

module _ (lib : RtpLib) (at_us : ℕ) (h : Handler) (v : IsBuffer lib h) where
  -- If the receiver's buffer is in order, and it is synchronized and has a next frame, then the
  -- drain returns without a callback or a message. What it passes on are the packets of a run of
  -- complete frames of the buffer, from the next one on in order. After it, the receiver has lost
  -- synchronization, or its next frame is not there, or it is incomplete and not timed out. The
  -- buffer is in order after it.
  pub drain_complete_frames-synchronized :
      (next : ℕ)
      → h.stats.synchronized ≡ true
      → h.next_output_frame_id ≡ some next
      → (after : Handler) × (delivered : List FrameAssembly) × (drain_complete_frames at_us h
          ≡ some (after, packets_of delivered, []))
        × Delivers h.frames next delivered
        × ((after.stats.synchronized ≡ false) ⊎ Waits at_us after)
        × IsBuffer lib after
  unfolding drain_complete_frames
  drain_complete_frames-synchronized next s n =
      let r = drain_synchronized-Drained lib at_us h next n v in
      (r.after, r.delivered, ground (arith, s, r.returns), r.in_order, r.settled, r.buffer)

  -- If the receiver's buffer is in order and the receiver is not synchronized, then the drain
  -- returns with one of two outcomes: it passes nothing on and stays unsynchronized, or it passes
  -- on the packets of one complete keyframe of the buffer, sends the acknowledgement of it, is
  -- synchronized, and waits for the frame after it. The buffer is in order after it.
  pub drain_complete_frames-unsynchronized :
      h.stats.synchronized ≡ false
      → (result : Handler × List MessagePtr × List Effect) × (drain_complete_frames at_us h
          ≡ some result)
        × Resynced lib h result
  unfolding drain_complete_frames
  drain_complete_frames-unsynchronized s = (
    drain_unsynchronized at_us h,
    rw (s, drain_complete_frames),
    drain_unsynchronized-Resynced lib at_us h v,
  )

  drain_complete_frames-IsBuffer :
      (h' : Handler) × (ready : List MessagePtr) × (effects : List Effect) × (drain_complete_frames
          at_us h
        ≡ some (h', ready, effects))
      × IsBuffer lib h'
  drain_complete_frames-IsBuffer = elim (Bool-cases h.stats.synchronized) [
    | inr s ↦ let (r, e, w) = drain_complete_frames-unsynchronized s in (r.0, r.1, r.2, e, w.buffer)
    | inl s ↦ elim (Option-cases h.next_output_frame_id) [
      | inl n ↦
          (h, [], [], unfold drain_complete_frames drain_synchronized in ground (arith, s, n), v)
      | inr (next, n) ↦
          let (h', d, e, _, _, w) = drain_complete_frames-synchronized next s n in
          (h', packets_of d, [], e, w)
    ]
  ]

module _ (lib : RtpLib) where
  receive_loop-IsBuffer :
      (clock : ℕ → ℕ → ℕ) (i : ℕ) (messages : List MessagePtr) (h : Handler)
      → ((i k : ℕ) → 0 < clock i k)
      → IsBuffer lib h
      → (h' : Handler) × (control : List MessagePtr) × (receive_loop lib clock i messages h
          ≡ some (h', control))
        × IsBuffer lib h'
  unfolding receive_loop
  receive_loop-IsBuffer clock i [] h later v = (h, [], refl, v)
  receive_loop-IsBuffer clock i (message ∷ messages) h later v =
      elim (Bool-cases (is_rtp lib message)) [
        | inr other ↦
            let (h', control, e, w) = receive_loop-IsBuffer clock (i + 1) messages h later v in
            (h', message ∷ control, ground (arith, other, e), w)
        | inl rtp ↦
            let (h₁, e₁, w₁) =
              process_receiver_packet-IsBuffer lib (clock i) message h (later i) v in
            let (h', control, e, w) = receive_loop-IsBuffer clock (i + 1) messages h₁ later w₁ in
            (h', control, ground (arith, rtp, e₁, e), w)
      ]

  -- If the receiver's buffer is in order and `now_us()` reads more than 0, then whatever messages
  -- arrive, `receiver_incoming` returns: no access is out of range, no empty optional is read and
  -- no loop runs out of fuel. The buffer is in order after it.
  pub receiver_incoming-IsBuffer :
      (clock : Clock) (messages : List MessagePtr) (h : Handler)
      → ((i k : ℕ) → 0 < clock.packet i k)
      → IsBuffer lib h
      → (h' : Handler) × (passed : List MessagePtr) × (effects : List Effect) × (receiver_incoming
            lib clock messages h
          ≡ some (h', passed, effects))
        × IsBuffer lib h'
  unfolding receiver_incoming
  receiver_incoming-IsBuffer clock messages h later v =
      let (a, control, e, w) =
        receive_loop-IsBuffer clock.packet 0 messages (record h { receiver_send = true }) later v in
      let (b, ready, effects, f, x) = drain_complete_frames-IsBuffer lib clock.drain_us a w in
      let (c, nacks, g, y) = receiver_poll-IsBuffer lib clock.poll_us b x in
      (c, control ++ ready, effects ++ nacks, ground (arith, e, f, g), y)

  Slots-all_present :
      (expected : ℕ → FrameMetadata) (i j : ℕ) (packets : List MessagePtr)
      → Slots lib expected i packets
      → all_present packets ≡ true
      → j < length packets
      → (message : Message) × (get_elem? packets j ≡ some (some message))
        × (read_frame_metadata lib (some message) ≡ some (expected (i + j)))
  Slots-all_present expected i j [] s p h = absurd (omega arith)
  Slots-all_present expected i j (none ∷ packets) s p h = cc
  Slots-all_present expected i zero (some message ∷ packets) s p h =
      let z : i + 0 ≡ i = omega arith in (message, refl, rw z s.0)
  Slots-all_present expected i (suc j) (some message ∷ packets) s p h =
      let z : i + suc j ≡ i + 1 + j = omega arith in
      let (m, e, f) = Slots-all_present expected (i + 1) j packets s.1 p (omega arith) in
      (m, e, rw z f)

  -- If an assembly of the buffer is in order and complete, then each of its slots holds a packet,
  -- and the metadata in that packet are the epoch, the frame number, the count and the keyframe
  -- flag of the frame with the slot's number as the index.
  complete_frame_packets :
      (epoch : Option ℕ) (k i : ℕ) (frame : FrameAssembly)
      → IsAssembly lib epoch k frame
      → complete frame ≡ true
      → i < frame.packet_count
      → (message : Message) × (get_elem? frame.packets i ≡ some (some message))
        × (read_frame_metadata lib (some message) ≡ some (slot_metadata frame i))
  unfolding complete
  complete_frame_packets epoch k i frame v c h =
      let z : 0 + i ≡ i = omega arith in
      let (m, e, f) =
        Slots-all_present (slot_metadata frame) 0 i frame.packets v.right_slots (ground arith)
          (omega (arith, v.all_slots)) in
      (m, e, rw z at f)
