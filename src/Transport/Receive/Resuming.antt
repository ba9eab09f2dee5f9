-- ===== src/Transport/Receive/Resuming.antt =====
-- What a receiver that is out of sync passes up in one call.
use web_rtc_weak_network_vid.Common.{
  ℕ, ◌+◌, ◌<◌, ◌≡◌, ◌∙◌, ◌⊎◌, refl, sym, ap, inl, inr, Bool, true, false, Option, none, some, List,
  [], ◌∷◌, ◌++◌, arith, All, Bool-cases, Option-cases,
}
use web_rtc_weak_network_vid.Common.Maps.{NatMap, put, find-Entries}
use web_rtc_weak_network_vid.Rtc.{RtpLib, Message, MessagePtr, is_rtp}
use web_rtc_weak_network_vid.Transport.Metadata.{FrameMetadata, read_frame_metadata}
use web_rtc_weak_network_vid.Transport.State.{Handler, FrameAssembly, complete, mark_unsynchronized}
use web_rtc_weak_network_vid.Transport.Gate.{
  enter_epoch, start_output, add_placeholders, evict_loop, evict, mismatch, store_packet,
  add_to_frame, accept_packet, process_receiver_packet,
}
use web_rtc_weak_network_vid.Transport.Gate.Buffer.{IsAssembly, IsBuffer}
use web_rtc_weak_network_vid.Transport.Gate.Invariant.{process_receiver_packet-IsBuffer}
use web_rtc_weak_network_vid.Transport.Drain.{Effect}
use web_rtc_weak_network_vid.Transport.Nack.{poll_loop, receiver_poll}
use web_rtc_weak_network_vid.Transport.Nack.Poll.{receiver_poll-IsBuffer}
use web_rtc_weak_network_vid.Transport.Receive.{Clock, receive_loop, receiver_incoming}
use web_rtc_weak_network_vid.Transport.Receive.Delivery.{drain_complete_frames-unsynchronized}

-- Is the handler that a step gives in sync? `false` if it gives none.
in_sync : Option Handler → Bool
in_sync none = false
in_sync (some h) = h.stats.synchronized

sync_or : Bool → Option (Handler × List Effect) → Bool
sync_or b none = b
sync_or b (some result) = result.0.stats.synchronized

evict_loop_out : (frames : NatMap FrameAssembly) → (evict_loop frames false).1 ≡ false
unfolding evict_loop
evict_loop_out [] = refl
evict_loop_out (e ∷ frames) = ground (arith, evict_loop_out frames)

evict_out : (h : Handler) → h.stats.synchronized ≡ false → (evict h).stats.synchronized ≡ false
unfolding evict
evict_out h out = rw (out, evict) (evict_loop_out h.frames)

enter_epoch_out :
    (metadata : FrameMetadata) (h : Handler)
    → h.stats.synchronized ≡ false
    → (enter_epoch metadata h).stats.synchronized ≡ false
unfolding enter_epoch mark_unsynchronized
enter_epoch_out metadata h out = ground (arith, out)

start_output_out :
    (metadata : FrameMetadata) (h : Handler)
    → (start_output metadata h).stats.synchronized ≡ h.stats.synchronized
unfolding start_output
start_output_out metadata h = ground arith

module _ (lib : RtpLib) (clock : ℕ → ℕ) where
  add_to_frame_out :
      (message : Message) (metadata : FrameMetadata) (frame : FrameAssembly) (h : Handler)
      → h.stats.synchronized ≡ false
      → in_sync (add_to_frame lib clock message metadata frame h) ≡ false
  unfolding add_to_frame in_sync mark_unsynchronized
  add_to_frame_out message metadata frame h out =
      elim (Bool-cases (mismatch lib clock message metadata frame)) [
        | inl differs ↦ rw (differs, add_to_frame) refl
        | inr fits ↦ elim (Option-cases (store_packet lib clock message metadata frame)) [
          | inl bad ↦ rw (fits, bad, add_to_frame) refl
          | inr (stored, ok) ↦
              let grown = record h { frames = put metadata.frame_id stored h.frames } in
              let step : add_to_frame lib clock message metadata frame h ≡ some (evict grown) =
                rw (fits, ok, add_to_frame) refl in
              ap in_sync step ∙ evict_out grown out
        ]
      ]

  accept_packet_out :
      (message : Message) (metadata : FrameMetadata) (h : Handler)
      → h.stats.synchronized ≡ false
      → in_sync (accept_packet lib clock message metadata h) ≡ false
  unfolding accept_packet in_sync add_placeholders
  accept_packet_out message metadata h out =
      let started = start_output metadata (enter_epoch metadata h) in
      let still =
        start_output_out metadata (enter_epoch metadata h) ∙ enter_epoch_out metadata h out in
      elim (Option-cases started.next_output_frame_id) [
        | inl bad ↦ rw (bad, accept_packet, add_placeholders) refl
        | inr (next, ok) ↦
            rw (ok, accept_packet, add_placeholders) (add_to_frame_out message metadata _ _ still)
      ]

  process_receiver_packet_out :
      (message : MessagePtr) (h : Handler)
      → h.stats.synchronized ≡ false
      → in_sync (process_receiver_packet lib clock message h) ≡ false
  unfolding process_receiver_packet in_sync mark_unsynchronized
  process_receiver_packet_out none h out = refl
  process_receiver_packet_out (some message) h out =
      elim (Option-cases (read_frame_metadata lib (some message))) [
        | inl bad ↦ rw (bad, process_receiver_packet) refl
        | inr (metadata, ok) ↦
            rw (ok, process_receiver_packet)
              (ground (arith, accept_packet_out message metadata h out))
      ]

module _ (lib : RtpLib) where
  -- The packets of one call.
  receive_loop_out :
      (at : ℕ → ℕ → ℕ) (i : ℕ) (messages : List MessagePtr) (h : Handler)
      → ((j k : ℕ) → 0 < at j k)
      → IsBuffer lib h
      → h.stats.synchronized ≡ false
      → (h' : Handler) × (control : List MessagePtr) × (receive_loop lib at i messages h
          ≡ some (h', control))
        × IsBuffer lib h'
        × (h'.stats.synchronized ≡ false)
        × All (λ m. is_rtp lib m ≡ false) control
  unfolding receive_loop in_sync
  receive_loop_out at i [] h later v out = (h, [], refl, v, out, tt)
  receive_loop_out at i (message ∷ messages) h later v out =
      elim (Bool-cases (is_rtp lib message)) [
        | inr other ↦
            let (h', control, e, w, out', plain) =
              receive_loop_out at (i + 1) messages h later v out in
            (h', message ∷ control, ground (arith, other, e), w, out', (other, plain))
        | inl rtp ↦
            let (h₁, e₁, w₁) = process_receiver_packet-IsBuffer lib (at i) message h (later i) v in
            let out₁ = sym (ap in_sync e₁) ∙ process_receiver_packet_out lib (at i) message h out in
            let (h', control, e, w, out', plain) =
              receive_loop_out at (i + 1) messages h₁ later w₁ out₁ in
            (h', control, ground (arith, rtp, e₁, e), w, out', plain)
      ]

  poll_sync :
      (at_us : ℕ) (h h' : Handler) (nacks : List Effect)
      → receiver_poll at_us h ≡ some (h', nacks)
      → h'.stats.synchronized ≡ h.stats.synchronized
  unfolding receiver_poll sync_or
  poll_sync at_us h h' nacks e =
      let step : sync_or h.stats.synchronized (receiver_poll at_us h) ≡ h.stats.synchronized =
        elim (Option-cases (poll_loop at_us h.recovery_timeout_us h.stats.nack_packets h.frames)) [
          | inl bad ↦ rw (bad, receiver_poll) refl
          | inr (polled, ok) ↦ rw (ok, receiver_poll) refl
        ] in
      sym (ap (sync_or h.stats.synchronized) e) ∙ step

  -- What a call passes up: nothing, or the packets of a keyframe that are all there.
  abbrev pub Resumes : List MessagePtr → Bool → Type 0
  Resumes ready synchronized =
      ((ready ≡ []) × (synchronized ≡ false))
      ⊎ ((epoch : Option ℕ) × (k : ℕ) × (frame : FrameAssembly) × IsAssembly lib epoch k frame
          × (complete frame ≡ true)
          × (frame.keyframe ≡ true)
          × (ready ≡ frame.packets)
          × (synchronized ≡ true))

  pub receiver_incoming_out :
      (clock : Clock) (messages : List MessagePtr) (h : Handler)
      → ((i k : ℕ) → 0 < clock.packet i k)
      → IsBuffer lib h
      → h.stats.synchronized ≡ false
      → (h' : Handler) × (control : List MessagePtr) × (ready : List MessagePtr) × (effects : List
          Effect)
        × (receiver_incoming lib clock messages h ≡ some (h', control ++ ready, effects))
        × All (λ m. is_rtp lib m ≡ false) control
        × Resumes ready h'.stats.synchronized
        × IsBuffer lib h'
  unfolding receiver_incoming
  receiver_incoming_out clock messages h later v out =
      let (a, control, e, w, out', plain) =
        receive_loop_out clock.packet 0 messages (record h { receiver_send = true }) later v out in
      let (drained, f, resynced) =
        drain_complete_frames-unsynchronized lib clock.drain_us a w out' in
      let (c, nacks, g, y) = receiver_poll-IsBuffer lib clock.poll_us drained.0 resynced.buffer in
      let kept = poll_sync clock.poll_us drained.0 c nacks g in
      (
        c,
        control,
        drained.1,
        drained.2 ++ nacks,
        ground (arith, e, f, g),
        plain,
        elim resynced.outcome [
          | inl (nothing, _, same, _) ↦ inl (nothing, kept ∙ same ∙ out')
          | inr (k, frame, there, whole, key, packets, _, synchronized, _, _) ↦ inr (
            a.receiver_epoch,
            k,
            frame,
            find-Entries (IsAssembly lib a.receiver_epoch) k a.frames frame w.assemblies there,
            whole,
            key,
            packets,
            kept ∙ synchronized,
          )
        ],
        y,
      )
