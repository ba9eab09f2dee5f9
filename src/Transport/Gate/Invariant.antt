-- ===== src/Transport/Gate/Invariant.antt =====
-- What taking in a packet does to the receiver's buffer.
use web_rtc_weak_network_vid.Common.{
  ℕ, ◌+◌, ◌-◌, ◌<◌, ◌≡◌, refl, sym, ap, subst, ◌∙◌, false, ◌||◌, inl, inr, Option, none, some, [],
  arith, ◌==◌, leb, if◌then◌else◌, set, length-replicate, length-set, Bool-cases, Option-cases,
  get_elem?_below,
}
use web_rtc_weak_network_vid.Common.Maps.{
  find, put, erase, find-Entries, put-Entries, erase-Entries, find-put, length-erase-lt,
  put-Ascending, erase-Ascending, length-put-le,
}
use web_rtc_weak_network_vid.Rtc.{RtpLib, Message, MessagePtr}
use web_rtc_weak_network_vid.Transport.Metadata.{FrameMetadata, read_frame_metadata}
use web_rtc_weak_network_vid.Transport.State.{
  Handler, FrameAssembly, default_assembly, mark_unsynchronized, is_present,
}
use web_rtc_weak_network_vid.Transport.Gate.{
  enter_epoch, start_output, placeholders_loop, evict, open_frame, mismatch, store_packet,
  add_to_frame, add_placeholders, frame_of_packet, accept_packet, process_receiver_packet,
}
use web_rtc_weak_network_vid.Transport.Gate.Buffer.{
  slot_metadata, IsAssembly, IsFrames, IsBuffer, Slots-replicate, Slots-set, resize_nil,
  placeholders_loop-IsFrames, evict_loop-keeps,
}

module _ (lib : RtpLib) where
  module _ (clock : ℕ → ℕ) (later : (k : ℕ) → 0 < clock k) (message : Message)
      (metadata : FrameMetadata) {epoch : Option ℕ} (own : some metadata.epoch ≡ epoch)
      (reads : read_frame_metadata lib (some message) ≡ some metadata)
      (counted : metadata.packet_index < metadata.packet_count) where
    -- A frame that is opened for the packet has its slots, all empty; one of the buffer stays.
    open_default-IsAssembly :
        IsAssembly lib epoch metadata.frame_id
          (open_frame lib clock message metadata default_assembly)
    unfolding open_frame
    open_default-IsAssembly =
        let empty = resize_nil lib metadata.packet_count in
        record {
          own_key = refl;
          own_epoch = own;
          seen = later metadata.frame_id;
          all_slots = rw empty (length-replicate metadata.packet_count none);
          right_slots = rw empty (Slots-replicate lib _ 0 metadata.packet_count);
        }

    open_frame-same :
        (frame : FrameAssembly)
        → 0 < frame.first_seen_us
        → open_frame lib clock message metadata frame ≡ frame
    unfolding open_frame
    open_frame-same frame h = ground arith

    -- A frame that matches the packet takes it, with no access out of range.
    store_packet-IsAssembly :
        (frame : FrameAssembly)
        → IsAssembly lib epoch metadata.frame_id frame
        → mismatch lib clock message metadata frame ≡ false
        → (stored : FrameAssembly) × (store_packet lib clock message metadata frame ≡ some stored)
          × IsAssembly lib epoch metadata.frame_id stored
    unfolding store_packet mismatch
    store_packet-IsAssembly frame v same =
        let (slot, there) =
          get_elem?_below frame.packets metadata.packet_index (ground (arith, v.all_slots)) in
        let stored = set frame.packets metadata.packet_index (some message) in
        let expected : metadata ≡ slot_metadata frame (0 + metadata.packet_index) =
          ground (arith, v.own_key) in
        (
          record frame {
            packets = if is_present slot then frame.packets else stored;
            marker_seen = frame.marker_seen || lib.marker message.bytes;
          },
          rw (there, store_packet),
          record {
            own_key = v.own_key;
            own_epoch = v.own_epoch;
            seen = v.seen;
            all_slots =
                ground (
                  arith,
                  v.all_slots,
                  length-set frame.packets metadata.packet_index (some message),
                );
            right_slots = elim (Bool-cases (is_present slot)) [
              | inl old ↦ rw old v.right_slots
              | inr new ↦ rw new (
                  Slots-set lib (slot_metadata frame) 0 metadata.packet_index frame.packets message
                    v.right_slots (reads ∙ ap some expected))
            ];
          },
        )

    -- The last step: the packet is stored and the buffer is brought back into bounds, or the frame
    -- that does not match is given up.
    add_to_frame-IsBuffer :
        (frame : FrameAssembly) (h : Handler)
        → h.receiver_epoch ≡ epoch
        → IsAssembly lib epoch metadata.frame_id frame
        → IsFrames lib epoch h.frames
        → (h' : Handler) × (add_to_frame lib clock message metadata frame h ≡ some h')
          × (h'.receiver_epoch ≡ epoch)
          × IsFrames lib epoch h'.frames
    unfolding add_to_frame mark_unsynchronized
    add_to_frame-IsBuffer frame h e f v =
        let k = metadata.frame_id in
        elim (Bool-cases (mismatch lib clock message metadata frame)) [
          | inl differs ↦
              let frames = put k frame h.frames in
              let there : find k frames ≡ some frame = rw find-put (ground arith) in
              let ascending = put-Ascending k 0 frame h.frames v.ascending (omega arith) in
              (
                record (mark_unsynchronized h) { frames = erase k frames },
                rw differs,
                e,
                record {
                  bounded = omega (
                    arith,
                    v.bounded,
                    length-put-le k frame h.frames,
                    length-erase-lt k frames frame there,
                  );
                  ascending = erase-Ascending k 0 frames ascending;
                  assemblies =
                      erase-Entries (IsAssembly lib epoch) k frames
                        (put-Entries (IsAssembly lib epoch) k frame h.frames f v.assemblies);
                },
              )
          | inr same ↦
              let (stored, ok, g) = store_packet-IsAssembly frame f same in
              let next = record h { frames = put k stored h.frames } in
              let (b, c, d) =
                evict_loop-keeps lib epoch 0 next.frames h.stats.synchronized
                  (put-Ascending k 0 stored h.frames v.ascending (omega arith))
                  (put-Entries (IsAssembly lib epoch) k stored h.frames g v.assemblies) in
              (
                evict next,
                rw (same, ok, add_to_frame),
                unfold evict in e,
                unfold evict in record { bounded = b; ascending = c; assemblies = d },
              )
        ]

    frame_of_packet-IsAssembly :
        (h : Handler)
        → IsFrames lib epoch h.frames
        → IsAssembly lib epoch metadata.frame_id (frame_of_packet lib clock message metadata h)
    unfolding frame_of_packet
    frame_of_packet-IsAssembly h v = elim (Option-cases (find metadata.frame_id h.frames)) [
      | inl new ↦ rw (new, frame_of_packet) open_default-IsAssembly
      | inr (frame, old) ↦
          let f =
            find-Entries (IsAssembly lib epoch) metadata.frame_id h.frames frame v.assemblies old in
          rw (old, frame_of_packet) (rw (open_frame-same frame f.seen) f)
    ]

  empty-IsFrames : {epoch : Option ℕ} → IsFrames lib epoch []
  empty-IsFrames = record { bounded = omega arith; ascending = tt; assemblies = tt }

  enter_epoch-IsFrames :
      (metadata : FrameMetadata) (h : Handler)
      → IsBuffer lib h
      → ((enter_epoch metadata h).receiver_epoch ≡ some metadata.epoch)
        × IsFrames lib (some metadata.epoch) (enter_epoch metadata h).frames
  unfolding enter_epoch
  enter_epoch-IsFrames metadata h v = elim (Option-cases h.receiver_epoch) [
    | inl first ↦ rw (first, enter_epoch) (refl, empty-IsFrames)
    | inr (epoch, e) ↦ elim (Bool-cases (epoch == metadata.epoch)) [
      | inr other ↦ rw (e, enter_epoch, other) (refl, empty-IsFrames)
      | inl own ↦
          let same : some epoch ≡ some metadata.epoch = ground arith in
          rw (e, enter_epoch, own) (e ∙ same, subst (λ x. IsFrames lib x h.frames) (e ∙ same) v)
    ]
  ]

  -- With that done there is a next frame.
  start_output_lem :
      (metadata : FrameMetadata) (h : Handler)
      → (next : ℕ) × ((start_output metadata h).next_output_frame_id ≡ some next)
        × ((start_output metadata h).receiver_epoch ≡ h.receiver_epoch)
        × ((start_output metadata h).frames ≡ h.frames)
  unfolding start_output
  start_output_lem metadata h = elim (Option-cases h.next_output_frame_id) [
    | inl new ↦
        (metadata.frame_id, rw (new, start_output), rw (new, start_output), rw (new, start_output))
    | inr (next, old) ↦
        (next, rw (old, start_output) old, rw (old, start_output), rw (old, start_output))
  ]

  add_placeholders_lem :
      (clock : ℕ → ℕ) (metadata : FrameMetadata) (h : Handler) (next : ℕ)
      → h.next_output_frame_id ≡ some next
      → add_placeholders clock metadata h
        ≡ some (record h {
          frames = placeholders_loop clock metadata (metadata.frame_id - next) next h.frames;
        })
  unfolding add_placeholders
  add_placeholders_lem clock metadata h next e = ground arith

  accept_packet-IsBuffer :
      (clock : ℕ → ℕ) (message : Message) (metadata : FrameMetadata) (h : Handler)
      → ((k : ℕ) → 0 < clock k)
      → read_frame_metadata lib (some message) ≡ some metadata
      → metadata.packet_index < metadata.packet_count
      → IsBuffer lib h
      → (h' : Handler) × (accept_packet lib clock message metadata h ≡ some h')
        × (h'.receiver_epoch ≡ some metadata.epoch)
        × IsBuffer lib h'
  unfolding accept_packet
  accept_packet-IsBuffer clock message metadata h later reads counted v =
      let (e, f) = enter_epoch-IsFrames metadata h v in
      let entered = enter_epoch metadata h in
      let (next, a, b, c) = start_output_lem metadata entered in
      let started = start_output metadata entered in
      let frames =
        placeholders_loop clock metadata (metadata.frame_id - next) next started.frames in
      let ready = record started { frames = frames } in
      let placed = add_placeholders_lem clock metadata started next a in
      let in_order =
        placeholders_loop-IsFrames lib metadata refl clock (metadata.frame_id - next) next
          started.frames later (subst (λ x. IsFrames lib (some metadata.epoch) x) (sym c) f) in
      let (h', ok, g, w) =
        add_to_frame-IsBuffer clock later message metadata refl reads counted
          (frame_of_packet lib clock message metadata ready) ready (b ∙ e)
          (frame_of_packet-IsAssembly clock later message metadata refl reads counted ready
            in_order)
          in_order in
      (h', rw (placed, accept_packet) ok, g, subst (λ x. IsFrames lib x h'.frames) (sym g) w)

  -- If the receiver's buffer is in order and `now_us()` reads more than 0, then taking in any
  -- message, or a null one, returns without an access out of range, and the buffer is in order
  -- again: at most 64 frames under ascending numbers, each under its own number and of the
  -- receiver's epoch, with one slot for each packet and only packets that say so in their slots.
  pub process_receiver_packet-IsBuffer :
      (clock : ℕ → ℕ) (message : MessagePtr) (h : Handler)
      → ((k : ℕ) → 0 < clock k)
      → IsBuffer lib h
      → (h' : Handler) × (process_receiver_packet lib clock message h ≡ some h') × IsBuffer lib h'
  unfolding process_receiver_packet mark_unsynchronized
  process_receiver_packet-IsBuffer clock none h later v = (mark_unsynchronized h, refl, v)
  process_receiver_packet-IsBuffer clock (some message) h later v =
      elim (Option-cases (read_frame_metadata lib (some message))) [
        | inl unread ↦ (mark_unsynchronized h, rw (unread, process_receiver_packet), v)
        | inr (metadata, reads) ↦
            elim (Bool-cases
              (metadata.packet_count == 0 || leb metadata.packet_count metadata.packet_index)) [
                | inl bad ↦ (mark_unsynchronized h, rw (reads, process_receiver_packet, bad), v)
                | inr good ↦
                    let (h', ok, _, w) =
                      accept_packet-IsBuffer clock message metadata h later reads (ground arith)
                        v in
                    (h', rw (reads, process_receiver_packet, good) ok, w)
              ]
      ]
