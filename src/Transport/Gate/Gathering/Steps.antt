-- ===== src/Transport/Gate/Gathering/Steps.antt =====
-- One packet after the other is put into its slot of the frame that the receiver waits for.
use web_rtc_weak_network_vid.Common.{
  ℕ, ◌+◌, ◌≤◌, ◌<◌, ◌≡◌, ◌∙◌, refl, sym, ap, subst, Bool, true, false, ◌||◌, none, some, List, [],
  ◌∷◌, arith, ltb, if◌then◌else◌, length, get_elem?, set,
}
use web_rtc_weak_network_vid.Common.Maps.{
  NatMap, find, put, find-put, length-put-le, length-put_there,
}
use web_rtc_weak_network_vid.Rtc.{RtpLib, Message, MessagePtr}
use web_rtc_weak_network_vid.Transport.Metadata.{FrameMetadata, read_frame_metadata}
use web_rtc_weak_network_vid.Transport.State.{
  Handler, FrameAssembly, default_assembly, max_buffered_frames, is_present, set_synchronized,
}
use web_rtc_weak_network_vid.Transport.Gate.{
  evict_loop, evict, open_frame, mismatch, store_packet, add_to_frame, frame_of_packet,
  process_receiver_packet,
}
use web_rtc_weak_network_vid.Transport.Gate.Buffer.{IsBuffer, resize_nil}
use web_rtc_weak_network_vid.Transport.Gate.Invariant.{process_receiver_packet-IsBuffer}
use web_rtc_weak_network_vid.Transport.Gate.Awaited.{process_receiver_packet_awaited}
use web_rtc_weak_network_vid.Transport.Gate.Gathering.{
  occurs, mask, set-mask, mask_slot, mask-none, set_self,
}

evict_loop_fits :
    (frames : NatMap FrameAssembly) (b : Bool)
    → length frames ≤ max_buffered_frames
    → evict_loop frames b ≡ (frames, b)
unfolding evict_loop
evict_loop_fits [] b fits = refl
evict_loop_fits (e ∷ frames) b fits =
    let few : ltb max_buffered_frames (length (e ∷ frames)) ≡ false = ground arith in rw few refl

evict_fits : (h : Handler) → length h.frames ≤ max_buffered_frames → evict h ≡ h
unfolding evict
evict_fits h fits =
    ap (λ (r : NatMap FrameAssembly × Bool). set_synchronized r.1 (record h { frames = r.0 }))
      (evict_loop_fits h.frames h.stats.synchronized fits)

if_present :
    (seen : Bool) (packets : List MessagePtr) (j : ℕ) (message : Message)
    → get_elem? packets j ≡ some (if seen then some message else none)
    → (if is_present (if seen then some message else none)
        then packets
        else set packets j (some message))
      ≡ set packets j (some message)
if_present true packets j message e = sym (set_self packets j (some message) e)
if_present false packets j message e = refl

-- The metadata of the packets of one frame.
pub record Frame : Type 0 where
  pub epoch : ℕ
  pub frame_id : ℕ
  pub keyframe : Bool
  pub packets : List MessagePtr

abbrev pub expected : Frame → ℕ → FrameMetadata
expected f j = record {
  epoch = f.epoch;
  frame_id = f.frame_id;
  packet_index = j;
  packet_count = length f.packets;
  keyframe = f.keyframe;
}

-- The receiver is synchronized and waits for the frame.
pub record Awaits (lib : RtpLib) (f : Frame) (h : Handler) : Type 0 where
  pub in_epoch : h.receiver_epoch ≡ some f.epoch
  pub awaited : h.next_output_frame_id ≡ some f.frame_id
  pub in_sync : h.stats.synchronized ≡ true
  pub buffer : IsBuffer lib h

-- The packets with the numbers in `got` are in their slots.
pub record IsPartial (f : Frame) (got : List ℕ) (frame : FrameAssembly) : Type 0 where
  pub own_epoch : frame.epoch ≡ f.epoch
  pub own_count : frame.packet_count ≡ length f.packets
  pub own_keyframe : frame.keyframe ≡ f.keyframe
  pub seen : 0 < frame.first_seen_us
  pub slots : frame.packets ≡ mask got 0 f.packets

module _ (lib : RtpLib) (f : Frame) (clock : ℕ → ℕ) (later : (k : ℕ) → 0 < clock k) (j : ℕ)
    (message : Message) (reads : read_frame_metadata lib (some message) ≡ some (expected f j))
    (at_slot : get_elem? f.packets j ≡ some (some message)) (counted : j < length f.packets) where
  open_default-IsPartial :
      IsPartial f [] (open_frame lib clock message (expected f j) default_assembly)
  unfolding open_frame
  open_default-IsPartial = record {
    own_epoch = refl;
    own_count = refl;
    own_keyframe = refl;
    seen = later f.frame_id;
    slots = resize_nil lib (length f.packets) ∙ sym (mask-none 0 f.packets);
  }

  open_frame_seen :
      (frame : FrameAssembly)
      → 0 < frame.first_seen_us
      → open_frame lib clock message (expected f j) frame ≡ frame
  unfolding open_frame
  open_frame_seen frame seen = ground arith

  matches :
      (got : List ℕ) (frame : FrameAssembly)
      → IsPartial f got frame
      → mismatch lib clock message (expected f j) frame ≡ false
  unfolding mismatch
  matches got frame v = ground (arith, v.own_epoch, v.own_count, v.own_keyframe)

  store_packet-IsPartial :
      (got : List ℕ) (frame : FrameAssembly)
      → IsPartial f got frame
      → (stored : FrameAssembly) × (store_packet lib clock message (expected f j) frame
          ≡ some stored)
        × IsPartial f (j ∷ got) stored
  unfolding store_packet
  store_packet-IsPartial got frame v =
      let slot = if occurs (0 + j) got then some message else none in
      let z : 0 + j ≡ j = omega arith in
      let there : get_elem? frame.packets j ≡ some slot =
        rw v.slots (mask_slot got 0 j f.packets (some message) at_slot) in
      (
        record frame {
          packets = if is_present slot then frame.packets else set frame.packets j (some message);
          marker_seen = frame.marker_seen || lib.marker message.bytes;
        },
        rw (there, store_packet) refl,
        record {
          own_epoch = v.own_epoch;
          own_count = v.own_count;
          own_keyframe = v.own_keyframe;
          seen = v.seen;
          slots =
              if_present (occurs (0 + j) got) frame.packets j message there
              ∙ ap (λ (p : List MessagePtr). set p j (some message)) v.slots
              ∙ set-mask got 0 j f.packets (some message) at_slot
              ∙ ap (λ (k : ℕ). mask (k ∷ got) 0 f.packets) z;
        },
      )

  -- A frame that is in the buffer, or is put there now.
  module _ (got : List ℕ) (frame : FrameAssembly) (h : Handler) (w : Awaits lib f h)
      (found : frame_of_packet lib clock message (expected f j) h ≡ frame)
      (room : (g : FrameAssembly) → length (put f.frame_id g h.frames) ≤ max_buffered_frames)
      (v : IsPartial f got frame) where
    gather_stored :
        (stored : FrameAssembly)
        → store_packet lib clock message (expected f j) frame ≡ some stored
        → process_receiver_packet lib clock (some message) h
          ≡ some (record h { frames = put f.frame_id stored h.frames })
    unfolding add_to_frame
    gather_stored stored ok =
        process_receiver_packet_awaited lib clock message (expected f j) h reads counted w.in_epoch
          w.awaited
        ∙ ap (λ (x : FrameAssembly). add_to_frame lib clock message (expected f j) x h) found
        ∙ rw (matches got frame v, ok, add_to_frame)
            (ap some
              (evict_fits (record h { frames = put f.frame_id stored h.frames }) (room stored)))

    gather :
        (h' : Handler) × (stored : FrameAssembly) × (process_receiver_packet lib clock
            (some message)
            h
          ≡ some h')
        × Awaits lib f h'
        × (find f.frame_id h'.frames ≡ some stored)
        × IsPartial f (j ∷ got) stored
    gather =
        let (stored, ok, p) = store_packet-IsPartial got frame v in
        let after = record h { frames = put f.frame_id stored h.frames } in
        let e = gather_stored stored ok in
        let (h', same, ordered) =
          process_receiver_packet-IsBuffer lib clock (some message) h later w.buffer in
        let known : h' ≡ after = cc (e, same) in
        (
          after,
          stored,
          e,
          record {
            in_epoch = w.in_epoch;
            awaited = w.awaited;
            in_sync = w.in_sync;
            buffer = subst (λ (x : Handler). IsBuffer lib x) known ordered;
          },
          find-put f.frame_id f.frame_id stored h.frames ∙ ground arith,
          p,
        )

  -- The first packet of the frame makes its entry.
  pub gather_first :
      (h : Handler)
      → Awaits lib f h
      → find f.frame_id h.frames ≡ none
      → length h.frames < max_buffered_frames
      → (h' : Handler) × (stored : FrameAssembly) × (process_receiver_packet lib clock
            (some message)
            h
          ≡ some h')
        × Awaits lib f h'
        × (find f.frame_id h'.frames ≡ some stored)
        × IsPartial f (j ∷ []) stored
  unfolding frame_of_packet
  gather_first h w absent room =
      gather [] (open_frame lib clock message (expected f j) default_assembly) h w
        (rw (absent, frame_of_packet) refl)
        (λ g. omega (arith, room, length-put-le f.frame_id g h.frames)) open_default-IsPartial

  pub gather_more :
      (got : List ℕ) (frame : FrameAssembly) (h : Handler)
      → Awaits lib f h
      → find f.frame_id h.frames ≡ some frame
      → IsPartial f got frame
      → (h' : Handler) × (stored : FrameAssembly) × (process_receiver_packet lib clock
            (some message)
            h
          ≡ some h')
        × Awaits lib f h'
        × (find f.frame_id h'.frames ≡ some stored)
        × IsPartial f (j ∷ got) stored
  unfolding frame_of_packet
  gather_more got frame h w there v =
      gather got frame h w (rw (there, frame_of_packet) (open_frame_seen frame v.seen))
        (λ g. omega (
          arith,
          w.buffer.bounded,
          length-put_there f.frame_id 0 g frame h.frames w.buffer.ascending there,
        ))
        v
