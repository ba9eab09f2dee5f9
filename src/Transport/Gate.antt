-- ===== src/Transport/Gate.antt =====
-- video/video_transport_handler.cpp: the receiver's frame gate. `process_receiver_packet` puts a
-- packet into the assembly of its frame, and `drain_complete_frames` lets whole frames through.
-- `none` is a fault: an access that C++ leaves undefined, or a loop out of fuel.
pub mod Buffer
pub mod Invariant
pub mod Awaited
pub mod Late
pub mod Gathering
use web_rtc_weak_network_vid.Common.{
  ℕ, zero, suc, ◌+◌, ◌-◌, ◌%◌, ◌^◌, Bool, true, false, not, ◌&&◌, ◌||◌, Option, none, some, List,
  [], ◌∷◌, ◌++◌, ◌==◌, ltb, leb, if◌then◌else◌, length, take, replicate, get_elem?, set,
}
use web_rtc_weak_network_vid.Common.Words.{sub16, be16, be32}
use web_rtc_weak_network_vid.Common.Maps.{NatMap, find, put, erase}
use web_rtc_weak_network_vid.Rtc.{RtpLib, Message, MessagePtr}
use web_rtc_weak_network_vid.Transport.Metadata.{FrameMetadata, read_frame_metadata}
use web_rtc_weak_network_vid.Transport.State.{
  Handler, FrameAssembly, default_assembly, complete, mark_unsynchronized, set_synchronized,
  max_buffered_frames, inc64, is_present,
}

-- The two blocks before the frame is looked up: a new epoch forgets all frames.
unfoldable pub enter_epoch : FrameMetadata → Handler → Handler
unfolding mark_unsynchronized
enter_epoch metadata h =
    let fresh = mark_unsynchronized (record h {
      frames = [];
      receiver_epoch = some metadata.epoch;
      next_output_frame_id = some metadata.frame_id;
    }) in
    elim h.receiver_epoch [
      | none ↦ fresh
      | some epoch ↦ if epoch == metadata.epoch then h else fresh
    ]

unfoldable pub start_output : FrameMetadata → Handler → Handler
start_output metadata h = elim h.next_output_frame_id [
  | none ↦ record h { next_output_frame_id = some metadata.frame_id }
  | some next ↦ h
]

-- An assembly for a frame of which no packet came yet.
abbrev pub placeholder : FrameMetadata → ℕ → ℕ → FrameAssembly
placeholder metadata missing now = record default_assembly {
  epoch = metadata.epoch;
  frame_id = missing;
  first_seen_us = now;
}

-- `try_emplace`, and the fields that are set if it inserted.
abbrev pub emplace : FrameMetadata → ℕ → ℕ → NatMap FrameAssembly → NatMap FrameAssembly
emplace metadata missing now frames = elim (find missing frames) [
  | none ↦ put missing (placeholder metadata missing now) frames
  | some frame ↦ frames
]

-- The loop from `missing` on; `rounds` is what is left up to the frame of the packet. `clock k` is
-- the reading of `now_us()` when the assembly of frame `k` is made.
unfoldable pub placeholders_loop :
    (ℕ → ℕ) → FrameMetadata → ℕ → ℕ → NatMap FrameAssembly → NatMap FrameAssembly
placeholders_loop clock metadata zero missing frames = frames
placeholders_loop clock metadata (suc rounds) missing frames =
    let more =
      placeholders_loop clock metadata rounds (missing + 1)
        (emplace metadata missing (clock missing) frames) in
    if ltb (length frames) max_buffered_frames then more else frames

-- `metadata->frame_id > *next_output_frame_id_`, and the loop.
unfoldable pub add_placeholders : (ℕ → ℕ) → FrameMetadata → Handler → Option Handler
unfolding placeholders_loop
add_placeholders clock metadata h = elim h.next_output_frame_id [
  | none ↦ none
  | some next ↦ some (record h {
    frames = placeholders_loop clock metadata (metadata.frame_id - next) next h.frames;
  })
]

-- `while (frames_.size() > kMaxBufferedFrames)`: the frames that stay, and `synchronized`.
unfoldable pub evict_loop : NatMap FrameAssembly → Bool → NatMap FrameAssembly × Bool
evict_loop [] synchronized = ([], synchronized)
evict_loop (e ∷ frames) synchronized =
    let next = evict_loop frames false in
    if ltb max_buffered_frames (length (e ∷ frames)) then next else (e ∷ frames, synchronized)

unfoldable pub evict : Handler → Handler
unfolding evict_loop
evict h =
    let (frames, synchronized) = evict_loop h.frames h.stats.synchronized in
    set_synchronized synchronized (record h { frames = frames })

-- `packets.resize(count)`
abbrev pub resize : ℕ → List MessagePtr → List MessagePtr
resize count packets = take count packets ++ replicate (count - length packets) none

abbrev pub is_some {ℓ} : {A : Type ℓ} → Option A → Bool
is_some none = false
is_some (some a) = true

module _ (lib : RtpLib) (clock : ℕ → ℕ) (message : Message) (metadata : FrameMetadata) where
  -- `if (frame.first_seen_us == 0) { … }`
  unfoldable pub open_frame : FrameAssembly → FrameAssembly
  open_frame frame =
      if frame.first_seen_us == 0
      then record frame {
        epoch = metadata.epoch;
        frame_id = metadata.frame_id;
        packet_count = metadata.packet_count;
        keyframe = metadata.keyframe;
        first_seen_us = clock metadata.frame_id;
        packets = resize metadata.packet_count frame.packets;
        first_sequence = sub16 (lib.seq_number message.bytes) metadata.packet_index;
      }
      else frame

  unfoldable pub mismatch : FrameAssembly → Bool
  mismatch frame =
      not (frame.packet_count == metadata.packet_count)
      || not (frame.epoch == metadata.epoch)
      || not (if frame.keyframe then metadata.keyframe else not metadata.keyframe)

  -- The packet goes into its slot, if that is empty, and the marker is noted.
  unfoldable pub store_packet : FrameAssembly → Option FrameAssembly
  store_packet frame = elim (get_elem? frame.packets metadata.packet_index) [
    | none ↦ none
    | some slot ↦ some (record frame {
      packets =
          if is_present slot
          then frame.packets
          else set frame.packets metadata.packet_index (some message);
      marker_seen = frame.marker_seen || lib.marker message.bytes;
    })
  ]

  -- From the comparison of the frame with the packet on.
  unfoldable pub add_to_frame : FrameAssembly → Handler → Option Handler
  unfolding mismatch store_packet mark_unsynchronized evict
  add_to_frame frame h =
      if mismatch frame
      then some (record (mark_unsynchronized h) {
        frames = erase metadata.frame_id (put metadata.frame_id frame h.frames);
      })
      else elim (store_packet frame) [
        | none ↦ none
        | some stored ↦ some (evict (record h { frames = put metadata.frame_id stored h.frames }))
      ]

  -- `frames_[metadata->frame_id]`, and the block that opens it.
  unfoldable pub frame_of_packet : Handler → FrameAssembly
  unfolding open_frame
  frame_of_packet h = elim (find metadata.frame_id h.frames) [
    | none ↦ open_frame default_assembly
    | some frame ↦ open_frame frame
  ]

  unfoldable pub accept_packet : Handler → Option Handler
  unfolding enter_epoch start_output add_placeholders frame_of_packet add_to_frame
  accept_packet h =
      elim (add_placeholders clock metadata (start_output metadata (enter_epoch metadata h))) [
        | none ↦ none
        | some ready ↦ add_to_frame (frame_of_packet ready) ready
      ]

module _ (lib : RtpLib) (clock : ℕ → ℕ) where
  unfoldable pub process_receiver_packet : MessagePtr → Handler → Option Handler
  unfolding accept_packet mark_unsynchronized
  process_receiver_packet none h = some (mark_unsynchronized h)
  process_receiver_packet (some message) h = elim (read_frame_metadata lib (some message)) [
    | none ↦ some (mark_unsynchronized h)
    | some metadata ↦
        if metadata.packet_count == 0 || leb metadata.packet_count metadata.packet_index
        then some (mark_unsynchronized h)
        else accept_packet lib clock message metadata h
  ]
