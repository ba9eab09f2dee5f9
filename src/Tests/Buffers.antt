-- ===== src/Tests/Buffers.antt =====
-- Buffers of a receiver: what comes in, what is let through, and what is asked for again.
use web_rtc_weak_network_vid.Common.{
  ℕ, ◌≡◌, ◌⊎◌, refl, Bool, true, false, none, some, List, [], ◌∷◌, ◌++◌, arith, map, if◌then◌else◌,
}
use web_rtc_weak_network_vid.Common.Words.{add16, be16, be32}
use web_rtc_weak_network_vid.Common.Maps.{NatMap, find}
use web_rtc_weak_network_vid.Rtc.{Message, MessagePtr, is_rtp}
use web_rtc_weak_network_vid.Extension.{extension_value, fixed_header_size, find_loop}
use web_rtc_weak_network_vid.Transport.Metadata.{read_frame_metadata, decode_metadata}
use web_rtc_weak_network_vid.Transport.State.{
  Handler, FrameAssembly, default_assembly, new_handler, receiver, set_synchronized, complete,
}
use web_rtc_weak_network_vid.Transport.Gate.{process_receiver_packet}
use web_rtc_weak_network_vid.Transport.Gate.Buffer.{IsAssembly, IsBuffer, slot_metadata}
use web_rtc_weak_network_vid.Transport.Gate.Invariant.{process_receiver_packet-IsBuffer}
use web_rtc_weak_network_vid.Transport.Gate.Late.{late_packet_lem}
use web_rtc_weak_network_vid.Transport.Drain.{Effect, drain_complete_frames}
use web_rtc_weak_network_vid.Transport.Drain.Synchronized.{packets_of, Delivers, Waits}
use web_rtc_weak_network_vid.Transport.Drain.Resync.{Resynced}
use web_rtc_weak_network_vid.Transport.Nack.{Group, nack_groups}
use web_rtc_weak_network_vid.Transport.Nack.Groups.{all_requested, empty_slots, nack_groups_lem}
use web_rtc_weak_network_vid.Transport.Receive.{Clock, receiver_incoming}
use web_rtc_weak_network_vid.Transport.Receive.Delivery.{
  drain_complete_frames-synchronized, drain_complete_frames-unsynchronized,
  receiver_incoming-IsBuffer,
}
use web_rtc_weak_network_vid.Tests.Rfc.{rfc_lib}

-- A packet with the marker and the metadata of a frame of epoch 2.
abbrev frame_packet : ℕ → ℕ → ℕ → ℕ → Bool → Message
frame_packet sequence frame_id index count keyframe = record {
  control = false;
  bytes =
      144
      ∷ 230
      ∷ (be16 sequence
          ++ (be32 90000
              ++ (be32 305419896
                  ++ (190
                      ∷ 222
                      ∷ 0
                      ∷ 4
                      ∷ 75
                      ∷ (if keyframe then 17 else 16)
                      ∷ 0
                      ∷ 2
                      ∷ (be32 frame_id
                          ++ (be16 index ++ (be16 count ++ (0 ∷ 0 ∷ 0 ∷ 0 ∷ 1 ∷ 2 ∷ 3 ∷ []))))))));
  stream = 0;
}

abbrev key_packet : Message
key_packet = frame_packet 7 5 0 1 true

abbrev delta_packet : Message
delta_packet = frame_packet 8 6 0 2 false

abbrev missing_packet : Message
missing_packet = frame_packet 9 6 1 2 false

-- A whole keyframe, and a frame of which the second packet is missing.
abbrev key_frame : FrameAssembly
key_frame = record {
  epoch = 2;
  frame_id = 5;
  packet_count = 1;
  first_sequence = 7;
  keyframe = true;
  marker_seen = true;
  first_seen_us = 1000;
  last_nack_us = 0;
  packets = some key_packet ∷ [];
}

abbrev delta_frame : FrameAssembly
delta_frame = record {
  epoch = 2;
  frame_id = 6;
  packet_count = 2;
  first_sequence = 8;
  keyframe = false;
  marker_seen = true;
  first_seen_us = 1000;
  last_nack_us = 0;
  packets = some delta_packet ∷ none ∷ [];
}

abbrev holding : NatMap FrameAssembly → Bool → Handler
holding frames synchronized = set_synchronized synchronized (record (new_handler receiver 200) {
  receiver_epoch = some 2;
  next_output_frame_id = some 5;
  frames = frames;
})

abbrev two_frames : NatMap FrameAssembly
two_frames = (5, key_frame) ∷ (6, delta_frame) ∷ []

key_packet_reads : read_frame_metadata rfc_lib (some key_packet) ≡ some (slot_metadata key_frame 0)
unfolding read_frame_metadata is_rtp extension_value decode_metadata fixed_header_size find_loop
key_packet_reads = refl

delta_packet_reads :
    read_frame_metadata rfc_lib (some delta_packet) ≡ some (slot_metadata delta_frame 0)
unfolding read_frame_metadata is_rtp extension_value decode_metadata fixed_header_size find_loop
delta_packet_reads = refl

key_frame-IsAssembly : IsAssembly rfc_lib (some 2) 5 key_frame
key_frame-IsAssembly = record {
  own_key = refl;
  own_epoch = refl;
  seen = omega arith;
  all_slots = refl;
  right_slots = (key_packet_reads, tt);
}

delta_frame-IsAssembly : IsAssembly rfc_lib (some 2) 6 delta_frame
delta_frame-IsAssembly = record {
  own_key = refl;
  own_epoch = refl;
  seen = omega arith;
  all_slots = refl;
  right_slots = (delta_packet_reads, tt);
}

holding-IsBuffer : (synchronized : Bool) → IsBuffer rfc_lib (holding two_frames synchronized)
holding-IsBuffer synchronized = record {
  bounded = omega arith;
  ascending = (omega arith, (omega arith, tt));
  assemblies = (key_frame-IsAssembly, (delta_frame-IsAssembly, tt));
}

abbrev later : Clock
later = record { packet = λ i k. 2000; drain_us = 3000; poll_us = 200000 }

abbrev incoming : List MessagePtr
incoming =
    some (record { control = true; bytes = 128 ∷ 200 ∷ 0 ∷ 0 ∷ []; stream = 0 })
    ∷ some missing_packet
    ∷ none
    ∷ []

receiver_incoming-IsBuffer_example :
    (h' : Handler) × (passed : List MessagePtr) × (effects : List Effect) × (receiver_incoming
        rfc_lib later incoming
        (holding two_frames true)
      ≡ some (h', passed, effects))
    × IsBuffer rfc_lib h'
receiver_incoming-IsBuffer_example =
    receiver_incoming-IsBuffer rfc_lib later incoming (holding two_frames true) (λ i k. omega arith)
      (holding-IsBuffer true)

process_receiver_packet-IsBuffer_example :
    (h' : Handler) × (process_receiver_packet rfc_lib
        (λ k. 2000)
        (some missing_packet)
        (holding two_frames true)
      ≡ some h')
    × IsBuffer rfc_lib h'
process_receiver_packet-IsBuffer_example =
    process_receiver_packet-IsBuffer rfc_lib (λ k. 2000) (some missing_packet)
      (holding two_frames true) (λ k. omega arith) (holding-IsBuffer true)

drain_complete_frames-synchronized_example :
    (after : Handler) × (delivered : List FrameAssembly) × (drain_complete_frames 3000
        (holding two_frames true)
      ≡ some (after, packets_of delivered, []))
    × Delivers two_frames 5 delivered
    × ((after.stats.synchronized ≡ false) ⊎ Waits 3000 after)
    × IsBuffer rfc_lib after
drain_complete_frames-synchronized_example =
    drain_complete_frames-synchronized rfc_lib 3000 (holding two_frames true)
      (holding-IsBuffer true) 5 refl refl

drain_complete_frames-unsynchronized_example :
    (result : Handler × List MessagePtr × List Effect) × (drain_complete_frames 3000
        (holding two_frames false)
      ≡ some result)
    × Resynced rfc_lib (holding two_frames false) result
drain_complete_frames-unsynchronized_example =
    drain_complete_frames-unsynchronized rfc_lib 3000 (holding two_frames false)
      (holding-IsBuffer false) refl

key_frame-complete : complete key_frame ≡ true
unfolding complete
key_frame-complete = refl

nack_groups_lem_example :
    (groups : List Group) × (nack_groups delta_frame ≡ some groups)
    × (all_requested groups ≡ map (add16 8) (empty_slots 0 delta_frame.packets))
nack_groups_lem_example = nack_groups_lem delta_frame refl (omega arith)

-- Frame 6 came first: there is a placeholder for frame 5.
abbrev early : FrameAssembly
early = record default_assembly { epoch = 2; frame_id = 5; first_seen_us = 1000 }

abbrev one_skipped : Handler
one_skipped = holding ((5, early) ∷ (6, delta_frame) ∷ []) true

early_found : find 5 one_skipped.frames ≡ some early
unfolding find
early_found = refl

late_packet_lem_example :
    (h' : Handler) × (process_receiver_packet rfc_lib (λ k. 2000) (some key_packet) one_skipped
      ≡ some h')
    × (h'.stats.synchronized ≡ false)
    × (find 5 h'.frames ≡ none)
late_packet_lem_example =
    late_packet_lem rfc_lib (λ k. 2000) key_packet (slot_metadata key_frame 0) one_skipped early
      key_packet_reads (omega arith) refl refl (omega arith, (omega arith, tt)) early_found refl
      (omega arith)
