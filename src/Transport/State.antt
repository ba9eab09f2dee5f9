-- ===== src/Transport/State.antt =====
-- video/video_transport_handler.hpp: the state of the handler, and the methods that only read or
-- set a few of its fields. The mutex makes each method one step on this state.
use web_rtc_weak_network_vid.Common.{
  ℕ, ◌+◌, ◌*◌, ◌%◌, ◌^◌, max, Bool, true, false, not, ◌&&◌, Option, none, some, List, [], ◌∷◌, ◌==◌,
  if◌then◌else◌, length,
}
use web_rtc_weak_network_vid.Common.Maps.{NatMap}
use web_rtc_weak_network_vid.Rtc.{MessagePtr}

-- kMaxBufferedFrames
abbrev pub max_buffered_frames : ℕ
max_buffered_frames = 64

pub data Direction : Type 0 where
  sender receiver : Direction

pub record VideoTransportStats : Type 0 where
  pub complete_frames : ℕ
  pub dropped_frames : ℕ
  pub nack_packets : ℕ
  pub retransmitted_packets : ℕ
  pub pli_packets : ℕ
  pub synchronized : Bool

pub record FrameAssembly : Type 0 where
  pub epoch : ℕ
  pub frame_id : ℕ
  pub packet_count : ℕ
  pub first_sequence : ℕ
  pub keyframe : Bool
  pub marker_seen : Bool
  pub first_seen_us : ℕ
  pub last_nack_us : ℕ
  pub packets : List MessagePtr

-- What `std::map` makes of a key that it does not hold.
abbrev pub default_assembly : FrameAssembly
default_assembly = record {
  epoch = 0;
  frame_id = 0;
  packet_count = 0;
  first_sequence = 0;
  keyframe = false;
  marker_seen = false;
  first_seen_us = 0;
  last_nack_us = 0;
  packets = [];
}

abbrev pub is_present : MessagePtr → Bool
is_present none = false
is_present (some message) = true

abbrev pub all_present : List MessagePtr → Bool
all_present [] = true
all_present (p ∷ packets) = is_present p && all_present packets

unfoldable pub complete : FrameAssembly → Bool
complete frame =
    if frame.packet_count == 0
    then false
    else if not (length frame.packets == frame.packet_count)
    then false
    else all_present frame.packets

-- A callback that is set is `true`.
pub record Handler : Type 0 where
  pub direction : Direction
  pub recovery_timeout_us : ℕ
  pub epoch : ℕ
  pub next_frame_keyframe : Bool
  pub next_frame_id : ℕ
  pub receiver_epoch : Option ℕ
  pub next_output_frame_id : Option ℕ
  pub frames : NatMap FrameAssembly
  pub receiver_send : Bool
  pub keyframe_requested_callback : Bool
  pub keyframe_acknowledged_callback : Bool
  pub sync_restored_callback : Bool
  pub stats : VideoTransportStats

abbrev pub is_sender : Direction → Bool
is_sender sender = true
is_sender receiver = false

abbrev no_stats : Bool → VideoTransportStats
no_stats synchronized = record {
  complete_frames = 0;
  dropped_frames = 0;
  nack_packets = 0;
  retransmitted_packets = 0;
  pli_packets = 0;
  synchronized = synchronized;
}

-- The constructor, for a timeout that is not negative (the command line admits 100 to 1000).
unfoldable pub new_handler : Direction → ℕ → Handler
new_handler direction recovery_timeout_ms = record {
  direction = direction;
  recovery_timeout_us = max 100 recovery_timeout_ms * 1000;
  epoch = 1;
  next_frame_keyframe = false;
  next_frame_id = 1;
  receiver_epoch = none;
  next_output_frame_id = none;
  frames = [];
  receiver_send = false;
  keyframe_requested_callback = false;
  keyframe_acknowledged_callback = false;
  sync_restored_callback = false;
  stats = no_stats (is_sender direction);
}

-- `++` on a uint64_t.
abbrev pub inc64 : ℕ → ℕ
inc64 n = (n + 1) % 2 ^ 64

abbrev pub set_synchronized : Bool → Handler → Handler
set_synchronized b h = record h { stats = record (h.stats) { synchronized = b } }

unfoldable pub mark_unsynchronized : Handler → Handler
mark_unsynchronized h = set_synchronized false h

unfoldable pub set_outgoing_frame : ℕ → Bool → Handler → Handler
set_outgoing_frame epoch keyframe h = record h {
  epoch = max 1 epoch;
  next_frame_keyframe = keyframe;
}

unfoldable pub invalidate_sync : Handler → Handler
unfolding mark_unsynchronized
invalidate_sync h =
    if is_sender h.direction
    then h
    else mark_unsynchronized (record h { frames = []; next_output_frame_id = none })

unfoldable pub record_pli_sent : Handler → Handler
record_pli_sent h =
    if is_sender h.direction
    then h
    else record h { stats = record (h.stats) { pli_packets = inc64 h.stats.pli_packets } }

unfoldable pub needs_keyframe : Handler → Bool
needs_keyframe h = not h.stats.synchronized

pub on_keyframe_requested : Handler → Handler
on_keyframe_requested h = record h { keyframe_requested_callback = true }

pub on_keyframe_acknowledged : Handler → Handler
on_keyframe_acknowledged h = record h { keyframe_acknowledged_callback = true }

pub on_sync_restored : Handler → Handler
on_sync_restored h = record h { sync_restored_callback = true }
