-- ===== src/Transport/Drain.antt =====
-- video/video_transport_handler.cpp: `drain_complete_frames` and `send_keyframe_ack`. A reading of
-- `now_us()` is an argument. `none` is a loop out of fuel.
pub mod Synchronized
pub mod Resync
use web_rtc_weak_network_vid.Common.{
  ℕ, zero, suc, ◌+◌, ◌-◌, ◌/◌, ◌%◌, Bool, true, false, ◌&&◌, ◌||◌, Option, none, some, List, [],
  ◌∷◌, ◌++◌, leb, if◌then◌else◌, length,
}
use web_rtc_weak_network_vid.Common.Words.{be16, be32}
use web_rtc_weak_network_vid.Common.Maps.{NatMap, find, erase}
use web_rtc_weak_network_vid.Rtc.{MessagePtr}
use web_rtc_weak_network_vid.Transport.State.{
  Handler, FrameAssembly, complete, mark_unsynchronized, inc64,
}

-- What a call does besides the change of state: a control message given to `send`, by its bytes or,
-- where libdatachannel writes it, by the groups of a NACK; and the callbacks that it calls.
pub data Effect : Type 0 where
  send : List ℕ → Effect
  send_nack : List (ℕ × ℕ) → Effect
  sync_restored : Effect
  keyframe_requested : Effect
  keyframe_acknowledged : Effect

-- `++` and `+ 1` on a uint32_t.
abbrev pub inc32 : ℕ → ℕ
inc32 n = (n + 1) % 4294967296

-- kRtcpApp, kKeyframeAckName, kKeyframeAckSize
abbrev pub rtcp_app : ℕ
rtcp_app = 204

abbrev pub keyframe_ack_name : ℕ
keyframe_ack_name = 0x4b464f4b

abbrev pub keyframe_ack_size : ℕ
keyframe_ack_size = 20

-- The twenty bytes of the message.
unfoldable pub keyframe_ack : ℕ → ℕ → List ℕ
keyframe_ack epoch frame_id =
    0x80
    ∷ rtcp_app
    ∷ (be16 (keyframe_ack_size / 4 - 1)
        ++ (0 ∷ 0 ∷ 0 ∷ 0 ∷ [])
        ++ be32 keyframe_ack_name
        ++ be16 epoch
        ++ (0 ∷ 0 ∷ [])
        ++ be32 frame_id)

-- `at_us - frame.first_seen_us >= recovery_timeout_us_`
abbrev pub timed_out : ℕ → ℕ → FrameAssembly → Bool
timed_out at_us timeout frame = leb timeout (at_us - frame.first_seen_us)

-- What the loop over an unsynchronized buffer ends with: the keyframe that was found, if any, the
-- frames that are left and the frames dropped on the way.
pub record Search : Type 0 where
  pub keyframe_found : Option FrameAssembly
  pub left : NatMap FrameAssembly
  pub dropped : ℕ

abbrev pub keep_entry : ℕ × FrameAssembly → Search → Search
keep_entry entry search = elim search.keyframe_found [
  | none ↦ record search { left = entry ∷ search.left }
  | some frame ↦ search
]

-- An entry that is passed over goes too when a keyframe is found behind it.
unfoldable pub search_loop : ℕ → ℕ → ℕ → NatMap FrameAssembly → Search
search_loop at_us timeout dropped [] = record {
  keyframe_found = none;
  left = [];
  dropped = dropped;
}
search_loop at_us timeout dropped ((k, frame) ∷ frames) =
    let drop_it = search_loop at_us timeout (inc64 dropped) frames in
    let keep_it = keep_entry (k, frame) (search_loop at_us timeout dropped frames) in
    if complete frame && frame.keyframe
    then record { keyframe_found = some frame; left = frames; dropped = dropped }
    else if complete frame || timed_out at_us timeout frame
    then drop_it
    else keep_it

abbrev pub callback_effects : Bool → Effect → List Effect
callback_effects true effect = effect ∷ []
callback_effects false effect = []

-- What is done with the outcome of the search.
unfoldable pub finish_search : Handler → Search → Handler × List MessagePtr × List Effect
finish_search h search =
    let searched = record h {
      frames = search.left;
      stats = record (h.stats) { dropped_frames = search.dropped };
    } in
    elim search.keyframe_found [
      | none ↦ (searched, [], [])
      | some frame ↦ (
        record searched {
          next_output_frame_id = some (inc32 frame.frame_id);
          stats = record (searched.stats) {
            complete_frames = inc64 h.stats.complete_frames;
            synchronized = true;
          };
        },
        frame.packets,
        callback_effects h.sync_restored_callback sync_restored
            ++ (send (keyframe_ack frame.epoch frame.frame_id) ∷ []),
      )
    ]

unfoldable pub drain_unsynchronized : ℕ → Handler → Handler × List MessagePtr × List Effect
unfolding search_loop finish_search
drain_unsynchronized at_us h =
    finish_search h (search_loop at_us h.recovery_timeout_us h.stats.dropped_frames h.frames)

-- One frame is let through.
abbrev pub release_frame : ℕ → Handler → Handler
release_frame next h = record h {
  next_output_frame_id = some (inc32 next);
  frames = erase next h.frames;
  stats = record (h.stats) { complete_frames = inc64 h.stats.complete_frames };
}

-- The frame that everybody waits for is given up.
abbrev pub give_up_frame : ℕ → Handler → Handler
give_up_frame next h = record h {
  next_output_frame_id = some (inc32 next);
  frames = erase next h.frames;
  stats = record (h.stats) { dropped_frames = inc64 h.stats.dropped_frames; synchronized = false };
}

-- `while (next_output_frame_id_)`, which never becomes empty inside: `next` is its value.
unfoldable pub drain_loop :
    ℕ → ℕ → ℕ → Handler → List MessagePtr → Option (Handler × List MessagePtr)
drain_loop zero at_us next h ready = none
drain_loop (suc fuel) at_us next h ready = elim (find next h.frames) [
  | none ↦ some (h, ready)
  | some frame ↦
      let more =
        drain_loop fuel at_us (inc32 next) (release_frame next h) (ready ++ frame.packets) in
      if complete frame
      then more
      else if timed_out at_us h.recovery_timeout_us frame
      then some (give_up_frame next h, ready)
      else some (h, ready)
]

-- Each round but the last takes a frame out of the buffer.
unfoldable pub drain_synchronized : ℕ → Handler → Option (Handler × List MessagePtr)
unfolding drain_loop
drain_synchronized at_us h = elim h.next_output_frame_id [
  | none ↦ some (h, [])
  | some next ↦ drain_loop (suc (length h.frames)) at_us next h []
]

-- The handler, what is pushed on `ready`, and the effects.
unfoldable pub drain_complete_frames :
    ℕ → Handler → Option (Handler × List MessagePtr × List Effect)
unfolding drain_unsynchronized drain_synchronized
drain_complete_frames at_us h =
    if h.stats.synchronized
    then elim (drain_synchronized at_us h) [ none ↦ none | some (h', ready) ↦ some (h', ready, []) ]
    else some (drain_unsynchronized at_us h)
