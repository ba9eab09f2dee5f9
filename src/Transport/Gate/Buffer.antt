-- ===== src/Transport/Gate/Buffer.antt =====
-- What it is for the receiver's buffer to be in order, and what the steps on whole buffers do to it.
use web_rtc_weak_network_vid.Common.{
  ℕ, zero, suc, ◌+◌, ◌-◌, ◌≤◌, ◌<◌, ◌≡◌, refl, Bool, false, inl, inr, Option, none, some, List, [],
  ◌∷◌, arith, ltb, length, replicate, set, Bool-cases, Option-cases,
}
use web_rtc_weak_network_vid.Common.Maps.{
  NatMap, Ascending, Entries, find, put, put-Entries, put-Ascending, tail-Ascending, length-put-le,
}
use web_rtc_weak_network_vid.Rtc.{RtpLib, Message, MessagePtr}
use web_rtc_weak_network_vid.Transport.Metadata.{FrameMetadata, read_frame_metadata}
use web_rtc_weak_network_vid.Transport.State.{Handler, FrameAssembly, max_buffered_frames}
use web_rtc_weak_network_vid.Transport.Gate.{
  placeholder, emplace, placeholders_loop, evict_loop, resize,
}

-- The metadata of the packet that belongs into slot `i` of a frame.
abbrev pub slot_metadata : FrameAssembly → ℕ → FrameMetadata
slot_metadata frame i = record {
  epoch = frame.epoch;
  frame_id = frame.frame_id;
  packet_index = i;
  packet_count = frame.packet_count;
  keyframe = frame.keyframe;
}

module _ (lib : RtpLib) where
  -- From slot `i` on, each packet that is there says so itself.
  abbrev pub Slots : (ℕ → FrameMetadata) → ℕ → List MessagePtr → Type 0
  Slots expected i [] = Unit {0}
  Slots expected i (none ∷ packets) = Slots expected (i + 1) packets
  Slots expected i (some message ∷ packets) =
      (read_frame_metadata lib (some message) ≡ some (expected i)) × Slots expected (i + 1) packets

  -- An assembly under the key `k` while the receiver is in an epoch.
  pub record IsAssembly (epoch : Option ℕ) (k : ℕ) (frame : FrameAssembly) : Type 0 where
    pub own_key : frame.frame_id ≡ k
    pub own_epoch : some frame.epoch ≡ epoch
    pub seen : 0 < frame.first_seen_us
    pub all_slots : length frame.packets ≡ frame.packet_count
    pub right_slots : Slots (slot_metadata frame) 0 frame.packets

  pub record IsFrames (epoch : Option ℕ) (frames : NatMap FrameAssembly) : Type 0 where
    pub bounded : length frames ≤ max_buffered_frames
    pub ascending : Ascending 0 frames
    pub assemblies : Entries (IsAssembly epoch) frames

  -- The invariant of the receiver's buffer.
  abbrev pub IsBuffer : Handler → Type 0
  IsBuffer h = IsFrames h.receiver_epoch h.frames

  pub no_frames-IsBuffer : (h : Handler) → h.frames ≡ [] → IsBuffer h
  no_frames-IsBuffer h empty = record {
    bounded = rw empty (omega arith);
    ascending = rw empty tt;
    assemblies = rw empty tt;
  }

  pub Slots-replicate :
      (expected : ℕ → FrameMetadata) (i n : ℕ) → Slots expected i (replicate n none)
  Slots-replicate expected i zero = tt
  Slots-replicate expected i (suc n) = Slots-replicate expected (i + 1) n

  pub Slots-set :
      (expected : ℕ → FrameMetadata) (i j : ℕ) (packets : List MessagePtr) (message : Message)
      → Slots expected i packets
      → read_frame_metadata lib (some message) ≡ some (expected (i + j))
      → Slots expected i (set packets j (some message))
  Slots-set expected i j [] message s e = tt
  Slots-set expected i zero (none ∷ packets) message s e =
      let z : i + 0 ≡ i = omega arith in (rw z at e, s)
  Slots-set expected i zero (some m ∷ packets) message s e =
      let z : i + 0 ≡ i = omega arith in (rw z at e, s.1)
  Slots-set expected i (suc j) (none ∷ packets) message s e =
      let z : i + suc j ≡ i + 1 + j = omega arith in
      Slots-set expected (i + 1) j packets message s (rw z at e)
  Slots-set expected i (suc j) (some m ∷ packets) message s e =
      let z : i + suc j ≡ i + 1 + j = omega arith in
      (s.0, Slots-set expected (i + 1) j packets message s.1 (rw z at e))

  pub resize_nil : (n : ℕ) → resize n [] ≡ replicate n none
  resize_nil zero = refl
  resize_nil (suc n) = let e : suc n - 0 ≡ suc n = omega arith in rw e

  -- A placeholder and a frame that has just been opened.
  pub placeholder-IsAssembly :
      (metadata : FrameMetadata) (k now : ℕ) {epoch : Option ℕ}
      → some metadata.epoch ≡ epoch
      → 0 < now
      → IsAssembly epoch k (placeholder metadata k now)
  placeholder-IsAssembly metadata k now e later = record {
    own_key = refl;
    own_epoch = e;
    seen = later;
    all_slots = refl;
    right_slots = tt;
  }

  pub put-IsFrames :
      {epoch : Option ℕ} (k : ℕ) (frame : FrameAssembly) (frames : NatMap FrameAssembly)
      → IsFrames epoch frames
      → IsAssembly epoch k frame
      → length frames < max_buffered_frames
      → IsFrames epoch (put k frame frames)
  put-IsFrames {epoch} k frame frames v f room = record {
    bounded = omega (arith, room, length-put-le k frame frames);
    ascending = put-Ascending k 0 frame frames v.ascending (omega arith);
    assemblies = put-Entries (IsAssembly epoch) k frame frames f v.assemblies;
  }

  module _ (metadata : FrameMetadata) {epoch : Option ℕ} (own : some metadata.epoch ≡ epoch) where
    pub emplace-IsFrames :
        (missing now : ℕ) (frames : NatMap FrameAssembly)
        → IsFrames epoch frames
        → length frames < max_buffered_frames
        → 0 < now
        → IsFrames epoch (emplace metadata missing now frames)
    emplace-IsFrames missing now frames v room later = elim (Option-cases (find missing frames)) [
      | inl absent ↦
          rw (absent, emplace)
            (put-IsFrames missing (placeholder metadata missing now) frames v
              (placeholder-IsAssembly metadata missing now own later) room)
      | inr (frame, there) ↦ rw (there, emplace) v
    ]

    pub placeholders_loop-IsFrames :
        (clock : ℕ → ℕ) (rounds missing : ℕ) (frames : NatMap FrameAssembly)
        → ((k : ℕ) → 0 < clock k)
        → IsFrames epoch frames
        → IsFrames epoch (placeholders_loop clock metadata rounds missing frames)
    unfolding placeholders_loop
    placeholders_loop-IsFrames clock zero missing frames later v = v
    placeholders_loop-IsFrames clock (suc rounds) missing frames later v =
        elim (Bool-cases (ltb (length frames) max_buffered_frames)) [
          | inr full ↦ rw full v
          | inl room ↦ rw room (
              placeholders_loop-IsFrames clock rounds (missing + 1) _ later
                (emplace-IsFrames missing (clock missing) frames v (ground arith) (later missing)))
        ]

  pub evict_loop-keeps :
      (epoch : Option ℕ) (lo : ℕ) (frames : NatMap FrameAssembly) (b : Bool)
      → Ascending lo frames
      → Entries (IsAssembly epoch) frames
      → (length (evict_loop frames b).0 ≤ max_buffered_frames)
        × Ascending lo (evict_loop frames b).0
        × Entries (IsAssembly epoch) (evict_loop frames b).0
  unfolding evict_loop
  evict_loop-keeps epoch lo [] b a s = (omega arith, tt, tt)
  evict_loop-keeps epoch lo ((k, f) ∷ frames) b a s =
      let tail = tail-Ascending lo k f frames a in
      elim (Bool-cases (ltb max_buffered_frames (length ((k, f) ∷ frames)))) [
        | inl over ↦ rw over (evict_loop-keeps epoch lo frames false tail s.1)
        | inr fits ↦ rw fits (ground arith, a, s)
      ]
