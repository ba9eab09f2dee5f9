-- ===== src/Transport/Drain/Resync.antt =====
-- What a receiver without synchronization does with its buffer.
use web_rtc_weak_network_vid.Common.{
  ℕ, suc, ◌≤◌, ◌≡◌, refl, ◌⊎◌, inl, inr, true, false, ◌&&◌, ◌||◌, ◌++◌, Option, none, some, List,
  [], ◌∷◌, arith, ◌==◌, length, All, Bool-cases, Option-cases,
}
use web_rtc_weak_network_vid.Common.Maps.{
  NatMap, Ascending, Entries, Ascending-mono, find, find_below, find-Entries,
}
use web_rtc_weak_network_vid.Rtc.{RtpLib, MessagePtr}
use web_rtc_weak_network_vid.Transport.State.{Handler, FrameAssembly, complete, inc64}
use web_rtc_weak_network_vid.Transport.Gate.Buffer.{IsAssembly, IsBuffer}
use web_rtc_weak_network_vid.Transport.Drain.{
  Effect, Search, timed_out, search_loop, finish_search, drain_unsynchronized, keyframe_ack, inc32,
  callback_effects, keep_entry, send, sync_restored,
}

-- The outcome of the search over a buffer: a complete keyframe of the buffer with only frames behind
-- it left, or none, with only incomplete frames left that are not yet too old.
abbrev pub Finds : ℕ → ℕ → NatMap FrameAssembly → Search → Type 0
Finds at_us timeout frames search =
    ((k : ℕ) × (frame : FrameAssembly) × (search.keyframe_found ≡ some frame)
      × (find k frames ≡ some frame)
      × (complete frame ≡ true)
      × (frame.keyframe ≡ true)
      × Ascending (suc k) search.left)
    ⊎ ((search.keyframe_found ≡ none)
        × All (λ e. (complete e.1 ≡ false) × (timed_out at_us timeout e.1 ≡ false)) search.left)

module _ (lib : RtpLib) (at_us timeout : ℕ) (epoch : Option ℕ) where
  -- What is left is in order, from `lo` on.
  abbrev LeftInOrder : ℕ → NatMap FrameAssembly → Search → Type 0
  LeftInOrder lo frames search =
      Ascending lo search.left
      × Entries (IsAssembly lib epoch) search.left
      × (length search.left ≤ length frames)

  module _ (k : ℕ) (frame : FrameAssembly) (frames : NatMap FrameAssembly)
      (a : Ascending (suc k) frames) (own : IsAssembly lib epoch k frame) where
    -- The search behind an entry finds what it finds when the entry is dropped, or kept.
    found_behind :
        (j : ℕ) (f : FrameAssembly) → find j frames ≡ some f → find j ((k, frame) ∷ frames) ≡ some f
    unfolding find
    found_behind j f e =
        let absent = find_below j (suc k) frames a in
        let behind : (j == k) ≡ false = ground (arith, absent) in rw behind e

    Finds-drop :
        (search : Search)
        → Finds at_us timeout frames search
        → Finds at_us timeout ((k, frame) ∷ frames) search
    Finds-drop search (inl (j, f, e, there, c, g, l)) =
        inl (j, f, e, found_behind j f there, c, g, l)
    Finds-drop search (inr r) = inr r

    Finds-keep :
        (search : Search)
        → complete frame ≡ false
        → timed_out at_us timeout frame ≡ false
        → Finds at_us timeout frames search
        → Finds at_us timeout ((k, frame) ∷ frames) (keep_entry (k, frame) search)
    Finds-keep search part fresh (inl (j, f, e, there, c, g, l)) =
        rw (e, keep_entry) (inl (j, f, e, found_behind j f there, c, g, l))
    Finds-keep search part fresh (inr (e, r)) = rw (e, keep_entry) (inr (e, ((part, fresh), r)))

    LeftInOrder-keep :
        (lo : ℕ) (search : Search)
        → lo ≤ k
        → LeftInOrder (suc k) frames search
        → LeftInOrder lo ((k, frame) ∷ frames) (keep_entry (k, frame) search)
    LeftInOrder-keep lo search h (b, c, d) = elim (Option-cases search.keyframe_found) [
      | inl none_found ↦ rw (none_found, keep_entry) ((h, b), (own, c), omega arith)
      | inr (f, found) ↦
          rw (found, keep_entry) (Ascending-mono search.left (omega arith) b, c, omega arith)
    ]

  search_loop-Finds :
      (lo dropped : ℕ) (frames : NatMap FrameAssembly)
      → Ascending lo frames
      → Entries (IsAssembly lib epoch) frames
      → Finds at_us timeout frames (search_loop at_us timeout dropped frames)
        × LeftInOrder lo frames (search_loop at_us timeout dropped frames)
  unfolding search_loop
  search_loop-Finds lo dropped [] a s = (inr (refl, tt), (tt, tt, omega arith))
  search_loop-Finds lo dropped ((k, frame) ∷ frames) a s =
      elim (Bool-cases (complete frame && frame.keyframe)) [
        | inl hit ↦ rw hit (
          inl (k, frame, refl, unfold find in ground arith, ground arith, ground arith, a.1),
          (Ascending-mono frames (omega arith) a.1, s.1, omega arith),
        )
        | inr miss ↦ elim (Bool-cases (complete frame || timed_out at_us timeout frame)) [
          | inl gone ↦
              let (f, (b, c, d)) = search_loop-Finds (suc k) (inc64 dropped) frames a.1 s.1 in
              rw (miss, gone)
                (
                  Finds-drop k frame frames a.1 s.0
                      (search_loop at_us timeout (inc64 dropped) frames) f,
                  (
                    Ascending-mono (search_loop at_us timeout (inc64 dropped) frames).left
                        (omega arith) b,
                    c,
                    omega arith,
                  ),
                )
          | inr stays ↦
              let (f, l) = search_loop-Finds (suc k) dropped frames a.1 s.1 in
              rw (miss, stays)
                (
                  Finds-keep k frame frames a.1 s.0 (search_loop at_us timeout dropped frames)
                      (ground arith) (ground arith) f,
                  LeftInOrder-keep k frame frames a.1 s.0 lo
                      (search_loop at_us timeout dropped frames) (omega arith) l,
                )
        ]
      ]

-- The outcome for the handler: it goes on waiting and lets nothing through, or it lets through one
-- complete keyframe, acknowledges it, and is synchronized from the frame after it on.
pub record Resynced (lib : RtpLib) (h : Handler) (result : Handler × List MessagePtr × List Effect)
    : Type 0 where
  pub buffer : IsBuffer lib result.0
  pub outcome :
      ((result.1 ≡ [])
        × (result.2 ≡ [])
        × (result.0.stats.synchronized ≡ h.stats.synchronized)
        × (result.0.next_output_frame_id ≡ h.next_output_frame_id))
      ⊎ ((k : ℕ) × (frame : FrameAssembly) × (find k h.frames ≡ some frame)
          × (complete frame ≡ true)
          × (frame.keyframe ≡ true)
          × (result.1 ≡ frame.packets)
          × (result.2
              ≡ callback_effects h.sync_restored_callback sync_restored
                ++ (send (keyframe_ack frame.epoch k) ∷ []))
          × (result.0.stats.synchronized ≡ true)
          × (result.0.next_output_frame_id ≡ some (inc32 k))
          × Ascending (suc k) result.0.frames)

finish_search-Resynced :
    (lib : RtpLib) (at_us : ℕ) (h : Handler) (search : Search)
    → IsBuffer lib h
    → Finds at_us h.recovery_timeout_us h.frames search
    → LeftInOrder lib at_us h.recovery_timeout_us h.receiver_epoch 0 h.frames search
    → Resynced lib h (finish_search h search)
unfolding finish_search
finish_search-Resynced lib at_us h search v (inr (e, r)) (b, c, d) =
    rw (e, finish_search)
      (record {
        buffer = record { bounded = omega (arith, v.bounded); ascending = b; assemblies = c };
        outcome = inl (refl, refl, refl, refl);
      })
finish_search-Resynced lib at_us h search v (inl (k, f, e, there, c, g, l)) (a, s, d) =
    let own = find-Entries (IsAssembly lib h.receiver_epoch) k h.frames f v.assemblies there in
    rw (e, finish_search, own.own_key)
      (record {
        buffer = record { bounded = omega (arith, v.bounded); ascending = a; assemblies = s };
        outcome = inr (k, f, there, c, g, refl, refl, refl, refl, l);
      })

pub drain_unsynchronized-Resynced :
    (lib : RtpLib) (at_us : ℕ) (h : Handler)
    → IsBuffer lib h
    → Resynced lib h (drain_unsynchronized at_us h)
unfolding drain_unsynchronized
drain_unsynchronized-Resynced lib at_us h v =
    let (f, l) =
      search_loop-Finds lib at_us h.recovery_timeout_us h.receiver_epoch 0 h.stats.dropped_frames
        h.frames v.ascending v.assemblies in
    finish_search-Resynced lib at_us h
      (search_loop at_us h.recovery_timeout_us h.stats.dropped_frames h.frames) v f l
