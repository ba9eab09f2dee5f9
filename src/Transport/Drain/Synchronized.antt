-- ===== src/Transport/Drain/Synchronized.antt =====
-- The frames that a synchronized receiver lets through.
use web_rtc_weak_network_vid.Common.{
  ℕ, zero, suc, ◌<◌, ◌≡◌, ◌∙◌, refl, sym, subst, ◌⊎◌, inl, inr, true, false, Option, none, some,
  List, [], ◌∷◌, ◌++◌, append-nil, append_assoc, arith, length, Bool-cases, Option-cases,
}
use web_rtc_weak_network_vid.Common.Maps.{
  NatMap, Ascending, find, erase, find-erase, erase-Entries, erase-Ascending, length-erase-le,
  length-erase-lt,
}
use web_rtc_weak_network_vid.Rtc.{RtpLib, MessagePtr}
use web_rtc_weak_network_vid.Transport.State.{Handler, FrameAssembly, complete}
use web_rtc_weak_network_vid.Transport.Gate.Buffer.{IsAssembly, IsFrames, IsBuffer}
use web_rtc_weak_network_vid.Transport.Drain.{
  inc32, timed_out, release_frame, give_up_frame, drain_loop, drain_synchronized,
}

-- The packets of some frames, frame by frame.
abbrev pub packets_of : List FrameAssembly → List MessagePtr
packets_of [] = []
packets_of (frame ∷ frames) = frame.packets ++ packets_of frames

-- The frames are those that the buffer holds under `next`, `next + 1`, …, and each is complete.
abbrev pub Delivers : NatMap FrameAssembly → ℕ → List FrameAssembly → Type 0
Delivers buffer next [] = Unit {0}
Delivers buffer next (frame ∷ frames) =
    (find next buffer ≡ some frame) × (complete frame ≡ true) × Delivers buffer (inc32 next) frames

-- Nothing more can be let through: the next frame is not there, or it is incomplete and not yet
-- due to be given up.
abbrev pub Waits : ℕ → Handler → Type 0
Waits at_us h =
    (next : ℕ) × (h.next_output_frame_id ≡ some next)
    × ((find next h.frames ≡ none)
        ⊎ ((frame : FrameAssembly) × (find next h.frames ≡ some frame)
            × (complete frame ≡ false)
            × (timed_out at_us h.recovery_timeout_us frame ≡ false)))

pub erase-IsFrames :
    (lib : RtpLib) {epoch : Option ℕ} (k : ℕ) (frames : NatMap FrameAssembly)
    → IsFrames lib epoch frames
    → IsFrames lib epoch (erase k frames)
erase-IsFrames lib {epoch} k frames v = record {
  bounded = omega (arith, v.bounded, length-erase-le k frames);
  ascending = erase-Ascending k 0 frames v.ascending;
  assemblies = erase-Entries (IsAssembly lib epoch) k frames v.assemblies;
}

-- What is found after an entry is gone was there before.
find_erased :
    (k j : ℕ) (frames : NatMap FrameAssembly) (frame : FrameAssembly)
    → Ascending 0 frames
    → find j (erase k frames) ≡ some frame
    → find j frames ≡ some frame
find_erased k j frames frame a e = ground (arith, find-erase k j 0 frames a)

Delivers-erase :
    (k : ℕ) (buffer : NatMap FrameAssembly) (next : ℕ) (frames : List FrameAssembly)
    → Ascending 0 buffer
    → Delivers (erase k buffer) next frames
    → Delivers buffer next frames
Delivers-erase k buffer next [] a d = tt
Delivers-erase k buffer next (frame ∷ frames) a (e, c, d) =
    (find_erased k next buffer frame a e, c, Delivers-erase k buffer (inc32 next) frames a d)

module _ (lib : RtpLib) (at_us : ℕ) where
  -- The outcome of a run over the buffer of `h` from `next` on.
  pub record Drained (h : Handler) (next : ℕ) (ready : List MessagePtr)
      (result : Option (Handler × List MessagePtr)) : Type 0 where
    pub after : Handler
    pub delivered : List FrameAssembly
    pub returns : result ≡ some (after, ready ++ packets_of delivered)
    pub in_order : Delivers h.frames next delivered
    pub settled : (after.stats.synchronized ≡ false) ⊎ Waits at_us after
    pub buffer : IsBuffer lib after

  drain_loop-Drained :
      (fuel next : ℕ) (h : Handler) (ready : List MessagePtr)
      → length h.frames < fuel
      → h.next_output_frame_id ≡ some next
      → IsBuffer lib h
      → Drained h next ready (drain_loop fuel at_us next h ready)
  unfolding drain_loop
  drain_loop-Drained zero next h ready f n v = absurd (omega arith)
  drain_loop-Drained (suc fuel) next h ready f n v = elim (Option-cases (find next h.frames)) [
    | inl gone ↦ record {
      after = h;
      delivered = [];
      returns = rw (gone, drain_loop, append-nil);
      in_order = tt;
      settled = inr (next, n, inl gone);
      buffer = v;
    }
    | inr (frame, there) ↦ elim (Bool-cases (complete frame)) [
      | inl whole ↦
          let r =
            drain_loop-Drained fuel (inc32 next) (release_frame next h) (ready ++ frame.packets)
              (omega (arith, length-erase-lt next h.frames frame there)) refl
              (erase-IsFrames lib next h.frames v) in
          record {
            after = r.after;
            delivered = frame ∷ r.delivered;
            returns =
                rw
                  (
                    there,
                    drain_loop,
                    whole,
                    ← append_assoc ready frame.packets (packets_of r.delivered),
                  )
                  r.returns;
            in_order = (
              there,
              whole,
              Delivers-erase next h.frames (inc32 next) r.delivered v.ascending r.in_order,
            );
            settled = r.settled;
            buffer = r.buffer;
          }
      | inr part ↦ elim (Bool-cases (timed_out at_us h.recovery_timeout_us frame)) [
        | inl late ↦ record {
          after = give_up_frame next h;
          delivered = [];
          returns = rw (there, drain_loop, part, late, append-nil);
          in_order = tt;
          settled = inl refl;
          buffer = erase-IsFrames lib next h.frames v;
        }
        | inr waits ↦ record {
          after = h;
          delivered = [];
          returns = rw (there, drain_loop, part, waits, append-nil);
          in_order = tt;
          settled = inr (next, n, inr (frame, there, part, waits));
          buffer = v;
        }
      ]
    ]
  ]

  drain_synchronized_lem :
      (h : Handler) (next : ℕ)
      → h.next_output_frame_id ≡ some next
      → drain_synchronized at_us h ≡ drain_loop (suc (length h.frames)) at_us next h []
  unfolding drain_synchronized
  drain_synchronized_lem h next n = ground arith

  -- The loop ends before its fuel does, and lets through a run of complete frames from the next one
  -- on, after which nothing more can be let through.
  pub drain_synchronized-Drained :
      (h : Handler) (next : ℕ)
      → h.next_output_frame_id ≡ some next
      → IsBuffer lib h
      → Drained h next [] (drain_synchronized at_us h)
  drain_synchronized-Drained h next n v =
      subst (λ r. Drained h next [] r) (sym (drain_synchronized_lem h next n))
        (drain_loop-Drained (suc (length h.frames)) next h [] (omega arith) n v)

  -- A next frame that is complete is let through, and is the first.
  pub drain_synchronized_first :
      (h : Handler) (next : ℕ) (frame : FrameAssembly)
      → h.next_output_frame_id ≡ some next
      → IsBuffer lib h
      → find next h.frames ≡ some frame
      → complete frame ≡ true
      → (after : Handler) × (rest : List FrameAssembly) × (drain_synchronized at_us h
          ≡ some (after, frame.packets ++ packets_of rest))
        × Delivers h.frames (inc32 next) rest
        × IsBuffer lib after
  unfolding drain_loop
  drain_synchronized_first h next frame n v there whole =
      let r =
        drain_loop-Drained (length h.frames) (inc32 next) (release_frame next h) frame.packets
          (length-erase-lt next h.frames frame there) refl (erase-IsFrames lib next h.frames v) in
      (
        r.after,
        r.delivered,
        drain_synchronized_lem h next n ∙ rw (there, drain_loop, whole) r.returns,
        Delivers-erase next h.frames (inc32 next) r.delivered v.ascending r.in_order,
        r.buffer,
      )
