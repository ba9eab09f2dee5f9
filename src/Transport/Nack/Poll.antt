-- ===== src/Transport/Nack/Poll.antt =====
-- Polling and the buffer it polls.
use web_rtc_weak_network_vid.Common.{
  ℕ, suc, ◌≡◌, ◌++◌, refl, inl, inr, ◌||◌, Option, some, List, [], ◌∷◌, arith, ◌==◌, length,
  Bool-cases,
}
use web_rtc_weak_network_vid.Common.Maps.{NatMap, Ascending, Entries}
use web_rtc_weak_network_vid.Rtc.{RtpLib}
use web_rtc_weak_network_vid.Transport.State.{Handler, FrameAssembly, complete}
use web_rtc_weak_network_vid.Transport.Gate.Buffer.{IsAssembly, IsBuffer}
use web_rtc_weak_network_vid.Transport.Drain.{Effect}
use web_rtc_weak_network_vid.Transport.Nack.{
  Group, nack_due, poll_frame, count_nack, nack_effects, poll_loop, receiver_poll,
}
use web_rtc_weak_network_vid.Transport.Nack.Groups.{nack_groups-missing}

module _ (lib : RtpLib) (at_us timeout : ℕ) (epoch : Option ℕ) where
  poll_frame-IsAssembly :
      (k : ℕ) (frame : FrameAssembly)
      → IsAssembly lib epoch k frame
      → (polled : FrameAssembly) × (groups : List Group) × (poll_frame at_us timeout frame
          ≡ some (polled, groups))
        × IsAssembly lib epoch k polled
  unfolding poll_frame
  poll_frame-IsAssembly k frame v = elim (Bool-cases (frame.packet_count == 0 || complete frame)) [
    | inl skip ↦ (frame, [], rw skip, v)
    | inr part ↦ elim (Bool-cases (nack_due at_us timeout frame)) [
      | inr early ↦ (frame, [], rw (part, early), v)
      | inl due ↦
          let (groups, e) = nack_groups-missing frame v.all_slots in
          (
            record frame { last_nack_us = at_us },
            groups,
            ground (arith, e),
            record {
              own_key = v.own_key;
              own_epoch = v.own_epoch;
              seen = v.seen;
              all_slots = v.all_slots;
              right_slots = v.right_slots;
            },
          )
    ]
  ]

  poll_loop_step :
      (k nacks : ℕ) (frame : FrameAssembly) (frames : NatMap FrameAssembly) {polled : FrameAssembly}
      {groups : List Group} {rest : NatMap FrameAssembly} {total : ℕ} {effects : List Effect}
      → poll_frame at_us timeout frame ≡ some (polled, groups)
      → poll_loop at_us timeout (count_nack groups nacks) frames ≡ some (rest, total, effects)
      → poll_loop at_us timeout nacks ((k, frame) ∷ frames)
        ≡ some ((k, polled) ∷ rest, total, nack_effects groups ++ effects)
  unfolding poll_loop
  poll_loop_step k nacks frame frames e f = ground (arith, e, f)

  poll_loop-keeps :
      (lo nacks : ℕ) (frames : NatMap FrameAssembly)
      → Ascending lo frames
      → Entries (IsAssembly lib epoch) frames
      → (polled : NatMap FrameAssembly) × (total : ℕ) × (effects : List Effect) × (poll_loop at_us
            timeout nacks frames
          ≡ some (polled, total, effects))
        × Ascending lo polled
        × Entries (IsAssembly lib epoch) polled
        × (length polled ≡ length frames)
  poll_loop-keeps lo nacks [] a s = ([], nacks, [], unfold poll_loop in refl, tt, tt, refl)
  poll_loop-keeps lo nacks ((k, frame) ∷ frames) a s =
      let (polled, groups, e, v) = poll_frame-IsAssembly k frame s.0 in
      let (rest, total, effects, f, b, t, n) =
        poll_loop-keeps (suc k) (count_nack groups nacks) frames a.1 s.1 in
      (
        (k, polled) ∷ rest,
        total,
        nack_effects groups ++ effects,
        poll_loop_step k nacks frame frames e f,
        (a.0, b),
        (v, t),
        omega arith,
      )

-- If the receiver's buffer is in order, then polling returns without an access out of range, and
-- the buffer is in order after it.
pub receiver_poll-IsBuffer :
    (lib : RtpLib) (at_us : ℕ) (h : Handler)
    → IsBuffer lib h
    → (h' : Handler) × (effects : List Effect) × (receiver_poll at_us h ≡ some (h', effects))
      × IsBuffer lib h'
unfolding receiver_poll
receiver_poll-IsBuffer lib at_us h v =
    let (frames, total, effects, e, a, s, n) =
      poll_loop-keeps lib at_us h.recovery_timeout_us h.receiver_epoch 0 h.stats.nack_packets
        h.frames v.ascending v.assemblies in
    (
      record h { frames = frames; stats = record (h.stats) { nack_packets = total } },
      effects,
      ground (arith, e),
      record { bounded = omega (arith, v.bounded, n); ascending = a; assemblies = s },
    )
