-- ===== src/Video/Receiver/Recovery.antt =====
-- The times at which the receiver asks for a keyframe.
use web_rtc_weak_network_vid.Common.{
  ℕ, ◌+◌, ◌≡◌, ◌≤◌, inl, inr, refl, Bool, true, false, not, ◌&&◌, some, List, [], ◌∷◌, leb,
  if◌then◌else◌, arith, Bool-cases, ◌<◌, All, none,
}
use web_rtc_weak_network_vid.Rtc.{RtpLib}
use web_rtc_weak_network_vid.Transport.State.{
  Handler, is_sender, mark_unsynchronized, invalidate_sync, record_pli_sent, needs_keyframe,
}
use web_rtc_weak_network_vid.Transport.Drain.{Effect}
use web_rtc_weak_network_vid.Transport.Gate.Buffer.{IsBuffer, no_frames-IsBuffer}
use web_rtc_weak_network_vid.Transport.Nack.Poll.{receiver_poll-IsBuffer}
use web_rtc_weak_network_vid.Transport.Receive.{poll}
use web_rtc_weak_network_vid.Transport.Receive.Delivery.{receiver_incoming-IsBuffer}
use web_rtc_weak_network_vid.Video.Receiver.{
  Call, arrival, undecodable, apply_call, apply_calls, Round, is_due, request_keyframe,
  recovery_round, recovery_loop,
}

-- Each time is at least a quarter of a second behind the one before it.
pub data Spaced : ℕ → List ℕ → Type 0 where
  last : {at_us : ℕ} → Spaced at_us []
  later :
      {before at_us : ℕ} {times : List ℕ}
      → before + 250000 ≤ at_us
      → Spaced at_us times
      → Spaced before (at_us ∷ times)

due_late : (a b : Bool) (m n : ℕ) → (a && b && leb m n) ≡ true → m ≤ n
due_late a b m n due = ground (arith, due)

-- Do its readings of `now_us()` lie above 0?
abbrev pub IsTicking : Call → Type 0
IsTicking (arrival clock messages) = (i k : ℕ) → 0 < clock.packet i k
IsTicking undecodable = Unit

-- The same of all calls in a round.
abbrev pub IsTimed : Round → Type 0
IsTimed round = All IsTicking round.before × All IsTicking round.between

module _ (lib : RtpLib) where
  poll-IsBuffer :
      (at_us : ℕ) (h : Handler)
      → IsBuffer lib h
      → (h' : Handler) × (effects : List Effect) × (poll at_us h ≡ some (h', effects))
        × IsBuffer lib h'
  unfolding poll
  poll-IsBuffer at_us h v = elim (Bool-cases (not (is_sender h.direction) && h.receiver_send)) [
    | inl polls ↦
        let (h', effects, e, w) = receiver_poll-IsBuffer lib at_us h v in
        (h', effects, rw (polls) e, w)
    | inr waits ↦ (h, [], rw waits refl, v)
  ]

  invalidate_sync-IsBuffer : (h : Handler) → IsBuffer lib h → IsBuffer lib (invalidate_sync h)
  unfolding invalidate_sync mark_unsynchronized
  invalidate_sync-IsBuffer h v = elim (Bool-cases (is_sender h.direction)) [
    | inl sends ↦ rw sends v
    | inr receives ↦ rw receives (
        no_frames-IsBuffer lib
          (mark_unsynchronized (record h { frames = []; next_output_frame_id = none })) refl)
  ]

  apply_call-IsBuffer :
      (c : Call) (h : Handler)
      → IsTicking c
      → IsBuffer lib h
      → (h' : Handler) × (apply_call lib c h ≡ some h') × IsBuffer lib h'
  unfolding apply_call
  apply_call-IsBuffer (arrival clock messages) h clocked v =
      let (h', passed, effects, e, w) = receiver_incoming-IsBuffer lib clock messages h clocked v in
      (h', rw (e, apply_call) refl, w)
  apply_call-IsBuffer undecodable h _ v = (invalidate_sync h, refl, invalidate_sync-IsBuffer h v)

  apply_calls-IsBuffer :
      (calls : List Call) (h : Handler)
      → All IsTicking calls
      → IsBuffer lib h
      → (h' : Handler) × (apply_calls lib calls h ≡ some h') × IsBuffer lib h'
  unfolding apply_calls
  apply_calls-IsBuffer [] h _ v = (h, refl, v)
  apply_calls-IsBuffer (c ∷ calls) h (clocked, rest) v =
      let (changed, e, w) = apply_call-IsBuffer c h clocked v in
      let (h', f, x) = apply_calls-IsBuffer calls changed rest w in (h', rw (e, apply_calls) f, x)

  -- What a round comes to: its calls and its poll return, and its test is of the handler they leave.
  recovery_round-IsBuffer :
      (round : Round) (h : Handler) (last_pli_us : ℕ)
      → IsTimed round
      → IsBuffer lib h
      → (tested : Handler) × (effects : List Effect) × (recovery_round lib round h last_pli_us
          ≡ some
              (request_keyframe (is_due round tested last_pli_us) round tested last_pli_us effects))
        × IsBuffer lib tested
  unfolding recovery_round
  recovery_round-IsBuffer round h last_pli_us (before, between) v =
      let (found, e, w) = apply_calls-IsBuffer round.before h before v in
      let (polled, effects, f, x) = poll-IsBuffer round.poll_us found w in
      let (tested, g, y) = apply_calls-IsBuffer round.between polled between x in
      (tested, effects, rw (e, f, g, recovery_round) refl, y)

  record_pli_sent-IsBuffer : (h : Handler) → IsBuffer lib h → IsBuffer lib (record_pli_sent h)
  unfolding record_pli_sent
  record_pli_sent-IsBuffer h v = elim (Bool-cases (is_sender h.direction)) [
    | inl sends ↦ rw sends v
    | inr receives ↦ rw receives v
  ]

  -- What a round leaves: its request, if it makes one, comes late enough.
  request_keyframe_lem :
      (due : Bool) (round : Round) (h : Handler) (last_pli_us : ℕ) (effects : List Effect)
      → is_due round h last_pli_us ≡ due
      → IsBuffer lib h
      → IsBuffer lib (request_keyframe due round h last_pli_us effects).handler
        × ((times : List ℕ)
            → Spaced (request_keyframe due round h last_pli_us effects).last_pli_us times
            → Spaced last_pli_us (
                if (request_keyframe due round h last_pli_us effects).requested
                then round.at_us ∷ times
                else times))
  unfolding request_keyframe
  request_keyframe_lem true round h last_pli_us effects tested v = (
    elim (Bool-cases round.accepted) [
      | inl accepted ↦ rw accepted (record_pli_sent-IsBuffer h v)
      | inr refused ↦ rw refused v
    ],
    λ times spaced.
        later
          (due_late round.track_open (needs_keyframe h) (last_pli_us + 250000) round.at_us tested)
          spaced,
  )
  request_keyframe_lem false round h last_pli_us effects tested v = (v, λ times spaced. spaced)

  -- If the receiver's buffer is in order, then any rounds of the recovery loop return, whatever
  -- messages come to the handler and whatever frames cannot be decoded before and within the rounds,
  -- as long as `now_us()` reads more than 0 in the calls with these messages; the requests for
  -- keyframes are at least 250 ms apart, and the buffer is in order after the rounds.
  pub recovery_loop-Spaced :
      (rounds : List Round) (h : Handler) (last_pli_us : ℕ)
      → All IsTimed rounds
      → IsBuffer lib h
      → (h' : Handler) × (times : List ℕ) × (recovery_loop lib rounds h last_pli_us
          ≡ some (h', times))
        × Spaced last_pli_us times
        × IsBuffer lib h'
  unfolding recovery_loop
  recovery_loop-Spaced [] h last_pli_us _ v = (h, [], refl, last, v)
  recovery_loop-Spaced (round ∷ rounds) h last_pli_us (timed, rest) v =
      let (tested, effects, e, w) = recovery_round-IsBuffer round h last_pli_us timed v in
      let due = is_due round tested last_pli_us in
      let recovered = request_keyframe due round tested last_pli_us effects in
      let (u, spacing) = request_keyframe_lem due round tested last_pli_us effects refl w in
      let (h', times, same, spaced, z) =
        recovery_loop-Spaced rounds recovered.handler recovered.last_pli_us rest u in
      (
        h',
        if recovered.requested then round.at_us ∷ times else times,
        rw (e, recovery_loop) (rw (same, recovery_loop) refl),
        spacing times spaced,
        z,
      )
