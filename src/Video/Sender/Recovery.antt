-- ===== src/Video/Sender/Recovery.antt =====
-- The times at which a sender in recovery sends its frames.
use web_rtc_weak_network_vid.Common.{
  ℕ, ◌+◌, ◌≡◌, ◌≤◌, ◌<◌, refl, ap, subst, Bool, true, false, not, ◌&&◌, ◌||◌, ◌==◌, ltb,
  if◌then◌else◌, Option, none, some, List, arith, Bool-cases, Option-cases, inl, inr,
}
use web_rtc_weak_network_vid.Quality.Doubles.{Doubles}
use web_rtc_weak_network_vid.Video.Reader.{
  Result, returned, thrown, out_of_fuel, FileLib, EncodedVideoFrame, VideoFileReader, reset,
}
use web_rtc_weak_network_vid.Video.Receiver.Recovery.{Spaced, last, later}
use web_rtc_weak_network_vid.Video.Sender.{
  VideoSender, Outcome, waited, note_sent, waits, send_encoded, after_reading, send_ready,
  send_round, SendsAt, ends, rounds, requests, profiles, keyframe_requested, update_profile,
}

abbrev result_or : {A : Type 0} → Result A → A → A
result_or (returned a) d = a
result_or thrown d = d
result_or out_of_fuel d = d

-- What a round at `at_us` leaves of the times to come, from those of the sender before it.
Keeps : {S D : Type 0} → ℕ → VideoSender S D → VideoSender S D × Outcome → Type 0
Keeps at_us s (s', outcome) =
    (s'.recovery_mode ≡ true)
    × (0 < s'.last_recovery_frame_us)
    × ((times : List ℕ)
        → Spaced s'.last_recovery_frame_us times
        → Spaced s.last_recovery_frame_us (note_sent at_us outcome times))

on_time :
    (ready recovering : Bool) (at_us last_us : ℕ)
    → recovering ≡ true
    → 0 < last_us
    → (not ready || (recovering && not (last_us == 0) && ltb at_us (last_us + 250000))) ≡ false
    → last_us + 250000 ≤ at_us
on_time ready recovering at_us last_us on positive e = ground (arith, on, e)

module _ {S D : Type 0} (at_us : ℕ) (s : VideoSender S D) (recovering : s.recovery_mode ≡ true)
    (positive : 0 < s.last_recovery_frame_us) where
  stays : Keeps at_us s (s, waited)
  unfolding Keeps
  stays = (recovering, positive, λ times spaced. spaced)

  send_encoded-Keeps :
      (accepted : Bool) (frame : EncodedVideoFrame) (r : VideoFileReader S D)
      → s.last_recovery_frame_us + 250000 ≤ at_us
      → Keeps at_us s (
          send_encoded accepted at_us frame
            (record s { force_keyframe = false; file_reader = some r }))
  unfolding send_encoded Keeps
  send_encoded-Keeps false frame r late = (recovering, positive, λ times spaced. spaced)
  send_encoded-Keeps true frame r late =
      let now : (if s.recovery_mode then at_us else s.last_recovery_frame_us) ≡ at_us =
        rw recovering refl in
      (
        recovering,
        omega (arith, now, late),
        λ times spaced. later late (subst (λ (n : ℕ). Spaced n times) now spaced),
      )

  module _ (double : Doubles D) (lib : FileLib S D) (limit : ℕ) (accepted : Bool) where
    after_reading-Keeps :
        (result : Result (Option EncodedVideoFrame × VideoFileReader S D))
        → s.last_recovery_frame_us + 250000 ≤ at_us
        → Keeps at_us s
            (result_or (after_reading double lib limit accepted at_us s result) (s, waited))
    unfolding after_reading Keeps
    after_reading-Keeps thrown late = stays
    after_reading-Keeps out_of_fuel late = stays
    after_reading-Keeps (returned (some frame, r)) late = send_encoded-Keeps accepted frame r late
    after_reading-Keeps (returned (none, r)) late = elim (Option-cases (reset double lib r)) [
      | inl bad ↦ rw (bad, after_reading) (recovering, positive, λ times spaced. spaced)
      | inr (r', ok) ↦ rw (ok, after_reading) (recovering, positive, λ times spaced. spaced)
    ]

    send_ready-Keeps :
        (reader : Option (VideoFileReader S D))
        → s.last_recovery_frame_us + 250000 ≤ at_us
        → Keeps at_us s
            (result_or (send_ready double lib limit accepted at_us reader s) (s, waited))
    unfolding send_ready Keeps
    send_ready-Keeps none late = (recovering, positive, λ times spaced. spaced)
    send_ready-Keeps (some r) late = after_reading-Keeps _ late

    send_round-Keeps :
        Keeps at_us s (result_or (send_round double lib limit accepted at_us s) (s, waited))
    unfolding send_round
    send_round-Keeps = elim (Bool-cases (waits at_us s)) [
      | inl early ↦ rw early stays
      | inr due ↦ rw due (
          send_ready-Keeps s.file_reader (
            on_time (s.has_track && s.track_open) s.recovery_mode at_us s.last_recovery_frame_us
              recovering positive due))
    ]

module _ {S D : Type 0} (double : Doubles D) (lib : FileLib S D) (limit : ℕ) where
  round-Keeps :
      (accepted : Bool) (at_us : ℕ) (s : VideoSender S D) {s' : VideoSender S D} {outcome : Outcome}
      → send_round double lib limit accepted at_us s ≡ returned (s', outcome)
      → s.recovery_mode ≡ true
      → 0 < s.last_recovery_frame_us
      → Keeps at_us s (s', outcome)
  round-Keeps accepted at_us s e recovering positive =
      subst (Keeps at_us s)
        (ap (λ (x : Result (VideoSender S D × Outcome)). result_or x (s, waited)) e)
        (send_round-Keeps at_us s recovering positive double lib limit accepted)

  -- In a run of the sender from a state in recovery that has sent a frame there, in which keyframes
  -- are requested and profiles change but no keyframe is acknowledged, each frame is sent at least
  -- 250 ms after the one before it.
  pub SendsAt-Spaced :
      {s s' : VideoSender S D} {times : List ℕ}
      → SendsAt double lib limit s times s'
      → s.recovery_mode ≡ true
      → 0 < s.last_recovery_frame_us
      → Spaced s.last_recovery_frame_us times
  unfolding keyframe_requested update_profile Keeps
  SendsAt-Spaced ends recovering positive = last
  SendsAt-Spaced (rounds accepted at_us e run) recovering positive =
      let (still, later_positive, spacing) = round-Keeps accepted at_us _ e recovering positive in
      spacing _ (SendsAt-Spaced run still later_positive)
  SendsAt-Spaced (requests run) recovering positive = SendsAt-Spaced run refl positive
  SendsAt-Spaced (profiles profile run) recovering positive = SendsAt-Spaced run recovering positive
