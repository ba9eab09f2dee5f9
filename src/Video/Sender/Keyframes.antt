-- ===== src/Video/Sender/Keyframes.antt =====
-- What becomes of a request for a keyframe.
use web_rtc_weak_network_vid.Common.{
  ℕ, ◌+◌, ◌≡◌, ◌<◌, ◌⊎◌, inl, inr, refl, ap, subst, if◌then◌else◌, Bool, true, false, Option, none,
  some, Bool-cases, Option-cases,
}
use web_rtc_weak_network_vid.Quality.Doubles.{Doubles}
use web_rtc_weak_network_vid.Video.Reader.{
  got_packet, Result, returned, thrown, FileLib, EncodedVideoFrame, VideoFileReader, reset,
}
use web_rtc_weak_network_vid.Video.Reader.Decoding.{IsFinite}
use web_rtc_weak_network_vid.Video.Reader.Epochs.{next_frame_lem}
use web_rtc_weak_network_vid.Video.Reader.Ending.{WasEncoded}
use web_rtc_weak_network_vid.Video.Sender.{
  VideoSender, Outcome, waited, no_input, rewound, not_sent, sent, waits, send_encoded,
  after_reading, send_ready, send_round,
}

-- The frame of a round, sent or not.
pub frame_of_round : Outcome → Option EncodedVideoFrame
frame_of_round waited = none
frame_of_round no_input = none
frame_of_round rewound = none
frame_of_round (not_sent frame) = some frame
frame_of_round (sent frame) = some frame

-- The round has a frame, and the encoder gave it directly after it was given a picture that was marked
-- as a keyframe.
abbrev pub EncodedOnRequest : {S D : Type 0} → FileLib S D → Outcome → Type 0
EncodedOnRequest lib outcome =
    (frame : EncodedVideoFrame) × (frame_of_round outcome ≡ some frame)
    × WasEncoded lib true (got_packet frame.data_bytes frame.keyframe)

module _ {S D : Type 0} where
  send_encoded_frame :
      (accepted : Bool) (at_us : ℕ) (frame : EncodedVideoFrame) (s : VideoSender S D)
      → frame_of_round (send_encoded accepted at_us frame s).1 ≡ some frame
  unfolding send_encoded frame_of_round
  send_encoded_frame true at_us frame s = refl
  send_encoded_frame false at_us frame s = refl

  module _ (double : Doubles D) (lib : FileLib S D) (limit : ℕ) (left : S → ℕ)
      (finite : IsFinite lib left) (accepted : Bool) (at_us : ℕ) where
    -- The round throws, or it returns and the request stands or a frame was encoded on request.
    abbrev IsHeeded : Result (VideoSender S D × Outcome) → Type 0
    IsHeeded result =
        (result ≡ thrown)
        ⊎ ((s' : VideoSender S D) × (outcome : Outcome) × (result ≡ returned (s', outcome))
            × ((s'.force_keyframe ≡ true) ⊎ EncodedOnRequest lib outcome))

    after_reading-IsHeeded :
        (s : VideoSender S D) (out : Option EncodedVideoFrame) (r : VideoFileReader S D)
        → ((out ≡ none)
            ⊎ ((frame : EncodedVideoFrame) × (out ≡ some frame)
                × WasEncoded lib true (got_packet frame.data_bytes frame.keyframe)))
        → IsHeeded (after_reading double lib limit accepted at_us s (returned (out, r)))
    unfolding after_reading
    after_reading-IsHeeded s out r (inr (frame, e, made)) =
        rw (e, after_reading)
          (inr (_, _, refl, inr (frame, send_encoded_frame accepted at_us frame _, made)))
    after_reading-IsHeeded s out r (inl nothing) = elim (Option-cases (reset double lib r)) [
      | inl bad ↦ inl (rw (nothing, bad, after_reading) refl)
      | inr (r', ok) ↦ inr (
        record s { force_keyframe = true; file_reader = some r' },
        rewound,
        rw (nothing, ok, after_reading) refl,
        inl refl,
      )
    ]

    true_either : (b : Bool) → (if b then true else true) ≡ true
    true_either true = refl
    true_either false = refl

    send_ready-IsHeeded :
        (s : VideoSender S D) (r : VideoFileReader S D)
        → s.force_keyframe ≡ true
        → left r.file + 2 < limit
        → IsHeeded (send_ready double lib limit accepted at_us (some r) s)
    unfolding send_ready after_reading
    send_ready-IsHeeded s r forced room =
        elim (next_frame_lem double lib left finite limit s.profile true r room) [
          | inl bad ↦ inl (rw (forced, bad, send_ready) refl)
          | inr (out, r', same, profile, epoch, given) ↦
              rw (forced, same, send_ready)
                (after_reading-IsHeeded s out r' (elim given [
                  | inl nothing ↦ inl nothing
                  | inr (frame, e, f, made) ↦ inr (
                    frame,
                    e,
                    subst
                        (λ (b : Bool).
                          WasEncoded lib b (got_packet frame.data_bytes frame.keyframe))
                        (true_either _) made,
                  )
                ]))
        ]

    -- On an input that is finite, with fuel for it: if a keyframe is requested and there is a file,
    -- then a round of the sender throws, or it returns and the request stands or the round has a
    -- frame, sent or not, that the encoder gave directly after it was given a picture that was marked
    -- as a keyframe.
    pub send_round_forced :
        (s : VideoSender S D) (r : VideoFileReader S D)
        → s.file_reader ≡ some r
        → s.force_keyframe ≡ true
        → left r.file + 2 < limit
        → (send_round double lib limit accepted at_us s ≡ thrown)
          ⊎ ((s' : VideoSender S D) × (outcome : Outcome) × (send_round double lib limit accepted
                  at_us s
                ≡ returned (s', outcome))
              × ((s'.force_keyframe ≡ true) ⊎ EncodedOnRequest lib outcome))
    unfolding send_round
    send_round_forced s r reader forced room = elim (Bool-cases (waits at_us s)) [
      | inl early ↦ inr (s, waited, rw (early, send_round) refl, inl forced)
      | inr due ↦
          let ready : send_round double lib limit accepted at_us s
              ≡ send_ready double lib limit accepted at_us (some r) s =
            rw (due, send_round)
              (ap
                (λ (o : Option (VideoFileReader S D)).
                  send_ready double lib limit accepted at_us o s)
                reader) in
          rw ready (send_ready-IsHeeded s r forced room)
    ]
