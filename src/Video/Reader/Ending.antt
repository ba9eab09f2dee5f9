-- ===== src/Video/Reader/Ending.antt =====
-- The loop of the next frame comes to an end.
use web_rtc_weak_network_vid.Common.{
  ℕ, zero, suc, ◌+◌, ◌%◌, ◌≡◌, ◌≤◌, ◌<◌, ◌⊎◌, ◌∙◌, inl, inr, refl, ap, Bool, true, false, Option,
  none, some, arith, Bool-cases, Option-cases,
}
use web_rtc_weak_network_vid.Quality.Doubles.{Doubles}
use web_rtc_weak_network_vid.Quality.Adaptation.{VideoProfile}
use web_rtc_weak_network_vid.Video.Reader.{
  Result, returned, thrown, Encoded, got_packet, not_yet, broken, FileLib, EncodedVideoFrame,
  VideoFileReader, next_decoded_frame, should_output_decoded_frame, encode, frame_loop,
}
use web_rtc_weak_network_vid.Video.Reader.Decoding.{
  IsFinite, Continues, Continues-trans, bit, next_decoded_frame_ends,
}

-- The encoder gave it directly after it was given a picture, with the mark of a keyframe if `key`.
abbrev pub WasEncoded : {S D : Type 0} → FileLib S D → Bool → Encoded → Type 0
WasEncoded {S} lib key encoded =
    (pts : ℕ) × (scaled : S) × (sent : S) × (lib.send_frame pts key scaled ≡ some sent)
    × ((lib.receive_packet sent).0 ≡ encoded)

bit_bound : (b : Bool) → bit b ≤ 1
bit_bound true = omega arith
bit_bound false = omega arith

module _ {S D : Type 0} (double : Doubles D) (lib : FileLib S D) (left : S → ℕ)
    (finite : IsFinite lib left) where
  encode_lem :
      (profile : VideoProfile) (key : Bool) (r : VideoFileReader S D)
      → (encode double lib profile key r ≡ none)
        ⊎ ((encoded : Encoded) × (after : VideoFileReader S D) × (encode double lib profile key r
              ≡ some (encoded, after))
            × Continues left r after
            × WasEncoded lib key encoded)
  unfolding encode
  encode_lem profile key r = elim (Option-cases (lib.scale profile r.file)) [
    | inl bad ↦ inl (rw (bad, encode) refl)
    | inr (scaled, ok) ↦ elim (Option-cases (lib.send_frame r.encoder_pts key scaled)) [
      | inl bad ↦ inl (rw (ok, bad, encode) refl)
      | inr (sent, good) ↦ inr (
        (lib.receive_packet sent).0,
        record r {
          file = (lib.receive_packet sent).1;
          encoder_pts = (r.encoder_pts + 1) % 18446744073709551616;
        },
        rw (ok, good, encode) refl,
        record {
          less = omega (
            arith,
            finite.scale_law profile r.file scaled ok,
            finite.send_frame_law r.encoder_pts key scaled sent good,
            finite.receive_packet_law sent,
          );
          same_epoch = refl;
          same_encoder = refl;
          same_state = refl;
        },
        (r.encoder_pts, scaled, sent, good, refl),
      )
    ]
  ]

  -- What a call for a frame comes to, from the reader whose encoder it uses.
  abbrev pub Frames :
      Bool → VideoFileReader S D → Result (Option EncodedVideoFrame × VideoFileReader S D) → Type 0
  Frames key r result =
      (result ≡ thrown)
      ⊎ ((out : Option EncodedVideoFrame) × (r' : VideoFileReader S D) × (result
            ≡ returned (out, r'))
          × Continues left r r'
          × ((out ≡ none)
              ⊎ ((frame : EncodedVideoFrame) × (out ≡ some frame)
                  × (frame.frame_epoch ≡ r'.epoch)
                  × WasEncoded lib key (got_packet frame.data_bytes frame.keyframe))))

  Frames-on :
      {key : Bool} {r r' : VideoFileReader S D}
      (result : Result (Option EncodedVideoFrame × VideoFileReader S D))
      → Continues left r r'
      → Frames key r' result
      → Frames key r result
  Frames-on result on (inl bad) = inl bad
  Frames-on result on (inr (out, r', same, further, epoch)) =
      inr (out, r', same, Continues-trans left on further, epoch)

  should_output-Continues :
      (fps : ℕ) (r : VideoFileReader S D)
      → Continues left r (should_output_decoded_frame double lib fps r).1
  unfolding should_output_decoded_frame
  should_output-Continues fps r = record {
    less = omega arith;
    same_epoch = refl;
    same_encoder = refl;
    same_state = refl;
  }

  -- One round of the loop, once a frame is decoded.
  module _ (fuel limit : ℕ) (profile : VideoProfile) (key : Bool) (r decoded : VideoFileReader S D)
      (got : next_decoded_frame double lib limit r ≡ returned (true, decoded)) where
    loop_skips :
        (should_output_decoded_frame double lib profile.fps decoded).0 ≡ false
        → frame_loop double lib (suc fuel) limit profile key r
          ≡ frame_loop double lib fuel limit profile key
              (should_output_decoded_frame double lib profile.fps decoded).1
    unfolding frame_loop
    loop_skips skip = rw (got, skip, frame_loop) refl

    module _ (chosen : (should_output_decoded_frame double lib profile.fps decoded).0 ≡ true) where
      loop_throws :
          encode double lib profile key
              (should_output_decoded_frame double lib profile.fps decoded).1
            ≡ none
          → frame_loop double lib (suc fuel) limit profile key r ≡ thrown
      unfolding frame_loop
      loop_throws bad = rw (got, chosen, bad, frame_loop) refl

      loop_encodes :
          (encoded : Encoded) (after : VideoFileReader S D)
          → encode double lib profile key
              (should_output_decoded_frame double lib profile.fps decoded).1
            ≡ some (encoded, after)
          → Continues left r after
          → WasEncoded lib key encoded
          → Frames key after (frame_loop double lib fuel limit profile key after)
          → Frames key r (frame_loop double lib (suc fuel) limit profile key r)
      unfolding frame_loop
      loop_encodes not_yet after e on made rest =
          rw (got, chosen, e, frame_loop) (Frames-on _ on rest)
      loop_encodes broken after e on made rest = rw (got, chosen, e, frame_loop) (inl refl)
      loop_encodes (got_packet bytes flag) after e on made rest =
          rw (got, chosen, e, frame_loop) (inr (_, after, refl, on, inr (_, refl, refl, made)))

  frame_round :
      (fuel limit : ℕ) (profile : VideoProfile) (key : Bool) (r decoded : VideoFileReader S D)
      → next_decoded_frame double lib limit r ≡ returned (true, decoded)
      → Continues left r decoded
      → ((after : VideoFileReader S D)
          → left after.file ≤ left decoded.file
          → Frames key after (frame_loop double lib fuel limit profile key after))
      → Frames key r (frame_loop double lib (suc fuel) limit profile key r)
  frame_round fuel limit profile key r decoded got on rest =
      let seen = should_output-Continues profile.fps decoded in
      let next = (should_output_decoded_frame double lib profile.fps decoded).1 in
      elim (Bool-cases (should_output_decoded_frame double lib profile.fps decoded).0) [
        | inr skip ↦
            rw (loop_skips fuel limit profile key r decoded got skip)
              (Frames-on _ (Continues-trans left on seen) (rest next seen.less))
        | inl chosen ↦ elim (encode_lem profile key next) [
          | inl bad ↦ inl (loop_throws fuel limit profile key r decoded got chosen bad)
          | inr (encoded, after, e, further, made) ↦
              loop_encodes fuel limit profile key r decoded got chosen encoded after e
                (Continues-trans left on (Continues-trans left seen further)) made
                (rest after (omega (arith, seen.less, further.less)))
        ]
      ]

  pub frame_loop_ends :
      (fuel limit : ℕ) (profile : VideoProfile) (key : Bool) (r : VideoFileReader S D)
      → left r.file < fuel
      → left r.file + 2 < limit
      → Frames key r (frame_loop double lib fuel limit profile key r)
  unfolding frame_loop
  frame_loop_ends zero limit profile key r enough room = absurd (omega arith)
  frame_loop_ends (suc fuel) limit profile key r enough room =
      elim (next_decoded_frame_ends double lib left finite limit r
        (omega (arith, room, bit_bound r.input_eof, bit_bound r.decoder_flushed))) [
          | inl bad ↦ inl (rw (bad, frame_loop) refl)
          | inr (found, decoded, e, on, progress) ↦ elim progress [
            | inl over ↦ inr (none, decoded, rw (e, frame_loop) (rw over refl), on, inl refl)
            | inr taken ↦ elim (Bool-cases found) [
              | inr over ↦ inr (none, decoded, rw (e, frame_loop) (rw over refl), on, inl refl)
              | inl got ↦
                  frame_round fuel limit profile key r decoded
                    (e ∙ ap (λ (b : Bool). returned (b, decoded)) got) on
                    (λ after below.
                      frame_loop_ends fuel limit profile key after (omega (arith, below, taken))
                        (omega (arith, below, taken, room)))
            ]
          ]
        ]
