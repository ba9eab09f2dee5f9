-- ===== src/Video/Reader/Decoding.antt =====
-- The decoder's loop comes to an end on an input that is finite.
use web_rtc_weak_network_vid.Common.{
  ℕ, zero, suc, ◌+◌, ◌≡◌, ◌≤◌, ◌<◌, ◌⊎◌, ◌∙◌, inl, inr, refl, ap, Bool, true, false, some, arith,
  Bool-cases,
}
use web_rtc_weak_network_vid.Quality.Doubles.{Doubles}
use web_rtc_weak_network_vid.Quality.Adaptation.{VideoProfile}
use web_rtc_weak_network_vid.Video.Reader.{
  Result, returned, thrown, Decoded, got_frame, end_of_file, again, failed, FileLib,
  VideoFileReader, Fed, go_on, at_end, fed_nothing, feed, next_decoded_frame,
}

-- `left` is what the input and the decoder still hold. A packet that is read and sent takes at least
-- as much from it as its frames, and each frame that comes out takes some of it; a call does not add.
pub record IsFinite {S D : Type 0} (lib : FileLib S D) (left : S → ℕ) : Type 0 where
  pub receive_law : (s : S) → left (lib.receive_frame s).1 ≤ left s
  pub frame_law :
      (s : S) → (lib.receive_frame s).0 ≡ got_frame → left (lib.receive_frame s).1 < left s
  pub flush_law : (s : S) → left (lib.flush s).1 ≤ left s
  pub read_law : (s : S) → left (lib.read_packet s).1 ≤ left s
  pub send_law :
      (s : S)
      → (lib.read_packet s).0 ≡ true
      → left (lib.send_packet (lib.read_packet s).1).1 < left s
  pub scale_law :
      (profile : VideoProfile) (s s' : S) → lib.scale profile s ≡ some s' → left s' ≤ left s
  pub open_law :
      (profile : VideoProfile) (s s' : S) → lib.open_encoder profile s ≡ some s' → left s' ≤ left s
  pub send_frame_law :
      (pts : ℕ) (key : Bool) (s s' : S) → lib.send_frame pts key s ≡ some s' → left s' ≤ left s
  pub receive_packet_law : (s : S) → left (lib.receive_packet s).1 ≤ left s

abbrev pub bit : Bool → ℕ
bit true = 0
bit false = 1

module _ {S D : Type 0} (left : S → ℕ) where
  -- The second reader goes on from the first with the same encoder, and holds no more input.
  pub record Continues (r r' : VideoFileReader S D) : Type 0 where
    pub less : left r'.file ≤ left r.file
    pub same_epoch : r'.epoch ≡ r.epoch
    pub same_encoder : r'.encoder_profile ≡ r.encoder_profile
    pub same_state : r'.encoder_configured ≡ r.encoder_configured

  pub Continues-trans :
      {r r' r'' : VideoFileReader S D} → Continues r r' → Continues r' r'' → Continues r r''
  Continues-trans a b = record {
    less = omega (arith, a.less, b.less);
    same_epoch = b.same_epoch ∙ a.same_epoch;
    same_encoder = b.same_encoder ∙ a.same_encoder;
    same_state = b.same_state ∙ a.same_state;
  }

  abbrev pub open_flags : VideoFileReader S D → ℕ
  open_flags r = bit r.input_eof + bit r.decoder_flushed

Decoded-cases : (d : Decoded) → ((d ≡ got_frame) ⊎ (d ≡ end_of_file)) ⊎ ((d ≡ again) ⊎ (d ≡ failed))
Decoded-cases got_frame = inl (inl refl)
Decoded-cases end_of_file = inl (inr refl)
Decoded-cases again = inr (inl refl)
Decoded-cases failed = inr (inr refl)

module _ {S D : Type 0} (double : Doubles D) (lib : FileLib S D) (left : S → ℕ)
    (finite : IsFinite lib left) where
  -- A round that goes on takes something from the input, or sets a flag.
  abbrev Feeds : VideoFileReader S D → Fed (VideoFileReader S D) → Type 0
  Feeds r result =
      ((fed : VideoFileReader S D) × (result ≡ go_on fed)
        × (left fed.file + open_flags left fed < left r.file + open_flags left r)
        × Continues left r fed)
      ⊎ (((ended : VideoFileReader S D) × (result ≡ at_end ended) × Continues left r ended)
          ⊎ (result ≡ fed_nothing))

  feed_lem :
      (eof flushed : Bool) (file : S) (r : VideoFileReader S D)
      → r.input_eof ≡ eof
      → r.decoder_flushed ≡ flushed
      → left file ≤ left r.file
      → Feeds r (feed double lib eof flushed file r)
  unfolding feed
  feed_lem true true file r e f less = inr (
      inl (
        record r { file = file },
        refl,
        record { less = less; same_epoch = refl; same_encoder = refl; same_state = refl },
      ))
  feed_lem true false file r e f less = elim (Bool-cases (lib.flush file).0) [
    | inl ok ↦ inl (
      record r { file = (lib.flush file).1; decoder_flushed = true },
      rw (ok, feed) refl,
      omega (arith, less, finite.flush_law file, ap bit f),
      record {
        less = omega (arith, less, finite.flush_law file);
        same_epoch = refl;
        same_encoder = refl;
        same_state = refl;
      },
    )
    | inr bad ↦ inr (inr (rw (bad, feed) refl))
  ]
  feed_lem false flushed file r e f less = elim (Bool-cases (lib.read_packet file).0) [
    | inr none_left ↦ inl (
      record r { file = (lib.read_packet file).1; input_eof = true },
      rw (none_left, feed) refl,
      omega (arith, less, finite.read_law file, ap bit e),
      record {
        less = omega (arith, less, finite.read_law file);
        same_epoch = refl;
        same_encoder = refl;
        same_state = refl;
      },
    )
    | inl read ↦ elim (Bool-cases (lib.send_packet (lib.read_packet file).1).0) [
      | inl ok ↦ inl (
        record r { file = (lib.send_packet (lib.read_packet file).1).1 },
        rw (read, ok, feed) refl,
        omega (arith, less, finite.send_law file read),
        record {
          less = omega (arith, less, finite.send_law file read);
          same_epoch = refl;
          same_encoder = refl;
          same_state = refl;
        },
      )
      | inr bad ↦ inr (inr (rw (read, bad, feed) refl))
    ]
  ]

  -- What the decoder's loop comes to.
  abbrev pub Decodes : VideoFileReader S D → Result (Bool × VideoFileReader S D) → Type 0
  Decodes r result =
      (result ≡ thrown)
      ⊎ ((found : Bool) × (r' : VideoFileReader S D) × (result ≡ returned (found, r'))
          × Continues left r r'
          × ((found ≡ false) ⊎ (left r'.file < left r.file)))

  pub next_decoded_frame_ends :
      (fuel : ℕ) (r : VideoFileReader S D)
      → left r.file + open_flags left r < fuel
      → Decodes r (next_decoded_frame double lib fuel r)
  unfolding next_decoded_frame
  next_decoded_frame_ends zero r enough = absurd (omega arith)
  next_decoded_frame_ends (suc fuel) r enough = elim (Decoded-cases (lib.receive_frame r.file).0) [
    | inl (inl found) ↦ inr (
      true,
      record r { file = (lib.receive_frame r.file).1 },
      rw (found, next_decoded_frame) refl,
      record {
        less = finite.receive_law r.file;
        same_epoch = refl;
        same_encoder = refl;
        same_state = refl;
      },
      inr (finite.frame_law r.file found),
    )
    | inl (inr over) ↦ inr (
      false,
      record r { file = (lib.receive_frame r.file).1 },
      rw (over, next_decoded_frame) refl,
      record {
        less = finite.receive_law r.file;
        same_epoch = refl;
        same_encoder = refl;
        same_state = refl;
      },
      inl refl,
    )
    | inr (inr bad) ↦ inl (rw (bad, next_decoded_frame) refl)
    | inr (inl empty) ↦
        elim (feed_lem r.input_eof r.decoder_flushed (lib.receive_frame r.file).1 r refl refl
          (finite.receive_law r.file)) [
            | inl (fed, e, smaller, on) ↦
                elim (next_decoded_frame_ends fuel fed (omega (arith, smaller))) [
                  | inl bad ↦ inl (rw (empty, e, next_decoded_frame) bad)
                  | inr (found, r', same, further, progress) ↦ inr (
                    found,
                    r',
                    rw (empty, e, next_decoded_frame) same,
                    Continues-trans left on further,
                    elim progress [
                      | inl over ↦ inl over
                      | inr taken ↦ inr (omega (arith, taken, on.less))
                    ],
                  )
                ]
            | inr (inl (ended, e, on)) ↦
                inr (false, ended, rw (empty, e, next_decoded_frame) refl, on, inl refl)
            | inr (inr bad) ↦ inl (rw (empty, bad, next_decoded_frame) refl)
          ]
  ]
