-- ===== src/Video/Reader/Epochs.antt =====
-- The call for the next frame comes to an end, and the epoch of what it gives.
use web_rtc_weak_network_vid.Common.{
  ℕ, ◌+◌, ◌≡◌, ◌≤◌, ◌<◌, ◌⊎◌, ◌≢◌, ◌∙◌, inl, inr, refl, sym, Bool, true, false, not, ◌||◌, ◌==◌,
  if◌then◌else◌, Option, none, some, arith, Bool-cases, Option-cases,
}
use mathlib.Core.Bool.{false≢true}
use web_rtc_weak_network_vid.Quality.Doubles.{Doubles}
use web_rtc_weak_network_vid.Quality.Adaptation.{VideoProfile}
use web_rtc_weak_network_vid.Video.Reader.{
  got_packet, returned, thrown, FileLib, EncodedVideoFrame, VideoFileReader, same_profile,
  next_epoch, configure_encoder, next_frame,
}
use web_rtc_weak_network_vid.Video.Reader.Decoding.{IsFinite}
use web_rtc_weak_network_vid.Video.Reader.Ending.{WasEncoded, frame_loop_ends}

unchanged : (configured same : Bool) → (not configured || not same) ≡ false → same ≡ true
unchanged configured true e = refl
unchanged true false e = absurd (false≢true (sym e))
unchanged false false e = absurd (false≢true (sym e))

==_refl : (n : ℕ) → (n == n) ≡ true
==_refl n = ground arith

same_profile_refl : {p q : VideoProfile} → p ≡ q → same_profile p q ≡ true
same_profile_refl {p} {q} e = rw e (
    rw (==_refl q.level, ==_refl q.bitrate_kbps, ==_refl q.fps, ==_refl q.width, ==_refl q.height)
      refl)

module _ {S D : Type 0} (double : Doubles D) (lib : FileLib S D) (left : S → ℕ)
    (finite : IsFinite lib left) where
  configure_lem :
      (profile : VideoProfile) (r : VideoFileReader S D)
      → (configure_encoder double lib profile r ≡ none)
        ⊎ ((r' : VideoFileReader S D) × (configure_encoder double lib profile r ≡ some r')
            × (left r'.file ≤ left r.file)
            × (r'.encoder_profile ≡ profile)
            × (r'.epoch ≡ next_epoch r.epoch))
  unfolding configure_encoder
  configure_lem profile r = elim (Option-cases (lib.open_encoder profile r.file)) [
    | inl bad ↦ inl (rw (bad, configure_encoder) refl)
    | inr (file, ok) ↦ inr (
      record r {
        file = file;
        encoder_configured = true;
        encoder_profile = profile;
        epoch = next_epoch r.epoch;
        encoder_pts = 0;
        next_output_source_seconds = double.minus (double.num 0) (double.num 1);
      },
      rw (ok, configure_encoder) refl,
      finite.open_law profile r.file file ok,
      refl,
      refl,
    )
  ]

  -- With what the encoder is told of a frame that is returned.
  pub next_frame_lem :
      (limit : ℕ) (profile : VideoProfile) (force_keyframe : Bool) (r : VideoFileReader S D)
      → left r.file + 2 < limit
      → (next_frame double lib limit profile force_keyframe r ≡ thrown)
        ⊎ ((out : Option EncodedVideoFrame) × (r' : VideoFileReader S D) × (next_frame double lib
                limit profile force_keyframe r
              ≡ returned (out, r'))
            × (same_profile r'.encoder_profile profile ≡ true)
            × (r'.epoch ≡ (
                if not r.encoder_configured || not (same_profile r.encoder_profile profile)
                then next_epoch r.epoch
                else r.epoch))
            × ((out ≡ none)
                ⊎ ((frame : EncodedVideoFrame) × (out ≡ some frame)
                    × (frame.frame_epoch ≡ r'.epoch)
                    × WasEncoded lib
                        (if not r.encoder_configured || not (same_profile r.encoder_profile profile)
                          then true
                          else force_keyframe)
                        (got_packet frame.data_bytes frame.keyframe))))
  unfolding next_frame
  next_frame_lem limit profile force_keyframe r room =
      elim (Bool-cases (not r.encoder_configured || not (same_profile r.encoder_profile profile))) [
        | inl changed ↦ elim (configure_lem profile r) [
          | inl bad ↦ inl (rw (changed, bad, next_frame) refl)
          | inr (ready, ok, less, encoder, epoch) ↦
              elim (frame_loop_ends double lib left finite limit limit profile true ready
                (omega (arith, less, room)) (omega (arith, less, room))) [
                  | inl bad ↦ inl (rw (changed, ok, next_frame) bad)
                  | inr (out, r', same, on, given) ↦ inr (
                    out,
                    r',
                    rw (changed, ok, next_frame) same,
                    same_profile_refl (on.same_encoder ∙ encoder),
                    rw changed (on.same_epoch ∙ epoch),
                    rw changed given,
                  )
                ]
        ]
        | inr same_encoder ↦
            elim (frame_loop_ends double lib left finite limit limit profile force_keyframe r
              (omega (arith, room)) room) [
                | inl bad ↦ inl (rw (same_encoder, next_frame) bad)
                | inr (out, r', same, on, given) ↦ inr (
                  out,
                  r',
                  rw (same_encoder, next_frame) same,
                  rw on.same_encoder (unchanged r.encoder_configured _ same_encoder),
                  rw same_encoder on.same_epoch,
                  rw same_encoder given,
                )
              ]
      ]

  -- On an input that is finite, with fuel for it, the call for the next frame throws or returns,
  -- and does not run out of fuel. If it returns, the encoder has the profile that was asked for,
  -- the epoch is the next one if the encoder was made anew and the old one if not, and a frame that
  -- is returned carries it.
  pub next_frame_ends :
      (limit : ℕ) (profile : VideoProfile) (force_keyframe : Bool) (r : VideoFileReader S D)
      → left r.file + 2 < limit
      → (next_frame double lib limit profile force_keyframe r ≡ thrown)
        ⊎ ((out : Option EncodedVideoFrame) × (r' : VideoFileReader S D) × (next_frame double lib
                limit profile force_keyframe r
              ≡ returned (out, r'))
            × (same_profile r'.encoder_profile profile ≡ true)
            × (r'.epoch ≡ (
                if not r.encoder_configured || not (same_profile r.encoder_profile profile)
                then next_epoch r.epoch
                else r.epoch))
            × ((out ≡ none)
                ⊎ ((frame : EncodedVideoFrame) × (out ≡ some frame)
                    × (frame.frame_epoch ≡ r'.epoch))))
  next_frame_ends limit profile force_keyframe r room =
      elim (next_frame_lem limit profile force_keyframe r room) [
        | inl bad ↦ inl bad
        | inr (out, r', same, encoder, epoch, given) ↦ inr (
          out,
          r',
          same,
          encoder,
          epoch,
          elim given [ inl nothing ↦ inl nothing | inr (frame, e, f, made) ↦ inr (frame, e, f) ],
        )
      ]

if_true : {A : Type 0} {b : Bool} {x : A} (y : A) → b ≡ true → (if b then x else y) ≡ x
if_true y e = rw e refl

if_false : {A : Type 0} {b : Bool} (x : A) {y : A} → b ≡ false → (if b then x else y) ≡ y
if_false x e = rw e refl

next_epoch_lem :
    (epoch : ℕ)
    → epoch < 65536
    → (1 ≤ next_epoch epoch) × (next_epoch epoch < 65536) × (next_epoch epoch ≢ epoch)
unfolding next_epoch
next_epoch_lem epoch word = ground arith

-- The epoch is of 16 bits, and not 0 once there is an encoder.
abbrev pub IsReader : {S D : Type 0} → VideoFileReader S D → Type 0
IsReader r = (r.epoch < 65536) × ((r.encoder_configured ≡ false) ⊎ (1 ≤ r.epoch))

configured_when :
    (configured same : Bool) → (not configured || not same) ≡ false → configured ≡ true
configured_when true same e = refl
configured_when false same e = absurd (false≢true (sym e))

epoch_lem :
    {S D : Type 0} (r : VideoFileReader S D) (same : Bool) (epoch : ℕ)
    → IsReader r
    → epoch ≡ (if not r.encoder_configured || not same then next_epoch r.epoch else r.epoch)
    → (1 ≤ epoch) × (epoch < 65536) × (((same ≡ true) × (epoch ≡ r.epoch)) ⊎ (epoch ≢ r.epoch))
epoch_lem r same epoch v e = elim (Bool-cases (not r.encoder_configured || not same)) [
  | inl changed ↦
      let (low, high, other) = next_epoch_lem r.epoch v.0 in
      let new : epoch ≡ next_epoch r.epoch = e ∙ if_true r.epoch changed in
      rw new (low, high, inr other)
  | inr kept ↦
      let old : epoch ≡ r.epoch = e ∙ if_false (next_epoch r.epoch) kept in
      (
        elim v.1 [
          | inl fresh ↦
              absurd (false≢true (sym fresh ∙ configured_when r.encoder_configured same kept))
          | inr low ↦ omega (arith, old, low)
        ],
        omega (arith, old, v.0),
        inl (unchanged r.encoder_configured same kept, old),
      )
]

module _ {S D : Type 0} (double : Doubles D) (lib : FileLib S D) (left : S → ℕ)
    (finite : IsFinite lib left) where
  -- On an input that is finite, with fuel for it, a call for the next frame on a reader whose epoch
  -- is of 16 bits, and not 0 once there is an encoder, throws or returns a reader of that kind. The
  -- epoch of a frame it returns is not 0. Either the profile asked for is that of the encoder and
  -- the epoch is the old one, or the epoch is another one.
  pub next_frame-IsReader :
      (limit : ℕ) (profile : VideoProfile) (force_keyframe : Bool) (r : VideoFileReader S D)
      → left r.file + 2 < limit
      → IsReader r
      → (next_frame double lib limit profile force_keyframe r ≡ thrown)
        ⊎ ((out : Option EncodedVideoFrame) × (r' : VideoFileReader S D) × (next_frame double lib
                limit profile force_keyframe r
              ≡ returned (out, r'))
            × IsReader r'
            × ((out ≡ none)
                ⊎ ((frame : EncodedVideoFrame) × (out ≡ some frame) × (1 ≤ frame.frame_epoch)))
            × (((same_profile r.encoder_profile profile ≡ true) × (r'.epoch ≡ r.epoch))
                ⊎ (r'.epoch ≢ r.epoch)))
  next_frame-IsReader limit profile force_keyframe r room v =
      elim (next_frame_ends double lib left finite limit profile force_keyframe r room) [
        | inl bad ↦ inl bad
        | inr (out, r', same, encoder, epoch, given) ↦
            let (low, high, kept) =
              epoch_lem r (same_profile r.encoder_profile profile) r'.epoch v epoch in
            inr (
              out,
              r',
              same,
              (high, inr low),
              elim given [
                | inl nothing ↦ inl nothing
                | inr (frame, e, f) ↦ inr (frame, e, omega (arith, f, low))
              ],
              kept,
            )
      ]
