-- ===== src/Video/Receiver/Frames.antt =====
-- What the receiver writes, and what a frame that cannot be decoded leaves behind.
use web_rtc_weak_network_vid.Common.{
  ℕ, ◌≡◌, ◌⊎◌, inl, inr, refl, sym, ap, Bool, true, false, ◌||◌, Option, none, some, List, [], ◌∷◌,
  ◌++◌, Bool-cases,
}
use mathlib.Core.Bool.{false≢true}
use web_rtc_weak_network_vid.Transport.State.{Handler}
use web_rtc_weak_network_vid.Quality.ReceiveStats.{VideoReceiveStats}
use web_rtc_weak_network_vid.Video.Idr.{contains_h264_idr}
use web_rtc_weak_network_vid.Video.Receiver.{
  DecoderLib, VideoReceiver, after_decode, reset_if_needed, on_frame, on_frames, new_receiver,
  write,
}

-- Nothing is written, or the first frame in the file holds an IDR slice and the output has started.
pub IsOutput : Bool → Option (List (List ℕ)) → Type 0
IsOutput started output =
    (output ≡ none)
    ⊎ (((started ≡ false) × (output ≡ some []))
        ⊎ ((first : List ℕ) × (rest : List (List ℕ)) × (output ≡ some (first ∷ rest))
            × (contains_h264_idr first ≡ true)
            × (started ≡ true)))

IsOutput-write :
    (idr started : Bool) (frame : List ℕ) (output : Option (List (List ℕ)))
    → contains_h264_idr frame ≡ idr
    → IsOutput started output
    → IsOutput (started || idr) (write (started || idr) frame output)
unfolding IsOutput
IsOutput-write idr started frame none e v = inl refl
IsOutput-write idr started frame (some frames) e (inl closed) =
    inl (ap (write (started || idr) frame) closed)
IsOutput-write true false frame (some frames) e (inr (inl (off, empty))) =
    inr (inr (frame, [], ap (write true frame) empty, e, refl))
IsOutput-write false false frame (some frames) e (inr (inl (off, empty))) = inr (inl (refl, empty))
IsOutput-write idr true frame (some frames) e (inr (inl (off, empty))) =
    absurd (false≢true (sym off))
IsOutput-write idr true frame (some frames) e (inr (inr (first, rest, same, found, on))) =
    inr (inr (first, rest ++ (frame ∷ []), ap (write true frame) same, found, refl))
IsOutput-write idr false frame (some frames) e (inr (inr (first, rest, same, found, on))) =
    absurd (false≢true on)

module _ {S : Type 0} (lib : DecoderLib S) where
  after_decode-IsOutput :
      (decoded : Bool) (decoder : S) (at_us : ℕ) (frame : List ℕ) (r : VideoReceiver S)
      → IsOutput r.output_started r.output
      → IsOutput
          (after_decode decoded decoder at_us frame r).output_started
          (after_decode decoded decoder at_us frame r).output
  unfolding after_decode
  after_decode-IsOutput false decoder at_us frame r v = v
  after_decode-IsOutput true decoder at_us frame r v =
      IsOutput-write (contains_h264_idr frame) r.output_started frame r.output refl v

  reset_if_needed-IsOutput :
      (r : VideoReceiver S)
      → IsOutput r.output_started r.output
      → IsOutput (reset_if_needed lib r).1.output_started (reset_if_needed lib r).1.output
  unfolding reset_if_needed
  reset_if_needed-IsOutput r v = elim (Bool-cases r.reset_decoder) [
    | inl due ↦ rw due v
    | inr not_due ↦ rw not_due v
  ]

  on_frame-IsOutput :
      (at_us : ℕ) (frame : List ℕ) (r : VideoReceiver S)
      → IsOutput r.output_started r.output
      → IsOutput (on_frame lib at_us frame r).output_started (on_frame lib at_us frame r).output
  unfolding on_frame
  on_frame-IsOutput at_us frame r v =
      let ready = reset_if_needed-IsOutput r v in
      elim (Bool-cases (reset_if_needed lib r).0) [
        | inl whole ↦ rw whole (after_decode-IsOutput _ _ at_us frame _ ready)
        | inr thrown ↦ rw thrown ready
      ]

  on_frames_keep :
      (frames : List (ℕ × List ℕ)) (r : VideoReceiver S)
      → IsOutput r.output_started r.output
      → IsOutput (on_frames lib frames r).output_started (on_frames lib frames r).output
  unfolding on_frames
  on_frames_keep [] r v = v
  on_frames_keep ((at_us, frame) ∷ frames) r v =
      on_frames_keep frames _ (on_frame-IsOutput at_us frame r v)

  -- Whatever frames come to a new receiver and whatever its decoder makes of them, there is no
  -- output file, or nothing is written to it, or the first frame in it holds an IDR slice and the
  -- output has started.
  pub on_frames-IsOutput :
      (frames : List (ℕ × List ℕ)) (decoder : S) (stats : VideoReceiveStats)
      (transport : Option Handler)
      → IsOutput
          (on_frames lib frames (new_receiver decoder stats transport)).output_started
          (on_frames lib frames (new_receiver decoder stats transport)).output
  unfolding new_receiver IsOutput
  on_frames-IsOutput frames decoder stats transport =
      on_frames_keep frames (new_receiver decoder stats transport) (inr (inl (refl, refl)))
