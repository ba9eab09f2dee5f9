-- ===== src/Video/Handles/Ownership/Decoder.antt =====
-- The decoder of the receiver from the constructor to the destructor.
use web_rtc_weak_network_vid.Common.{◌≡◌, refl, ap, Bool, false, not, List, [], ◌∷◌, arith, ◌==◌}
use web_rtc_weak_network_vid.Video.Handles.{
  Resource, decoder_context, decoded_frame, code, Handles, no_handles, allocate, free, DecoderCalls,
  open_h264, close_h264, reset_h264, h264_resets,
}
use web_rtc_weak_network_vid.Video.Handles.Ownership.{
  one_if, IsOwned, free-IsOwned, allocate-IsOwned, pointer-free, either,
}

-- Nothing but these two is ever held.
IsDecoder : Handles → Type 0
IsDecoder h =
    IsOwned h
    × ((k : Resource) → (code k == 1) ≡ false → (code k == 2) ≡ false → h.pointer k ≡ false)

pointer-close_h264 : (h : Handles) → IsDecoder h → (k : Resource) → (close_h264 h).pointer k ≡ false
unfolding close_h264 IsDecoder
pointer-close_h264 h v k = ground (
  arith,
  pointer-free decoder_context k (free decoded_frame h),
  pointer-free decoded_frame k h,
  v.1 k,
)

close_h264-IsOwned : (h : Handles) → IsDecoder h → IsOwned (close_h264 h)
unfolding close_h264 IsDecoder
close_h264-IsOwned h v =
    free-IsOwned decoder_context (free decoded_frame h) (free-IsOwned decoded_frame h v.0)

module _ (calls : DecoderCalls) (h : Handles) (v : IsOwned h)
    (empty : (k : Resource) → h.pointer k ≡ false) where
  abbrev with_context : Handles
  with_context = allocate decoder_context calls.context_allocated h

  with_context-IsDecoder : IsDecoder with_context
  unfolding IsDecoder allocate
  with_context-IsDecoder = (
    allocate-IsOwned decoder_context calls.context_allocated h v (empty decoder_context) refl,
    λ k first second. ground (arith, first, empty k),
  )

  with_frame-IsDecoder : IsDecoder (allocate decoded_frame calls.frame_made with_context)
  unfolding IsDecoder allocate
  with_frame-IsDecoder = (
    allocate-IsOwned decoded_frame calls.frame_made with_context with_context-IsDecoder.0
        (empty decoded_frame) refl,
    λ k first second. ground (arith, first, second, empty k),
  )

  open_h264-IsDecoder : IsDecoder (open_h264 calls h).0
  unfolding open_h264 IsDecoder
  open_h264-IsDecoder =
      let P = λ (result : Handles × Bool). IsDecoder result.0 in
      either P (not calls.codec_found) (v, λ k first second. empty k)
        (either P (not calls.context_allocated) with_context-IsDecoder
          (either P (not calls.codec_opens) with_context-IsDecoder with_frame-IsDecoder))

h264_resets-IsDecoder :
    (resets : List DecoderCalls) (h : Handles) → IsDecoder h → IsDecoder (h264_resets resets h)
unfolding h264_resets reset_h264
h264_resets-IsDecoder [] h v = v
h264_resets-IsDecoder (calls ∷ resets) h v =
    h264_resets-IsDecoder resets _
      (open_h264-IsDecoder calls (close_h264 h) (close_h264-IsOwned h v) (pointer-close_h264 h v))

-- However often a decoder is reset, and whichever of the resets fail, and wherever: after the destructor
-- its context and its frame have been freed as often as they were allocated.
close_h264-h264_resets :
    (opening : DecoderCalls) (resets : List DecoderCalls) (k : Resource)
    → (close_h264 (h264_resets resets (open_h264 opening no_handles).0)).allocated k
      ≡ (close_h264 (h264_resets resets (open_h264 opening no_handles).0)).freed k
close_h264-h264_resets opening resets k =
    let last = h264_resets resets (open_h264 opening no_handles).0 in
    let opened : IsDecoder (open_h264 opening no_handles).0 =
      open_h264-IsDecoder opening no_handles (λ j. refl, refl) (λ j. refl) in
    let v = h264_resets-IsDecoder resets (open_h264 opening no_handles).0 opened in
    omega (arith, (close_h264-IsOwned last v).0 k, ap one_if (pointer-close_h264 last v k))
