-- ===== src/Video/Handles/Ownership.antt =====
-- What a file reader and a decoder allocate they hold, and free.
pub mod Life
pub mod Decoder
use web_rtc_weak_network_vid.Common.{
  ℕ, zero, suc, ◌+◌, ◌≡◌, ◌∙◌, refl, sym, ap, subst, inl, inr, Bool, true, false, not, List, [],
  ◌∷◌, arith, ◌==◌, if◌then◌else◌, Bool-cases,
}
use web_rtc_weak_network_vid.Video.Handles.{
  Resource, format_context, decoder_context, decoded_frame, encoder_context, scaled_frame,
  sws_context, packet, code, Handles, no_handles, assign, allocate, free, OpenCalls, open_decoder,
  open_reader, close_encoder, close_reader, EncoderCalls, finish_encoder, configure_handles,
  cache_converter, reset_reader, ReaderStep, configures, converts, resets, reader_step,
  reader_steps, DecoderCalls, open_h264, close_h264, reset_h264, h264_resets,
}

abbrev pub one_if : Bool → ℕ
one_if true = 1
one_if false = 0

-- Each allocation that was not freed is the one that the pointer holds, and no packet is held.
abbrev pub IsOwned : Handles → Type 0
IsOwned h =
    ((k : Resource) → h.allocated k ≡ h.freed k + one_if (h.pointer k)) × (h.pointer packet ≡ false)

decode : ℕ → Resource
decode zero = format_context
decode (suc zero) = decoder_context
decode (suc (suc zero)) = decoded_frame
decode (suc (suc (suc zero))) = encoder_context
decode (suc (suc (suc (suc zero)))) = scaled_frame
decode (suc (suc (suc (suc (suc zero))))) = sws_context
decode (suc (suc (suc (suc (suc (suc n)))))) = packet

decode-code : (k : Resource) → decode (code k) ≡ k
unfolding decode
decode-code format_context = refl
decode-code decoder_context = refl
decode-code decoded_frame = refl
decode-code encoder_context = refl
decode-code scaled_frame = refl
decode-code sws_context = refl
decode-code packet = refl

pub code_inj : (j k : Resource) → (code j == code k) ≡ true → j ≡ k
code_inj j k e =
    let same : code j ≡ code k = ground (arith, e) in
    sym (decode-code j) ∙ ap decode same ∙ decode-code k

pub free-IsOwned : (k : Resource) (h : Handles) → IsOwned h → IsOwned (free k h)
unfolding free
free-IsOwned k h v = (λ j. ground (arith, v.0 j, v.0 k, code_inj j k), ground (arith, v.1))

pub allocate-IsOwned :
    (k : Resource) (made : Bool) (h : Handles)
    → IsOwned h
    → h.pointer k ≡ false
    → (code packet == code k) ≡ false
    → IsOwned (allocate k made h)
unfolding allocate
allocate-IsOwned k made h v empty other =
    (λ j. ground (arith, v.0 j, v.0 k, code_inj j k), ground (arith, v.1, other))

-- A packet that is freed where it was allocated.
pub packet-IsOwned : (h : Handles) → IsOwned h → IsOwned (free packet (allocate packet true h))
unfolding free allocate
packet-IsOwned h v = (λ j. ground (arith, v.0 j, v.1, code_inj j packet), refl)

pub pointer-free :
    (k j : Resource) (h : Handles)
    → (free k h).pointer j ≡ (if code j == code k then false else h.pointer j)
unfolding free
pointer-free k j h = ground (arith, code_inj j k)

pub pointer-allocate :
    (k j : Resource) (made : Bool) (h : Handles)
    → (allocate k made h).pointer j ≡ (if code j == code k then made else h.pointer j)
unfolding allocate
pointer-allocate k j made h = refl

pub close_encoder-IsOwned : (h : Handles) → IsOwned h → IsOwned (close_encoder h)
unfolding close_encoder
close_encoder-IsOwned h v =
    free-IsOwned encoder_context (free scaled_frame h) (free-IsOwned scaled_frame h v)

pub pointer-close_encoder :
    (h : Handles) (j : Resource)
    → (close_encoder h).pointer j
      ≡ (if code j == 3 then false else if code j == 4 then false else h.pointer j)
unfolding close_encoder
pointer-close_encoder h j =
    ground
      (arith, pointer-free encoder_context j (free scaled_frame h), pointer-free scaled_frame j h)

pub close_reader-IsOwned : (h : Handles) → IsOwned h → IsOwned (close_reader h)
unfolding close_reader
close_reader-IsOwned h v = free-IsOwned format_context _ (
    free-IsOwned decoder_context _
      (free-IsOwned decoded_frame _ (free-IsOwned sws_context _ (close_encoder-IsOwned h v))))

-- Nothing is held after it.
pub pointer-close_reader :
    (h : Handles) → IsOwned h → (j : Resource) → (close_reader h).pointer j ≡ false
unfolding close_reader
pointer-close_reader h v format_context = simp (pointer-free, pointer-close_encoder)
pointer-close_reader h v decoder_context = simp (pointer-free, pointer-close_encoder)
pointer-close_reader h v decoded_frame = simp (pointer-free, pointer-close_encoder)
pointer-close_reader h v encoder_context = simp (pointer-free, pointer-close_encoder)
pointer-close_reader h v scaled_frame = simp (pointer-free, pointer-close_encoder)
pointer-close_reader h v sws_context = simp (pointer-free, pointer-close_encoder)
pointer-close_reader h v packet = simp (pointer-free, pointer-close_encoder, v.1)

pub configured-free :
    (k : Resource) (h : Handles) → (free k h).encoder_configured ≡ h.encoder_configured
unfolding free
configured-free k h = ground arith

pub configured-close_reader : (h : Handles) → (close_reader h).encoder_configured ≡ false
unfolding close_reader close_encoder
configured-close_reader h = simp configured-free

-- The two branches of a test.
pub either :
    (P : Handles × Bool → Type 0) (test : Bool) {x y : Handles × Bool}
    → P x
    → P y
    → P (if test then x else y)
either P true px py = px
either P false px py = py

-- What the loops of a reader use is there.
abbrev pub IsOpen : Handles → Type 0
IsOpen h =
    (h.pointer format_context ≡ true)
    × (h.pointer decoder_context ≡ true)
    × (h.pointer decoded_frame ≡ true)

-- What the encoder needs is there whenever it counts as configured.
abbrev pub IsEncoderReady : Handles → Type 0
IsEncoderReady h =
    h.encoder_configured ≡ true
    → (h.pointer encoder_context ≡ true) × (h.pointer scaled_frame ≡ true)

-- What an operation leaves, on the reader or the decoder: if it does not throw, the input is open.
abbrev pub Leaves : Handles × Bool → Type 0
Leaves result = IsOwned result.0 × IsEncoderReady result.0 × (result.1 ≡ true → IsOpen result.0)

pub fails : (h : Handles) → IsOwned h → IsEncoderReady h → Leaves (h, false)
fails h v ready = (v, ready, λ e. cc)
