-- ===== src/Video/Handles.antt =====
-- video/video_file_reader.cpp and video/h264_decoder.cpp: who holds what FFmpeg allocates. The calls are
-- their results; a pointer says whether it is not null. An operation returns `false` if it throws.
pub mod Ownership
use web_rtc_weak_network_vid.Common.{
  ℕ, ◌+◌, Bool, true, false, not, List, [], ◌∷◌, ◌==◌, if◌then◌else◌,
}

-- `format_context_`, `decoder_context_` (of the decoder `context_`), `decoded_frame_` (`frame_`),
-- `encoder_context_`, `scaled_frame_` and `sws_context_`, and the local variable `packet`.
pub data Resource : Type 0 where
  format_context decoder_context decoded_frame encoder_context scaled_frame : Resource
  sws_context packet : Resource

abbrev pub code : Resource → ℕ
code format_context = 0
code decoder_context = 1
code decoded_frame = 2
code encoder_context = 3
code scaled_frame = 4
code sws_context = 5
code packet = 6

-- The pointers, and how often each resource was allocated and freed.
pub record Handles : Type 0 where
  pub pointer : Resource → Bool
  pub allocated : Resource → ℕ
  pub freed : Resource → ℕ
  pub encoder_configured : Bool

abbrev pub no_handles : Handles
no_handles = record {
  pointer = λ k. false;
  allocated = λ k. 0;
  freed = λ k. 0;
  encoder_configured = false;
}

abbrev pub assign {ℓ} : {A : Type ℓ} → Resource → A → (Resource → A) → Resource → A
assign k a f j = if code j == code k then a else f j

-- A call that allocates overwrites the pointer with what it gives.
unfoldable pub allocate : Resource → Bool → Handles → Handles
allocate k made h = record h {
  pointer = assign k made h.pointer;
  allocated = if made then assign k (h.allocated k + 1) h.allocated else h.allocated;
}

-- A call that frees sets the pointer to null, and does nothing if it is.
unfoldable pub free : Resource → Handles → Handles
free k h =
    if h.pointer k
    then record h { pointer = assign k false h.pointer; freed = assign k (h.freed k + 1) h.freed }
    else h

-- The results of the calls of `VideoFileReader::open`, in their order.
pub record OpenCalls : Type 0 where
  pub opens : Bool
  pub has_stream_info : Bool
  pub has_video_stream : Bool
  pub decoder_found : Bool
  pub decoder_allocated : Bool
  pub parameters_copied : Bool
  pub decoder_opens : Bool
  pub frame_allocated : Bool

-- `avcodec_open2` and what follows it.
unfoldable pub open_decoder : OpenCalls → Handles → Handles × Bool
open_decoder calls h =
    if not calls.decoder_allocated
    then (h, false)
    else if not calls.parameters_copied
    then (h, false)
    else if not calls.decoder_opens
    then (h, false)
    else (allocate decoded_frame calls.frame_allocated h, calls.frame_allocated)

-- `VideoFileReader::open`
unfoldable pub open_reader : OpenCalls → Handles → Handles × Bool
open_reader calls h =
    if not calls.opens
    then (h, false)
    else (let opened = allocate format_context true h in
        if not calls.has_stream_info
        then (opened, false)
        else if not calls.has_video_stream
        then (opened, false)
        else if not calls.decoder_found
        then (opened, false)
        else open_decoder calls (allocate decoder_context calls.decoder_allocated opened))

unfoldable pub close_encoder : Handles → Handles
close_encoder h =
    let closed = free encoder_context (free scaled_frame h) in
    record closed { encoder_configured = false }

-- `VideoFileReader::close`
unfoldable pub close_reader : Handles → Handles
close_reader h =
    free format_context
      (free decoder_context (free decoded_frame (free sws_context (close_encoder h))))

-- The results of the calls of `configure_encoder`.
pub record EncoderCalls : Type 0 where
  pub encoder_found : Bool
  pub encoder_allocated : Bool
  pub encoder_opens : Bool
  pub scaled_allocated : Bool
  pub has_buffer : Bool

-- `configure_encoder`, from `av_frame_alloc` on.
unfoldable pub finish_encoder : EncoderCalls → Handles → Handles × Bool
finish_encoder calls h =
    if not calls.scaled_allocated
    then (h, false)
    else if not calls.has_buffer
    then (h, false)
    else (record h { encoder_configured = true }, true)

unfoldable pub configure_handles : EncoderCalls → Handles → Handles × Bool
configure_handles calls h =
    let closed = close_encoder h in
    if not calls.encoder_found
    then (closed, false)
    else (let made = allocate encoder_context calls.encoder_allocated closed in
        if not calls.encoder_allocated
        then (made, false)
        else if not calls.encoder_opens
        then (made, false)
        else finish_encoder calls (allocate scaled_frame calls.scaled_allocated made))

-- `sws_getCachedContext`, which frees the context that it does not give back.
unfoldable pub cache_converter : Bool → Handles → Handles × Bool
cache_converter made h = (allocate sws_context made (free sws_context h), made)

-- `VideoFileReader::reset`
unfoldable pub reset_reader : OpenCalls → Handles → Handles × Bool
reset_reader calls h = open_reader calls (close_reader h)

-- What `avcodec_receive_packet` returns.
pub data EncoderAnswer : Type 0 where
  gives_packet asks_again refuses : EncoderAnswer

-- The packet of `next_frame`, from `av_packet_alloc` on.
unfoldable pub take_packet : Bool → EncoderAnswer → Handles → Handles × Bool
take_packet made answer h =
    let allocated = allocate packet made h in
    if not made then (allocated, false) else elim answer [
      | asks_again ↦ (free packet allocated, true)
      | refuses ↦ (free packet allocated, false)
      | gives_packet ↦ (free packet allocated, true)
    ]

-- The packet of a round of `next_decoded_frame`: whether it is allocated, whether it is read, and
-- whether the decoder takes it.
unfoldable pub feed_packet : Bool → Bool → Bool → Handles → Handles × Bool
feed_packet made read taken h =
    let allocated = allocate packet made h in
    if not made
    then (allocated, false)
    else if not read
    then (free packet allocated, true)
    else (free packet allocated, taken)

-- What `next_frame` and `reset` do to the handles of a reader, up to the first exception.
pub data ReaderStep : Type 0 where
  configures : EncoderCalls → ReaderStep
  converts : Bool → ReaderStep
  encodes : Bool → EncoderAnswer → ReaderStep
  reads : Bool → Bool → Bool → ReaderStep
  resets : OpenCalls → ReaderStep

unfoldable pub reader_step : ReaderStep → Handles → Handles × Bool
reader_step (configures calls) h = configure_handles calls h
reader_step (converts made) h = cache_converter made h
reader_step (encodes made answer) h = take_packet made answer h
reader_step (reads made read taken) h = feed_packet made read taken h
reader_step (resets calls) h = reset_reader calls h

unfoldable pub reader_steps : List ReaderStep → Handles → Handles × Bool
reader_steps [] h = (h, true)
reader_steps (step ∷ steps) h = elim (reader_step step h).1 [
  | true ↦ reader_steps steps (reader_step step h).0
  | false ↦ ((reader_step step h).0, false)
]

-- `H264Decoder::open`, `close` and `reset`.
pub record DecoderCalls : Type 0 where
  pub codec_found : Bool
  pub context_allocated : Bool
  pub codec_opens : Bool
  pub frame_made : Bool

unfoldable pub open_h264 : DecoderCalls → Handles → Handles × Bool
open_h264 calls h =
    if not calls.codec_found
    then (h, false)
    else (let made = allocate decoder_context calls.context_allocated h in
        if not calls.context_allocated
        then (made, false)
        else if not calls.codec_opens
        then (made, false)
        else (allocate decoded_frame calls.frame_made made, calls.frame_made))

unfoldable pub close_h264 : Handles → Handles
close_h264 h = free decoder_context (free decoded_frame h)

unfoldable pub reset_h264 : DecoderCalls → Handles → Handles × Bool
reset_h264 calls h = open_h264 calls (close_h264 h)

-- The resets of a decoder. One that throws ends the callback for frames, and the next may follow.
unfoldable pub h264_resets : List DecoderCalls → Handles → Handles
h264_resets [] h = h
h264_resets (calls ∷ more) h = h264_resets more (reset_h264 calls h).0
