-- ===== src/Video/Handles/Ownership/Life.antt =====
-- A file reader and a decoder from the constructor to the destructor.
use web_rtc_weak_network_vid.Common.{
  ◌≡◌, ◌∙◌, refl, sym, ap, subst, inl, inr, Bool, true, false, not, List, [], ◌∷◌, arith,
  if◌then◌else◌, Bool-cases,
}
use web_rtc_weak_network_vid.Video.Handles.{
  EncoderAnswer, gives_packet, asks_again, refuses, take_packet, feed_packet, encodes, reads,
  packet, Resource, format_context, decoder_context, decoded_frame, encoder_context, scaled_frame,
  sws_context, Handles, no_handles, allocate, free, OpenCalls, open_decoder, open_reader,
  close_encoder, close_reader, EncoderCalls, finish_encoder, configure_handles, cache_converter,
  reset_reader, ReaderStep, configures, converts, resets, reader_step, reader_steps,
}
use web_rtc_weak_network_vid.Video.Handles.Ownership.{
  one_if, IsOwned, free-IsOwned, allocate-IsOwned, packet-IsOwned, code_inj, pointer-free,
  close_encoder-IsOwned, pointer-close_encoder, close_reader-IsOwned, pointer-close_reader,
  configured-close_reader, configured-free, either, IsOpen, IsEncoderReady, Leaves, fails,
}

not_ready_lem : (g : Handles) → g.encoder_configured ≡ false → IsEncoderReady g
not_ready_lem g none_yet e = absurd (ground (arith, none_yet, e))

module _ (calls : OpenCalls) (h : Handles) (v : IsOwned h)
    (empty : (k : Resource) → h.pointer k ≡ false) (closed : h.encoder_configured ≡ false) where
  abbrev opened : Handles
  opened = allocate format_context true h

  abbrev with_decoder : Handles
  with_decoder = allocate decoder_context calls.decoder_allocated opened

  abbrev with_frame : Handles
  with_frame = allocate decoded_frame calls.frame_allocated with_decoder

  opened-IsOwned : IsOwned opened
  opened-IsOwned = allocate-IsOwned format_context true h v (empty format_context) refl

  with_decoder-IsOwned : IsOwned with_decoder
  unfolding allocate
  with_decoder-IsOwned =
      allocate-IsOwned decoder_context calls.decoder_allocated opened opened-IsOwned
        (empty decoder_context) refl

  with_frame-IsOwned : IsOwned with_frame
  unfolding allocate
  with_frame-IsOwned =
      allocate-IsOwned decoded_frame calls.frame_allocated with_decoder with_decoder-IsOwned
        (empty decoded_frame) refl

  open_decoder-Leaves : calls.decoder_allocated ≡ true → Leaves (open_decoder calls with_decoder)
  unfolding open_decoder allocate
  open_decoder-Leaves made =
      let stops = fails with_decoder with_decoder-IsOwned (not_ready_lem with_decoder closed) in
      either Leaves (not calls.decoder_allocated) stops (
        either Leaves (not calls.parameters_copied) stops (
          either Leaves (not calls.decoder_opens) stops
            (with_frame-IsOwned, not_ready_lem with_frame closed, λ e. (refl, made, e))))

  open_decoder_none :
      calls.decoder_allocated ≡ false → open_decoder calls with_decoder ≡ (with_decoder, false)
  unfolding open_decoder
  open_decoder_none lacks = rw (lacks, open_decoder) refl

  open_decoder_any : Leaves (open_decoder calls with_decoder)
  unfolding allocate
  open_decoder_any = elim (Bool-cases calls.decoder_allocated) [
    | inl made ↦ open_decoder-Leaves made
    | inr lacks ↦
        subst Leaves (sym (open_decoder_none lacks))
          (fails with_decoder with_decoder-IsOwned (not_ready_lem with_decoder closed))
  ]

  open_reader-Leaves : Leaves (open_reader calls h)
  unfolding open_reader
  open_reader-Leaves =
      let stops = fails opened opened-IsOwned (unfold allocate in not_ready_lem opened closed) in
      either Leaves (not calls.opens) (fails h v (not_ready_lem h closed)) (
        either Leaves (not calls.has_stream_info) stops (
          either Leaves (not calls.has_video_stream) stops
            (either Leaves (not calls.decoder_found) stops open_decoder_any)))

module _ (calls : EncoderCalls) (h : Handles) (v : IsOwned h) (input : IsOpen h) where
  abbrev closed_encoder : Handles
  closed_encoder = close_encoder h

  abbrev with_encoder : Handles
  with_encoder = allocate encoder_context calls.encoder_allocated closed_encoder

  abbrev with_scaled : Handles
  with_scaled = allocate scaled_frame calls.scaled_allocated with_encoder

  closed_encoder-IsOwned : IsOwned closed_encoder
  closed_encoder-IsOwned = close_encoder-IsOwned h v

  with_encoder-IsOwned : IsOwned with_encoder
  with_encoder-IsOwned =
      allocate-IsOwned encoder_context calls.encoder_allocated closed_encoder closed_encoder-IsOwned
        (pointer-close_encoder h encoder_context) refl

  with_scaled-IsOwned : IsOwned with_scaled
  unfolding allocate
  with_scaled-IsOwned =
      allocate-IsOwned scaled_frame calls.scaled_allocated with_encoder with_encoder-IsOwned
        (pointer-close_encoder h scaled_frame) refl

  unconfigured : closed_encoder.encoder_configured ≡ false
  unfolding close_encoder
  unconfigured = refl

  -- The input stays open.
  closed_encoder-IsOpen : IsOpen closed_encoder
  closed_encoder-IsOpen = (
    pointer-close_encoder h format_context ∙ input.0,
    pointer-close_encoder h decoder_context ∙ input.1,
    pointer-close_encoder h decoded_frame ∙ input.2,
  )

  stopped : Leaves (with_scaled, false)
  unfolding allocate
  stopped = fails with_scaled with_scaled-IsOwned (not_ready_lem with_scaled unconfigured)

  finish_encoder-Leaves :
      calls.encoder_allocated ≡ true
      → calls.scaled_allocated ≡ true
      → Leaves (finish_encoder calls with_scaled)
  unfolding finish_encoder allocate
  finish_encoder-Leaves made scaled = either Leaves (not calls.scaled_allocated) stopped (
      either Leaves (not calls.has_buffer) stopped
        (with_scaled-IsOwned, λ e. (made, scaled), λ e. closed_encoder-IsOpen))

  finish_encoder_none :
      calls.scaled_allocated ≡ false → finish_encoder calls with_scaled ≡ (with_scaled, false)
  unfolding finish_encoder
  finish_encoder_none lacks = rw (lacks, finish_encoder) refl

  finish_encoder_any : calls.encoder_allocated ≡ true → Leaves (finish_encoder calls with_scaled)
  finish_encoder_any made = elim (Bool-cases calls.scaled_allocated) [
    | inl scaled ↦ finish_encoder-Leaves made scaled
    | inr lacks ↦ subst Leaves (sym (finish_encoder_none lacks)) stopped
  ]

  configure_made : calls.encoder_allocated ≡ true → Leaves (configure_handles calls h)
  unfolding configure_handles
  configure_made made =
      let stops =
        fails with_encoder with_encoder-IsOwned
          (unfold allocate in not_ready_lem with_encoder unconfigured) in
      either Leaves (not calls.encoder_found)
        (fails closed_encoder closed_encoder-IsOwned (not_ready_lem closed_encoder unconfigured))
        (either Leaves (not calls.encoder_allocated) stops
          (either Leaves (not calls.encoder_opens) stops (finish_encoder_any made)))

  configure_none :
      calls.encoder_allocated ≡ false
      → configure_handles calls h
        ≡ (if not calls.encoder_found then (closed_encoder, false) else (with_encoder, false))
  unfolding configure_handles
  configure_none lacks = rw (lacks, configure_handles) refl

  configure_handles-Leaves : Leaves (configure_handles calls h)
  configure_handles-Leaves = elim (Bool-cases calls.encoder_allocated) [
    | inl made ↦ configure_made made
    | inr lacks ↦ subst Leaves (sym (configure_none lacks)) (
        either Leaves (not calls.encoder_found)
          (fails closed_encoder closed_encoder-IsOwned (not_ready_lem closed_encoder unconfigured))
          (fails with_encoder with_encoder-IsOwned
            (unfold allocate in not_ready_lem with_encoder unconfigured)))
  ]

cache_converter-Leaves :
    (made : Bool) (h : Handles)
    → IsOwned h
    → IsEncoderReady h
    → IsOpen h
    → Leaves (cache_converter made h)
unfolding cache_converter allocate
cache_converter-Leaves made h v ready input =
    let freed = free sws_context h in
    (
      allocate-IsOwned sws_context made freed (free-IsOwned sws_context h v)
          (pointer-free sws_context sws_context h) refl,
      λ e.
          let (encoder, scaled) = ready (sym (configured-free sws_context h) ∙ e) in
          (
            pointer-free sws_context encoder_context h ∙ encoder,
            pointer-free sws_context scaled_frame h ∙ scaled,
          ),
      λ e. (
        pointer-free sws_context format_context h ∙ input.0,
        pointer-free sws_context decoder_context h ∙ input.1,
        pointer-free sws_context decoded_frame h ∙ input.2,
      ),
    )

-- What a packet that is allocated and freed again leaves.
packet-Leaves :
    (whole : Bool) (h : Handles)
    → IsOwned h
    → IsEncoderReady h
    → IsOpen h
    → Leaves (free packet (allocate packet true h), whole)
unfolding allocate
packet-Leaves whole h v ready input =
    let held = allocate packet true h in
    (
      packet-IsOwned h v,
      λ e.
          let (encoder, scaled) = ready (sym (configured-free packet held) ∙ e) in
          (
            pointer-free packet encoder_context held ∙ encoder,
            pointer-free packet scaled_frame held ∙ scaled,
          ),
      λ e. (
        pointer-free packet format_context held ∙ input.0,
        pointer-free packet decoder_context held ∙ input.1,
        pointer-free packet decoded_frame held ∙ input.2,
      ),
    )

-- A packet that is not allocated.
no_packet-Leaves :
    (h : Handles) → IsOwned h → IsEncoderReady h → Leaves (allocate packet false h, false)
unfolding allocate
no_packet-Leaves h v ready =
    ((λ k. ground (arith, v.0 k, v.0 packet, v.1, code_inj k packet), refl), ready, λ e. cc)

take_packet-Leaves :
    (made : Bool) (answer : EncoderAnswer) (h : Handles)
    → IsOwned h
    → IsEncoderReady h
    → IsOpen h
    → Leaves (take_packet made answer h)
unfolding take_packet
take_packet-Leaves false answer h v ready input = no_packet-Leaves h v ready
take_packet-Leaves true gives_packet h v ready input = packet-Leaves true h v ready input
take_packet-Leaves true asks_again h v ready input = packet-Leaves true h v ready input
take_packet-Leaves true refuses h v ready input = packet-Leaves false h v ready input

feed_packet-Leaves :
    (made read taken : Bool) (h : Handles)
    → IsOwned h
    → IsEncoderReady h
    → IsOpen h
    → Leaves (feed_packet made read taken h)
unfolding feed_packet
feed_packet-Leaves false read taken h v ready input = no_packet-Leaves h v ready
feed_packet-Leaves true false taken h v ready input = packet-Leaves true h v ready input
feed_packet-Leaves true true taken h v ready input = packet-Leaves taken h v ready input

reader_step-Leaves :
    (step : ReaderStep) (h : Handles)
    → IsOwned h
    → IsEncoderReady h
    → IsOpen h
    → Leaves (reader_step step h)
unfolding reader_step reset_reader
reader_step-Leaves (configures calls) h v ready input = configure_handles-Leaves calls h v input
reader_step-Leaves (converts made) h v ready input = cache_converter-Leaves made h v ready input
reader_step-Leaves (encodes made answer) h v ready input =
    take_packet-Leaves made answer h v ready input
reader_step-Leaves (reads made read taken) h v ready input =
    feed_packet-Leaves made read taken h v ready input
reader_step-Leaves (resets calls) h v ready input =
    open_reader-Leaves calls (close_reader h) (close_reader-IsOwned h v) (pointer-close_reader h v)
      (configured-close_reader h)

reader_steps-Leaves :
    (steps : List ReaderStep) (h : Handles)
    → IsOwned h
    → IsEncoderReady h
    → IsOpen h
    → Leaves (reader_steps steps h)
unfolding reader_steps
reader_steps-Leaves [] h v ready input = (v, ready, λ e. input)
reader_steps-Leaves (step ∷ steps) h v ready input =
    let after = reader_step step h in
    let (owned, encoder, open_if) = reader_step-Leaves step h v ready input in
    elim (Bool-cases after.1) [
      | inl fine ↦
          rw (fine, reader_steps) (reader_steps-Leaves steps after.0 owned encoder (open_if fine))
      | inr thrown ↦ rw (thrown, reader_steps) (fails after.0 owned encoder)
    ]

no_handles-IsOwned : IsOwned no_handles
no_handles-IsOwned = (λ k. refl, refl)

-- If the constructor of a file reader does not throw, then whatever it does afterwards, up to the first
-- exception, and whatever FFmpeg returns: if there was none, then the file, its decoder and the frame
-- are there; whenever the encoder counts as configured, its context and its frame are there; and
-- after the destructor each context, frame and packet has been freed as often as it was allocated.
pub reader_steps-IsOwned :
    (calls : OpenCalls) (steps : List ReaderStep)
    → (open_reader calls no_handles).1 ≡ true
    → ((reader_steps steps (open_reader calls no_handles).0).1 ≡ true
        → IsOpen (reader_steps steps (open_reader calls no_handles).0).0)
      × IsEncoderReady (reader_steps steps (open_reader calls no_handles).0).0
      × ((k : Resource)
          → (close_reader (reader_steps steps (open_reader calls no_handles).0).0).allocated k
            ≡ (close_reader (reader_steps steps (open_reader calls no_handles).0).0).freed k)
reader_steps-IsOwned calls steps fine =
    let (owned, ready, open_if) =
      open_reader-Leaves calls no_handles no_handles-IsOwned (λ k. refl) refl in
    let (owned', ready', open_if') =
      reader_steps-Leaves steps (open_reader calls no_handles).0 owned ready (open_if fine) in
    let last = (reader_steps steps (open_reader calls no_handles).0).0 in
    (
      open_if',
      ready',
      λ k. omega (
        arith,
        (close_reader-IsOwned last owned').0 k,
        ap one_if (pointer-close_reader last owned' k),
      ),
    )
