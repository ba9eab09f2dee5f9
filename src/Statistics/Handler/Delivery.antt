-- ===== src/Statistics/Handler/Delivery.antt =====
-- A feedback message of the receiver's handler, as the sender's handler takes it in.
use web_rtc_weak_network_vid.Common.{
  ℕ, zero, suc, ◌+◌, ◌-◌, ◌*◌, ◌/◌, ◌%◌, ◌≡◌, ◌≤◌, ◌<◌, ◌∙◌, refl, sym, ap, true, false, none, some,
  List, [], ◌∷◌, arith, length, drop, ltb, length-drop, length-append, replicate, length-replicate,
  le→ltb,
}
use web_rtc_weak_network_vid.Rtc.{RtpLib, HasRtcpLayout, MessagePtr}
use web_rtc_weak_network_vid.Quality.Doubles.{Doubles}
use web_rtc_weak_network_vid.Quality.Estimator.{on_rtcp, on_twcc_feedback, on_transport_loss_report}
use web_rtc_weak_network_vid.Statistics.Feedback.{
  StatisticsDirection, StatisticsHandler, TwccReceiveSample, pending_span, is_received,
  reference_time, padded_size, chunk_bytes, feedback_bytes, maybe_send_twcc_feedback,
}
use web_rtc_weak_network_vid.Statistics.Feedback.Runs.{arrived, arrived_bound}
use web_rtc_weak_network_vid.Statistics.Observe.RoundTrip.{sent_message, observe_sent}
use web_rtc_weak_network_vid.Statistics.Observe.{observe_twcc_feedback}
use web_rtc_weak_network_vid.Statistics.Handler.Walk.{finish_sender}
use web_rtc_weak_network_vid.Statistics.Handler.{
  ReportLib, Noted, note, observe_packet, observe_rtcp_packet, observe_rtcp, observe_incoming,
  incoming_loop, incoming,
}

length-chunk_bytes : (chunks : List ℕ) → length (chunk_bytes chunks) ≡ length chunks * 2
unfolding chunk_bytes
length-chunk_bytes [] = refl
length-chunk_bytes (chunk ∷ chunks) = omega (arith, length-chunk_bytes chunks)

words :
    (n : ℕ)
    → 4 ≤ n
    → n / 4 * 4 ≤ 65536
    → ((n / 4 * 4 / 4 - 1) % 65536 / 256 % 256 * 256 + (n / 4 * 4 / 4 - 1) % 65536 % 256 + 1) * 4
      ≡ n / 4 * 4
words n least most = let quarter : n / 4 * 4 / 4 ≡ n / 4 = omega arith in rw quarter (omega arith)

module _ (base count at_us feedback_count : ℕ) (chunks : List ℕ) (received_count : ℕ) where
  length-feedback_bytes :
      length (feedback_bytes base count at_us feedback_count chunks received_count)
      ≡ padded_size (length chunks) received_count
  unfolding feedback_bytes
  length-feedback_bytes =
      let tail = padded_size (length chunks) received_count - (20 + length chunks * 2) in
      omega (
        arith,
        length-append (chunk_bytes chunks) (replicate tail 0),
        length-chunk_bytes chunks,
        length-replicate {A = ℕ} tail 0,
      )

  module _ (lib : RtpLib) (layout : HasRtcpLayout lib) where
    feedback_size :
        padded_size (length chunks) received_count ≤ 65536
        → lib.length_in_bytes (feedback_bytes base count at_us feedback_count chunks received_count)
          ≡ padded_size (length chunks) received_count
    unfolding feedback_bytes
    feedback_size small =
        layout.rtcp_length _ _ _ _ _
        ∙ words (20 + length chunks * 2 + received_count + 3) (omega arith) small

    feedback_type :
        lib.rtcp_payload_type (feedback_bytes base count at_us feedback_count chunks received_count)
        ≡ 205
    unfolding feedback_bytes
    feedback_type = layout.rtcp_type _ _ _

    feedback_format :
        lib.report_count (feedback_bytes base count at_us feedback_count chunks received_count) ≡ 15
    unfolding feedback_bytes
    feedback_format = layout.rtcp_count _ _ _

    feedback_kind :
        lib.is_rtcp (feedback_bytes base count at_us feedback_count chunks received_count) ≡ true
    unfolding feedback_bytes
    feedback_kind = layout.rtcp_kind _ _ _ (omega arith) (omega arith) (omega arith)

-- `rtc::make_message(padded_size, rtc::Message::Control)`
abbrev pub feedback_message : List ℕ → MessagePtr
feedback_message bytes = some (record { control = true; bytes = bytes; stream = 0 })

module _ {D : Type 0} (double : Doubles D) (lib : RtpLib) (layout : HasRtcpLayout lib)
    (reports : ReportLib) (clock : ℕ → ℕ) where
  nothing_left :
      (fuel : ℕ) (rest : List ℕ) (s : Noted D)
      → length rest ≡ 0
      → observe_rtcp_packet double lib reports clock (suc fuel) rest s ≡ some s
  unfolding observe_rtcp_packet
  nothing_left fuel rest s e =
      let short : ltb (length rest) lib.sizeof_rtcp_header ≡ true =
        rw (e, layout.rtcp_header_size) refl in
      rw short refl

  one_packet :
      (fuel : ℕ) (bytes : List ℕ) (s : Noted D)
      → lib.length_in_bytes bytes ≡ length bytes
      → 4 ≤ length bytes
      → 1 ≤ fuel
      → observe_rtcp_packet double lib reports clock (suc fuel) bytes s
        ≡ some (observe_packet double lib reports clock bytes (length bytes) s)
  unfolding observe_rtcp_packet
  one_packet zero bytes s size long enough = absurd (omega arith)
  one_packet (suc fuel) bytes s size long enough =
      let header : ltb (length bytes) lib.sizeof_rtcp_header ≡ false =
        rw layout.rtcp_header_size (le→ltb long) in
      let whole : ltb (length bytes) (length bytes) ≡ false = le→ltb (omega arith) in
      let gone : length (drop (length bytes) bytes) ≡ 0 =
        omega (arith, length-drop (length bytes) bytes) in
      rw (size, header, whole) (nothing_left fuel _ _ gone)

  module _ (bytes : List ℕ) (size : lib.length_in_bytes bytes ≡ length bytes)
      (long : 4 ≤ length bytes) (type : lib.rtcp_payload_type bytes ≡ 205)
      (format : lib.report_count bytes ≡ 15) (kind : lib.is_rtcp bytes ≡ true) where
    abbrev heard : Noted D → Noted D
    heard s =
        note clock 2 (λ at. observe_twcc_feedback (λ call i. at (call + i)) bytes (length bytes))
          (note clock 2 (λ at. on_rtcp at (length bytes)) s)

    observe_packet_feedback :
        (s : Noted D)
        → observe_packet double lib reports clock bytes (length bytes) s
          ≡ note clock 2
              (λ at. observe_twcc_feedback (λ call i. at (call + i)) bytes (length bytes))
              s
    unfolding observe_packet
    observe_packet_feedback s = rw (type, format) refl

    observe_rtcp_feedback :
        (s : Noted D)
        → observe_rtcp double lib reports clock (feedback_message bytes) false s ≡ some (heard s)
    unfolding observe_rtcp
    observe_rtcp_feedback s =
        let header : ltb (length bytes) lib.sizeof_rtcp_header ≡ false =
          rw layout.rtcp_header_size (le→ltb long) in
        rw (header, kind)
          (one_packet (length bytes) bytes _ size long (omega arith)
            ∙ ap some (observe_packet_feedback _))

    observe_sender :
        (d : StatisticsDirection) (arrival : ℕ) (h : StatisticsHandler) (s : Noted D)
        → d ≡ StatisticsDirection.sender
        → observe_incoming double lib reports clock d arrival (feedback_message bytes) h s
          ≡ some (h, heard s)
    unfolding observe_incoming
    observe_sender d arrival h s sends =
        rw (sends) (rw (observe_rtcp_feedback s, observe_incoming) refl)

    loop_message :
        (arrivals : ℕ → ℕ) (h : StatisticsHandler) (s : Noted D)
        → h.direction ≡ StatisticsDirection.sender
        → incoming_loop double lib reports clock arrivals ((feedback_message bytes) ∷ []) h s
          ≡ some (h, heard s)
    unfolding incoming_loop
    loop_message arrivals h s sends =
        rw (observe_sender h.direction (arrivals 0) h s sends, incoming_loop) refl

    incoming_message :
        (arrivals : ℕ → ℕ) (at_us : ℕ) (h : StatisticsHandler) (s : Noted D)
        → h.direction ≡ StatisticsDirection.sender
        → incoming double lib reports clock arrivals at_us ((feedback_message bytes) ∷ []) h s
          ≡ some (h, heard s, none)
    unfolding incoming
    incoming_message arrivals at_us h s sends =
        rw (loop_message arrivals h s sends, incoming, finish_sender h.direction at_us h sends) refl

  -- Under the layout of RTCP headers: if a receiver's handler has samples, the last feedback is at
  -- least 200 ms old, the first number fits 16 bits and the numbers span 1 to 4096 packets, then it
  -- sends a message, and a sender's handler that gets the message returns with its estimator told
  -- of a report on as many packets, of which those that did not arrive are lost.
  pub incoming-maybe_send_twcc_feedback :
      (at_us : ℕ) (r : StatisticsHandler) (front : TwccReceiveSample)
      (samples : List TwccReceiveSample) (arrivals : ℕ → ℕ) (later_us : ℕ) (h : StatisticsHandler)
      (s : Noted D)
      → r.pending_twcc_samples ≡ front ∷ samples
      → r.last_twcc_feedback_us + 200000 ≤ at_us
      → front.sequence < 65536
      → 1 ≤ pending_span front samples
      → pending_span front samples ≤ 4096
      → h.direction ≡ StatisticsDirection.sender
      → (r' : StatisticsHandler) × (bytes : List ℕ) × (s' : Noted D) × (maybe_send_twcc_feedback
            at_us r
          ≡ some (r', some bytes))
        × (incoming double lib reports clock arrivals later_us (feedback_message bytes ∷ []) h s
            ≡ some (h, s', none))
        × (s'.estimator
            ≡ on_transport_loss_report
                (λ i. clock (s.readings + 2 + (1 + i)))
                (pending_span front samples)
                (pending_span front samples
                  - arrived
                      (is_received (front ∷ samples))
                      front.sequence
                      0
                      (pending_span front samples))
                (on_twcc_feedback
                  (λ i. clock (s.readings + 2 + (0 + i)))
                  front.sequence
                  (pending_span front samples)
                  (reference_time front.at_us)
                  (on_rtcp (λ i. clock (s.readings + i)) (length bytes) s.estimator)))
  incoming-maybe_send_twcc_feedback at_us r front samples arrivals later_us h s pending due low
        positive few sends =
      let span = pending_span front samples in
      let (found, sent, right) = sent_message at_us r front samples pending due positive few in
      let bytes =
        feedback_bytes front.sequence span front.at_us r.twcc_feedback_count found.chunks
          found.received_count in
      let all =
        length-feedback_bytes front.sequence span front.at_us r.twcc_feedback_count found.chunks
          found.received_count in
      let bound = arrived_bound (is_received (front ∷ samples)) front.sequence 0 span in
      let small : padded_size (length found.chunks) found.received_count ≤ 65536 =
        omega (arith, found.few, right, bound) in
      let size =
        feedback_size front.sequence span front.at_us r.twcc_feedback_count found.chunks
          found.received_count lib layout small
        ∙ sym all in
      let type =
        feedback_type front.sequence span front.at_us r.twcc_feedback_count found.chunks
          found.received_count lib layout in
      let format =
        feedback_format front.sequence span front.at_us r.twcc_feedback_count found.chunks
          found.received_count lib layout in
      let kind =
        feedback_kind front.sequence span front.at_us r.twcc_feedback_count found.chunks
          found.received_count lib layout in
      (
        record r {
          last_twcc_feedback_us = at_us;
          pending_twcc_samples = [];
          twcc_feedback_count = (r.twcc_feedback_count + 1) % 256;
        },
        bytes,
        heard bytes size (omega (arith, all)) type format kind s,
        sent,
        incoming_message bytes size (omega (arith, all)) type format kind arrivals later_us h s
            sends,
        observe_sent (λ call i. clock (s.readings + 2 + (call + i)))
              (on_rtcp (λ i. clock (s.readings + i)) (length bytes) s.estimator) front.sequence span
              front.at_us r.twcc_feedback_count (suc span) (is_received (front ∷ samples)) found low
              positive few
            ∙ ap
                (λ (n : ℕ).
                  on_transport_loss_report (λ i. clock (s.readings + 2 + (1 + i))) span (span - n)
                    (on_twcc_feedback (λ i. clock (s.readings + 2 + (0 + i))) front.sequence span
                      (reference_time front.at_us)
                      (on_rtcp (λ i. clock (s.readings + i)) (length bytes) s.estimator)))
                right,
      )
