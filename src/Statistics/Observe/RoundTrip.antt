-- ===== src/Statistics/Observe/RoundTrip.antt =====
-- A feedback message on its way from the receiver's handler to the estimator of the sender.
use web_rtc_weak_network_vid.Common.{
  ℕ, suc, ◌+◌, ◌-◌, ◌*◌, ◌%◌, ◌^◌, ◌≡◌, ◌≤◌, ◌<◌, ◌∙◌, refl, ap, Bool, true, false, some, List, [],
  ◌∷◌, ◌++◌, ltb, length, replicate, take, drop, arith, take_all, lt→ltb, le→ltb,
}
use web_rtc_weak_network_vid.Quality.Estimator.{
  Estimator, on_twcc_feedback, on_transport_loss_report,
}
use web_rtc_weak_network_vid.Statistics.Feedback.{
  StatisticsHandler, TwccReceiveSample, pending_span, is_received, chunk_bytes, padded_size,
  feedback_bytes, reference_time, maybe_send_twcc_feedback,
}
use web_rtc_weak_network_vid.Statistics.Feedback.Runs.{arrived, arrived_bound}
use web_rtc_weak_network_vid.Statistics.Feedback.Chunks.{ChunksFrom, chunks_from}
use web_rtc_weak_network_vid.Statistics.Feedback.Sending.{maybe_send_due, send_feedback_sent}
use web_rtc_weak_network_vid.Statistics.Observe.{observe_twcc_feedback, word_at, reference_at}

module _ (base count at_us feedback_count : ℕ) (chunks : List ℕ) (received_count : ℕ) where
  fields :
      base < 65536
      → count < 65536
      → (word_at (feedback_bytes base count at_us feedback_count chunks received_count) 12 ≡ base)
        × (word_at (feedback_bytes base count at_us feedback_count chunks received_count) 14
            ≡ count)
        × (reference_at (feedback_bytes base count at_us feedback_count chunks received_count) 16
            ≡ reference_time at_us)
  unfolding feedback_bytes
  fields low small = (omega arith, omega arith, omega arith)

  -- What stands behind the twentieth byte.
  behind :
      drop 20 (
        take
          (length (feedback_bytes base count at_us feedback_count chunks received_count))
          (feedback_bytes base count at_us feedback_count chunks received_count))
      ≡ chunk_bytes chunks
        ++ replicate (padded_size (length chunks) received_count - (20 + length chunks * 2)) 0
  unfolding feedback_bytes
  behind = rw (take_all _ _ refl) refl

  long : 20 ≤ length (feedback_bytes base count at_us feedback_count chunks received_count)
  unfolding feedback_bytes
  long = omega arith

-- The message that is sent when the time has come.
pub sent_message :
    (at_us : ℕ) (h : StatisticsHandler) (front : TwccReceiveSample)
    (samples : List TwccReceiveSample)
    → h.pending_twcc_samples ≡ front ∷ samples
    → h.last_twcc_feedback_us + 200000 ≤ at_us
    → 1 ≤ pending_span front samples
    → pending_span front samples ≤ 4096
    → (found : ChunksFrom
        (is_received (front ∷ samples))
        front.sequence
        (pending_span front samples)
        0
        (suc (pending_span front samples)))
      × (maybe_send_twcc_feedback at_us h
          ≡ some (
            record h {
              last_twcc_feedback_us = at_us;
              pending_twcc_samples = [];
              twcc_feedback_count = (h.twcc_feedback_count + 1) % 256;
            },
            some (
                feedback_bytes front.sequence
                  (pending_span front samples)
                  front.at_us
                  h.twcc_feedback_count
                  found.chunks
                  found.received_count),
          ))
      × (found.received_count
          ≡ arrived (is_received (front ∷ samples)) front.sequence 0 (pending_span front samples))
sent_message at_us h front samples pending due positive few =
    let span = pending_span front samples in
    let found =
      chunks_from (is_received (front ∷ samples)) front.sequence span few (suc span) 0 (omega arith)
        (omega arith) in
    let whole : span - 0 ≡ span = omega arith in
    (
      found,
      maybe_send_due at_us h front samples pending due
          ∙ send_feedback_sent at_us h front samples found positive few,
      found.right ∙ ap (arrived (is_received (front ∷ samples)) front.sequence 0) whole,
    )

module _ {D : Type 0} (clock : ℕ → ℕ → ℕ) (e : Estimator D) where
  pub observe_sent :
      (base count at_us feedback_count fuel : ℕ) (received : ℕ → Bool)
      (found : ChunksFrom received base count 0 fuel)
      → base < 65536
      → 1 ≤ count
      → count ≤ 4096
      → observe_twcc_feedback clock
          (feedback_bytes base count at_us feedback_count found.chunks found.received_count)
          (length
            (feedback_bytes base count at_us feedback_count found.chunks found.received_count))
          e
        ≡ on_transport_loss_report
            (clock 1)
            count
            (count - found.received_count)
            (on_twcc_feedback (clock 0) base count (reference_time at_us) e)
  unfolding observe_twcc_feedback
  observe_sent base count at_us feedback_count fuel received found low positive few =
      let bytes =
        feedback_bytes base count at_us feedback_count found.chunks found.received_count in
      let (one, two, three) =
        fields base count at_us feedback_count found.chunks found.received_count low
          (omega arith) in
      let tail = behind base count at_us feedback_count found.chunks found.received_count in
      let whole : ltb (length bytes) 20 ≡ false =
        le→ltb (long base count at_us feedback_count found.chunks found.received_count) in
      let bound : found.received_count ≤ count =
        rw found.right (omega (arith, arrived_bound received base 0 (count - 0))) in
      let read =
        found.read_back
          (replicate
            (padded_size (length found.chunks) found.received_count
              - (20 + length found.chunks * 2))
            0)
          0 0 (omega arith) in
      let all : (0 + found.received_count + (0 + (count - 0 - found.received_count))) % 2 ^ 32
          ≡ count =
        omega (arith, bound) in
      let lost : 0 + (count - 0 - found.received_count) ≡ count - found.received_count =
        omega arith in
      let some_sent : ltb 0 count ≡ true = lt→ltb 0 count (omega arith) in
      rw (one, two, three, tail, whole, read, all, some_sent, lost) refl
