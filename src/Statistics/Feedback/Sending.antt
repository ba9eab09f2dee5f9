-- ===== src/Statistics/Feedback/Sending.antt =====
-- When a feedback message is sent, and with what.
use web_rtc_weak_network_vid.Common.{
  ℕ, suc, ◌+◌, ◌%◌, ◌≡◌, ◌≤◌, ◌<◌, ◌∙◌, refl, true, false, ◌||◌, Option, none, some, List, [], ◌∷◌,
  ◌==◌, ltb, arith, inl, inr, Bool-cases, List-cases, le→ltb, ltb→lt, ◌⊎◌,
}
use web_rtc_weak_network_vid.Statistics.Feedback.{
  StatisticsHandler, TwccReceiveSample, is_received, feedback_bytes, pending_span, send_feedback,
  maybe_send_twcc_feedback,
}
use web_rtc_weak_network_vid.Statistics.Feedback.Chunks.{ChunksFrom, chunks_from}

abbrev pub cleared_at : ℕ → StatisticsHandler → StatisticsHandler
cleared_at at_us h = record h { last_twcc_feedback_us = at_us; pending_twcc_samples = [] }

span_cases : (n : ℕ) → ((n ≡ 0) ⊎ (4096 < n)) ⊎ ((1 ≤ n) × (n ≤ 4096))
span_cases n = ground arith

module _ (at_us : ℕ) (h : StatisticsHandler) (front : TwccReceiveSample)
    (samples : List TwccReceiveSample) where
  pub send_feedback_skipped :
      (pending_span front samples ≡ 0) ⊎ (4096 < pending_span front samples)
      → send_feedback at_us h front samples ≡ some (cleared_at at_us h, none)
  unfolding send_feedback
  send_feedback_skipped unusual =
      let test : (pending_span front samples == 0) || ltb 4096 (pending_span front samples) ≡ true =
        ground arith in
      rw test refl

  pub send_feedback_sent :
      (found : ChunksFrom
        (is_received (front ∷ samples))
        front.sequence
        (pending_span front samples)
        0
        (suc (pending_span front samples)))
      → 1 ≤ pending_span front samples
      → pending_span front samples ≤ 4096
      → send_feedback at_us h front samples
        ≡ some (
          record (cleared_at at_us h) { twcc_feedback_count = (h.twcc_feedback_count + 1) % 256 },
          some (
              feedback_bytes front.sequence
                (pending_span front samples)
                front.at_us
                h.twcc_feedback_count
                found.chunks
                found.received_count),
        )
  unfolding send_feedback
  send_feedback_sent found positive few =
      let test : (pending_span front samples == 0) || ltb 4096 (pending_span front samples)
          ≡ false =
        ground arith in
      rw (test, found.returned) refl

  pub maybe_send_due :
      h.pending_twcc_samples ≡ front ∷ samples
      → h.last_twcc_feedback_us + 200000 ≤ at_us
      → maybe_send_twcc_feedback at_us h ≡ send_feedback at_us h front samples
  unfolding maybe_send_twcc_feedback send_feedback
  maybe_send_due pending due = rw (le→ltb due, pending) refl

  send_feedback-Returns :
      (h' : StatisticsHandler) × (sent : Option (List ℕ)) × (send_feedback at_us h front samples
        ≡ some (h', sent))
      × (h'.last_twcc_feedback_us ≡ at_us)
      × (h'.pending_twcc_samples ≡ [])
  send_feedback-Returns = elim (span_cases (pending_span front samples)) [
    | inl unusual ↦ (cleared_at at_us h, none, send_feedback_skipped unusual, refl, refl)
    | inr usual ↦
        let found =
          chunks_from (is_received (front ∷ samples)) front.sequence (pending_span front samples)
            (usual.1) (suc (pending_span front samples)) 0 (omega arith) (omega arith) in
        (
          record (cleared_at at_us h) { twcc_feedback_count = (h.twcc_feedback_count + 1) % 256 },
          some (
              feedback_bytes front.sequence (pending_span front samples) front.at_us
                h.twcc_feedback_count found.chunks found.received_count),
          send_feedback_sent found (usual.0) (usual.1),
          refl,
          refl,
        )
  ]

maybe_send_early :
    (at_us : ℕ) (h : StatisticsHandler)
    → ltb at_us (h.last_twcc_feedback_us + 200000) ≡ true
    → maybe_send_twcc_feedback at_us h ≡ some (h, none)
unfolding maybe_send_twcc_feedback
maybe_send_early at_us h early = rw early refl

maybe_send_empty :
    (at_us : ℕ) (h : StatisticsHandler)
    → ltb at_us (h.last_twcc_feedback_us + 200000) ≡ false
    → h.pending_twcc_samples ≡ []
    → maybe_send_twcc_feedback at_us h ≡ some (h, none)
unfolding maybe_send_twcc_feedback
maybe_send_empty at_us h due empty = simp (due, empty) refl

-- The call that sends feedback returns. It does nothing, and then the last feedback is less than
-- 200 ms old or there are no samples; or the last feedback is at least that old, and then the
-- samples are cleared and the time is noted.
pub maybe_send_twcc_feedback_returns :
    (at_us : ℕ) (h : StatisticsHandler)
    → ((maybe_send_twcc_feedback at_us h ≡ some (h, none))
        × ((at_us < h.last_twcc_feedback_us + 200000) ⊎ (h.pending_twcc_samples ≡ [])))
      ⊎ ((h' : StatisticsHandler) × (sent : Option (List ℕ)) × (maybe_send_twcc_feedback at_us h
            ≡ some (h', sent))
          × (h.last_twcc_feedback_us + 200000 ≤ at_us)
          × (h'.last_twcc_feedback_us ≡ at_us)
          × (h'.pending_twcc_samples ≡ []))
maybe_send_twcc_feedback_returns at_us h =
    elim (Bool-cases (ltb at_us (h.last_twcc_feedback_us + 200000))) [
      | inl early ↦ inl (
        maybe_send_early at_us h early,
        inl (ltb→lt at_us (h.last_twcc_feedback_us + 200000) early),
      )
      | inr due ↦ elim (List-cases h.pending_twcc_samples) [
        | inl empty ↦ inl (maybe_send_empty at_us h due empty, inr empty)
        | inr (front, samples, pending) ↦
            let on_time : h.last_twcc_feedback_us + 200000 ≤ at_us = ground arith in
            let (h', sent, same, at, cleared) = send_feedback-Returns at_us h front samples in
            inr (
              h',
              sent,
              maybe_send_due at_us h front samples pending on_time ∙ same,
              on_time,
              at,
              cleared,
            )
      ]
    ]

pub maybe_send_returns :
    (at_us : ℕ) (h : StatisticsHandler)
    → (h' : StatisticsHandler) × (sent : Option (List ℕ)) × (maybe_send_twcc_feedback at_us h
        ≡ some (h', sent))
maybe_send_returns at_us h = elim (maybe_send_twcc_feedback_returns at_us h) [
  | inl kept ↦ (h, none, kept.0)
  | inr (h', sent, same, due, at, cleared) ↦ (h', sent, same)
]
