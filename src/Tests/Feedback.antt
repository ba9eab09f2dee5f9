-- ===== src/Tests/Feedback.antt =====
-- Feedback on three packets, of which the second did not come, between the two handlers of statistics.
use web_rtc_weak_network_vid.Common.{
  ℕ, ◌+◌, ◌-◌, ◌*◌, ◌/◌, ◌≡◌, ◌≤◌, ◌<◌, ◌⊎◌, refl, Option, none, some, List, [], ◌∷◌, arith, ltb,
  length,
}
use web_rtc_weak_network_vid.Common.Words.{byte_at}
use web_rtc_weak_network_vid.Quality.Doubles.{Doubles}
use web_rtc_weak_network_vid.Quality.Estimator.{on_rtcp, on_twcc_feedback, on_transport_loss_report}
use web_rtc_weak_network_vid.Statistics.Feedback.{
  StatisticsDirection, StatisticsHandler, TwccReceiveSample, new_statistics_handler, is_received,
  pending_span, max_loop, maybe_send_twcc_feedback,
}
use web_rtc_weak_network_vid.Statistics.Feedback.Runs.{arrived}
use web_rtc_weak_network_vid.Statistics.Feedback.Sending.{maybe_send_twcc_feedback_returns}
use web_rtc_weak_network_vid.Statistics.Handler.{ReportBlock, ReportLib, Noted, incoming}
use web_rtc_weak_network_vid.Statistics.Handler.Walk.{incoming_returns}
use web_rtc_weak_network_vid.Statistics.Handler.Delivery.{
  feedback_message, incoming-maybe_send_twcc_feedback,
}
use web_rtc_weak_network_vid.Tests.Rfc.{rfc_lib, rfc_rtcp_layout, four_bytes, packet}

abbrev pub naturals : Doubles ℕ
naturals = record {
  num = λ n. n;
  lt = ltb;
  plus = λ a b. a + b;
  minus = λ a b. a - b;
  times = λ a b. a * b;
  over = λ a b. a / b;
  absolute = λ a. a;
}

-- Report blocks of 24 bytes, behind 8 bytes of a receiver's report and 28 of a sender's.
abbrev report_block : ℕ → List ℕ → ℕ → Option ReportBlock
report_block start bytes i = some (record {
  fraction_lost = byte_at bytes (start + 24 * i + 4);
  jitter = four_bytes bytes (start + 24 * i + 12);
  ntp_of_sr = four_bytes bytes (start + 24 * i + 16);
  delay_since_sr = four_bytes bytes (start + 24 * i + 20);
})

abbrev pub rfc_reports : ReportLib
rfc_reports = record {
  sizeof_rtcp_rr = 32;
  sizeof_rtcp_sr = 52;
  rr_block = report_block 8;
  sr_block = report_block 28;
}

abbrev pub no_measurements : Noted ℕ
no_measurements = record {
  estimator = record {
    sent_packets = [];
    received_packets = [];
    sent_bytes_window = [];
    received_bytes_window = [];
    rtcp_bytes_window = [];
    transport_loss_samples = [];
    remote_report = none;
    remote_transport_loss = none;
    twcc_report = none;
    last_transport_sequence = none;
  };
  readings = 0;
}

abbrev pub clock : ℕ → ℕ
clock i = 2000000 + i

abbrev first_sample : TwccReceiveSample
first_sample = record { sequence = 65535; at_us = 1000000 }

abbrev other_samples : List TwccReceiveSample
other_samples = record { sequence = 1; at_us = 1000500 } ∷ []

abbrev pub reporting : StatisticsHandler
reporting = record (new_statistics_handler StatisticsDirection.receiver) {
  pending_twcc_samples = first_sample ∷ other_samples;
}

abbrev pub sending : StatisticsHandler
sending = new_statistics_handler StatisticsDirection.sender

span_test : pending_span first_sample other_samples ≡ 3
unfolding max_loop
span_test = refl

arrived_test : arrived (is_received (first_sample ∷ other_samples)) 65535 0 3 ≡ 2
unfolding arrived is_received
arrived_test = refl

maybe_send_twcc_feedback_returns_example :
    ((maybe_send_twcc_feedback 1200000 reporting ≡ some (reporting, none))
      × ((1200000 < reporting.last_twcc_feedback_us + 200000)
          ⊎ (reporting.pending_twcc_samples ≡ [])))
    ⊎ ((h' : StatisticsHandler) × (sent : Option (List ℕ)) × (maybe_send_twcc_feedback 1200000
            reporting
          ≡ some (h', sent))
        × (reporting.last_twcc_feedback_us + 200000 ≤ 1200000)
        × (h'.last_twcc_feedback_us ≡ 1200000)
        × (h'.pending_twcc_samples ≡ []))
maybe_send_twcc_feedback_returns_example = maybe_send_twcc_feedback_returns 1200000 reporting

incoming_returns_example :
    (h' : StatisticsHandler) × (s' : Noted ℕ) × (sent : Option (List ℕ)) × (incoming naturals
        rfc_lib rfc_reports clock clock 1200000
        (some (packet 7) ∷ none ∷ [])
        reporting
        no_measurements
      ≡ some (h', s', sent))
    × (((reporting.direction ≡ StatisticsDirection.sender) × (h' ≡ reporting) × (sent ≡ none))
        ⊎ (reporting.direction ≡ StatisticsDirection.receiver))
incoming_returns_example =
    incoming_returns naturals rfc_lib rfc_reports clock (omega arith) (some (packet 7) ∷ none ∷ [])
      clock 1200000 reporting no_measurements

incoming-maybe_send_twcc_feedback_example :
    (r' : StatisticsHandler) × (bytes : List ℕ) × (s' : Noted ℕ) × (maybe_send_twcc_feedback 1200000
        reporting
      ≡ some (r', some bytes))
    × (incoming naturals rfc_lib rfc_reports clock clock 1300000
          (feedback_message bytes ∷ [])
          sending
          no_measurements
        ≡ some (sending, s', none))
    × (s'.estimator
        ≡ on_transport_loss_report
            (λ i. clock (2 + (1 + i)))
            3
            1
            (on_twcc_feedback
              (λ i. clock (2 + (0 + i)))
              65535
              3
              15
              (on_rtcp (λ i. clock (0 + i)) (length bytes) no_measurements.estimator)))
unfolding new_statistics_handler max_loop arrived is_received
incoming-maybe_send_twcc_feedback_example =
    incoming-maybe_send_twcc_feedback naturals rfc_lib rfc_rtcp_layout rfc_reports clock 1200000
      reporting first_sample other_samples clock 1300000 sending no_measurements refl (omega arith)
      (omega arith) (omega arith) (omega arith) refl
