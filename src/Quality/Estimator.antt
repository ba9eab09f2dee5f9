-- ===== src/Quality/Estimator.antt =====
-- quality/network_quality_estimator.cpp: the windows of samples and the reports from the peer. A time
-- is what `now_us()` reads, not negative; `clock k` is the reading number `k` within one call.
pub mod Windows
pub mod Losses
pub mod Snapshot
use web_rtc_weak_network_vid.Common.{
  ℕ, zero, suc, ◌+◌, ◌-◌, ◌*◌, ◌/◌, ◌%◌, ◌^◌, Bool, true, false, not, ◌&&◌, ◌||◌, min, max, bit_or,
  List, [], ◌∷◌, ◌++◌, ltb, leb, ◌==◌, if◌then◌else◌, Option, none, some, length, get_or,
}
use web_rtc_weak_network_vid.Common.Words.{sub16}

pub record PacketSample : Type 0 where
  pub at_us : ℕ
  pub sequence : ℕ
  pub rtp_timestamp : ℕ
  pub bytes : ℕ

pub record ByteSample : Type 0 where
  pub at_us : ℕ
  pub bytes : ℕ

pub record TransportLossSample : Type 0 where
  pub at_us : ℕ
  pub expected_packets : ℕ
  pub lost_packets : ℕ

pub record RemoteReport (D : Type 0) : Type 0 where
  pub at_us : ℕ
  pub loss_percent : D
  pub jitter_ms : D
  pub rtt_ms : D

pub record RemoteTransportLoss : Type 0 where
  pub at_us : ℕ
  pub expected_packets : ℕ
  pub lost_packets : ℕ

pub record TwccReport : Type 0 where
  pub at_us : ℕ
  pub base_sequence : ℕ
  pub packet_status_count : ℕ
  pub reference_time_24bit : ℕ

pub record Estimator (D : Type 0) : Type 0 where
  pub sent_packets : List PacketSample
  pub received_packets : List PacketSample
  pub sent_bytes_window : List ByteSample
  pub received_bytes_window : List ByteSample
  pub rtcp_bytes_window : List ByteSample
  pub transport_loss_samples : List TransportLossSample
  pub remote_report : Option (RemoteReport D)
  pub remote_transport_loss : Option RemoteTransportLoss
  pub twcc_report : Option TwccReport
  pub last_transport_sequence : Option ℕ

abbrev pub stats_window_us : ℕ
stats_window_us = 2000000

-- `at_us < now_us() - kStatsWindowUs`, where the difference may be negative.
abbrev pub is_old : ℕ → ℕ → Bool
is_old now at_us = ltb (at_us + stats_window_us) now

-- The loop of `trim_byte_window`, `trim_packet_window` and `trim_transport_loss_window`.
unfoldable pub trim_window {ℓ} : {A : Type ℓ} → (A → ℕ) → ℕ → List A → List A
trim_window time now [] = []
trim_window time now (sample ∷ window) =
    let rest = trim_window time now window in
    if is_old now (time sample) then rest else sample ∷ window

unfoldable pub trim_packet_window : ℕ → List PacketSample → List PacketSample
unfolding trim_window
trim_packet_window = trim_window (λ sample. sample.at_us)

unfoldable pub trim_byte_window : ℕ → List ByteSample → List ByteSample
unfolding trim_window
trim_byte_window = trim_window (λ sample. sample.at_us)

unfoldable pub trim_loss_samples : ℕ → List TransportLossSample → List TransportLossSample
unfolding trim_window
trim_loss_samples = trim_window (λ sample. sample.at_us)

-- What `on_rtp_received` notes of a transport sequence number: the packets that were expected since
-- the last one, and the last one then. The signed difference is positive below 2 ^ 15.
unfoldable pub expected_of : ℕ → Option ℕ → ℕ × Option ℕ
expected_of sequence none = (1, some sequence)
expected_of sequence (some last) =
    let delta = sub16 sequence last in
    if ltb 0 delta && ltb delta 32768 then (delta, some sequence) else (0, some last)

-- The 32 bits of an NTP time around its binary point.
unfoldable pub compact_ntp_now : ℕ → ℕ
compact_ntp_now now =
    let ntp_seconds = now / 1000000 + 2208988800 in
    let ntp_fraction = (now % 1000000) * 2 ^ 32 / 1000000 in
    let ntp = bit_or (ntp_seconds * 2 ^ 32 % 2 ^ 64) ntp_fraction in ntp / 2 ^ 16 % 2 ^ 32

-- The two sums of `transport_loss_report`, on uint32_t.
unfoldable pub sum_losses : List TransportLossSample → ℕ → ℕ → ℕ × ℕ
sum_losses [] expected lost = (expected, lost)
sum_losses (sample ∷ samples) expected lost =
    sum_losses samples ((expected + sample.expected_packets) % 2 ^ 32)
      ((lost + sample.lost_packets) % 2 ^ 32)

module _ {D : Type 0} where
  unfoldable pub on_rtp_sent : (ℕ → ℕ) → ℕ → ℕ → ℕ → Estimator D → Estimator D
  unfolding trim_packet_window trim_byte_window
  on_rtp_sent clock sequence rtp_timestamp bytes e =
      let sample : PacketSample = record {
        at_us = clock 0;
        sequence = sequence;
        rtp_timestamp = rtp_timestamp;
        bytes = bytes;
      } in
      record e {
        sent_packets = trim_packet_window (clock 1) (e.sent_packets ++ (sample ∷ []));
        sent_bytes_window =
            trim_byte_window (clock 2)
              (e.sent_bytes_window ++ (record { at_us = clock 0; bytes = bytes } ∷ []));
      }

  -- The part of `on_rtp_received` that counts losses.
  unfoldable pub count_losses : (ℕ → ℕ) → ℕ → Estimator D → Estimator D
  unfolding expected_of trim_loss_samples
  count_losses clock sequence e =
      let (expected, last) = expected_of sequence e.last_transport_sequence in
      let sample : TransportLossSample = record {
        at_us = clock 0;
        expected_packets = expected;
        lost_packets = expected - 1;
      } in
      record e {
        last_transport_sequence = last;
        transport_loss_samples =
            if ltb 0 expected
            then trim_loss_samples (clock 1) (e.transport_loss_samples ++ (sample ∷ []))
            else e.transport_loss_samples;
      }

  unfoldable pub on_rtp_received : (ℕ → ℕ) → ℕ → ℕ → ℕ → Estimator D → Estimator D
  unfolding count_losses trim_packet_window trim_byte_window
  on_rtp_received clock sequence rtp_timestamp bytes e =
      let sample : PacketSample = record {
        at_us = clock 0;
        sequence = sequence;
        rtp_timestamp = rtp_timestamp;
        bytes = bytes;
      } in
      record (count_losses clock sequence e) {
        received_packets = trim_packet_window (clock 2) (e.received_packets ++ (sample ∷ []));
        received_bytes_window =
            trim_byte_window (clock 3)
              (e.received_bytes_window ++ (record { at_us = clock 0; bytes = bytes } ∷ []));
      }

  -- `on_rtcp_sent` and `on_rtcp_received` have the same body.
  unfoldable pub on_rtcp : (ℕ → ℕ) → ℕ → Estimator D → Estimator D
  unfolding trim_byte_window
  on_rtcp clock bytes e = record e {
    rtcp_bytes_window =
        trim_byte_window (clock 1)
          (e.rtcp_bytes_window ++ (record { at_us = clock 0; bytes = bytes } ∷ []));
  }

  pub on_twcc_feedback : (ℕ → ℕ) → ℕ → ℕ → ℕ → Estimator D → Estimator D
  on_twcc_feedback clock base_sequence packet_status_count reference_time e = record e {
    twcc_report = some (record {
      at_us = clock 0;
      base_sequence = base_sequence;
      packet_status_count = packet_status_count;
      reference_time_24bit = reference_time;
    });
  }

  unfoldable pub on_transport_loss_report : (ℕ → ℕ) → ℕ → ℕ → Estimator D → Estimator D
  on_transport_loss_report clock expected_packets lost_packets e = record e {
    remote_transport_loss = some (record {
      at_us = clock 0;
      expected_packets = expected_packets;
      lost_packets = min lost_packets expected_packets;
    });
  }

  -- The pair that it returns, and the estimator after it.
  unfoldable pub transport_loss_report : (ℕ → ℕ) → Estimator D → (ℕ × ℕ) × Estimator D
  unfolding trim_loss_samples sum_losses
  transport_loss_report clock e =
      let trimmed = trim_loss_samples (clock 0) e.transport_loss_samples in
      (sum_losses trimmed 0 0, record e { transport_loss_samples = trimmed })
