-- ===== src/Quality/Estimator/Snapshot.antt =====
-- quality/network_quality_estimator.cpp: `snapshot` and what it computes with doubles.
use web_rtc_weak_network_vid.Common.{
  ℕ, ◌+◌, ◌-◌, ◌*◌, ◌%◌, ◌^◌, Bool, false, ◌&&◌, ◌||◌, min, max, List, [], ◌∷◌, ltb, ◌==◌,
  if◌then◌else◌, Option, none, some, length,
}
use web_rtc_weak_network_vid.Quality.Doubles.{Doubles}
use web_rtc_weak_network_vid.Quality.Adaptation.{NetworkQuality}
use web_rtc_weak_network_vid.Quality.Estimator.{
  PacketSample, ByteSample, Estimator, trim_packet_window, trim_byte_window, trim_loss_samples,
  sum_losses, compact_ntp_now,
}

-- The bytes in a window, on size_t.
abbrev pub total_bytes : List ByteSample → ℕ → ℕ
total_bytes [] total = total
total_bytes (sample ∷ window) total = total_bytes window ((total + sample.bytes) % 2 ^ 64)

abbrev pub last_at : ByteSample → List ByteSample → ℕ
last_at sample [] = sample.at_us
last_at sample (next ∷ window) = last_at next window

-- The sequence numbers of a window, each once.
abbrev pub contains : ℕ → List ℕ → Bool
contains n [] = false
contains n (m ∷ numbers) = n == m || contains n numbers

abbrev pub distinct : List PacketSample → List ℕ → List ℕ
distinct [] received = received
distinct (sample ∷ window) received =
    distinct window
      (if contains sample.sequence received then received else sample.sequence ∷ received)

abbrev pub min_sequence : List PacketSample → ℕ → ℕ
min_sequence [] n = n
min_sequence (sample ∷ window) n = min_sequence window (min n sample.sequence)

abbrev pub max_sequence : List PacketSample → ℕ → ℕ
max_sequence [] n = n
max_sequence (sample ∷ window) n = max_sequence window (max n sample.sequence)

-- What `local_loss_percent` divides: the lost packets and the expected ones, or nothing.
unfoldable pub local_loss : List PacketSample → Option (ℕ × ℕ)
local_loss [] = none
local_loss (sample ∷ []) = none
local_loss (sample ∷ next ∷ window) =
    let all = sample ∷ next ∷ window in
    let expected = max_sequence all sample.sequence - min_sequence all sample.sequence + 1 in
    let received = length (distinct all []) in
    if ltb expected received then none else some (expected - received, expected)

module _ {D : Type 0} (double : Doubles D) where
  -- `part * 100.0 / whole`
  abbrev pub percent : ℕ → ℕ → D
  percent part whole =
      double.over (double.times (double.num part) (double.num 100)) (double.num whole)

  unfoldable pub local_loss_percent : Estimator D → D
  unfolding local_loss
  local_loss_percent e = elim (local_loss e.received_packets) [
    | none ↦ double.num 0
    | some (lost, expected) ↦ percent lost expected
  ]

  unfoldable pub local_transport_loss_percent : Estimator D → D
  unfolding sum_losses
  local_transport_loss_percent e =
      let (expected, lost) = sum_losses e.transport_loss_samples 0 0 in
      if expected == 0 then double.num 0 else percent lost expected

  -- `bitrate_kbps`; the window is in the order of its times.
  unfoldable pub bitrate_kbps : List ByteSample → D
  bitrate_kbps [] = double.num 0
  bitrate_kbps (sample ∷ []) = double.num 0
  bitrate_kbps (sample ∷ next ∷ window) =
      let total = total_bytes (sample ∷ next ∷ window) 0 in
      let seconds =
        double.over (double.num (last_at next window - sample.at_us)) (double.num 1000000) in
      if double.lt (double.num 0) seconds
      then double.over (double.over (double.num (total * 8 % 2 ^ 64)) seconds) (double.num 1000)
      else double.num 0

  abbrev pub transit : PacketSample → D
  transit sample =
      double.minus (double.over (double.num sample.at_us) (double.num 1000000))
        (double.over (double.num sample.rtp_timestamp) (double.num 90000))

  -- The loop of `local_jitter_ms`.
  unfoldable pub jitter_loop : PacketSample → List PacketSample → D → D
  jitter_loop previous [] jitter = jitter
  jitter_loop previous (current ∷ window) jitter =
      let delta_ms =
        double.times (double.absolute (double.minus (transit current) (transit previous)))
          (double.num 1000) in
      jitter_loop current window
        (double.plus jitter (double.over (double.minus delta_ms jitter) (double.num 16)))

  unfoldable pub local_jitter_ms : Estimator D → D
  unfolding jitter_loop
  local_jitter_ms e = elim e.received_packets [
    | [] ↦ double.num 0
    | first ∷ rest ↦
        if ltb (length rest) 2 then double.num 0 else jitter_loop first rest (double.num 0)
  ]

  -- `rtt_ms` of `on_receiver_report`: the subtractions wrap around.
  unfoldable pub report_rtt_ms : ℕ → ℕ → ℕ → D
  unfolding compact_ntp_now
  report_rtt_ms now last_sr delay_since_last_sr =
      let rtt_ntp =
        (compact_ntp_now now + 2 ^ 32 - last_sr + 2 ^ 32 - delay_since_last_sr) % 2 ^ 32 in
      let rtt =
        double.over (double.times (double.num rtt_ntp) (double.num 1000)) (double.num 65536) in
      if last_sr == 0
      then double.num 0
      else if double.lt rtt (double.num 0) || double.lt (double.num 60000) rtt
      then double.num 0
      else rtt

  -- `clock 0` is read only if `last_sr` is not 0.
  unfoldable pub on_receiver_report : (ℕ → ℕ) → ℕ → ℕ → ℕ → ℕ → Estimator D → Estimator D
  unfolding report_rtt_ms
  on_receiver_report clock fraction_lost jitter_rtp_ticks last_sr delay_since_last_sr e = record e {
    remote_report = some (record {
      at_us = clock 1;
      loss_percent = percent fraction_lost 256;
      jitter_ms =
          double.over (double.times (double.num jitter_rtp_ticks) (double.num 1000))
            (double.num 90000);
      rtt_ms = report_rtt_ms (clock 0) last_sr delay_since_last_sr;
    });
  }

  -- The six calls that trim, in their order.
  unfoldable pub trim_all : (ℕ → ℕ) → Estimator D → Estimator D
  unfolding trim_packet_window trim_byte_window trim_loss_samples
  trim_all clock e = record e {
    sent_packets = trim_packet_window (clock 0) e.sent_packets;
    received_packets = trim_packet_window (clock 1) e.received_packets;
    sent_bytes_window = trim_byte_window (clock 2) e.sent_bytes_window;
    received_bytes_window = trim_byte_window (clock 3) e.received_bytes_window;
    rtcp_bytes_window = trim_byte_window (clock 4) e.rtcp_bytes_window;
    transport_loss_samples = trim_loss_samples (clock 5) e.transport_loss_samples;
  }

  -- The report of the peer, while it is fresh, in place of the local values.
  unfoldable pub with_remote_report : ℕ → Estimator D → NetworkQuality D → NetworkQuality D
  with_remote_report now e quality = elim e.remote_report [
    | none ↦ quality
    | some report ↦
        if ltb now (report.at_us + 3000000)
        then record quality {
          rtt_ms = report.rtt_ms;
          loss_percent = report.loss_percent;
          jitter_ms = report.jitter_ms;
        }
        else quality
  ]

  unfoldable pub with_transport_loss : ℕ → Estimator D → NetworkQuality D → NetworkQuality D
  with_transport_loss now e quality = elim e.remote_transport_loss [
    | none ↦ quality
    | some report ↦
        if ltb now (report.at_us + 3000000) && ltb 0 report.expected_packets
        then record quality {
          transport_loss_percent = percent report.lost_packets report.expected_packets;
        }
        else quality
  ]

  -- The result and the estimator after the call.
  unfoldable pub snapshot : (ℕ → ℕ) → Estimator D → NetworkQuality D × Estimator D
  unfolding trim_all with_remote_report with_transport_loss local_loss_percent local_jitter_ms
      local_transport_loss_percent bitrate_kbps
  snapshot clock e =
      let trimmed = trim_all clock e in
      let local : NetworkQuality D = record {
        rtt_ms = double.num 0;
        loss_percent = local_loss_percent trimmed;
        jitter_ms = local_jitter_ms trimmed;
        transport_loss_percent = local_transport_loss_percent trimmed;
        send_kbps = bitrate_kbps trimmed.sent_bytes_window;
        receive_kbps = bitrate_kbps trimmed.received_bytes_window;
        ack_kbps = bitrate_kbps trimmed.rtcp_bytes_window;
      } in
      (with_transport_loss (clock 7) trimmed (with_remote_report (clock 6) trimmed local), trimmed)
