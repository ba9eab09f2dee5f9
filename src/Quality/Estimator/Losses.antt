-- ===== src/Quality/Estimator/Losses.antt =====
-- The loss counts of the estimator.
use web_rtc_weak_network_vid.Common.{
  ℕ, suc, ◌+◌, ◌*◌, ◌^◌, ◌-◌, ◌%◌, ◌≡◌, ◌≤◌, ◌<◌, ap, ap₂, List, [], ◌∷◌, ◌++◌, All, arith,
  Bool-cases, inl, inr, length, Option, none, some, All-append, ltb,
}
use web_rtc_weak_network_vid.Quality.Estimator.{
  TransportLossSample, Estimator, trim_window, trim_loss_samples, expected_of, sum_losses,
  count_losses, on_rtp_received, transport_loss_report,
}

-- A sample stands for one packet that came and for the packets that are missing before it.
unfoldable pub IsLossSample : TransportLossSample → Type 0
IsLossSample sample =
    (sample.expected_packets ≡ suc sample.lost_packets) × (sample.expected_packets ≤ 32767)

trim_window-All :
    (now : ℕ) (samples : List TransportLossSample)
    → All IsLossSample samples
    → All IsLossSample (trim_loss_samples now samples)
unfolding trim_loss_samples trim_window
trim_window-All now [] a = a
trim_window-All now (s ∷ samples) a = ground (arith, trim_window-All now samples)

length-trim :
    (now : ℕ) (samples : List TransportLossSample)
    → length (trim_loss_samples now samples) ≤ length samples
unfolding trim_loss_samples trim_window
length-trim now [] = omega arith
length-trim now (s ∷ samples) = ground (arith, length-trim now samples)

expected_of-le : (sequence : ℕ) (last : Option ℕ) → (expected_of sequence last).0 ≤ 32767
unfolding expected_of
expected_of-le sequence none = omega arith
expected_of-le sequence (some last) = ground arith

-- If each loss sample stands for one packet that came and the packets missing before it, at most
-- 32767 in all, then they do so after a packet with any sequence number is received.
pub on_rtp_received-IsLossSample :
    {D : Type 0} (clock : ℕ → ℕ) (sequence rtp_timestamp bytes : ℕ) (e : Estimator D)
    → All IsLossSample e.transport_loss_samples
    → All IsLossSample (on_rtp_received clock sequence rtp_timestamp bytes e).transport_loss_samples
unfolding on_rtp_received count_losses IsLossSample
on_rtp_received-IsLossSample clock sequence rtp_timestamp bytes e a =
    let expected = (expected_of sequence e.last_transport_sequence).0 in
    let few = expected_of-le sequence e.last_transport_sequence in
    elim (Bool-cases (ltb 0 expected)) [
      | inl counted ↦ rw counted (
          trim_window-All (clock 1)
            (e.transport_loss_samples
              ++ (record {
                at_us = clock 0;
                expected_packets = expected;
                lost_packets = expected - 1;
              }
                  ∷ []))
            (All-append IsLossSample e.transport_loss_samples
              (record { at_us = clock 0; expected_packets = expected; lost_packets = expected - 1 }
                ∷ [])
              a ((ground arith, few), tt)))
      | inr uncounted ↦ rw uncounted a
    ]

sum_losses_difference :
    (samples : List TransportLossSample) (x y : ℕ)
    → All IsLossSample samples
    → y ≤ x
    → x + 32767 * length samples < 2 ^ 32
    → (sum_losses samples x y).0 + y ≡ (sum_losses samples x y).1 + x + length samples
unfolding sum_losses IsLossSample
sum_losses_difference [] x y a h b = omega arith
sum_losses_difference (s ∷ samples) x y a h b =
    let x' : (x + s.expected_packets) % 2 ^ 32 ≡ x + s.expected_packets =
      omega (arith, a.0.0, a.0.1) in
    let y' : (y + s.lost_packets) % 2 ^ 32 ≡ y + s.lost_packets = omega (arith, a.0.0, a.0.1) in
    let rest =
      sum_losses_difference samples (x + s.expected_packets) (y + s.lost_packets) a.1
        (omega (arith, a.0.0)) (omega (arith, a.0.1)) in
    let both : sum_losses (s ∷ samples) x y
        ≡ sum_losses samples (x + s.expected_packets) (y + s.lost_packets) =
      ap₂ (sum_losses samples) x' y' in
    rw (ap (λ r. r.0) both, ap (λ r. r.1) both) (omega (arith, rest, a.0.0))

-- If each loss sample stands for one packet that came and the packets missing before it, and there
-- are at most 131076 samples, then the expected packets of the report are the lost ones and one for
-- each sample left in the window.
pub transport_loss_report-received :
    {D : Type 0} (clock : ℕ → ℕ) (e : Estimator D)
    → All IsLossSample e.transport_loss_samples
    → length e.transport_loss_samples ≤ 131076
    → (transport_loss_report clock e).0.0
      ≡ (transport_loss_report clock e).0.1
        + length (transport_loss_report clock e).1.transport_loss_samples
unfolding transport_loss_report
transport_loss_report-received clock e a b =
    let trimmed = trim_loss_samples (clock 0) e.transport_loss_samples in
    let short = length-trim (clock 0) e.transport_loss_samples in
    omega (
      arith,
      sum_losses_difference trimmed 0 0 (trim_window-All (clock 0) e.transport_loss_samples a)
          (omega arith) (omega arith),
    )
