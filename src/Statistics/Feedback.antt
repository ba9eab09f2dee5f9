-- ===== src/Statistics/Feedback.antt =====
-- quality/media_statistics_handler.cpp: the state of the handler, the sequence numbers that a receiver
-- has seen (`observe_twcc_extension`), and the feedback on them (`maybe_send_twcc_feedback`).
pub mod Runs
pub mod Chunks
pub mod Sending
use web_rtc_weak_network_vid.Common.{
  ℕ, zero, suc, ◌+◌, ◌-◌, ◌*◌, ◌/◌, ◌%◌, ◌^◌, bit_or, Bool, true, false, not, ◌&&◌, ◌||◌, Option,
  none, some, List, [], ◌∷◌, ◌++◌, ◌==◌, ltb, leb, if◌then◌else◌, length, replicate,
}
use web_rtc_weak_network_vid.Common.Words.{add16, sub16, be16}
use web_rtc_weak_network_vid.Rtc.{RtpLib, MessagePtr}
use web_rtc_weak_network_vid.Statistics.Sequence.{read_twcc_sequence}

pub data StatisticsDirection : Type 0 where
  sender receiver : StatisticsDirection

pub record TwccReceiveSample : Type 0 where
  pub sequence : ℕ
  pub at_us : ℕ

-- The handler without its estimator.
pub record StatisticsHandler : Type 0 where
  pub direction : StatisticsDirection
  pub last_twcc_feedback_us : ℕ
  pub next_twcc_sequence : ℕ
  pub twcc_feedback_count : ℕ
  pub pending_twcc_samples : List TwccReceiveSample

unfoldable pub new_statistics_handler : StatisticsDirection → StatisticsHandler
new_statistics_handler direction = record {
  direction = direction;
  last_twcc_feedback_us = 0;
  next_twcc_sequence = 1;
  twcc_feedback_count = 0;
  pending_twcc_samples = [];
}

-- `while (pending_twcc_samples_.size() > 4096) pop_front()`
unfoldable pub bound_samples : List TwccReceiveSample → List TwccReceiveSample
bound_samples [] = []
bound_samples (sample ∷ samples) =
    let rest = bound_samples samples in
    if ltb 4096 (length (sample ∷ samples)) then rest else sample ∷ samples

-- `at_us` is what `now_us()` reads.
unfoldable pub observe_twcc_extension :
    RtpLib → ℕ → MessagePtr → StatisticsHandler → StatisticsHandler
unfolding bound_samples
observe_twcc_extension lib at_us message h = elim (read_twcc_sequence lib message) [
  | none ↦ h
  | some sequence ↦ record h {
    pending_twcc_samples =
        bound_samples
          (h.pending_twcc_samples ++ (record { sequence = sequence; at_us = at_us } ∷ []));
  }
]

-- The loop for `max_sequence`; the signed difference is positive below 2 ^ 15.
unfoldable pub max_loop : List TwccReceiveSample → ℕ → ℕ
max_loop [] max_sequence = max_sequence
max_loop (sample ∷ samples) max_sequence =
    let delta = sub16 sample.sequence max_sequence in
    max_loop samples (if ltb 0 delta && ltb delta 32768 then sample.sequence else max_sequence)

-- `received_sequences.count(sequence) != 0`
unfoldable pub is_received : List TwccReceiveSample → ℕ → Bool
is_received [] sequence = false
is_received (sample ∷ samples) sequence =
    sample.sequence == sequence || is_received samples sequence

-- The status at an offset.
abbrev pub status_at : (ℕ → Bool) → ℕ → ℕ → Bool
status_at received base offset = received (add16 base offset)

module _ (received : ℕ → Bool) (base : ℕ) where
  -- The inner `while`: `rounds` is what `packet_count` leaves behind `offset + run`.
  unfoldable pub run_loop : ℕ → ℕ → ℕ → ℕ
  run_loop zero offset run = run
  run_loop (suc rounds) offset run =
      let longer = run_loop rounds offset (run + 1) in
      if not (ltb run 8191)
      then run
      else if (if status_at received base offset
          then status_at received base (offset + run)
          else not (status_at received base (offset + run)))
      then longer
      else run

  abbrev pub run_at : ℕ → ℕ → ℕ
  run_at count offset = run_loop (count - (offset + 1)) offset 1

  -- `(status_symbol << 13U) | run`
  abbrev pub chunk_at : ℕ → ℕ → ℕ
  chunk_at count offset =
      bit_or ((if status_at received base offset then 1 else 0) * 8192) (run_at count offset)
      % 65536

  -- The loop over the offsets: the chunks and `received_count`. `none`: out of fuel.
  unfoldable pub chunk_loop : ℕ → ℕ → ℕ → Option (List ℕ × ℕ)
  chunk_loop zero count offset = none
  chunk_loop (suc fuel) count offset =
      let next = chunk_loop fuel count ((offset + run_at count offset) % 65536) in
      if not (ltb offset count) then some ([], 0) else elim next [
        | none ↦ none
        | some (chunks, received_count) ↦ some (
          chunk_at count offset ∷ chunks,
          (if status_at received base offset then run_at count offset else 0) + received_count,
        )
      ]

-- The bytes of the chunks.
unfoldable pub chunk_bytes : List ℕ → List ℕ
chunk_bytes [] = []
chunk_bytes (chunk ∷ chunks) = be16 chunk ++ chunk_bytes chunks

abbrev pub padded_size : ℕ → ℕ → ℕ
padded_size chunk_count received_count = (20 + chunk_count * 2 + received_count + 3) / 4 * 4

abbrev pub reference_time : ℕ → ℕ
reference_time at_us = at_us / 1000 / 64 % 2 ^ 24

-- The message: what is written behind the chunks is zero, the deltas and the padding.
unfoldable pub feedback_bytes : ℕ → ℕ → ℕ → ℕ → List ℕ → ℕ → List ℕ
unfolding chunk_bytes
feedback_bytes base count at_us feedback_count chunks received_count =
    let size = padded_size (length chunks) received_count in
    let time = reference_time at_us in
    bit_or 0x80 15
    ∷ 205
    ∷ (be16 ((size / 4 - 1) % 65536)
        ++ (0
            ∷ 0
            ∷ 0
            ∷ 0
            ∷ 0
            ∷ 0
            ∷ 0
            ∷ 0
            ∷ (be16 base
                ++ (be16 count
                    ++ (time / 65536 % 256
                        ∷ time / 256 % 256
                        ∷ time % 256
                        ∷ feedback_count
                        ∷ (chunk_bytes chunks ++ replicate (size - (20 + length chunks * 2)) 0))))))

abbrev pub packet_count_of : ℕ → ℕ → ℕ
packet_count_of base max_sequence = (sub16 max_sequence base + 1) % 65536

-- `packet_count`
abbrev pub pending_span : TwccReceiveSample → List TwccReceiveSample → ℕ
pending_span front samples =
    packet_count_of front.sequence (max_loop (front ∷ samples) front.sequence)

-- The samples are not empty and the time has come.
unfoldable pub send_feedback :
    ℕ
    → StatisticsHandler
    → TwccReceiveSample
    → List TwccReceiveSample
    → Option (StatisticsHandler × Option (List ℕ))
send_feedback at_us h front samples =
    let base = front.sequence in
    let count = pending_span front samples in
    let cleared = record h { last_twcc_feedback_us = at_us; pending_twcc_samples = [] } in
    if count == 0 || ltb 4096 count
    then some (cleared, none)
    else elim (chunk_loop (is_received (front ∷ samples)) base (suc count) count 0) [
      | none ↦ none
      | some (chunks, received_count) ↦ some (
        record cleared { twcc_feedback_count = (h.twcc_feedback_count + 1) % 256 },
        some (feedback_bytes base count front.at_us h.twcc_feedback_count chunks received_count),
      )
    ]

-- The handler after the call, and the bytes that are sent, if any. The outer `none` is a loop out of
-- fuel.
unfoldable pub maybe_send_twcc_feedback :
    ℕ → StatisticsHandler → Option (StatisticsHandler × Option (List ℕ))
maybe_send_twcc_feedback at_us h =
    if ltb at_us (h.last_twcc_feedback_us + 200000)
    then some (h, none)
    else elim h.pending_twcc_samples [
      | [] ↦ some (h, none)
      | front ∷ samples ↦ send_feedback at_us h front samples
    ]
