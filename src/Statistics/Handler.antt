-- ===== src/Statistics/Handler.antt =====
-- quality/media_statistics_handler.cpp: what the handler does with the messages that pass it, and the
-- walk over the RTCP packets that come in.
pub mod Walk
pub mod Delivery
use web_rtc_weak_network_vid.Common.{
  ℕ, zero, suc, ◌+◌, Bool, true, false, not, ◌&&◌, ◌||◌, Option, none, some, List, [], ◌∷◌, ◌==◌,
  ltb, if◌then◌else◌, length, drop,
}
use web_rtc_weak_network_vid.Rtc.{RtpLib, MessagePtr}
use web_rtc_weak_network_vid.Quality.Doubles.{Doubles}
use web_rtc_weak_network_vid.Quality.Estimator.{Estimator, on_rtp_sent, on_rtp_received, on_rtcp}
use web_rtc_weak_network_vid.Quality.Estimator.Snapshot.{on_receiver_report}
use web_rtc_weak_network_vid.Statistics.Sequence.{is_no_rtp, write_twcc_extension}
use web_rtc_weak_network_vid.Statistics.Feedback.{
  StatisticsDirection, StatisticsHandler, observe_twcc_extension, maybe_send_twcc_feedback,
}
use web_rtc_weak_network_vid.Statistics.Observe.{observe_twcc_feedback}

-- `rtc::RtcpReportBlock`, by the four accessors that the code calls.
pub record ReportBlock : Type 0 where
  pub fraction_lost : ℕ
  pub jitter : ℕ
  pub ntp_of_sr : ℕ
  pub delay_since_sr : ℕ

-- What the handler takes from libdatachannel for reports: the two sizes, and `getReportBlock`.
pub record ReportLib : Type 0 where
  pub sizeof_rtcp_rr : ℕ
  pub sizeof_rtcp_sr : ℕ
  pub rr_block : List ℕ → ℕ → Option ReportBlock
  pub sr_block : List ℕ → ℕ → Option ReportBlock

-- The estimator, and how many readings of the clock it has taken.
pub record Noted (D : Type 0) : Type 0 where
  pub estimator : Estimator D
  pub readings : ℕ

-- A call of the estimator that reads the clock `n` times.
abbrev pub note :
    {D : Type 0} → (ℕ → ℕ) → ℕ → ((ℕ → ℕ) → Estimator D → Estimator D) → Noted D → Noted D
note clock n call s = record {
  estimator = call (λ i. clock (s.readings + i)) s.estimator;
  readings = s.readings + n;
}

-- The end of `incoming`: `at_us` is the reading for the feedback.
unfoldable pub finish_incoming :
    StatisticsDirection → ℕ → StatisticsHandler → Option (StatisticsHandler × Option (List ℕ))
finish_incoming StatisticsDirection.receiver at_us h = maybe_send_twcc_feedback at_us h
finish_incoming StatisticsDirection.sender at_us h = some (h, none)

module _ {D : Type 0} (double : Doubles D) (lib : RtpLib) (reports : ReportLib)
    (clock : ℕ → ℕ) where
  unfoldable pub observe_rtp : MessagePtr → Bool → Noted D → Noted D
  observe_rtp none sent s = s
  observe_rtp (some message) sent s =
      let bytes = message.bytes in
      if is_no_rtp lib message
      then s
      else if not (lib.version bytes == 2)
      then s
      else if sent
      then note clock 3
          (λ at. on_rtp_sent at (lib.seq_number bytes) (lib.timestamp bytes) (length bytes)) s
      else note clock 4
          (λ at. on_rtp_received at (lib.seq_number bytes) (lib.timestamp bytes) (length bytes)) s

  unfoldable pub observe_report_block : Option ReportBlock → Noted D → Noted D
  observe_report_block none s = s
  observe_report_block (some block) s =
      note clock 2
        (λ at.
          on_receiver_report double at block.fraction_lost block.jitter block.ntp_of_sr
            block.delay_since_sr)
        s

  -- The loop over the report blocks from `i` on; `count` are left.
  unfoldable pub block_loop : ℕ → ℕ → (ℕ → Option ReportBlock) → Noted D → Noted D
  block_loop zero i get_report_block s = s
  block_loop (suc count) i get_report_block s =
      block_loop count (i + 1) get_report_block (observe_report_block (get_report_block i) s)

  -- What one RTCP packet does; `packet` begins with it.
  unfoldable pub observe_packet : List ℕ → ℕ → Noted D → Noted D
  observe_packet packet size s =
      if lib.rtcp_payload_type packet == 201
      then if ltb size reports.sizeof_rtcp_rr
        then s
        else block_loop (lib.report_count packet) 0 (reports.rr_block packet) s
      else if lib.rtcp_payload_type packet == 200
      then if ltb size reports.sizeof_rtcp_sr
        then s
        else block_loop (lib.report_count packet) 0 (reports.sr_block packet) s
      else if lib.rtcp_payload_type packet == 205 && lib.report_count packet == 15
      then note clock 2 (λ at. observe_twcc_feedback (λ call i. at (call + i)) packet size) s
      else s

  -- The `while`; `rest` is what stands from `offset` on. `none`: out of fuel.
  unfoldable pub observe_rtcp_packet : ℕ → List ℕ → Noted D → Option (Noted D)
  observe_rtcp_packet zero rest s = none
  observe_rtcp_packet (suc fuel) rest s =
      let size = lib.length_in_bytes rest in
      let next = observe_rtcp_packet fuel (drop size rest) (observe_packet rest size s) in
      if ltb (length rest) lib.sizeof_rtcp_header
      then some s
      else if ltb size lib.sizeof_rtcp_header || ltb (length rest) size
      then some s
      else next

  unfoldable pub observe_rtcp : MessagePtr → Bool → Noted D → Option (Noted D)
  observe_rtcp none sent s = some s
  observe_rtcp (some message) sent s =
      let bytes = message.bytes in
      let noted = note clock 2 (λ at. on_rtcp at (length bytes)) s in
      if ltb (length bytes) lib.sizeof_rtcp_header || not (lib.is_rtcp bytes)
      then some s
      else if sent
      then some noted
      else observe_rtcp_packet (suc (length bytes)) bytes noted

  -- `arrival` is what `now_us()` reads.
  unfoldable pub observe_incoming :
      StatisticsDirection
      → ℕ
      → MessagePtr
      → StatisticsHandler
      → Noted D
      → Option (StatisticsHandler × Noted D)
  observe_incoming StatisticsDirection.receiver arrival message h s =
      some (observe_twcc_extension lib arrival message h, observe_rtp message false s)
  observe_incoming StatisticsDirection.sender arrival message h s =
      elim (observe_rtcp message false s) [ none ↦ none | some noted ↦ some (h, noted) ]

  unfoldable pub observe_outgoing :
      StatisticsDirection
      → MessagePtr
      → StatisticsHandler
      → Noted D
      → Option (MessagePtr × StatisticsHandler × Noted D)
  observe_outgoing StatisticsDirection.sender message h s =
      let (numbered, next) = write_twcc_extension lib message h.next_twcc_sequence in
      some (numbered, record h { next_twcc_sequence = next }, observe_rtp numbered true s)
  observe_outgoing StatisticsDirection.receiver message h s = elim (observe_rtcp message true s) [
    | none ↦ none
    | some noted ↦ some (message, h, noted)
  ]

  -- The loop of `incoming`. `arrivals i` is the reading for the `i`th message.
  unfoldable pub incoming_loop :
      (ℕ → ℕ) → List MessagePtr → StatisticsHandler → Noted D → Option (StatisticsHandler × Noted D)
  incoming_loop arrivals [] h s = some (h, s)
  incoming_loop arrivals (message ∷ messages) h s =
      elim (observe_incoming h.direction (arrivals 0) message h s) [
        | none ↦ none
        | some (h', s') ↦ incoming_loop (λ i. arrivals (i + 1)) messages h' s'
      ]

  -- The handler, the estimator, and the feedback that is sent, if any.
  unfoldable pub incoming :
      (ℕ → ℕ)
      → ℕ
      → List MessagePtr
      → StatisticsHandler
      → Noted D
      → Option (StatisticsHandler × Noted D × Option (List ℕ))
  incoming arrivals at_us messages h s = elim (incoming_loop arrivals messages h s) [
    | none ↦ none
    | some (h', s') ↦ elim (finish_incoming h.direction at_us h') [
      | none ↦ none
      | some (h'', sent) ↦ some (h'', s', sent)
    ]
  ]

  -- The messages as they go on, the handler and the estimator.
  unfoldable pub outgoing :
      List MessagePtr
      → StatisticsHandler
      → Noted D
      → Option (List MessagePtr × StatisticsHandler × Noted D)
  outgoing [] h s = some ([], h, s)
  outgoing (message ∷ messages) h s = elim (observe_outgoing h.direction message h s) [
    | none ↦ none
    | some (passed, h', s') ↦ elim (outgoing messages h' s') [
      | none ↦ none
      | some (rest, h'', s'') ↦ some (passed ∷ rest, h'', s'')
    ]
  ]
