-- ===== src/Statistics/Observe.antt =====
-- quality/media_statistics_handler.cpp: what the handler tells its estimator.

pub mod RoundTrip
use web_rtc_weak_network_vid.Common.{
  ℕ, zero, suc, ◌+◌, ◌-◌, ◌*◌, ◌/◌, ◌%◌, ◌^◌, Bool, true, false, not, ◌&&◌, ◌||◌, Option, none,
  some, List, [], ◌∷◌, ◌++◌, ◌==◌, ltb, leb, if◌then◌else◌, length, take, drop, min,
}
use web_rtc_weak_network_vid.Common.Words.{sub16, byte_at}
use web_rtc_weak_network_vid.Quality.Estimator.{
  Estimator, on_twcc_feedback, on_transport_loss_report,
}

-- `ntohs` of the two bytes at an index, and the three bytes of the reference time; the bits of
-- different bytes are different ones.
abbrev pub word_at : List ℕ → ℕ → ℕ
word_at bytes i = byte_at bytes i * 256 + byte_at bytes (i + 1)

abbrev pub reference_at : List ℕ → ℕ → ℕ
reference_at bytes i = byte_at bytes i * 65536 + byte_at bytes (i + 1) * 256 + byte_at bytes (i + 2)

-- `parsed_packets`, `lost_packets` and `received_packets`
pub record Counts : Type 0 where
  pub parsed : ℕ
  pub lost : ℕ
  pub received : ℕ

-- `n` packets with one status.
abbrev pub count_status : ℕ → ℕ → Counts → Counts
count_status status n c =
    if status == 0
    then record c { parsed = (c.parsed + n) % 65536; lost = (c.lost + n) % 2 ^ 32 }
    else record c { parsed = (c.parsed + n) % 65536; received = (c.received + n) % 2 ^ 32 }

module _ (status_count : ℕ) where
  -- A chunk of a run.
  unfoldable pub run_chunk : ℕ → Counts → Counts
  run_chunk chunk c =
      count_status (chunk / 8192 % 4) (min (chunk % 8192) (sub16 status_count c.parsed)) c

  -- The `for` over the symbols of a vector: the shift falls by the width of a symbol.
  unfoldable pub symbol_loop : ℕ → ℕ → ℕ → ℕ → Counts → Counts
  symbol_loop zero width shift chunk c = c
  symbol_loop (suc rounds) width shift chunk c =
      let next =
        symbol_loop rounds width (shift - width) chunk
          (count_status (chunk / 2 ^ shift % 2 ^ width) 1 c) in
      if ltb c.parsed status_count then next else c

  unfoldable pub vector_chunk : ℕ → Counts → Counts
  vector_chunk chunk c =
      if chunk / 16384 % 2 == 1 then symbol_loop 7 2 12 chunk c else symbol_loop 14 1 13 chunk c

  unfoldable pub read_chunk : ℕ → Counts → Counts
  read_chunk chunk c = if chunk / 32768 % 2 == 0 then run_chunk chunk c else vector_chunk chunk c

  -- The `while` over the chunks; the list is what stands from `cursor` up to `size`.
  unfoldable pub parse_loop : List ℕ → Counts → Counts
  parse_loop [] c = c
  parse_loop (b ∷ []) c = c
  parse_loop (b ∷ d ∷ rest) c =
      let next = parse_loop rest (read_chunk (b * 256 + d) c) in
      if ltb c.parsed status_count then next else c

module _ {D : Type 0} where
  -- `data` is what stands from the packet on. Each call of the estimator has its own readings.
  unfoldable pub observe_twcc_feedback : (ℕ → ℕ → ℕ) → List ℕ → ℕ → Estimator D → Estimator D
  unfolding parse_loop
  observe_twcc_feedback clock bytes size e =
      let status_count = word_at bytes 14 in
      let noted =
        on_twcc_feedback (clock 0) (word_at bytes 12) status_count (reference_at bytes 16) e in
      let counts =
        parse_loop status_count (drop 20 (take size bytes))
          (record { parsed = 0; lost = 0; received = 0 }) in
      let expected = (counts.received + counts.lost) % 2 ^ 32 in
      if ltb size 20
      then e
      else if ltb 0 expected
      then on_transport_loss_report (clock 1) expected counts.lost noted
      else noted
