-- ===== src/Statistics/Feedback/Chunks.antt =====
-- The chunks of a feedback message, and what the sender of the packets reads in them.
use web_rtc_weak_network_vid.Common.{
  ℕ, zero, suc, ◌+◌, ◌-◌, ◌*◌, ◌/◌, ◌%◌, ◌≡◌, ◌≤◌, ◌<◌, ◌∙◌, refl, ap, min, Bool, true, false, some,
  List, [], ◌∷◌, ◌++◌, ◌==◌, ltb, if◌then◌else◌, ◌⊎◌, length, arith, inl, inr,
}
use web_rtc_weak_network_vid.Common.Words.{sub16, be16, bit_or_run}
use web_rtc_weak_network_vid.Statistics.Feedback.{
  status_at, run_at, chunk_at, chunk_loop, chunk_bytes,
}
use web_rtc_weak_network_vid.Statistics.Feedback.Runs.{
  arrived, arrived_bound, arrived_split, run_at_lem,
}
use web_rtc_weak_network_vid.Statistics.Observe.{Counts, run_chunk, read_chunk, parse_loop}

-- One chunk of a run, read back.
pub parse_done :
    (count : ℕ) (bytes : List ℕ) (c : Counts) → count ≤ c.parsed → parse_loop count bytes c ≡ c
unfolding parse_loop
parse_done count [] c done = refl
parse_done count (b ∷ []) c done = refl
parse_done count (b ∷ d ∷ bytes) c done =
    let over : ltb c.parsed count ≡ false = ground arith in rw over refl

parse_loop_more :
    (count b d : ℕ) (bytes : List ℕ) (c : Counts)
    → c.parsed < count
    → parse_loop count (b ∷ d ∷ bytes) c ≡ parse_loop count bytes (read_chunk count (b * 256 + d) c)
unfolding parse_loop
parse_loop_more count b d bytes c below =
    let more : ltb c.parsed count ≡ true = ground arith in rw more refl

module _ (count run : ℕ) (c : Counts) where
  -- A run of packets, counted.
  abbrev pub counted : Bool → Counts
  counted seen = record {
    parsed = c.parsed + run;
    lost = c.lost + (if seen then 0 else run);
    received = c.received + (if seen then run else 0);
  }

  read_run :
      (seen : Bool)
      → count < 65536
      → run < 8192
      → c.parsed + run ≤ count
      → c.lost + c.received ≡ c.parsed
      → read_chunk count ((if seen then 1 else 0) * 8192 + run) c ≡ counted seen
  unfolding read_chunk run_chunk
  read_run true word low below total =
      let high : (1 * 8192 + run) / 32768 % 2 == 0 ≡ true = ground arith in
      let code : (1 * 8192 + run) / 8192 % 4 == 0 ≡ false = ground arith in
      let length : min ((1 * 8192 + run) % 8192) (sub16 count c.parsed) ≡ run = ground arith in
      let parsed : (c.parsed + run) % 65536 ≡ c.parsed + run = omega arith in
      let received : (c.received + run) % 4294967296 ≡ c.received + run = omega arith in
      let lost : c.lost + 0 ≡ c.lost = omega arith in
      rw (high, code, length, parsed, received, lost) refl
  read_run false word low below total =
      let high : (0 * 8192 + run) / 32768 % 2 == 0 ≡ true = ground arith in
      let code : (0 * 8192 + run) / 8192 % 4 == 0 ≡ true = ground arith in
      let length : min ((0 * 8192 + run) % 8192) (sub16 count c.parsed) ≡ run = ground arith in
      let parsed : (c.parsed + run) % 65536 ≡ c.parsed + run = omega arith in
      let lost : (c.lost + run) % 4294967296 ≡ c.lost + run = omega arith in
      let received : c.received + 0 ≡ c.received = omega arith in
      rw (high, code, length, parsed, lost, received) refl

-- What the chunks from an offset on say: how many packets arrived, and how they are counted.
pub record ChunksFrom (received : ℕ → Bool) (base count offset fuel : ℕ) : Type 0 where
  pub chunks : List ℕ
  pub received_count : ℕ
  pub returned : chunk_loop received base fuel count offset ≡ some (chunks, received_count)
  pub few : length chunks ≤ count - offset
  pub right : received_count ≡ arrived received base offset (count - offset)
  pub read_back :
      (rest : List ℕ) (lost got : ℕ)
      → lost + got ≡ offset
      → parse_loop count
          (chunk_bytes chunks ++ rest)
          (record { parsed = offset; lost = lost; received = got })
        ≡ record {
          parsed = count;
          lost = lost + (count - offset - received_count);
          received = got + received_count;
        }

chunk_loop_done :
    (received : ℕ → Bool) (base count fuel : ℕ)
    → chunk_loop received base (suc fuel) count count ≡ some ([], 0)
unfolding chunk_loop
chunk_loop_done received base count fuel =
    let out : ltb count count ≡ false = ground arith in rw out refl

chunk_loop_more :
    (received : ℕ → Bool) (base count fuel offset : ℕ) (chunks : List ℕ) (rest : ℕ)
    → offset < count
    → chunk_loop received base fuel count ((offset + run_at received base count offset) % 65536)
      ≡ some (chunks, rest)
    → chunk_loop received base (suc fuel) count offset
      ≡ some (
        chunk_at received base count offset ∷ chunks,
        (if status_at received base offset then run_at received base count offset else 0) + rest,
      )
unfolding chunk_loop
chunk_loop_more received base count fuel offset chunks rest below next =
    let more : ltb offset count ≡ true = ground arith in rw (more, next) refl

chunk_at_lem :
    (received : ℕ → Bool) (base count offset : ℕ)
    → offset < count
    → chunk_at received base count offset
      ≡ (if status_at received base offset then 1 else 0) * 8192 + run_at received base count offset
chunk_at_lem received base count offset below =
    let (least, most, word, same) = run_at_lem received base count offset below in
    let bit : (if status_at received base offset then 1 else 0) < 2 = ground arith in
    rw
      (bit_or_run (if status_at received base offset then 1 else 0)
        (run_at received base count offset) bit (omega (arith, word)))
      (omega (arith, bit, word))

abbrev counts_of : ℕ → ℕ → ℕ → Counts
counts_of parsed lost got = record { parsed = parsed; lost = lost; received = got }

counts_eq :
    {parsed parsed' lost lost' got got' : ℕ}
    → parsed ≡ parsed'
    → lost ≡ lost'
    → got ≡ got'
    → counts_of parsed lost got ≡ counts_of parsed' lost' got'
counts_eq a b c = rw (a, b, c) refl

below_or_at : (offset count : ℕ) → offset ≤ count → (offset < count) ⊎ (offset ≡ count)
below_or_at offset count within = ground arith

shared : (seen : Bool) (n : ℕ) → (if seen then 0 else n) + (if seen then n else 0) ≡ n
shared true n = omega arith
shared false n = omega arith

module _ (received : ℕ → Bool) (base count : ℕ) (word : count ≤ 4096) where
  one_chunk :
      (offset : ℕ)
      → offset < count
      → (rest : List ℕ) (lost got : ℕ) → lost + got ≡ offset
      → parse_loop count
          (be16 (chunk_at received base count offset) ++ rest)
          (record { parsed = offset; lost = lost; received = got })
        ≡ parse_loop count rest (
            counted count
              (run_at received base count offset)
              (record { parsed = offset; lost = lost; received = got })
              (status_at received base offset))
  one_chunk offset below rest lost got total =
      let (least, most, short, same) = run_at_lem received base count offset below in
      let whole = chunk_at_lem received base count offset below in
      let bit : (if status_at received base offset then 1 else 0) < 2 = ground arith in
      let bytes : chunk_at received base count offset / 256 % 256 * 256
            + chunk_at received base count offset % 256
          ≡ (if status_at received base offset then 1 else 0) * 8192
            + run_at received base count offset =
        rw whole (omega (arith, bit, short)) in
      parse_loop_more count _ _ rest (record { parsed = offset; lost = lost; received = got }) below
      ∙ ap
          (λ (n : ℕ).
            parse_loop count rest
              (read_chunk count n (record { parsed = offset; lost = lost; received = got })))
          bytes
      ∙ ap (parse_loop count rest) (
          read_run count (run_at received base count offset)
            (record { parsed = offset; lost = lost; received = got })
            (status_at received base offset) (omega arith) (omega (arith, short)) most total)

  chunks_step :
      (fuel offset : ℕ)
      → offset < count
      → ChunksFrom received base count (offset + run_at received base count offset) fuel
      → ChunksFrom received base count offset (suc fuel)
  unfolding chunk_bytes
  chunks_step fuel offset below next =
      let (least, most, short, same) = run_at_lem received base count offset below in
      let seen = status_at received base offset in
      let run = run_at received base count offset in
      let all = shared seen run in
      let bound : next.received_count ≤ count - (offset + run) =
        rw next.right (arrived_bound received base (offset + run) (count - (offset + run))) in
      let split : count - offset ≡ run + (count - (offset + run)) = omega (arith, most) in
      let small : (offset + run) % 65536 ≡ offset + run = omega (arith, most) in
      record {
        chunks = chunk_at received base count offset ∷ next.chunks;
        received_count = (if seen then run else 0) + next.received_count;
        returned =
            chunk_loop_more received base count fuel offset next.chunks next.received_count below
              (rw small next.returned);
        few = omega (arith, next.few, most, least);
        right = rw split (
            rw (arrived_split received base offset run (count - (offset + run)), same)
              (ap (λ (n : ℕ). (if seen then run else 0) + n) next.right));
        read_back = λ rest lost got total.
            one_chunk offset below (chunk_bytes next.chunks ++ rest) lost got total
            ∙ next.read_back rest (lost + (if seen then 0 else run))
                (got + (if seen then run else 0)) (omega (arith, all, total))
            ∙ counts_eq refl (omega (arith, all, bound, most)) (omega arith);
      }

  chunks_end : (fuel offset : ℕ) → offset ≡ count → ChunksFrom received base count offset (suc fuel)
  unfolding chunk_bytes arrived
  chunks_end fuel offset done =
      let none_left : count - offset ≡ 0 = omega arith in
      record {
        chunks = [];
        received_count = 0;
        returned = rw done (chunk_loop_done received base count fuel);
        few = omega arith;
        right = rw none_left refl;
        read_back = λ rest lost got total.
            parse_done count rest (record { parsed = offset; lost = lost; received = got })
              (omega arith)
            ∙ counts_eq done (omega arith) (omega arith);
      }

  pub chunks_from :
      (fuel offset : ℕ)
      → offset ≤ count
      → count < offset + fuel
      → ChunksFrom received base count offset fuel
  chunks_from zero offset within enough = absurd (omega arith)
  chunks_from (suc fuel) offset within enough = elim (below_or_at offset count within) [
    | inl below ↦
        let (least, most, short, same) = run_at_lem received base count offset below in
        chunks_step fuel offset below (
          chunks_from fuel (offset + run_at received base count offset) most (omega (arith, least)))
    | inr done ↦ chunks_end fuel offset done
  ]
