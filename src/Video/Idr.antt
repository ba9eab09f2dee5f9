-- ===== src/Video/Idr.antt =====
-- video/video_receiver.cpp: `contains_h264_idr`, which looks for an IDR slice in a frame.
use web_rtc_weak_network_vid.Common.{
  ℕ, zero, suc, ◌+◌, ◌-◌, ◌%◌, ◌≡◌, ◌≤◌, ◌<◌, ◌⊎◌, ◌↔◌, inl, inr, refl, sym, ap, ◌∙◌, Bool, true,
  false, not, ◌&&◌, List, ltb, ◌==◌, if◌then◌else◌, length, arith, Bool-cases,
}
use mathlib.Core.Bool.{false≢true}
use web_rtc_weak_network_vid.Common.Words.{byte_at}

below_or_same : (i j : ℕ) → i ≤ j → (i < j) ⊎ (i ≡ j)
below_or_same i j low = ground arith

past : (b c : Bool) → b ≡ false → (if b then true else c) ≡ true → c ≡ true
past true c further found = absurd (false≢true (sym further))
past false c further found = found

module _ (frame : List ℕ) where
  -- `header`, behind a start code at `i`, and 0 where there is none.
  unfoldable pub header_at : ℕ → ℕ
  header_at i =
      if byte_at frame i == 0 && byte_at frame (i + 1) == 0 && byte_at frame (i + 2) == 1
      then i + 3
      else if ltb (i + 5) (length frame)
          && byte_at frame i == 0
          && byte_at frame (i + 1) == 0
          && byte_at frame (i + 2) == 0
          && byte_at frame (i + 3) == 1
      then i + 4
      else 0

  unfoldable pub is_idr_at : ℕ → Bool
  unfolding header_at
  is_idr_at i = not (header_at i == 0) && byte_at frame (header_at i) % 32 == 5

  -- The rounds from `i` on; `rounds` are left.
  unfoldable pub idr_loop : ℕ → ℕ → Bool
  idr_loop zero i = false
  idr_loop (suc rounds) i = let rest = idr_loop rounds (i + 1) in if is_idr_at i then true else rest

  unfoldable pub contains_h264_idr : Bool
  unfolding idr_loop is_idr_at
  contains_h264_idr = idr_loop (length frame - 4) 0

  -- A start code of three bytes, and the header of an IDR slice (type 5) behind it.
  pub IsIdr : ℕ → Type 0
  IsIdr i =
      (byte_at frame i ≡ 0)
      × (byte_at frame (i + 1) ≡ 0)
      × (byte_at frame (i + 2) ≡ 1)
      × (byte_at frame (i + 3) % 32 ≡ 5)

  is_idr_at-IsIdr : (i : ℕ) → IsIdr i → is_idr_at i ≡ true
  unfolding is_idr_at header_at IsIdr
  is_idr_at-IsIdr i (a, b, c, d) = ground (arith, a, b, c, d)

  IsIdr-is_idr_at :
      (i : ℕ)
      → i + 4 < length frame
      → is_idr_at i ≡ true
      → IsIdr i ⊎ (IsIdr (i + 1) × (i + 5 < length frame))
  unfolding is_idr_at header_at IsIdr
  IsIdr-is_idr_at i below found =
      let one : i + 1 + 1 ≡ i + 2 = omega arith in
      let two : i + 1 + 2 ≡ i + 3 = omega arith in
      let three : i + 1 + 3 ≡ i + 4 = omega arith in rw (one, two, three) (ground (arith, found))

  later : (i j : ℕ) → i ≤ j → is_idr_at j ≡ true → is_idr_at i ≡ false → i + 1 ≤ j
  later i j low found further = elim (below_or_same i j low) [
    | inl below ↦ omega (arith, below)
    | inr same ↦ absurd (false≢true (sym further ∙ ap is_idr_at same ∙ found))
  ]

  idr_loop_finds :
      (rounds i j : ℕ) → i ≤ j → j < i + rounds → is_idr_at j ≡ true → idr_loop rounds i ≡ true
  unfolding idr_loop
  idr_loop_finds zero i j low high found = absurd (omega arith)
  idr_loop_finds (suc rounds) i j low high found = elim (Bool-cases (is_idr_at i)) [
    | inl here ↦ rw here refl
    | inr further ↦
        rw further
          (idr_loop_finds rounds (i + 1) j (later i j low found further) (omega arith) found)
  ]

  idr_loop_found :
      (rounds i : ℕ) → idr_loop rounds i ≡ true → (j : ℕ) × (j < i + rounds) × (is_idr_at j ≡ true)
  unfolding idr_loop
  idr_loop_found zero i found = absurd (false≢true found)
  idr_loop_found (suc rounds) i found = elim (Bool-cases (is_idr_at i)) [
    | inl here ↦ (i, omega arith, here)
    | inr further ↦
        let (j, below, there) =
          idr_loop_found rounds (i + 1)
            (past (is_idr_at i) (idr_loop rounds (i + 1)) further found) in
        (j, omega (arith, below), there)
  ]

  -- The search for an IDR slice finds one just when the bytes 0, 0, 1 stand somewhere with a byte
  -- of type 5 behind them and a further byte behind that: start codes of four bytes add nothing.
  pub contains_h264_idr-IsIdr :
      (contains_h264_idr ≡ true) ↔ ((i : ℕ) × (i + 4 < length frame) × IsIdr i)
  unfolding contains_h264_idr
  contains_h264_idr-IsIdr = (
    λ found.
        let (j, below, there) = idr_loop_found (length frame - 4) 0 found in
        elim (IsIdr-is_idr_at j (omega (arith, below)) there) [
          | inl here ↦ (j, omega (arith, below), here)
          | inr (next, within) ↦ (j + 1, omega (arith, within), next)
        ],
    λ (i, below, start).
        idr_loop_finds (length frame - 4) 0 i (omega arith) (omega (arith, below))
          (is_idr_at-IsIdr i start),
  )
