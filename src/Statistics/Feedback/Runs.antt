-- ===== src/Statistics/Feedback/Runs.antt =====
-- The runs of packets with one status.
use web_rtc_weak_network_vid.Common.{
  ℕ, zero, suc, ◌+◌, ◌-◌, ◌≡◌, ◌≤◌, ◌<◌, refl, Bool, if◌then◌else◌, arith, inl, inr, Bool-cases,
}
use web_rtc_weak_network_vid.Statistics.Feedback.{status_at, run_loop, run_at}

module _ (received : ℕ → Bool) (base : ℕ) where
  -- How many of the `n` packets from `offset` on were received.
  unfoldable pub arrived : ℕ → ℕ → ℕ
  arrived offset zero = 0
  arrived offset (suc n) =
      arrived offset n + (if status_at received base (offset + n) then 1 else 0)

  pub arrived_bound : (offset n : ℕ) → arrived offset n ≤ n
  unfolding arrived
  arrived_bound offset zero = omega arith
  arrived_bound offset (suc n) = ground (arith, arrived_bound offset n)

  pub arrived_split :
      (offset m n : ℕ) → arrived offset (m + n) ≡ arrived offset m + arrived (offset + m) n
  unfolding arrived
  arrived_split offset m zero = let z : m + 0 ≡ m = omega arith in rw z (omega arith)
  arrived_split offset m (suc n) =
      let s : m + suc n ≡ suc (m + n) = omega arith in
      let t : offset + (m + n) ≡ offset + m + n = omega arith in
      rw (s, t) (omega (arith, arrived_split offset m n))

  -- The run goes on to the first packet with another status.
  run_loop_lem :
      (rounds offset run : ℕ)
      → run ≤ 8191
      → arrived offset run ≡ (if status_at received base offset then run else 0)
      → (run ≤ run_loop received base rounds offset run)
        × (run_loop received base rounds offset run ≤ run + rounds)
        × (run_loop received base rounds offset run ≤ 8191)
        × (arrived offset (run_loop received base rounds offset run) ≡ (
            if status_at received base offset then run_loop received base rounds offset run else 0))
  unfolding run_loop arrived
  run_loop_lem zero offset run h a = (omega arith, omega arith, h, a)
  run_loop_lem (suc rounds) offset run h a = elim (Bool-cases (status_at received base offset)) [
    | inl here ↦ elim (Bool-cases (status_at received base (offset + run))) [
      | inl there ↦ ground (arith, run_loop_lem rounds offset (run + 1))
      | inr there ↦ ground arith
    ]
    | inr here ↦ elim (Bool-cases (status_at received base (offset + run))) [
      | inl there ↦ ground arith
      | inr there ↦ ground (arith, run_loop_lem rounds offset (run + 1))
    ]
  ]

  pub run_at_lem :
      (count offset : ℕ)
      → offset < count
      → (1 ≤ run_at received base count offset)
        × (offset + run_at received base count offset ≤ count)
        × (run_at received base count offset ≤ 8191)
        × (arrived offset (run_at received base count offset)
            ≡ (if status_at received base offset then run_at received base count offset else 0))
  unfolding arrived
  run_at_lem count offset below =
      let z : offset + 0 ≡ offset = omega arith in
      let (least, most, word, same) = run_loop_lem (count - (offset + 1)) offset 1 (omega arith) (
        rw z (elim (Bool-cases (status_at received base offset)) [
          | inl here ↦ rw here refl
          | inr here ↦ rw here refl
        ])) in
      (least, omega (arith, most), word, same)
