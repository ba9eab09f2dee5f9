-- ===== src/Quality/Adaptation/Recovery.antt =====
-- Recovery in the adaptation controller: how the levels go down.
use web_rtc_weak_network_vid.Common.{
  ℕ, zero, suc, ◌+◌, ◌*◌, ◌≡◌, ◌≤◌, ◌<◌, refl, Bool, true, false, arith, List, [], ◌∷◌, length, All,
}
use web_rtc_weak_network_vid.Quality.Adaptation.{
  NetworkQuality, Controller, required_level, loss_level, rtt_level, is_good, next_level, update,
  updates, recovery_loss_threshold, loss,
}

module _ {D : Type 0} (lt : D → D → Bool) (num : ℕ → D)
    (between : (a b : ℕ) (x : D) → lt (num a) x ≡ true → lt x (num b) ≡ true → a < b)
    (quality : NetworkQuality D) where
  good_rtt_level : (l : ℕ) → lt quality.rtt_ms (num 150) ≡ true → rtt_level lt num quality l ≡ l
  unfolding rtt_level
  good_rtt_level l r =
      ground (arith, between 350 150 quality.rtt_ms, between 180 150 quality.rtt_ms)

  good_loss_level :
      (l : ℕ)
      → lt (loss lt num quality) (num (recovery_loss_threshold (suc l))) ≡ true
      → loss_level lt num quality ≤ l
  unfolding loss_level
  good_loss_level zero h = ground (
    arith,
    between 60 1 (loss lt num quality),
    between 30 1 (loss lt num quality),
    between 10 1 (loss lt num quality),
    between 3 1 (loss lt num quality),
  )
  good_loss_level (suc zero) h = ground (
    arith,
    between 60 7 (loss lt num quality),
    between 30 7 (loss lt num quality),
    between 10 7 (loss lt num quality),
  )
  good_loss_level (suc (suc zero)) h =
      ground (arith, between 60 25 (loss lt num quality), between 30 25 (loss lt num quality))
  good_loss_level (suc (suc (suc l))) h = ground (arith, between 60 50 (loss lt num quality))

  good_required_level :
      (l : ℕ) → is_good lt num quality (suc l) ≡ true → required_level lt num quality ≤ l
  unfolding required_level is_good
  good_required_level l h = ground (
    arith,
    good_loss_level l,
    good_rtt_level (loss_level lt num quality),
    between 50 40 quality.jitter_ms,
  )

  next_level-required :
      (level windows : ℕ)
      → required_level lt num quality ≤ (next_level lt num quality level windows).0
  unfolding next_level
  next_level-required zero windows = ground arith
  next_level-required (suc l) windows = ground (arith, good_required_level l)

  -- If a double above the literal `a` and below the literal `b` implies that `a` is less than `b`,
  -- then after `update` the level is no lower than the one that the measurements require, from any
  -- controller.
  pub update-required :
      (c : Controller) → required_level lt num quality ≤ (update lt num quality c).level
  unfolding update
  update-required c = next_level-required c.level c.recovery_windows

  module _ (weaken : (a b : ℕ) (x : D) → a ≤ b → lt x (num a) ≡ true → lt x (num b) ≡ true)
      (low_loss : lt (loss lt num quality) (num 1) ≡ true)
      (low_rtt : lt quality.rtt_ms (num 150) ≡ true)
      (low_jitter : lt quality.jitter_ms (num 40) ≡ true) where
    is_good_zero : is_good lt num quality 0 ≡ false
    unfolding is_good
    is_good_zero = refl

    good_at : (l : ℕ) → is_good lt num quality (suc l) ≡ true
    unfolding is_good
    good_at zero = ground arith
    good_at (suc zero) = ground (arith, weaken 1 7 (loss lt num quality))
    good_at (suc (suc zero)) = ground (arith, weaken 1 25 (loss lt num quality))
    good_at (suc (suc (suc l))) = ground (arith, weaken 1 50 (loss lt num quality))

    next_level-good :
        (n level windows : ℕ)
        → windows ≤ 4
        → 5 * level ≤ suc n + windows
        → ((next_level lt num quality level windows).1 ≤ 4)
          × (5 * (next_level lt num quality level windows).0
              ≤ n + (next_level lt num quality level windows).1)
    unfolding next_level
    next_level-good n zero windows h k =
        let z : required_level lt num quality ≡ 0 =
          omega (arith, good_required_level zero (good_at zero)) in
        ground (arith, is_good_zero)
    next_level-good n (suc l) windows h k =
        ground (arith, good_at l, good_required_level zero (good_at zero))

-- A measurement that is good at every level.
abbrev pub IsCalm : {D : Type 0} → (D → D → Bool) → (ℕ → D) → NetworkQuality D → Type 0
IsCalm lt num quality =
    (lt (loss lt num quality) (num 1) ≡ true)
    × (lt quality.rtt_ms (num 150) ≡ true)
    × (lt quality.jitter_ms (num 40) ≡ true)

module _ {D : Type 0} (lt : D → D → Bool) (num : ℕ → D)
    (between : (a b : ℕ) (x : D) → lt (num a) x ≡ true → lt x (num b) ≡ true → a < b)
    (weaken : (a b : ℕ) (x : D) → a ≤ b → lt x (num a) ≡ true → lt x (num b) ≡ true) where
  -- Under the two laws of comparing doubles with literals: if in each of some measurements, which may
  -- differ, the loss is below 1, the round trip below 150 and the jitter below 40, and at most four
  -- good windows are counted, and the measurements and the windows counted are together at least
  -- five times the level, then after an update with each of the measurements the level is 0.
  pub updates-recovers :
      (qualities : List (NetworkQuality D)) (c : Controller)
      → All (IsCalm lt num) qualities
      → c.recovery_windows ≤ 4
      → 5 * c.level ≤ length qualities + c.recovery_windows
      → (updates lt num qualities c).level ≡ 0
  unfolding updates update
  updates-recovers [] c calm h k = omega arith
  updates-recovers (quality ∷ qualities) c calm h k =
      let (low_loss, low_rtt, low_jitter) = calm.0 in
      let next =
        next_level-good lt num between quality weaken low_loss low_rtt low_jitter (length qualities)
          c.level c.recovery_windows h k in
      updates-recovers qualities (update lt num quality c) calm.1 next.0 next.1
