-- ===== src/Common/Maps.antt =====
-- `std::map` with numbers for keys, as a list of entries in the order of iteration.
use Prim.Native.Nat.{ℕ, suc, ◌+◌, ◌≤◌, ◌<◌}
use mathlib.Core.Path.{◌≡◌, refl}
use mathlib.Core.List.{List, [], ◌∷◌}
use mathlib.Core.Option.{Option, none, some}
use native.Mathlib.Omega.{arith}
use web_rtc_weak_network_vid.Common.Tests.{ltb, ◌==◌, if◌then◌else◌}
use web_rtc_weak_network_vid.Common.Lists.{length, All}

abbrev pub NatMap {ℓ} : Type ℓ → Type ℓ
NatMap A = List (ℕ × A)

-- The keys rise strictly, from `lo` on.
abbrev pub Ascending {ℓ} : {A : Type ℓ} → ℕ → NatMap A → Type 0
Ascending lo [] = Unit {0}
Ascending lo ((k, v) ∷ m) = (lo ≤ k) × Ascending (suc k) m

module _ {ℓ} {A : Type ℓ} where
  unfoldable pub find : ℕ → NatMap A → Option A
  find k [] = none
  find k ((j, v) ∷ m) = if k == j then some v else find k m

  -- Insertion, or assignment to an entry that is there.
  unfoldable pub put : ℕ → A → NatMap A → NatMap A
  put k v [] = (k, v) ∷ []
  put k v ((j, w) ∷ m) =
      let rest = put k v m in
      if ltb k j then (k, v) ∷ (j, w) ∷ m else if k == j then (k, v) ∷ m else (j, w) ∷ rest

  unfoldable pub erase : ℕ → NatMap A → NatMap A
  erase k [] = []
  erase k ((j, w) ∷ m) = if k == j then m else (j, w) ∷ erase k m

  pub find-put :
      (k j : ℕ) (v : A) (m : NatMap A) → find j (put k v m) ≡ (if j == k then some v else find j m)
  unfolding find put
  find-put k j v [] = refl
  find-put k j v ((i, w) ∷ m) = ground (arith, find-put k j v m)

  pub find_below : (k lo : ℕ) (m : NatMap A) → Ascending lo m → k < lo → find k m ≡ none
  unfolding find
  find_below k lo [] a h = refl
  find_below k lo ((i, w) ∷ m) a h = ground (arith, find_below k (suc i) m a.1)

  pub find-erase :
      (k j lo : ℕ) (m : NatMap A)
      → Ascending lo m
      → find j (erase k m) ≡ (if j == k then none else find j m)
  unfolding find erase
  find-erase k j lo [] a = ground arith
  find-erase k j lo ((i, w) ∷ m) a =
      ground (arith, find-erase k j (suc i) m a.1, find_below j (suc i) m a.1)

  pub put-Ascending :
      (k lo : ℕ) (v : A) (m : NatMap A) → Ascending lo m → lo ≤ k → Ascending lo (put k v m)
  unfolding put
  put-Ascending k lo v [] a h = (h, tt)
  put-Ascending k lo v ((j, w) ∷ m) a h = ground (arith, put-Ascending k (suc j) v m a.1)

  pub Ascending-mono : (m : NatMap A) {lo hi : ℕ} → lo ≤ hi → Ascending hi m → Ascending lo m
  Ascending-mono [] h a = tt
  Ascending-mono ((j, w) ∷ m) h a = (omega arith, a.1)

  pub erase-Ascending : (k lo : ℕ) (m : NatMap A) → Ascending lo m → Ascending lo (erase k m)
  unfolding erase
  erase-Ascending k lo [] a = tt
  erase-Ascending k lo ((j, w) ∷ m) a =
      ground (arith, erase-Ascending k (suc j) m a.1, Ascending-mono m {lo = lo} {hi = suc j})

  -- A map that lost its first entry.
  pub tail-Ascending :
      (lo k : ℕ) (v : A) (m : NatMap A) → Ascending lo ((k, v) ∷ m) → Ascending lo m
  tail-Ascending lo k v m a = Ascending-mono m (omega arith) a.1

  pub length-put-le : (k : ℕ) (v : A) (m : NatMap A) → length (put k v m) ≤ length m + 1
  unfolding put
  length-put-le k v [] = omega arith
  length-put-le k v ((j, w) ∷ m) = ground (arith, length-put-le k v m)

  pub length-put_there :
      (k lo : ℕ) (v w : A) (m : NatMap A)
      → Ascending lo m
      → find k m ≡ some w
      → length (put k v m) ≡ length m
  unfolding put find
  length-put_there k lo v w [] a e = absurd (ground arith)
  length-put_there k lo v w ((j, u) ∷ m) a e =
      ground (arith, length-put_there k (suc j) v w m a.1, find_below k (suc j) m a.1)

  pub length-erase-le : (k : ℕ) (m : NatMap A) → length (erase k m) ≤ length m
  unfolding erase
  length-erase-le k [] = omega arith
  length-erase-le k ((j, w) ∷ m) = ground (arith, length-erase-le k m)

  pub length-erase-lt :
      (k : ℕ) (m : NatMap A) (v : A) → find k m ≡ some v → length (erase k m) < length m
  unfolding erase find
  length-erase-lt k [] v e = absurd (ground arith)
  length-erase-lt k ((j, w) ∷ m) v e = ground (arith, length-erase-lt k m v)

  module _ {κ} (P : ℕ → A → Type κ) where
    abbrev pub Entries : NatMap A → Type κ
    Entries = All (λ e. P e.0 e.1)

    pub find-Entries : (k : ℕ) (m : NatMap A) (v : A) → Entries m → find k m ≡ some v → P k v
    unfolding find
    find-Entries k [] v h e = absurd (ground arith)
    find-Entries k ((j, w) ∷ m) v h e = ground (arith, find-Entries k m v h.1)

    pub put-Entries : (k : ℕ) (v : A) (m : NatMap A) → P k v → Entries m → Entries (put k v m)
    unfolding put
    put-Entries k v [] p h = (p, tt)
    put-Entries k v ((j, w) ∷ m) p h = ground (arith, put-Entries k v m p h.1)

    pub erase-Entries : (k : ℕ) (m : NatMap A) → Entries m → Entries (erase k m)
    unfolding erase
    erase-Entries k [] h = tt
    erase-Entries k ((j, w) ∷ m) h = ground (arith, erase-Entries k m h.1)
