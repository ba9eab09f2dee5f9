-- ===== src/Transport/Gate/Gathering.antt =====
-- The packets of one frame, taken in one by one in any order, and twice or more.
pub mod Steps
use web_rtc_weak_network_vid.Common.{
  ℕ, zero, suc, ◌+◌, ◌<◌, ◌≡◌, ◌∙◌, refl, sym, ap, Bool, true, false, ◌||◌, none, some, List, [],
  ◌∷◌, arith, ◌==◌, if◌then◌else◌, length, replicate, get_elem?, set,
}
use web_rtc_weak_network_vid.Rtc.{MessagePtr}

-- Is the number in the list?
abbrev pub occurs : ℕ → List ℕ → Bool
occurs i [] = false
occurs i (j ∷ js) = i == j || occurs i js

-- The slots of a frame of which the packets with the numbers in `got` are there; `i` is the number of
-- the first.
unfoldable pub mask : List ℕ → ℕ → List MessagePtr → List MessagePtr
mask got i [] = []
mask got i (packet ∷ packets) = (if occurs i got then packet else none) ∷ mask got (i + 1) packets

mask_beyond :
    (got : List ℕ) (j i : ℕ) (packets : List MessagePtr)
    → j < i
    → mask (j ∷ got) i packets ≡ mask got i packets
unfolding mask
mask_beyond got j i [] below = refl
mask_beyond got j i (packet ∷ packets) below =
    let other : (i == j) ≡ false = ground arith in
    rw (other, mask_beyond got j (i + 1) packets (omega arith)) refl

pub set-mask :
    (got : List ℕ) (i j : ℕ) (packets : List MessagePtr) (packet : MessagePtr)
    → get_elem? packets j ≡ some packet
    → set (mask got i packets) j packet ≡ mask ((i + j) ∷ got) i packets
unfolding mask
set-mask got i j [] packet e = refl
set-mask got i zero (first ∷ packets) packet e =
    let same : (i == (i + 0)) ≡ true = ground arith in
    rw (same, mask_beyond got (i + 0) (i + 1) packets (omega arith))
      (ap (λ (p : MessagePtr). p ∷ mask got (i + 1) packets) (ground (arith, e)))
set-mask got i (suc j) (first ∷ packets) packet e =
    let other : (i == (i + suc j)) ≡ false = ground arith in
    let next : i + suc j ≡ i + 1 + j = omega arith in
    rw other (
      ap (λ rest. (if occurs i got then first else none) ∷ rest)
        (set-mask got (i + 1) j packets packet e
          ∙ ap (λ (k : ℕ). mask (k ∷ got) (i + 1) packets) (sym next)))

pub mask_slot :
    (got : List ℕ) (i j : ℕ) (packets : List MessagePtr) (packet : MessagePtr)
    → get_elem? packets j ≡ some packet
    → get_elem? (mask got i packets) j ≡ some (if occurs (i + j) got then packet else none)
unfolding mask
mask_slot got i j [] packet e = ground (arith, e)
mask_slot got i zero (first ∷ packets) packet e =
    let z : i + 0 ≡ i = omega arith in rw z (ground (arith, e))
mask_slot got i (suc j) (first ∷ packets) packet e =
    let next : i + suc j ≡ i + 1 + j = omega arith in
    rw next (mask_slot got (i + 1) j packets packet e)

pub length-mask :
    (got : List ℕ) (i : ℕ) (packets : List MessagePtr)
    → length (mask got i packets) ≡ length packets
unfolding mask
length-mask got i [] = refl
length-mask got i (packet ∷ packets) = ap suc (length-mask got (i + 1) packets)

pub mask-none :
    (i : ℕ) (packets : List MessagePtr) → mask [] i packets ≡ replicate (length packets) none
unfolding mask
mask-none i [] = refl
mask-none i (packet ∷ packets) = ap (◌∷◌ none) (mask-none (i + 1) packets)

pub mask_all :
    (got : List ℕ) (i : ℕ) (packets : List MessagePtr)
    → ((j : ℕ) → j < length packets → occurs (i + j) got ≡ true)
    → mask got i packets ≡ packets
unfolding mask
mask_all got i [] covered = refl
mask_all got i (packet ∷ packets) covered =
    let z : i + 0 ≡ i = omega arith in
    let here : occurs i got ≡ true = rw z at (covered 0 (omega arith)) in
    rw here (
      ap (◌∷◌ packet) (
        mask_all got (i + 1) packets (λ j below.
          let next : i + 1 + j ≡ i + suc j = omega arith in
          rw next (covered (suc j) (omega arith)))))

pub set_self :
    (packets : List MessagePtr) (j : ℕ) (packet : MessagePtr)
    → get_elem? packets j ≡ some packet
    → set packets j packet ≡ packets
set_self [] j packet e = refl
set_self (first ∷ packets) zero packet e = ap (λ (p : MessagePtr). p ∷ packets) (ground (arith, e))
set_self (first ∷ packets) (suc j) packet e = ap (◌∷◌ first) (set_self packets j packet e)
