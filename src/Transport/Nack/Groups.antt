-- ===== src/Transport/Nack/Groups.antt =====
-- The sequence numbers that the NACK of a frame asks for.
use web_rtc_weak_network_vid.Common.{
  ℕ, zero, suc, ◌+◌, ◌-◌, ◌/◌, ◌%◌, ◌^◌, ◌≤◌, ◌<◌, ◌≡◌, refl, sym, ap, ◌∙◌, inl, inr, none, some,
  List, [], ◌∷◌, ◌++◌, append_assoc, append-nil, arith, ◌==◌, ltb, if◌then◌else◌, length, get_elem?,
  drop, Bool-cases,
}
use mathlib.Core.List.{reverse, reverse-cons, map}
use native.Mathlib.Nat.{two-pow-succ, pow-le-pow_right}
use web_rtc_weak_network_vid.Common.Words.{IsU16, add16, sub16, bit_or_top}
use web_rtc_weak_network_vid.Rtc.{MessagePtr}
use web_rtc_weak_network_vid.Transport.State.{FrameAssembly}
use web_rtc_weak_network_vid.Transport.Nack.{
  Group, missing_loop, group_step, group_loop, nack_groups,
}

-- RFC 4585: a group asks for `pid`, and for `pid + i + 1` where bit `i` of its mask is set.
unfoldable pub requested_bits : ℕ → ℕ → ℕ → ℕ → List ℕ
requested_bits zero offset pid mask = []
requested_bits (suc bits) offset pid mask =
    let rest = requested_bits bits (offset + 1) pid (mask / 2) in
    if mask % 2 == 1 then add16 pid offset ∷ rest else rest

abbrev pub requested : Group → List ℕ
requested (pid, blp) = pid ∷ requested_bits 16 1 pid blp

abbrev pub all_requested : List Group → List ℕ
all_requested [] = []
all_requested (group ∷ groups) = requested group ++ all_requested groups

requested_bits_zero : (bits offset pid : ℕ) → requested_bits bits offset pid 0 ≡ []
unfolding requested_bits
requested_bits_zero zero offset pid = refl
requested_bits_zero (suc bits) offset pid = requested_bits_zero bits (offset + 1) pid

-- One more bit, above those that are set, asks for one more packet.
requested_bits_top :
    (k bits offset pid mask : ℕ)
    → k < bits
    → mask < 2 ^ k
    → requested_bits bits offset pid (mask + 2 ^ k)
      ≡ requested_bits bits offset pid mask ++ (add16 pid (offset + k) ∷ [])
unfolding requested_bits
requested_bits_top k zero offset pid mask h l = absurd (omega arith)
requested_bits_top zero (suc bits) offset pid mask h l =
    let none_set : mask ≡ 0 = omega arith in
    let same : offset + 0 ≡ offset = omega arith in
    rw (none_set, requested_bits_zero bits (offset + 1) pid, same)
requested_bits_top (suc k) (suc bits) offset pid mask h l =
    let double : 2 ^ suc k ≡ 2 ^ k + 2 ^ k = two-pow-succ k in
    let low : (mask + 2 ^ suc k) % 2 ≡ mask % 2 = omega (arith, double) in
    let high : (mask + 2 ^ suc k) / 2 ≡ mask / 2 + 2 ^ k = omega (arith, double) in
    let same : offset + suc k ≡ offset + 1 + k = omega arith in
    rw
      (
        low,
        high,
        same,
        requested_bits_top k bits (offset + 1) pid (mask / 2) (omega arith) (omega (arith, double)),
      )
      (ground arith)

-- What the groups ask for that were collected so far, the newest group first.
abbrev so_far : List Group → List ℕ
so_far groups = all_requested (reverse groups)

all_requested-append :
    (xs ys : List Group) → all_requested (xs ++ ys) ≡ all_requested xs ++ all_requested ys
all_requested-append [] ys = refl
all_requested-append (x ∷ xs) ys =
    ap (◌++◌ (requested x)) (all_requested-append xs ys)
    ∙ sym (append_assoc (requested x) (all_requested xs) (all_requested ys))

so_far-cons : (g : Group) (gs : List Group) → so_far (g ∷ gs) ≡ so_far gs ++ requested g
so_far-cons g gs =
    ap all_requested (reverse-cons g gs)
    ∙ all_requested-append (reverse gs) (g ∷ [])
    ∙ ap (◌++◌ (so_far gs)) (append-nil (requested g))

-- Offsets that rise strictly, from behind `last` on, below 2 ^ 16.
abbrev Rising : ℕ → List ℕ → Type 0
Rising last [] = Unit {0}
Rising last (i ∷ offsets) = (last < i) × (i < 65536) × Rising i offsets

abbrev RisingFrom : List ℕ → Type 0
RisingFrom [] = Unit {0}
RisingFrom (i ∷ offsets) = (i < 65536) × Rising i offsets

module _ (first : ℕ) where
  -- The newest group began at offset `start`, and its mask has no bit for an offset behind `last`.
  abbrev Head : ℕ → List Group → Type 0
  Head last [] = ⊥
  Head last ((pid, blp) ∷ groups) =
      (start : ℕ) × (pid ≡ add16 first start)
      × (start ≤ last)
      × (last - start ≤ 16)
      × (blp < 2 ^ (last - start))

  group_step_new :
      (last i : ℕ) (groups : List Group)
      → i < 65536
      → Head i ((add16 first i, 0) ∷ groups)
        × (so_far ((add16 first i, 0) ∷ groups) ≡ so_far groups ++ (add16 first i ∷ []))
  group_step_new last i groups h =
      let z : i - i ≡ 0 = omega arith in
      (
        (i, refl, omega arith, omega arith, rw z (omega arith)),
        so_far-cons (add16 first i, 0) groups
            ∙ ap (λ r. so_far groups ++ (add16 first i ∷ r))
                (requested_bits_zero 16 1 (add16 first i)),
      )

  -- A packet behind those that were collected is added to what is asked for.
  group_step_lem :
      (last i : ℕ) (g : Group) (groups : List Group)
      → Head last (g ∷ groups)
      → last < i
      → i < 65536
      → Head i (group_step (g ∷ groups) (add16 first i))
        × (so_far (group_step (g ∷ groups) (add16 first i))
            ≡ so_far (g ∷ groups) ++ (add16 first i ∷ []))
  unfolding group_step
  group_step_lem last i (pid, blp) groups (start, own, le, near, mask) lt small =
      let away : sub16 (add16 first i) pid ≡ i - start = rw own (omega arith) in
      elim (Bool-cases (ltb 16 (i - start))) [
        | inl far ↦ rw (away, far) (group_step_new last i ((pid, blp) ∷ groups) small)
        | inr close ↦
            let d = i - start - 1 in
            let bit : (i - start + 65536 - 1) % 65536 ≡ d = ground arith in
            let below : 2 ^ (last - start) ≤ 2 ^ d = pow-le-pow_right (omega arith) (omega arith) in
            let set = bit_or_top d blp (ground arith) (omega arith) in
            let up : i - start ≡ suc d = ground arith in
            let narrow : suc d ≤ 16 = ground arith in
            let width : 2 ^ suc d ≤ 2 ^ 16 =
              pow-le-pow_right {n = 2} (omega arith) {j = 16} narrow in
            let top : 2 ^ (i - start) ≡ 2 ^ suc d = ap (λ (t : ℕ). 2 ^ t) up in
            let wrap : (blp + 2 ^ d) % 65536 ≡ blp + 2 ^ d = omega (arith, two-pow-succ d) in
            let next : add16 pid (1 + d) ≡ add16 first i = rw own (omega arith) in
            rw (away, close, bit, set, wrap)
              (
                (start, own, omega arith, ground arith, omega (arith, two-pow-succ d)),
                so_far-cons (pid, blp + 2 ^ d) groups
                    ∙ ap (λ r. so_far groups ++ (pid ∷ r))
                        (requested_bits_top d 16 1 pid blp (ground arith) (omega arith))
                    ∙ rw (next, so_far-cons (pid, blp) groups)
                        (sym (
                          append_assoc (so_far groups) (requested (pid, blp))
                            (add16 first i ∷ []))),
              )
      ]

  group_loop_lem :
      (last : ℕ) (groups : List Group) (offsets : List ℕ)
      → Head last groups
      → Rising last offsets
      → so_far (group_loop groups (map (add16 first) offsets))
        ≡ so_far groups ++ map (add16 first) offsets
  unfolding group_loop
  group_loop_lem last groups [] h r = sym (append-nil (so_far groups))
  group_loop_lem last [] (i ∷ offsets) h r = absurd h
  group_loop_lem last (g ∷ groups) (i ∷ offsets) h (lt, small, r) =
      let (h', e) = group_step_lem last i g groups h lt small in
      group_loop_lem i (group_step (g ∷ groups) (add16 first i)) offsets h' r
      ∙ ap (λ s. s ++ map (add16 first) offsets) e
      ∙ append_assoc (so_far (g ∷ groups)) (add16 first i ∷ []) (map (add16 first) offsets)

  -- A whole list of rising offsets.
  group_loop_all :
      (offsets : List ℕ)
      → RisingFrom offsets
      → so_far (group_loop [] (map (add16 first) offsets)) ≡ map (add16 first) offsets
  group_loop_all [] r = unfold group_loop in refl
  group_loop_all (i ∷ offsets) (small, r) =
      let (h, e) = group_step_new 0 i [] small in
      unfold group_loop group_step in
      (group_loop_lem i ((add16 first i, 0) ∷ []) offsets h r
        ∙ ap (λ s. s ++ map (add16 first) offsets) e)

-- The slots, from `i` on, that are empty.
abbrev pub empty_slots : ℕ → List MessagePtr → List ℕ
empty_slots i [] = []
empty_slots i (none ∷ packets) = i ∷ empty_slots (i + 1) packets
empty_slots i (some message ∷ packets) = empty_slots (i + 1) packets

empty_slots-Rising :
    (last i : ℕ) (packets : List MessagePtr)
    → last < i
    → i + length packets ≤ 65536
    → Rising last (empty_slots i packets)
empty_slots-Rising last i [] h l = tt
empty_slots-Rising last i (none ∷ packets) h l =
    (h, omega arith, empty_slots-Rising i (i + 1) packets (omega arith) (omega arith))
empty_slots-Rising last i (some message ∷ packets) h l =
    empty_slots-Rising last (i + 1) packets (omega arith) (omega arith)

empty_slots-RisingFrom :
    (i : ℕ) (packets : List MessagePtr)
    → i + length packets ≤ 65536
    → RisingFrom (empty_slots i packets)
empty_slots-RisingFrom i [] l = tt
empty_slots-RisingFrom i (none ∷ packets) l =
    (omega arith, empty_slots-Rising i (i + 1) packets (omega arith) (omega arith))
empty_slots-RisingFrom i (some message ∷ packets) l =
    empty_slots-RisingFrom (i + 1) packets (omega arith)

-- Counting the slots by index meets the empty ones.
get_elem?-drop :
    {A : Type 0} (i : ℕ) (xs : List A) (x : A) (rest : List A)
    → drop i xs ≡ x ∷ rest
    → (get_elem? xs i ≡ some x) × (drop (i + 1) xs ≡ rest)
get_elem?-drop zero [] x rest e = cc
get_elem?-drop (suc i) [] x rest e = cc
get_elem?-drop zero (y ∷ xs) x rest e = (ground arith, ground arith)
get_elem?-drop (suc i) (y ∷ xs) x rest e =
    let up : suc i + 1 ≡ suc (i + 1) = omega arith in
    let (a, b) = get_elem?-drop i xs x rest e in (a, rw up b)

missing_loop_lem :
    (rounds i : ℕ) (frame : FrameAssembly) (rest : List MessagePtr)
    → drop i frame.packets ≡ rest
    → length rest ≡ rounds
    → missing_loop rounds i frame ≡ some (map (add16 frame.first_sequence) (empty_slots i rest))
unfolding missing_loop
missing_loop_lem zero i frame [] e n = refl
missing_loop_lem (suc rounds) i frame [] e n = absurd (omega arith)
missing_loop_lem zero i frame (x ∷ rest) e n = absurd (omega arith)
missing_loop_lem (suc rounds) i frame (none ∷ rest) e n =
    let (a, b) = get_elem?-drop i frame.packets none rest e in
    ground (arith, a, missing_loop_lem rounds (i + 1) frame rest b)
missing_loop_lem (suc rounds) i frame (some message ∷ rest) e n =
    let (a, b) = get_elem?-drop i frame.packets (some message) rest e in
    ground (arith, a, missing_loop_lem rounds (i + 1) frame rest b)

pub nack_groups-missing :
    (frame : FrameAssembly)
    → length frame.packets ≡ frame.packet_count
    → (groups : List Group) × (nack_groups frame ≡ some groups)
unfolding nack_groups
nack_groups-missing frame n = (
  reverse (group_loop [] (map (add16 frame.first_sequence) (empty_slots 0 frame.packets))),
  rw (missing_loop_lem frame.packet_count 0 frame frame.packets refl n, nack_groups),
)

-- If a frame has one slot for each of its packets, and they are fewer than 65536, then `send_nack`
-- reads no slot out of range, and the sequence numbers that its groups ask for are those of the
-- empty slots, each once and in their order.
pub nack_groups_lem :
    (frame : FrameAssembly)
    → length frame.packets ≡ frame.packet_count
    → IsU16 frame.packet_count
    → (groups : List Group) × (nack_groups frame ≡ some groups)
      × (all_requested groups ≡ map (add16 frame.first_sequence) (empty_slots 0 frame.packets))
unfolding nack_groups
nack_groups_lem frame n small =
    let offsets = empty_slots 0 frame.packets in
    (
      reverse (group_loop [] (map (add16 frame.first_sequence) offsets)),
      rw (missing_loop_lem frame.packet_count 0 frame frame.packets refl n, nack_groups),
      group_loop_all frame.first_sequence offsets
          (empty_slots-RisingFrom 0 frame.packets (omega arith)),
    )
