-- ===== src/Extension/Scan.antt =====
-- The loops over the body of a one-byte extension. `offset += n` is a count of bytes to pass over:
-- `skip` of them are still ahead, so the loops recur on the bytes that are left.
use web_rtc_weak_network_vid.Common.{
  ℕ, zero, suc, ◌+◌, ◌-◌, ◌/◌, ◌%◌, ◌≤◌, ◌<◌, ◌≡◌, ◌⊎◌, inl, inr, refl, ap, ◌∙◌, Bool, true, false,
  ◌&&◌, ◌||◌, Option, none, some, List, [], ◌∷◌, ◌++◌, arith, ◌==◌, if◌then◌else◌, ltb, length,
  take, Bool-cases, length-append, length-take,
}

-- `(descriptor & 0x0f) + 1`
abbrev pub value_size : ℕ → ℕ
value_size descriptor = descriptor % 16 + 1

-- `id == 15 || offset + 1 + value_size > size`, with `rest` behind the descriptor
abbrev pub ends : ℕ → List ℕ → Bool
ends descriptor rest = descriptor / 16 == 15 || ltb (length rest) (value_size descriptor)

-- The end of the last whole element.
unfoldable pub used_loop : ℕ → ℕ → ℕ → List ℕ → ℕ
used_loop skip offset used [] = used
used_loop (suc skip) offset used (b ∷ rest) = used_loop skip (offset + 1) used rest
used_loop zero offset used (b ∷ rest) =
    let padding = used_loop zero (offset + 1) used rest in
    let element = used_loop (value_size b) (offset + 1) (offset + 1 + value_size b) rest in
    if b == 0 then padding else if ends b rest then used else element

-- The value of the first element with this id and size.
unfoldable pub find_loop : ℕ → ℕ → ℕ → List ℕ → Option (List ℕ)
find_loop id size skip [] = none
find_loop id size (suc skip) (b ∷ rest) = find_loop id size skip rest
find_loop id size zero (b ∷ rest) =
    let padding = find_loop id size zero rest in
    let next = find_loop id size (value_size b) rest in
    if b == 0
    then padding
    else if ends b rest
    then none
    else if b / 16 == id && value_size b == size
    then some (take size rest)
    else next

abbrev pub or_else {ℓ} : {A : Type ℓ} → Option A → Option A → Option A
or_else none y = y
or_else (some x) y = some x

pub used_loop_bounds :
    (skip offset used : ℕ) (bs : List ℕ)
    → skip ≤ length bs
    → used ≤ offset + skip
    → (used ≤ used_loop skip offset used bs) × (used_loop skip offset used bs ≤ offset + length bs)
unfolding used_loop
used_loop_bounds skip offset used [] h k = omega arith
used_loop_bounds (suc skip) offset used (b ∷ rest) h k =
    omega (arith, used_loop_bounds skip (offset + 1) used rest)
used_loop_bounds zero offset used (b ∷ rest) h k = ground (
  arith,
  used_loop_bounds zero (offset + 1) used rest,
  used_loop_bounds (value_size b) (offset + 1) (offset + 1 + value_size b) rest,
)

take-take-append :
    {A : Type 0} (m n : ℕ) (xs ys : List A)
    → m ≤ n
    → m ≤ length xs
    → take m (take n xs ++ ys) ≡ take m xs
take-take-append zero n xs ys h k = refl
take-take-append (suc m) zero xs ys h k = absurd (omega arith)
take-take-append (suc m) (suc n) [] ys h k = absurd (omega arith)
take-take-append (suc m) (suc n) (x ∷ xs) ys h k =
    ap (◌∷◌ x) (take-take-append m n xs ys (omega arith) (omega arith))

-- Passing over a part of the list that is as long as the count.
find_loop_skip :
    (id size skip : ℕ) (bs more : List ℕ)
    → skip ≤ length bs
    → find_loop id size skip (take skip bs ++ more) ≡ find_loop id size 0 more
unfolding find_loop
find_loop_skip id size zero bs more h = refl
find_loop_skip id size (suc skip) [] more h = absurd (omega arith)
find_loop_skip id size (suc skip) (b ∷ bs) more h =
    find_loop_skip id size skip bs more (omega arith)

take_from :
    {A : Type 0} (offset end : ℕ) (x : A) (xs : List A)
    → offset < end
    → take (end - offset) (x ∷ xs) ≡ x ∷ take (end - (offset + 1)) xs
take_from offset end x xs h = let e : end - offset ≡ suc (end - (offset + 1)) = omega arith in rw e

-- One step of the search, at padding and at a whole element.
find_loop_padding :
    (id size b : ℕ) (rest : List ℕ)
    → (b == 0) ≡ true
    → find_loop id size 0 (b ∷ rest) ≡ find_loop id size 0 rest
unfolding find_loop
find_loop_padding id size b rest pad = rw pad

find_loop_element :
    (id size b : ℕ) (rest : List ℕ)
    → (b == 0) ≡ false
    → ends b rest ≡ false
    → find_loop id size 0 (b ∷ rest) ≡ (
        if b / 16 == id && value_size b == size
        then some (take size rest)
        else find_loop id size (value_size b) rest)
unfolding find_loop
find_loop_element id size b rest elem whole = rw (elem, whole)

-- What is left of a body from `offset` on when it is cut at the end of its last whole element, and
-- something else is put behind it: the search meets the same elements, and then the rest.
abbrev Cuts : ℕ → ℕ → ℕ → ℕ → ℕ → ℕ → List ℕ → List ℕ → Type 0
Cuts end id size skip offset used bs more =
    ((end ≡ used) × (find_loop id size skip bs ≡ none))
    ⊎ ((offset + skip < end)
        × (find_loop id size skip (take (end - offset) bs ++ more)
            ≡ or_else (find_loop id size skip bs) (find_loop id size 0 more)))

module _ (end id size offset b : ℕ) (rest more : List ℕ) where
  -- The tail of a body that goes on behind `b`.
  abbrev kept : List ℕ
  kept = take (end - (offset + 1)) rest ++ more

  Cuts-skip :
      (skip used : ℕ)
      → Cuts end id size skip (offset + 1) used rest more
      → Cuts end id size (suc skip) offset used (b ∷ rest) more
  unfolding find_loop
  Cuts-skip skip used (inl c) = inl c
  Cuts-skip skip used (inr (lt, f)) =
      inr (omega arith, rw (take_from offset end b rest (omega arith)) f)

  Cuts-padding :
      (used : ℕ)
      → (b == 0) ≡ true
      → Cuts end id size 0 (offset + 1) used rest more
      → Cuts end id size 0 offset used (b ∷ rest) more
  Cuts-padding used pad (inl (e, f)) = inl (e, find_loop_padding id size b rest pad ∙ f)
  Cuts-padding used pad (inr (lt, f)) = inr (
    omega arith,
    rw (take_from offset end b rest (omega arith), find_loop_padding id size b rest pad)
        (find_loop_padding id size b kept pad ∙ f),
  )

  ends-kept :
      value_size b ≤ length rest
      → offset + 1 + value_size b ≤ end
      → ends b rest ≡ false
      → ends b kept ≡ false
  ends-kept h k whole = ground (
    arith,
    length-append (take (end - (offset + 1)) rest) more,
    length-take (end - (offset + 1)) rest,
  )

  ends_size : ends b rest ≡ false → value_size b ≤ length rest
  ends_size whole = ground arith

  Cuts-value :
      Cuts end id size (value_size b) (offset + 1) (offset + 1 + value_size b) rest more
      → value_size b ≤ length rest
      → (offset + 1 + value_size b ≤ end)
        × (find_loop id size (value_size b) kept
            ≡ or_else (find_loop id size (value_size b) rest) (find_loop id size 0 more))
  Cuts-value (inl (e, f)) h =
      let n : end - (offset + 1) ≡ value_size b = omega arith in
      (omega arith, rw (n, f) (find_loop_skip id size (value_size b) rest more h))
  Cuts-value (inr (lt, f)) h = (omega arith, f)

  Cuts-element :
      (used : ℕ)
      → (b == 0) ≡ false
      → ends b rest ≡ false
      → Cuts end id size (value_size b) (offset + 1) (offset + 1 + value_size b) rest more
      → Cuts end id size 0 offset used (b ∷ rest) more
  Cuts-element used elem whole c =
      let size_le = ends_size whole in
      let (k, f) = Cuts-value c size_le in
      inr (
        omega arith,
        rw
            (
              take_from offset end b rest (omega arith),
              find_loop_element id size b rest elem whole,
              find_loop_element id size b kept elem (ends-kept size_le k whole),
              f,
            )
            (ground (arith, take-take-append size (end - (offset + 1)) rest more)),
      )

Cuts-used_loop :
    (id size skip offset used : ℕ) (bs more : List ℕ)
    → skip ≤ length bs
    → used ≤ offset + skip
    → Cuts (used_loop skip offset used bs) id size skip offset used bs more
unfolding used_loop
Cuts-used_loop id size skip offset used [] more h k = inl (refl, unfold find_loop in refl)
Cuts-used_loop id size (suc skip) offset used (b ∷ rest) more h k =
    Cuts-skip _ id size offset b rest more skip used
      (Cuts-used_loop id size skip (offset + 1) used rest more (omega arith) (omega arith))
Cuts-used_loop id size zero offset used (b ∷ rest) more h k = elim (Bool-cases (b == 0)) [
  | inl pad ↦ rw pad (
      Cuts-padding _ id size offset b rest more used pad
        (Cuts-used_loop id size zero (offset + 1) used rest more (omega arith) (omega arith)))
  | inr elem ↦ elim (Bool-cases (ends b rest)) [
    | inl last ↦ rw (elem, last) (inl (refl, unfold find_loop in rw (elem, last)))
    | inr whole ↦
        rw (elem, whole)
          (Cuts-element _ id size offset b rest more used elem whole (
            Cuts-used_loop id size (value_size b) (offset + 1) (offset + 1 + value_size b) rest more
              (ends_size 0 0 0 0 b rest more whole) (omega arith)))
  ]
]

-- The bytes of a body up to the end of its last whole element.
abbrev pub used_part : List ℕ → List ℕ
used_part body = take (used_loop 0 0 0 body) body

-- A search over the used part of a body with `more` behind it finds what the body has, and if that
-- is nothing, what `more` has.
pub find_loop-append :
    (id size : ℕ) (body more : List ℕ)
    → find_loop id size 0 (used_part body ++ more)
      ≡ or_else (find_loop id size 0 body) (find_loop id size 0 more)
find_loop-append id size body more =
    let whole : used_loop 0 0 0 body - 0 ≡ used_loop 0 0 0 body = omega arith in
    elim (Cuts-used_loop id size 0 0 0 body more (omega arith) (omega arith)) [
      | inl (e, f) ↦ rw (e, f)
      | inr (lt, f) ↦ rw whole at f
    ]

-- The used part is no longer than the body.
pub length-used_part : (body : List ℕ) → length (used_part body) ≤ length body
length-used_part body = omega (arith, length-take (used_loop 0 0 0 body) body)
