-- ===== src/Text.antt =====
-- common/utils.cpp: `split`, `hex_encode`, `hex_decode`, `parse_endpoint`. A string is the list of its
-- bytes.
pub mod Hex
use web_rtc_weak_network_vid.Common.{
  ℕ, zero, suc, ◌+◌, ◌-◌, ◌*◌, ◌/◌, ◌%◌, ◌^◌, bit_or, Bool, true, false, not, ◌&&◌, Option, none,
  some, List, [], ◌∷◌, ◌++◌, ltb, leb, ◌==◌, if◌then◌else◌,
}

pub record Endpoint : Type 0 where
  pub ip : List ℕ
  pub port : ℕ

-- The calls of `std::getline`: `item` is read so far. At the end of the text, an item without a
-- character fails.
unfoldable pub split_loop : ℕ → List ℕ → List ℕ → List (List ℕ)
split_loop delimiter [] [] = []
split_loop delimiter [] (c ∷ item) = (c ∷ item) ∷ []
split_loop delimiter (c ∷ text) item =
    if c == delimiter
    then item ∷ split_loop delimiter text []
    else split_loop delimiter text (item ++ (c ∷ []))

unfoldable pub split : List ℕ → ℕ → List (List ℕ)
unfolding split_loop
split text delimiter = split_loop delimiter text []

-- `kHex[digit]`, of "0123456789abcdef".
abbrev pub hex_digit : ℕ → ℕ
hex_digit digit = if ltb digit 10 then 48 + digit else 87 + digit

unfoldable pub hex_encode : List ℕ → List ℕ
hex_encode [] = []
hex_encode (c ∷ input) = hex_digit (c / 16) ∷ hex_digit (c % 16) ∷ hex_encode input

-- The lambda `value` of `hex_decode`.
abbrev pub hex_value : ℕ → ℕ
hex_value c =
    if leb 48 c && leb c 57
    then c - 48
    else if leb 97 c && leb c 102
    then c - 97 + 10
    else if leb 65 c && leb c 70
    then c - 65 + 10
    else 0

unfoldable pub hex_decode : List ℕ → List ℕ
hex_decode [] = []
hex_decode (c ∷ []) = []
hex_decode (c ∷ d ∷ input) = bit_or (hex_value c * 16) (hex_value d) ∷ hex_decode input

-- What stands before the first `:` and what stands after it.
unfoldable pub split_at_colon : List ℕ → Option (List ℕ × List ℕ)
split_at_colon [] = none
split_at_colon (c ∷ text) = if c == 58 then some ([], text) else elim (split_at_colon text) [
  | none ↦ none
  | some (before, after) ↦ some (c ∷ before, after)
]

-- `stoul` is that of the standard library, and `none` an exception.
unfoldable pub parse_endpoint : (List ℕ → Option ℕ) → List ℕ → Option Endpoint
unfolding split_at_colon
parse_endpoint stoul value = elim (split_at_colon value) [
  | none ↦ none
  | some (ip, digits) ↦ elim (stoul digits) [
    | none ↦ none
    | some port ↦ some (record { ip = ip; port = port % 2 ^ 16 })
  ]
]
