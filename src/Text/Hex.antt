-- ===== src/Text/Hex.antt =====
-- The round trip of the hexadecimal text.
use web_rtc_weak_network_vid.Common.{
  ℕ, ◌*◌, ◌/◌, ◌%◌, ◌<◌, ◌≡◌, refl, ap₂, bit_or, List, [], ◌∷◌, All, arith,
}
use web_rtc_weak_network_vid.Common.Words.{IsByte, bit_or_nibbles}
use web_rtc_weak_network_vid.Text.{hex_digit, hex_value, hex_encode, hex_decode}

hex_value-hex_digit : (digit : ℕ) → digit < 16 → hex_value (hex_digit digit) ≡ digit
hex_value-hex_digit digit h = ground arith

hex_pair :
    (c : ℕ)
    → IsByte c
    → bit_or (hex_value (hex_digit (c / 16)) * 16) (hex_value (hex_digit (c % 16))) ≡ c
hex_pair c h =
    rw
      (
        hex_value-hex_digit (c / 16) (omega arith),
        hex_value-hex_digit (c % 16) (omega arith),
        bit_or_nibbles (c / 16) (c % 16) (omega arith) (omega arith),
      )
      (omega arith)

-- A text of bytes that is encoded as hexadecimal digits and decoded is the text it was.
pub hex_decode-hex_encode :
    (bytes : List ℕ) → All IsByte bytes → hex_decode (hex_encode bytes) ≡ bytes
unfolding hex_decode hex_encode
hex_decode-hex_encode [] h = refl
hex_decode-hex_encode (c ∷ bytes) h =
    ap₂ (λ x xs. x ∷ xs) (hex_pair c h.0) (hex_decode-hex_encode bytes h.1)
