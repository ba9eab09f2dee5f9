-- ===== src/Common/Words.antt =====
-- Bytes and machine words as native numbers, in network byte order, and the bit facts that the
-- packet code relies on. Shifts and low masks are written `/ 2 ^ k` and `% 2 ^ k`.
use Prim.Native.Nat.{ℕ, zero, suc, ◌+◌, ◌-◌, ◌*◌, ◌/◌, ◌%◌, ◌^◌, ◌<◌, bit_or}
use mathlib.Core.Path.{◌≡◌, refl}
use mathlib.Core.Bool.{Bool, true, ◌&&◌}
use mathlib.Core.List.{List, [], ◌∷◌}
use native.Mathlib.Omega.{arith}
use web_rtc_weak_network_vid.Common.Tests.{◌==◌, ==_iff}
use web_rtc_weak_network_vid.Common.Lists.{get_or}

abbrev pub IsByte : ℕ → Type 0
IsByte b = b < 256

abbrev pub IsU16 : ℕ → Type 0
IsU16 n = n < 65536

abbrev pub IsU32 : ℕ → Type 0
IsU32 n = n < 4294967296

-- `static_cast<uint16_t>(a + b)` and `static_cast<uint16_t>(a - b)` on words of 16 bits.
abbrev pub add16 : ℕ → ℕ → ℕ
add16 a b = (a + b) % 65536

abbrev pub sub16 : ℕ → ℕ → ℕ
sub16 a b = (a + 65536 - b) % 65536

-- The two and the four bytes of a word, most significant first (`htons`, `htonl` and a copy).
abbrev pub be16 : ℕ → List ℕ
be16 n = n / 256 % 256 ∷ n % 256 ∷ []

abbrev pub be32 : ℕ → List ℕ
be32 n = n / 16777216 % 256 ∷ n / 65536 % 256 ∷ n / 256 % 256 ∷ n % 256 ∷ []

-- The byte at an index that the code has checked against the size.
abbrev pub byte_at : List ℕ → ℕ → ℕ
byte_at bytes i = get_or bytes i 0

-- Does the test hold of all numbers below the bound? For facts about bits, by evaluation.
every : (ℕ → Bool) → ℕ → Bool
every test zero = true
every test (suc bound) = every test bound && test bound

every-at : (test : ℕ → Bool) (bound x : ℕ) → x < bound → every test bound ≡ true → test x ≡ true
unfolding every
every-at test zero x below holds = absurd (omega arith)
every-at test (suc bound) x below holds = ground (arith, every-at test bound x)

-- `b | 0x10` sets bit 4 of a byte.
pub bit_or-sixteen : (b : ℕ) → IsByte b → bit_or b 16 ≡ b + 16 * (1 - b / 16 % 2)
unfolding every
bit_or-sixteen b byte =
    (==_iff _ _).0 (every-at (λ c. bit_or c 16 == c + 16 * (1 - c / 16 % 2)) 256 b byte refl)

-- A run length of 13 bits below the bit of a status.
pub bit_or_run :
    (status run : ℕ) → status < 2 → run < 8192 → bit_or (status * 8192) run ≡ status * 8192 + run
unfolding every
bit_or_run zero run s below =
    (==_iff _ _).0 (every-at (λ r. bit_or (0 * 8192) r == 0 * 8192 + r) 8192 run below refl)
bit_or_run (suc zero) run s below =
    (==_iff _ _).0 (every-at (λ r. bit_or (1 * 8192) r == 1 * 8192 + r) 8192 run below refl)
bit_or_run (suc (suc status)) run s below = absurd (omega arith)

nibbles_row : (hi : ℕ) → hi < 16 → every (λ l. bit_or (hi * 16) l == hi * 16 + l) 16 ≡ true
unfolding every
nibbles_row hi below =
    every-at (λ d. every (λ l. bit_or (d * 16) l == d * 16 + l) 16) 16 hi below refl

-- Two hexadecimal digits side by side.
pub bit_or_nibbles : (hi lo : ℕ) → hi < 16 → lo < 16 → bit_or (hi * 16) lo ≡ hi * 16 + lo
bit_or_nibbles hi lo high low =
    (==_iff _ _).0
      (every-at (λ l. bit_or (hi * 16) l == hi * 16 + l) 16 lo low (nibbles_row hi high))

-- Setting a bit above all those that are set, in a word of 16 bits.
top_row : (k : ℕ) → k < 16 → every (λ r. bit_or r (2 ^ k) == r + 2 ^ k) (2 ^ k) ≡ true
unfolding every
top_row k below = every-at (λ j. every (λ r. bit_or r (2 ^ j) == r + 2 ^ j) (2 ^ j)) 16 k below refl

pub bit_or_top : (k r : ℕ) → k < 16 → r < 2 ^ k → bit_or r (2 ^ k) ≡ r + 2 ^ k
bit_or_top k r word low =
    (==_iff _ _).0 (every-at (λ q. bit_or q (2 ^ k) == q + 2 ^ k) (2 ^ k) r low (top_row k word))
