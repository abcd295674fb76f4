-- ===== src/Wire/Bytes.antt =====
-- api-worker/app/mt5_wire.py: what its `struct` formats mean. A byte is a number below 256, and a
-- format is the list of the widths of its fields, least significant byte first.
use mathlib.Core.List.{append_assoc}
use ai_trading_backend.Common.{
  ℕ, zero, suc, ◌+◌, ◌-◌, ◌*◌, ◌/◌, ◌%◌, ◌^◌, ◌<◌, ◌≡◌, refl, List, [], ◌∷◌, ◌++◌, length, take,
  drop, ltb, if◌then◌else◌, arith, length-append, take-append, drop-append, Bool, true,
}
use ai_trading_backend.Common.Integers.{ℤ, pos, negsuc}

unfoldable pub le_bytes : ℕ → ℕ → List ℕ
le_bytes zero n = []
le_bytes (suc w) n = n % 256 ∷ le_bytes w (n / 256)

unfoldable pub from_le : List ℕ → ℕ
from_le [] = 0
from_le (b ∷ bytes) = b + 256 * from_le bytes

pub length-le_bytes : (w n : ℕ) → length (le_bytes w n) ≡ w
unfolding le_bytes
length-le_bytes zero n = refl
length-le_bytes (suc w) n = omega (arith, length-le_bytes w (n / 256))

pub from_le-le_bytes : (w n : ℕ) → n < 256 ^ w → from_le (le_bytes w n) ≡ n
unfolding le_bytes from_le
from_le-le_bytes zero n h = omega (arith, h)
from_le-le_bytes (suc w) n h = omega (arith, from_le-le_bytes w (n / 256) (omega (arith, h)))

-- The format `q`: a signed number's two's complement in 64 bits.
unfoldable pub fits_i64 : ℤ → Bool
fits_i64 (pos n) = ltb n 9223372036854775808
fits_i64 (negsuc n) = ltb n 9223372036854775808

unfoldable pub i64_bits : ℤ → ℕ
i64_bits (pos n) = n
i64_bits (negsuc n) = 18446744073709551615 - n

unfoldable pub i64_of : ℕ → ℤ
i64_of u = if ltb u 9223372036854775808 then pos u else negsuc (18446744073709551615 - u)

pub i64_bits_bound : (n : ℤ) → fits_i64 n ≡ true → i64_bits n < 256 ^ 8
unfolding i64_bits fits_i64
i64_bits_bound (pos n) h = ground arith
i64_bits_bound (negsuc n) h = ground arith

pub i64_of-i64_bits : (n : ℤ) → fits_i64 n ≡ true → i64_of (i64_bits n) ≡ n
unfolding i64_of i64_bits fits_i64
i64_of-i64_bits (pos n) h = rw h refl
i64_of-i64_bits (negsuc n) h = ground (arith, h)

-- The bytes of a format's fields, one after the other.
unfoldable pub concat : List (List ℕ) → List ℕ
concat [] = []
concat (field ∷ fields) = field ++ concat fields

unfoldable pub chunks : List ℕ → List ℕ → List (List ℕ)
chunks [] bytes = []
chunks (w ∷ widths) bytes = take w bytes ∷ chunks widths (drop w bytes)

-- The fields have the widths of the format.
abbrev pub Shaped : List ℕ → List (List ℕ) → Type 0
Shaped [] [] = Unit
Shaped (w ∷ widths) (field ∷ fields) = (length field ≡ w) × Shaped widths fields
Shaped _ _ = ⊥

pub chunks-concat :
    (widths : List ℕ) (fields : List (List ℕ)) (rest : List ℕ)
    → Shaped widths fields
    → chunks widths (concat fields ++ rest) ≡ fields
unfolding chunks concat
chunks-concat [] [] rest h = refl
chunks-concat (w ∷ widths) (field ∷ fields) rest h =
    rw
      (
        ← h.0,
        append_assoc field (concat fields) rest,
        take-append field,
        drop-append field,
        chunks-concat widths fields rest h.1,
      )
      refl
chunks-concat [] (field ∷ fields) rest h = absurd h
chunks-concat (w ∷ widths) [] rest h = absurd h

abbrev pub total : List ℕ → ℕ
total [] = 0
total (w ∷ widths) = w + total widths

pub length-concat :
    (widths : List ℕ) (fields : List (List ℕ))
    → Shaped widths fields
    → length (concat fields) ≡ total widths
unfolding concat
length-concat [] [] h = refl
length-concat (w ∷ widths) (field ∷ fields) h =
    omega (arith, h.0, length-append field (concat fields), length-concat widths fields h.1)
length-concat [] (field ∷ fields) h = absurd h
length-concat (w ∷ widths) [] h = absurd h
