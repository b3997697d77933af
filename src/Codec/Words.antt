-- ===== src/Codec/Words.antt =====
-- `to_le_bytes` and `from_le_bytes` of the unsigned words, at any width in bytes.
use sans_effort.Shared.{
  ℕ, zero, suc, ◌+◌, ◌*◌, ◌/◌, ◌%◌, ◌<◌, ◌≡◌, refl, ap, List, [], ◌∷◌, length, All, arith,
}

unfoldable pub to_le_bytes : ℕ → ℕ → List ℕ
to_le_bytes zero v = []
to_le_bytes (suc width) v = (v % 256) ∷ to_le_bytes width (v / 256)

unfoldable pub from_le_bytes : List ℕ → ℕ
from_le_bytes [] = 0
from_le_bytes (b ∷ bs) = b + 256 * from_le_bytes bs

pub length-to_le_bytes : (width v : ℕ) → length (to_le_bytes width v) ≡ width
unfolding to_le_bytes
length-to_le_bytes zero v = refl
length-to_le_bytes (suc width) v = omega (arith, length-to_le_bytes width (v / 256))

-- The number of values of `width` bytes.
unfoldable pub modulus : ℕ → ℕ
modulus zero = 1
modulus (suc width) = 256 * modulus width

pub from_le_bytes-to_le_bytes :
    (width v : ℕ) → v < modulus width → from_le_bytes (to_le_bytes width v) ≡ v
unfolding to_le_bytes from_le_bytes modulus
from_le_bytes-to_le_bytes zero v h = omega arith
from_le_bytes-to_le_bytes (suc width) v h =
    omega (arith, from_le_bytes-to_le_bytes width (v / 256) (omega arith))

pub to_le_bytes-All : (width v : ℕ) → All (λ b. b < 256) (to_le_bytes width v)
unfolding to_le_bytes
to_le_bytes-All zero v = tt
to_le_bytes-All (suc width) v = (omega arith, to_le_bytes-All width (v / 256))

pub from_le_bytes-lt :
    (bs : List ℕ) → All (λ b. b < 256) bs → from_le_bytes bs < modulus (length bs)
unfolding from_le_bytes modulus
from_le_bytes-lt [] h = omega arith
from_le_bytes-lt (b ∷ bs) (h, hs) = omega (arith, from_le_bytes-lt bs hs)

low_byte : (b n : ℕ) → b < 256 → (b + 256 * n) % 256 ≡ b
low_byte b n h = omega arith

high_bytes : (b n : ℕ) → b < 256 → (b + 256 * n) / 256 ≡ n
high_bytes b n h = omega arith

pub to_le_bytes-from_le_bytes :
    (bs : List ℕ) → All (λ b. b < 256) bs → to_le_bytes (length bs) (from_le_bytes bs) ≡ bs
unfolding to_le_bytes from_le_bytes
to_le_bytes-from_le_bytes [] h = refl
to_le_bytes-from_le_bytes (b ∷ bs) (h, hs) =
    rw (low_byte b (from_le_bytes bs) h, high_bytes b (from_le_bytes bs) h)
      (ap (λ rest. b ∷ rest) (to_le_bytes-from_le_bytes bs hs))
