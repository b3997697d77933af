-- ===== src/Codec/Reader.antt =====
-- codec.rs, `Reader` and `DecodeError`: little-endian records read from the front of a slice. A
-- reading function takes the bytes that are left and returns what is left after it.
use sans_effort.Shared.{
  ℕ, zero, suc, ◌^◌, ◌<◌, ◌≡◌, refl, ap, Bool, true, false, List, [], ◌∷◌, ◌++◌, Option, none, some,
  Result, ok, err, ◌>>=◌, ok_or, ltb, if◌then◌else◌, length, arith,
}
use sans_effort.Codec.Words.{from_le_bytes}
use sans_effort.Codec.Utf8.{invalid_from, IsUtf8}

pub data DecodeError : Type 0 where
  truncated : ℕ → ℕ → DecodeError
  too_long : ℕ → DecodeError
  invalid_utf8 : ℕ → DecodeError
  unknown_tag : ℕ → DecodeError
  trailing_bytes : ℕ → DecodeError

abbrev pub Reader : Type 0 → Type 0
Reader A = List ℕ → Result (A × List ℕ) DecodeError

-- The values of a 64-bit `usize`.
abbrev usize_mod : ℕ
usize_mod = 2 ^ 64

module _ {A : Type 0} where
  with_head : A → Option (List A × List A) → Option (List A × List A)
  with_head x none = none
  with_head x (some (head, tail)) = some (x ∷ head, tail)

  -- `split_at_checked`.
  pub split_at : ℕ → List A → Option (List A × List A)
  unfolding with_head
  split_at zero xs = some ([], xs)
  split_at (suc n) [] = none
  split_at (suc n) (x ∷ xs) = with_head x (split_at n xs)

unfoldable pub take : ℕ → Reader (List ℕ)
unfolding split_at
take n bytes = ok_or (split_at n bytes) (truncated n (length bytes))

unfoldable pub word : ℕ → Reader ℕ
unfolding take
word width bytes = do (array, left) ← take width bytes; ok (from_le_bytes array, left)

unfoldable pub u8 : Reader ℕ
unfolding word
u8 = word 1

unfoldable pub u32 : Reader ℕ
unfolding word
u32 = word 4

unfoldable pub u64 : Reader ℕ
unfolding word
u64 = word 8

unfoldable pub bytes : Reader (List ℕ)
bytes input = do
  (len, left) ← u32 input
  if ltb len usize_mod then take len left else err (too_long len)

unfoldable pub from_utf8 : List ℕ → Result (List ℕ) DecodeError
from_utf8 payload = elim (invalid_from payload) [
  | none ↦ ok payload
  | some valid_up_to ↦ err (invalid_utf8 valid_up_to)
]

unfoldable pub str : Reader (List ℕ)
str input = do (payload, left) ← bytes input; text ← from_utf8 payload; ok (text, left)

unfoldable pub is_empty : List ℕ → Bool
is_empty [] = true
is_empty (_ ∷ _) = false

unfoldable pub finish : List ℕ → Result (Unit {0}) DecodeError
unfolding is_empty
finish left = if is_empty left then ok tt else err (trailing_bytes (length left))

module _ {A : Type 0} where
  pub split_at-append : (xs ys : List A) → split_at (length xs) (xs ++ ys) ≡ some (xs, ys)
  unfolding split_at
  split_at-append [] ys = refl
  split_at-append (x ∷ xs) ys = rw (split_at-append xs ys, split_at)

  -- What `split_at` returns: the cut, or nothing where the list is too short.
  abbrev pub Cuts : ℕ → List A → Option (List A × List A) → Type 0
  Cuts n xs none = length xs < n
  Cuts n xs (some (head, tail)) = (xs ≡ head ++ tail) × (length head ≡ n)

  with_head-Cuts :
      (n : ℕ) (x : A) (xs : List A) (r : Option (List A × List A))
      → Cuts n xs r
      → Cuts (suc n) (x ∷ xs) (with_head x r)
  unfolding with_head
  with_head-Cuts n x xs none h = omega arith
  with_head-Cuts n x xs (some (head, tail)) (e, h) = (ap (λ ys. x ∷ ys) e, ap suc h)

  pub split_at-Cuts : (n : ℕ) (xs : List A) → Cuts n xs (split_at n xs)
  unfolding split_at
  split_at-Cuts zero xs = (refl, refl)
  split_at-Cuts (suc n) [] = omega arith
  split_at-Cuts (suc n) (x ∷ xs) = with_head-Cuts n x xs (split_at n xs) (split_at-Cuts n xs)

from_le_bytes-one : (b : ℕ) → from_le_bytes (b ∷ []) ≡ b
unfolding from_le_bytes
from_le_bytes-one b = omega arith

pub u8-cons : (b : ℕ) (rest : List ℕ) → u8 (b ∷ rest) ≡ ok (b, rest)
unfolding u8
u8-cons b rest = ap (λ n. ok (n, rest)) (from_le_bytes-one b)

pub u8-nil : u8 [] ≡ err (truncated 1 0)
unfolding u8
u8-nil = refl

pub take-append : (n : ℕ) (bs rest : List ℕ) → length bs ≡ n → take n (bs ++ rest) ≡ ok (bs, rest)
unfolding take
take-append n bs rest h = rw (← h, split_at-append bs rest)

pub from_utf8-valid : (s : List ℕ) → IsUtf8 s → from_utf8 s ≡ ok s
unfolding from_utf8
from_utf8-valid s u = rw (u, from_utf8)
