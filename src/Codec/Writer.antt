-- ===== src/Codec/Writer.antt =====
-- codec.rs, `Writer`: little-endian records appended to a buffer. A writing function takes the
-- buffer and returns the buffer after it, or `none` where the code panics, on a payload of 4 GiB.
use sans_effort.Shared.{
  ℕ, zero, suc, ◌-◌, List, [], ◌∷◌, ◌++◌, Option, none, some, ltb, if◌then◌else◌, length, u32_mod,
  OnSome,
}
use sans_effort.Codec.Words.{to_le_bytes}

-- `none` is a panic.
abbrev pub Write : Type 0
Write = List ℕ → Option (List ℕ)

infixl 5 ◌>>=◌
abbrev pub ◌>>=◌ {ℓ κ} : {A : Type ℓ} {B : Type κ} → Option A → (A → Option B) → Option B
none >>= f = none
some a >>= f = f a

pub OnSome-bind {ℓ κ μ ν} :
    {A : Type ℓ} {B : Type κ} {Q : A → Type μ} (R : B → Type ν) (f : A → Option B) (o : Option A)
    → OnSome Q o
    → ((a : A) → Q a → OnSome R (f a))
    → OnSome R (o >>= f)
OnSome-bind R f none q next = tt
OnSome-bind R f (some a) q next = next a q

-- One record after another.
infixl 6 ◌>>>◌
abbrev pub ◌>>>◌ : Write → Write → Write
(first >>> second) w = first w >>= second

unfoldable pub nothing : Write
nothing w = some w

unfoldable pub u8 : ℕ → Write
u8 v w = some (w ++ v ∷ [])

unfoldable pub u32 : ℕ → Write
u32 v w = some (w ++ to_le_bytes 4 v)

unfoldable pub u64 : ℕ → Write
u64 v w = some (w ++ to_le_bytes 8 v)

-- `u32::try_from(len).expect(…)`.
unfoldable pub expect_u32 : ℕ → Option ℕ
expect_u32 len = if ltb len u32_mod then some len else none

unfoldable pub bytes : List ℕ → Write
unfolding expect_u32 u32
bytes b w = do len ← expect_u32 (length b); w' ← u32 len w; some (w' ++ b)

-- `get_mut(start..start + 4)` and `copy_from_slice`: the four bytes from `start` on are replaced.
unfoldable pub patch : ℕ → List ℕ → List ℕ → List ℕ
patch zero prefix [] = []
patch zero [] w = w
patch zero (p ∷ ps) (b ∷ w) = p ∷ patch zero ps w
patch (suc start) prefix [] = []
patch (suc start) prefix (b ∷ w) = b ∷ patch start prefix w

unfoldable pub nested : Write → Write
unfolding u32 expect_u32 patch
nested write w = do
  w' ← u32 0 w
  w'' ← write w'
  len ← expect_u32 (length w'' - length w - 4)
  some (patch (length w) (to_le_bytes 4 len) w'')

unfoldable pub str : List ℕ → Write
unfolding bytes
str s = bytes s
