-- ===== src/Codec/Utf8.antt =====
-- `core::str::from_utf8`, as far as codec.rs uses it: whether bytes are UTF-8, and if not, how many
-- of them were valid. The automaton walks the well-formed sequences of the Unicode standard.
use sans_effort.Shared.{
  ℕ, ◌+◌, ◌≡◌, refl, Bool, ◌&&◌, Option, none, some, List, [], ◌∷◌, ltb, leb, if◌then◌else◌,
}

-- `start` is between two characters. `more n` wants n + 1 continuation bytes; the others want a
-- second byte from a narrower range first, and then what is named.
pub data Utf8State : Type 0 where
  start : Utf8State
  more_one more_two more_three : Utf8State
  after_e0 after_ed after_f0 after_f4 : Utf8State

abbrev within : ℕ → ℕ → ℕ → Bool
within lo hi b = leb lo b && leb b hi

first_byte : ℕ → Option Utf8State
first_byte b =
    if ltb b 0x80
    then some start
    else if within 0xc2 0xdf b
    then some more_one
    else if within 0xe0 0xe0 b
    then some after_e0
    else if within 0xed 0xed b
    then some after_ed
    else if within 0xe1 0xef b
    then some more_two
    else if within 0xf0 0xf0 b
    then some after_f0
    else if within 0xf4 0xf4 b
    then some after_f4
    else if within 0xf1 0xf3 b
    then some more_three
    else none

abbrev next_byte : ℕ → ℕ → Utf8State → ℕ → Option Utf8State
next_byte lo hi s b = if within lo hi b then some s else none

utf8_step : Utf8State → ℕ → Option Utf8State
unfolding first_byte
utf8_step start b = first_byte b
utf8_step more_one b = next_byte 0x80 0xbf start b
utf8_step more_two b = next_byte 0x80 0xbf more_one b
utf8_step more_three b = next_byte 0x80 0xbf more_two b
utf8_step after_e0 b = next_byte 0xa0 0xbf more_one b
utf8_step after_ed b = next_byte 0x80 0x9f more_one b
utf8_step after_f0 b = next_byte 0x90 0xbf more_two b
utf8_step after_f4 b = next_byte 0x80 0x8f more_two b

-- Where the last character that is complete ends, given where the one being read began.
boundary : Utf8State → ℕ → ℕ → ℕ
boundary start began at = at
boundary _ began at = began

-- `Err`'s `valid_up_to`, or `none` if all the bytes are UTF-8.
utf8_scan : Utf8State → ℕ → ℕ → List ℕ → Option ℕ
utf8_scan start began at [] = none
utf8_scan _ began at [] = some began
utf8_scan s began at (b ∷ bs) = elim (utf8_step s b) [
  | none ↦ some began
  | some s' ↦ utf8_scan s' (boundary s' began (at + 1)) (at + 1) bs
]

unfoldable pub invalid_from : List ℕ → Option ℕ
unfolding utf8_step boundary utf8_scan
invalid_from bs = utf8_scan start 0 0 bs

abbrev pub IsUtf8 : List ℕ → Type 0
IsUtf8 bs = invalid_from bs ≡ none

-- "é€" and a truncated "€".
two_characters : invalid_from (0xc3 ∷ 0xa9 ∷ 0xe2 ∷ 0x82 ∷ 0xac ∷ []) ≡ none
unfolding invalid_from
two_characters = refl

truncated_character : invalid_from (b'a' ∷ 0xe2 ∷ 0x82 ∷ []) ≡ some 1
unfolding invalid_from
truncated_character = refl

surrogate : invalid_from (b'a' ∷ b'b' ∷ 0xed ∷ 0xa0 ∷ 0x80 ∷ []) ≡ some 2
unfolding invalid_from
surrogate = refl
