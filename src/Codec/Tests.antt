-- ===== src/Codec/Tests.antt =====
-- Runs of codec.rs, and its theorems at concrete inputs.
use sans_effort.Shared.{ℕ, suc, ◌≡◌, refl, List, [], ◌∷◌, ◌++◌, some, ok, err, length, arith}
use sans_effort.Codec.Utf8
use sans_effort.Codec.Reader.{truncated, unknown_tag, trailing_bytes}
use sans_effort.Codec.Reader
use sans_effort.Codec.Writer.{Write}
use sans_effort.Codec.Writer
use sans_effort.Codec.Words
use sans_effort.Codec.Values.{
  to_bytes, from_bytes, u8_wire, string_wire, u64_wire, option_wire, result_wire, decode_option,
  encode_result,
}
use sans_effort.Codec.RoundTrip.{Prints}
use sans_effort.Codec.Shapes.{Shape, Holds, Fits, wire_of, layout, to_bytes-layout}
use sans_effort.Codec.Nested.{nested-eq-bytes}
use sans_effort.Codec.Canonical.{TakeCuts, FramedRead, take-TakeCuts, bytes-FramedRead}

encoded_ok :
    to_bytes (result_wire string_wire u64_wire) (ok (b'h' ∷ b'i' ∷ []))
    ≡ some (0 ∷ 2 ∷ 0 ∷ 0 ∷ 0 ∷ b'h' ∷ b'i' ∷ [])
unfolding to_bytes encode_result Writer.u8 Writer.str Words.to_le_bytes
encoded_ok = refl

unknown_tag_7 : from_bytes (option_wire u8_wire) (7 ∷ []) ≡ err (unknown_tag 7)
unfolding from_bytes decode_option Reader.u8 Words.from_le_bytes
unknown_tag_7 = refl

-- `Ok("hi")` as a `Result<String, u64>`.
abbrev text_or_number : Shape
text_or_number = Shape.result Shape.string Shape.u64

abbrev greeting : Holds text_or_number
greeting = ok (b'h' ∷ b'i' ∷ [])

greeting-Fits : Fits text_or_number greeting
unfolding Utf8.invalid_from
greeting-Fits = (omega arith, refl)

to_bytes-layout_example :
    (to_bytes (wire_of text_or_number) greeting ≡ some (layout text_or_number greeting))
    × (from_bytes (wire_of text_or_number) (layout text_or_number greeting) ≡ ok greeting)
    × ((extra : ℕ) (more : List ℕ)
        → from_bytes (wire_of text_or_number) (layout text_or_number greeting ++ extra ∷ more)
          ≡ err (trailing_bytes (suc (length more))))
to_bytes-layout_example = to_bytes-layout text_or_number greeting greeting-Fits

two_bytes-Prints : Prints (λ w. some (w ++ 1 ∷ 2 ∷ [])) (1 ∷ 2 ∷ [])
two_bytes-Prints w = refl

nested-eq-bytes_example :
    Writer.nested (λ w. some (w ++ 1 ∷ 2 ∷ [])) (9 ∷ []) ≡ Writer.bytes (1 ∷ 2 ∷ []) (9 ∷ [])
nested-eq-bytes_example =
    nested-eq-bytes (λ w. some (w ++ 1 ∷ 2 ∷ [])) (1 ∷ 2 ∷ []) two_bytes-Prints (9 ∷ [])

take-TakeCuts_example : TakeCuts 2 (1 ∷ []) (Reader.take 2 (1 ∷ []))
take-TakeCuts_example = take-TakeCuts 2 (1 ∷ [])

bytes-FramedRead_example :
    FramedRead (1 ∷ 0 ∷ 0 ∷ 0 ∷ 7 ∷ 8 ∷ []) (Reader.bytes (1 ∷ 0 ∷ 0 ∷ 0 ∷ 7 ∷ 8 ∷ []))
bytes-FramedRead_example = bytes-FramedRead (1 ∷ 0 ∷ 0 ∷ 0 ∷ 7 ∷ 8 ∷ []) (omega arith)
