-- ===== src/Codec/Nested.antt =====
-- sans-effort-core/src/boundary/codec.rs, `Writer::nested`: a record written in place, against
-- `Writer::bytes` of a copy.
use sans_effort.Shared.{
  ℕ, zero, ◌-◌, ◌<◌, ◌≡◌, refl, ap, ◌∙◌, List, [], ◌∷◌, ◌++◌, append_assoc, some, inl, inr, u32_mod,
  length, length-append, ltb, Bool-cases, arith,
}
use sans_effort.Codec.Words.{to_le_bytes, length-to_le_bytes}
use sans_effort.Codec.Writer.{Write, patch, expect_u32}
use sans_effort.Codec.Writer
use sans_effort.Codec.RoundTrip.{Prints, framed, Prints-bytes}

patch-front : (ps qs r : List ℕ) → length ps ≡ length qs → patch zero ps (qs ++ r) ≡ ps ++ r
unfolding patch
patch-front [] [] [] h = refl
patch-front [] [] (x ∷ r) h = refl
patch-front [] (q ∷ qs) r h = absurd (omega arith)
patch-front (p ∷ ps) [] r h = absurd (omega arith)
patch-front (p ∷ ps) (q ∷ qs) r h = ap (λ ys. p ∷ ys) (patch-front ps qs r (omega arith))

patch-append :
    (w ps qs r : List ℕ)
    → length ps ≡ length qs
    → patch (length w) ps (w ++ (qs ++ r)) ≡ w ++ (ps ++ r)
unfolding patch
patch-append [] ps qs r h = patch-front ps qs r h
patch-append (b ∷ w) ps qs r h = ap (λ ys. b ∷ ys) (patch-append w ps qs r h)

written : (w p : List ℕ) → length ((w ++ to_le_bytes 4 0) ++ p) - length w - 4 ≡ length p
written w p = omega (
  arith,
  length-append (w ++ to_le_bytes 4 0) p,
  length-append w (to_le_bytes 4 0),
  length-to_le_bytes 4 0,
)

patched :
    (w p : List ℕ) (len : ℕ)
    → patch (length w) (to_le_bytes 4 len) ((w ++ to_le_bytes 4 0) ++ p)
      ≡ (w ++ to_le_bytes 4 len) ++ p
patched w p len =
    rw (append_assoc w (to_le_bytes 4 0) p, append_assoc w (to_le_bytes 4 len) p)
      (patch-append w (to_le_bytes 4 len) (to_le_bytes 4 0) p
        (omega (arith, length-to_le_bytes 4 len, length-to_le_bytes 4 0)))

-- A nested record is the inner record behind its length: the same bytes that writing the inner
-- record alone and then copying it gives, and a panic exactly where that panics.
pub nested-eq-bytes :
    (write : Write) (p : List ℕ)
    → Prints write p
    → (w : List ℕ) → Writer.nested write w ≡ Writer.bytes p w
unfolding Writer.nested Writer.bytes
nested-eq-bytes write p prints w = elim (Bool-cases (ltb (length p) u32_mod)) [
  | inl fits ↦
      rw (prints (w ++ to_le_bytes 4 0), written w p, fits) (ap some (patched w p (length p)))
  | inr panics ↦ rw (prints (w ++ to_le_bytes 4 0), written w p, panics)
]

pub Prints-nested :
    (write : Write) (p : List ℕ)
    → Prints write p
    → length p < u32_mod
    → Prints (Writer.nested write) (framed p)
Prints-nested write p prints h w = nested-eq-bytes write p prints w ∙ Prints-bytes p h w
