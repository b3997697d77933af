-- ===== src/Codec/Canonical.antt =====
-- sans-effort-core/src/boundary/codec.rs, `Reader`: which bytes its functions accept, and what
-- they leave.
use sans_effort.Shared.{
  ℕ, ◌^◌, ◌<◌, ◌≡◌, refl, sym, ap, ◌∙◌, List, [], ◌∷◌, ◌++◌, append_assoc, none, some, ok, err,
  ◌>>=◌, Option, Result, ok_or, subst, u32_mod, length, All, ltb, lt→ltb, if◌then◌else◌, arith,
}
use sans_effort.Codec.Words.{
  to_le_bytes, from_le_bytes, modulus, to_le_bytes-from_le_bytes, from_le_bytes-lt,
}
use sans_effort.Codec.Reader.{DecodeError, truncated, too_long, split_at, split_at-Cuts, Cuts}
use sans_effort.Codec.Reader
use sans_effort.Codec.RoundTrip.{framed}

-- What `take n` returns: the cut, or `truncated` with the bytes needed and the bytes left.
abbrev pub TakeCuts : ℕ → List ℕ → Result (List ℕ × List ℕ) DecodeError → Type 0
TakeCuts n bytes (ok (head, tail)) = (bytes ≡ head ++ tail) × (length head ≡ n)
TakeCuts n bytes (err e) = (length bytes < n) × (e ≡ truncated n (length bytes))

pub take-TakeCuts : (n : ℕ) (bytes : List ℕ) → TakeCuts n bytes (Reader.take n bytes)
unfolding Reader.take
take-TakeCuts n bytes = go (split_at n bytes) (split_at-Cuts n bytes)
  where
    go :
        (r : Option (List ℕ × List ℕ))
        → Cuts n bytes r
        → TakeCuts n bytes (ok_or r (truncated n (length bytes)))
    go none h = (h, refl)
    go (some (head, tail)) h = h

-- All the bytes of a list are bytes.
abbrev pub AreBytes : List ℕ → Type 0
AreBytes = All (λ b. b < 256)

AreBytes-append : (xs ys : List ℕ) → AreBytes (xs ++ ys) → AreBytes xs × AreBytes ys
AreBytes-append [] ys h = (tt, h)
AreBytes-append (x ∷ xs) ys (hx, hs) = let (hxs, hys) = AreBytes-append xs ys hs in ((hx, hxs), hys)

-- A word that is read is the word that the bytes read are written for; the only error is
-- that there are too few.
abbrev pub WordRead : ℕ → List ℕ → Result (ℕ × List ℕ) DecodeError → Type 0
WordRead width input (ok (v, left)) = (input ≡ to_le_bytes width v ++ left) × (v < modulus width)
WordRead width input (err e) = (length input < width) × (e ≡ truncated width (length input))

word-WordRead :
    (width : ℕ) (input : List ℕ) → AreBytes input → WordRead width input (Reader.word width input)
unfolding Reader.word
word-WordRead width input b = go (Reader.take width input) (take-TakeCuts width input)
  where
    go :
        (r : Result (List ℕ × List ℕ) DecodeError)
        → TakeCuts width input r
        → WordRead width input (r >>= λ (array, left). ok (from_le_bytes array, left))
    go (err e) h = h
    go (ok (array, left)) (e, n) =
        let bs = (AreBytes-append array left (subst AreBytes e b)).0 in
        rw (← n) (
          e ∙ ap (λ ys. ys ++ left) (sym (to_le_bytes-from_le_bytes array bs)),
          from_le_bytes-lt array bs,
        )

u32-WordRead : (input : List ℕ) → AreBytes input → WordRead 4 input (Reader.u32 input)
unfolding Reader.u32
u32-WordRead = word-WordRead 4

-- Framed bytes that are read.
abbrev pub FramedRead : List ℕ → Result (List ℕ × List ℕ) DecodeError → Type 0
FramedRead input (ok (b, left)) = (input ≡ framed b ++ left) × (length b < u32_mod)
FramedRead input (err (truncated needed available)) = available < needed
FramedRead input (err _) = ⊥

-- On an input of bytes, `Reader::bytes` either returns a payload and the rest, and then the input
-- is that payload behind its length as `Writer::bytes` writes it, followed by the rest, with a
-- length below 2 ^ 32; or it fails with `Truncated`, with fewer bytes available than needed. No
-- other error occurs.
pub bytes-FramedRead : (input : List ℕ) → AreBytes input → FramedRead input (Reader.bytes input)
unfolding Reader.bytes modulus
bytes-FramedRead input b = go (Reader.u32 input) (u32-WordRead input b)
  where
    payload :
        (len : ℕ) (left : List ℕ) (r : Result (List ℕ × List ℕ) DecodeError)
        → input ≡ to_le_bytes 4 len ++ left
        → len < u32_mod
        → TakeCuts len left r
        → FramedRead input r
    payload len left (err (truncated needed available)) e h (short, p) = ground arith
    payload len left (err _) e h (short, p) = cc
    payload len left (ok (head, tail)) e h (cut, n) = (
      e
          ∙ ap (λ ys. to_le_bytes 4 len ++ ys) cut
          ∙ rw n (sym (append_assoc (to_le_bytes 4 len) head tail)),
      omega arith,
    )

    go :
        (r : Result (ℕ × List ℕ) DecodeError)
        → WordRead 4 input r
        → FramedRead input (
            r >>= λ (len, left).
            if ltb len (2 ^ 64) then Reader.take len left else err (too_long len))
    go (err (truncated needed available)) h = ground arith
    go (err _) h = cc
    go (ok (len, left)) (e, h) =
        rw (lt→ltb len (2 ^ 64) (omega arith))
          (payload len left (Reader.take len left) e h (take-TakeCuts len left))
