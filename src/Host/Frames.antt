-- ===== src/Host/Frames.antt =====
-- sans-effort-host/src/encoded.rs, `encode`: frames, and a host that reads them.
use sans_effort.Shared.{
  ℕ, zero, suc, ◌≤◌, ◌<◌, ◌≡◌, refl, sym, ap, ◌∙◌, List, [], ◌∷◌, ◌++◌, map, append-nil,
  append_assoc, some, Result, ok, err, ◌>>=◌, if◌then◌else◌, length, length-append, All, u32_mod,
  arith,
}
use sans_effort.Codec.Words.{to_le_bytes, length-to_le_bytes}
use sans_effort.Codec.Reader.{DecodeError, truncated, u8-cons}
use sans_effort.Codec.Reader
use sans_effort.Codec.Writer.{Write, ◌>>>◌}
use sans_effort.Codec.Writer
use sans_effort.Codec.RoundTrip.{Prints, Prints->>>, framed, Reads-bytes}
use sans_effort.Codec.Nested.{Prints-nested}
use sans_effort.Batch.{as_slice}
use sans_effort.Driver.{Yield}
use sans_effort.Host.{frame_tell, frame_ask, frame_closed}
use sans_effort.Host.Machine.{Shown}
use sans_effort.Host.Encoded.{encode, encode_effects, encode_closed}

-- A frame: its kind and its payload.
abbrev pub Frame : Type 0
Frame = ℕ × List ℕ

abbrev pub joined : List Frame → List ℕ
joined [] = []
joined ((kind, payload) ∷ frames) = kind ∷ (framed payload ++ joined frames)

-- A host that reads frame after frame; the number of bytes is fuel enough.
unfoldable pub read_frames : ℕ → List ℕ → Result (List Frame) DecodeError
read_frames fuel [] = ok []
read_frames zero (b ∷ bytes) = err (truncated 1 0)
read_frames (suc fuel) (b ∷ bytes) = do
  (payload, left) ← Reader.bytes bytes
  frames ← read_frames fuel left
  ok ((b, payload) ∷ frames)

abbrev pub Short : List Frame → Type 0
Short = All (λ (_, payload). length payload < u32_mod)

read_frames-joined :
    (frames : List Frame) (fuel : ℕ)
    → Short frames
    → length frames ≤ fuel
    → read_frames fuel (joined frames) ≡ ok frames
unfolding read_frames
read_frames-joined [] zero s h = refl
read_frames-joined [] (suc fuel) s h = refl
read_frames-joined (f ∷ frames) zero s h = absurd (omega arith)
read_frames-joined ((kind, payload) ∷ frames) (suc fuel) (s, ss) h =
    rw (Reads-bytes payload s (joined frames), read_frames-joined frames fuel ss (omega arith)) refl

length-joined : (frames : List Frame) → length frames ≤ length (joined frames)
length-joined [] = omega arith
length-joined ((kind, payload) ∷ frames) =
    omega (arith, length-joined frames, length-append (framed payload) (joined frames))

pub read_frames-whole :
    (frames : List Frame)
    → Short frames
    → read_frames (length (joined frames)) (joined frames) ≡ ok frames
read_frames-whole frames s =
    read_frames-joined frames (length (joined frames)) s (length-joined frames)

abbrev pub closed_frames : List ℕ → List Frame
closed_frames = map (λ id. (frame_closed, to_le_bytes 8 id))

pub joined-append : (fs gs : List Frame) → joined (fs ++ gs) ≡ joined fs ++ joined gs
joined-append [] gs = refl
joined-append ((kind, payload) ∷ fs) gs =
    ap (λ bs. kind ∷ bs)
      (ap (λ bs. framed payload ++ bs) (joined-append fs gs)
        ∙ sym (append_assoc (framed payload) (joined fs) (joined gs)))

Prints-frame :
    (kind : ℕ) (write rest : Write) (p bs : List ℕ)
    → Prints write p
    → length p < u32_mod
    → Prints rest bs
    → Prints ((Writer.u8 kind >>> Writer.nested write) >>> rest) (kind ∷ (framed p ++ bs))
unfolding Writer.u8
Prints-frame kind write rest p bs w h r =
    Prints->>> {bs = kind ∷ framed p}
      (Prints->>> {bs = kind ∷ []} (λ b. refl) (Prints-nested write p w h)) r

Prints-closed : (ids : List ℕ) → Prints (encode_closed ids) (joined (closed_frames ids))
unfolding encode_closed Writer.nothing Writer.u64
Prints-closed [] = λ w. ap some (sym (append-nil w))
Prints-closed (id ∷ ids) =
    Prints-frame frame_closed (Writer.u64 id) (encode_closed ids) (to_le_bytes 8 id)
      (joined (closed_frames ids)) (λ w. refl) (omega (arith, length-to_le_bytes 8 id))
      (Prints-closed ids)

closed_frames-Short : (ids : List ℕ) → Short (closed_frames ids)
closed_frames-Short [] = tt
closed_frames-Short (id ∷ ids) = (omega (arith, length-to_le_bytes 8 id), closed_frames-Short ids)

pub Short-append : (fs gs : List Frame) → Short fs → Short gs → Short (fs ++ gs)
Short-append [] gs s t = t
Short-append (f ∷ fs) gs (s, ss) t = (s, Short-append fs gs ss t)

module _ {V : Type 0} (view : V → Write) (printed : V → List ℕ) where
  -- An ask or a tell, with the bytes of the view.
  abbrev pub effect_frame : Shown V → Frame
  effect_frame shown = (if shown.awaits then frame_ask else frame_tell, printed shown.view)

  abbrev pub frames : Yield (Shown V) → List Frame
  frames step = map effect_frame (as_slice step.effects) ++ closed_frames step.closed

  module _ (prints : (v : V) → Prints (view v) (printed v)) where
    Prints-effects :
        (effects : List (Shown V))
        → Short (map effect_frame effects)
        → Prints (encode_effects view effects) (joined (map effect_frame effects))
    unfolding encode_effects Writer.nothing
    Prints-effects [] s = λ w. ap some (sym (append-nil w))
    Prints-effects (shown ∷ effects) (s, ss) =
        Prints-frame (if shown.awaits then frame_ask else frame_tell) (view shown.view)
          (encode_effects view effects) (printed shown.view) (joined (map effect_frame effects))
          (prints shown.view) s (Prints-effects effects ss)

    -- Where every view is written without a panic, below 4 GiB: a step is encoded without a
    -- panic, and a host that reads the bytes frame after frame, knowing no view's layout, finds
    -- one frame for each effect, in order, an ask or a tell with the view's own bytes, then one
    -- closed frame for each id.
    pub read_frames-encode :
        (step : Yield (Shown V))
        → Short (map effect_frame (as_slice step.effects))
        → (bytes : List ℕ) × (encode view step ≡ some bytes)
          × (read_frames (length bytes) bytes ≡ ok (frames step))
    unfolding encode
    read_frames-encode step s =
        let effects = map effect_frame (as_slice step.effects) in
        (
          joined (effects ++ closed_frames step.closed),
          Prints->>> (Prints-effects (as_slice step.effects) s) (Prints-closed step.closed) []
              ∙ ap some (sym (joined-append effects (closed_frames step.closed))),
          read_frames-whole (effects ++ closed_frames step.closed) (
              Short-append effects (closed_frames step.closed) s (closed_frames-Short step.closed)),
        )
