-- ===== src/Table/WokeFrames.antt =====
-- sans-effort-host/src/table.rs, `woke_frames`: the frames of the machines that a call wakes, and a
-- host that reads them behind the call's own.
use sans_effort.Shared.{
  ℕ, ◌<◌, ◌≡◌, refl, sym, ap, List, [], ◌∷◌, ◌++◌, map, append-nil, some, ok, length, All, u64_mod,
  arith,
}
use sans_effort.Codec.Words.{
  to_le_bytes, from_le_bytes, length-to_le_bytes, from_le_bytes-to_le_bytes,
}
use sans_effort.Codec.Writer.{◌>>>◌}
use sans_effort.Codec.Writer
use sans_effort.Codec.RoundTrip.{Prints, Prints->>>, Prints-bytes, framed}
use sans_effort.Host.{frame_woke}
use sans_effort.Host.Frames.{
  Frame, joined, read_frames, read_frames-whole, joined-append, Short, Short-append,
}
use sans_effort.Table.Process.{write_woke, woke_frames, bytes_of}

abbrev pub woke_list : List ℕ → List Frame
woke_list = map (λ handle. (frame_woke, to_le_bytes 8 handle))

Prints-woke : (handles : List ℕ) → Prints (write_woke handles) (joined (woke_list handles))
unfolding write_woke Writer.nothing Writer.u8
Prints-woke [] = λ w. ap some (sym (append-nil w))
Prints-woke (handle ∷ handles) =
    Prints->>> {bs = frame_woke ∷ framed (to_le_bytes 8 handle)}
      (Prints->>> {bs = frame_woke ∷ []} (λ w. refl)
        (Prints-bytes (to_le_bytes 8 handle) (omega (arith, length-to_le_bytes 8 handle))))
      (Prints-woke handles)

woke_frames-joined : (handles : List ℕ) → woke_frames handles ≡ joined (woke_list handles)
unfolding woke_frames
woke_frames-joined handles = ap bytes_of (Prints-woke handles [])

woke_list-Short : (handles : List ℕ) → Short (woke_list handles)
woke_list-Short [] = tt
woke_list-Short (handle ∷ handles) =
    (omega (arith, length-to_le_bytes 8 handle), woke_list-Short handles)

-- The handles that the payloads of frames spell.
abbrev pub handles_of : List Frame → List ℕ
handles_of = map (λ (_, payload). from_le_bytes payload)

handles_of-woke_list :
    (handles : List ℕ) → All (λ h. h < u64_mod) handles → handles_of (woke_list handles) ≡ handles
unfolding sans_effort.Codec.Words.modulus
handles_of-woke_list [] all = refl
handles_of-woke_list (h ∷ handles) (l, all) =
    rw (from_le_bytes-to_le_bytes 8 h l, handles_of-woke_list handles all) refl

-- A host that reads the output of a call frame after frame finds the call's own frames, and then a
-- woke frame for each machine that the call woke, in order, whose payload is the machine's handle.
pub read_frames-woke_frames :
    (frames : List Frame) (handles : List ℕ)
    → Short frames
    → All (λ h. h < u64_mod) handles
    → (woken : List Frame) × (read_frames
          (length (joined frames ++ woke_frames handles))
          (joined frames ++ woke_frames handles)
        ≡ ok (frames ++ woken))
      × (All (λ (kind, _). kind ≡ frame_woke) woken)
      × (handles_of woken ≡ handles)
read_frames-woke_frames frames handles s all = (
  woke_list handles,
  rw (woke_frames-joined handles, sym (joined-append frames (woke_list handles)))
      (read_frames-whole (frames ++ woke_list handles)
        (Short-append frames (woke_list handles) s (woke_list-Short handles))),
  all_woke handles,
  handles_of-woke_list handles all,
)
  where
    all_woke : (handles : List ℕ) → All (λ (kind, _). kind ≡ frame_woke) (woke_list handles)
    all_woke [] = tt
    all_woke (h ∷ hs) = (refl, all_woke hs)
