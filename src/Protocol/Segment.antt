-- ===== src/Protocol/Segment.antt =====
-- Segment payloads: length-delimited packets, packed and unpacked.
use magick_sentinel.Prelude.{
  ℕ, zero, suc, ◌+◌, ◌≤◌, ◌<◌, ◌%◌, ◌≡◌, ◌≢◌, refl, ap, ◌∙◌, arith, List, [], ◌∷◌, ◌++◌,
  append_assoc, append-nil, length, take, drop, All, length-append, take-append, drop-append, Bytes,
  le_bytes, from_le_bytes, from_le_bytes-le_bytes, length-drop,
}
use magick_sentinel.Protocol.{done, out_of_fuel, pack_segment, unpack_loop, unpack_segment}

-- The length fits the two-byte prefix.
abbrev pub IsShort : Bytes → Type 0
IsShort frame = length frame < 65536

unpack_step :
    (fuel have off : ℕ) (frame rest : Bytes) (out : List Bytes)
    → IsShort frame
    → unpack_loop (suc fuel) have off (le_bytes 2 (length frame % 65536) ++ (frame ++ rest)) out
      ≡ unpack_loop fuel have (off + 2 + length frame) rest (out ++ (frame ∷ []))
unfolding unpack_loop
unpack_step fuel have off frame rest out short = ground (
  arith,
  from_le_bytes-le_bytes 2 (length frame % 65536) (omega arith),
  length-append frame rest,
  take-append frame rest (length frame) refl,
  drop-append frame rest (length frame) refl,
)

unpack_loop-pack_segment :
    (frames : List Bytes) (fuel have off : ℕ) (out : List Bytes)
    → All IsShort frames
    → length (pack_segment frames) ≤ fuel
    → unpack_loop fuel have off (pack_segment frames) out ≡ done (out ++ frames)
unfolding pack_segment
unpack_loop-pack_segment [] fuel have off out all h = rw append-nil (unfold unpack_loop in refl)
unpack_loop-pack_segment (f ∷ fs) zero have off out all h = absurd (omega arith)
unpack_loop-pack_segment (f ∷ fs) (suc fuel) have off out (short, all) h =
    unpack_step fuel have off f (pack_segment fs) out short
    ∙ unpack_loop-pack_segment fs fuel have (off + 2 + length f) (out ++ (f ∷ [])) all
        (omega (arith, length-append f (pack_segment fs)))
    ∙ ap done (append_assoc out (f ∷ []) fs)

-- Unpacking gives back the packets, dropped (empty) ones included, when each length fits u16.
pub unpack-pack_segment :
    (frames : List Bytes) → All IsShort frames → unpack_segment (pack_segment frames) ≡ done frames
unfolding unpack_segment
unpack-pack_segment frames all =
    unpack_loop-pack_segment frames (length (pack_segment frames)) _ 0 [] all (omega arith)

unpack_loop-ne-out_of_fuel :
    (fuel have off : ℕ) (buf : Bytes) (out : List Bytes)
    → length buf ≤ fuel
    → unpack_loop fuel have off buf out ≢ out_of_fuel
unfolding unpack_loop
unpack_loop-ne-out_of_fuel fuel have off [] out h = λ e. cc
unpack_loop-ne-out_of_fuel zero have off (b ∷ bs) out h = absurd (omega arith)
unpack_loop-ne-out_of_fuel (suc fuel) have off (b ∷ bs) out h =
    let len = from_le_bytes (take 2 (b ∷ bs)) in
    let body = drop 2 (b ∷ bs) in
    ground (
      arith,
      length-drop len body,
      length-drop 2 (b ∷ bs),
      unpack_loop-ne-out_of_fuel fuel have (off + 2 + len) (drop len body)
          (out ++ (take len body ∷ [])),
    )

-- The loop of `unpack_segment` ends on every payload.
pub unpack_segment-ne-out_of_fuel : (payload : Bytes) → unpack_segment payload ≢ out_of_fuel
unfolding unpack_segment
unpack_segment-ne-out_of_fuel payload =
    unpack_loop-ne-out_of_fuel (length payload) _ 0 payload [] (omega arith)
