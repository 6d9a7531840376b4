-- ===== src/Frames.antt =====
-- Framing on the named pipe: client/sentinel-service/src/ipc/codec.rs.
-- The JSON text of a message is a parameter: a frame body is any byte string that serde produced.
pub mod Chunks
use magick_sentinel.Prelude.{
  ℕ, zero, suc, ◌+◌, ◌*◌, ◌%◌, Bool, true, false, Option, none, some, List, [], ◌∷◌, ◌++◌, length,
  take, drop, slice, ltb, leb, ◌==◌, if◌then◌else◌, Bytes, le_bytes, from_le_bytes, u32_mod,
}

abbrev pub max_frame_bytes : ℕ
max_frame_bytes = 256 * 1024

abbrev pub length_prefix_bytes : ℕ
length_prefix_bytes = 4

-- The errors of the framing; those of UTF-8 and JSON belong to the parameter.
pub data IpcError : Type 0 where
  frame_too_large : ℕ → IpcError
  empty_frame : IpcError

pub data Result {ℓ} (A : Type ℓ) : Type ℓ where
  ok : A → Result A
  err : IpcError → Result A

-- `encode`, once serde has written `json`.
unfoldable pub encode : Bytes → Result Bytes
encode json =
    if ltb max_frame_bytes (length json)
    then err (frame_too_large (length json))
    else ok (le_bytes 4 (length json % u32_mod) ++ json)

pub record FrameReader : Type 0 where
  pub buf : Bytes

abbrev pub new : FrameReader
new = record { buf = [] }

unfoldable pub feed : FrameReader → Bytes → FrameReader
feed r chunk = record { buf = r.buf ++ chunk }

unfoldable pub buffered : FrameReader → ℕ
buffered r = length r.buf

unfoldable pub next_frame : FrameReader → FrameReader × Result (Option Bytes)
next_frame r =
    let len = from_le_bytes (take length_prefix_bytes r.buf) in
    let total = length_prefix_bytes + len in
    if ltb (length r.buf) length_prefix_bytes
    then (r, ok none)
    else if len == 0
    then (r, err empty_frame)
    else if ltb max_frame_bytes len
    then (r, err (frame_too_large len))
    else if ltb (length r.buf) total
    then (r, ok none)
    else (record { buf = drop total r.buf }, ok (some (slice length_prefix_bytes total r.buf)))
