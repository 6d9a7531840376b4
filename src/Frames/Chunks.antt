-- ===== src/Frames/Chunks.antt =====
-- Frames come out whole and in order, however the pipe cuts the bytes.
use magick_sentinel.Prelude.{
  ℕ, zero, suc, ◌<◌, ◌≤◌, ◌%◌, ◌≡◌, refl, ◌∙◌, none, some, List, [], ◌∷◌, ◌++◌, append_assoc,
  length, take, ltb, length-append, take-append, drop-append, All, arith, Bytes, le_bytes,
  from_le_bytes, from_le_bytes-le_bytes, length-take, take-take, u32_mod, Bool-cases, inl, inr,
}
use magick_sentinel.Frames.{
  frame_too_large, empty_frame, ok, err, FrameReader, encode, next_frame, max_frame_bytes,
}

-- A body that both sides accept: not empty, and within the limit.
abbrev pub IsBody : Bytes → Type 0
IsBody body = (0 < length body) × (length body ≤ max_frame_bytes)

-- What `encode` writes for such a body.
abbrev pub frame : Bytes → Bytes
frame body = le_bytes 4 (length body % u32_mod) ++ body

prefix :
    (body rest : Bytes) → IsBody body → from_le_bytes (take 4 (frame body ++ rest)) ≡ length body
prefix body rest h = from_le_bytes-le_bytes 4 (length body % u32_mod) (omega arith) ∙ omega arith

whole_prefix : (body : Bytes) → IsBody body → from_le_bytes (take 4 (frame body)) ≡ length body
whole_prefix body h = from_le_bytes-le_bytes 4 (length body % u32_mod) (omega arith) ∙ omega arith

-- A body within the limits is encoded, and a reader whose buffer begins with the frame returns
-- exactly that body and keeps exactly what follows it.
pub next_frame-encode :
    (body rest : Bytes)
    → IsBody body
    → (encode body ≡ ok (frame body))
      × (next_frame (record { buf = frame body ++ rest }) ≡ (record { buf = rest }, ok (some body)))
unfolding encode next_frame
next_frame-encode body rest h = (
  ground arith,
  ground (
    arith,
    prefix body rest h,
    length-append body rest,
    take-append body rest (length body) refl,
    drop-append body rest (length body) refl,
  ),
)

-- A frame that has not arrived whole is waited for: nothing is returned and nothing is dropped.
next_frame_partial :
    (body : Bytes) (k : ℕ)
    → IsBody body
    → k < length (frame body)
    → next_frame (record { buf = take k (frame body) })
      ≡ (record { buf = take k (frame body) }, ok none)
unfolding next_frame
next_frame_partial body k h less =
    let size : length (take k (frame body)) ≡ k = length-take k (frame body) (omega arith) in
    elim (Bool-cases (ltb k 4)) [
      | inl few ↦ ground (arith, size)
      | inr many ↦ ground (arith, size, take-take k 4 (frame body), whole_prefix body h)
    ]

-- The frames that a reader returns, one after the other, in at most `fuel` calls, and the reader
-- after them.
pub drain : ℕ → FrameReader → List Bytes × FrameReader
drain zero r = ([], r)
drain (suc fuel) r = elim (next_frame r).1 [
  | ok (some body) ↦ let (bodies, end) = drain fuel (next_frame r).0 in (body ∷ bodies, end)
  | ok none ↦ ([], (next_frame r).0)
  | err e ↦ ([], (next_frame r).0)
]

drain-none :
    (fuel : ℕ) (r r' : FrameReader) → next_frame r ≡ (r', ok none) → drain (suc fuel) r ≡ ([], r')
unfolding drain
drain-none fuel r r' e = ground arith

drain-some :
    (fuel : ℕ) (r r' : FrameReader) (body : Bytes)
    → next_frame r ≡ (r', ok (some body))
    → drain (suc fuel) r ≡ (body ∷ (drain fuel r').0, (drain fuel r').1)
unfolding drain
drain-some fuel r r' body e = ground arith

abbrev pub frames : List Bytes → Bytes
frames [] = []
frames (body ∷ bodies) = frame body ++ frames bodies

-- Bytes that hold any frames followed by an unfinished one are read as exactly those frames, in
-- order, and the unfinished bytes stay buffered for the next chunk.
pub drain-frames :
    (bodies : List Bytes) (last : Bytes) (k : ℕ)
    → All IsBody bodies
    → IsBody last
    → k < length (frame last)
    → drain (suc (length bodies)) (record { buf = frames bodies ++ take k (frame last) })
      ≡ (bodies, record { buf = take k (frame last) })
drain-frames [] last k all h less = drain-none 0 _ _ (next_frame_partial last k h less)
drain-frames (body ∷ bodies) last k (b, all) h less =
    let rest = frames bodies ++ take k (frame last) in
    rw (append_assoc (frame body) (frames bodies) (take k (frame last))) (
      drain-some (suc (length bodies)) (record { buf = frame body ++ rest }) (record { buf = rest })
        body (next_frame-encode body rest b).1
      ∙ rw (drain-frames bodies last k all h less))

-- A prefix that announces an empty body or one above the limit is an error at once, however
-- many bytes have arrived behind it, so that a peer cannot make the reader wait for it.
pub next_frame_refuses :
    (len : ℕ) (rest : Bytes)
    → len < u32_mod
    → (len ≡ 0
        → next_frame (record { buf = le_bytes 4 len ++ rest })
          ≡ (record { buf = le_bytes 4 len ++ rest }, err empty_frame))
      × (max_frame_bytes < len
          → next_frame (record { buf = le_bytes 4 len ++ rest })
            ≡ (record { buf = le_bytes 4 len ++ rest }, err (frame_too_large len)))
unfolding next_frame
next_frame_refuses len rest h = (
  λ e. ground (arith, from_le_bytes-le_bytes 4 len h),
  λ e. ground (arith, from_le_bytes-le_bytes 4 len h),
)
