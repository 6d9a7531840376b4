-- ===== src/Encoder/Flushing.antt =====
-- What `flush` of client/sentinel-agent/src/encode.rs leaves behind and returns.
use magick_sentinel.Prelude.{
  is_some, ℕ, zero, suc, ◌+◌, ◌-◌, ◌<◌, ◌≤◌, ◌≡◌, refl, u32_mod, ap, List, [], ◌∷◌, ◌++◌, length,
  length-append, ltb, ◌==◌, arith, Option, none, some, Bytes, true, false, Bool-cases, inl, inr,
}
use magick_sentinel.Protocol.{frames_per_segment}
use magick_sentinel.Encoder.{
  Opus, Segment, SegmentEncoder, add_frame, emit, replicate, pad_frames, flush, flush_pending,
  flush_rest,
}
use magick_sentinel.Encoder.Loop.{Ensures}
use magick_sentinel.Encoder.Accounts.{Inv, Numbered}

length-replicate {ℓ} : {A : Type ℓ} (n : ℕ) (x : A) → length (replicate n x) ≡ n
length-replicate zero x = refl
length-replicate (suc n) x = omega (arith, length-replicate n x)

abbrev pub as_list : Option Segment → List Segment
as_list none = []
as_list (some s) = s ∷ []

-- What `flush` leaves behind and returns.
pub record Flushed (e e' : SegmentEncoder) (r : Option Segment) : Type 0 where
  pub inv : Inv e'
  pub pending_empty : length e'.pending ≡ 0
  pub frames_empty : length e'.frames ≡ 0
  pub returned : is_some r ≡ ltb 0 (length e.pending + length e.frames)
  pub numbered : Numbered e.next_seq (as_list r)
  pub next : e'.next_seq ≡ e.next_seq + length (as_list r)

pad_frames-Flushed :
    (e e2 : SegmentEncoder)
    → Inv e
    → ltb 0 (length e.pending + length e.frames) ≡ true
    → length e2.pending ≡ 0
    → length e2.frames ≤ frames_per_segment
    → e2.next_seq ≡ e.next_seq
    → e2.segment_start_ms ≡ e.segment_start_ms
    → e.next_seq + 1 < u32_mod
    → Flushed e (emit (pad_frames e2)).0 (some (emit (pad_frames e2)).1)
unfolding pad_frames emit
pad_frames-Flushed e e2 v some_left empty fits seq start room = record {
  inv = record { space = omega arith; room = omega arith; clock = omega (arith, v.clock) };
  pending_empty = empty;
  frames_empty = refl;
  returned = ground (arith, some_left);
  numbered = (
    seq,
    omega (arith, v.clock),
    (
      e2.frames ++ replicate (frames_per_segment - length e2.frames) [],
      omega (
        arith,
        length-append e2.frames (replicate (frames_per_segment - length e2.frames) []),
        length-replicate {A = Bytes} (frames_per_segment - length e2.frames) [],
      ),
      refl,
    ),
    tt,
  );
  next = omega arith;
}

flush_frame :
    (r : Option Bytes) (e e1 : SegmentEncoder)
    → Inv e
    → ltb 0 (length e.pending + length e.frames) ≡ true
    → e1.frames ≡ e.frames
    → e1.next_seq ≡ e.next_seq
    → e1.segment_start_ms ≡ e.segment_start_ms
    → e.next_seq + 1 < u32_mod
    → Ensures (Flushed e) (flush_rest true (add_frame r e1))
unfolding add_frame
flush_frame none e e1 v left frames seq start room = tt
flush_frame (some frame) e e1 v left frames seq start room =
    pad_frames-Flushed e _ v left refl
      (omega (
        arith,
        length-append e1.frames (frame ∷ []),
        ap (λ (x : List Bytes). length x) frames,
        v.room,
      ))
      seq start room

-- When `flush` succeeds, nothing is left pending. It returns a segment exactly when samples or
-- frames were waiting, numbered next and filled up to fifty frames, if its number is not the last of 32 bits.
pub flush_completes :
    (opus : Opus) (e : SegmentEncoder)
    → Inv e
    → e.next_seq + 1 < u32_mod
    → Ensures (Flushed e) (flush opus e)
unfolding flush flush_pending
flush_completes opus e v room = elim (Bool-cases (length e.pending == 0)) [
  | inr waiting ↦
      let pos : ltb 0 (length e.pending) ≡ true = ground arith in
      rw (waiting, pos) (flush_frame _ e _ v (ground arith) refl refl refl room)
  | inl empty ↦ elim (Bool-cases (length e.frames == 0)) [
    | inl none_left ↦
        rw (empty, none_left)
          (record {
            inv = v;
            pending_empty = ground arith;
            frames_empty = ground arith;
            returned = ground arith;
            numbered = tt;
            next = omega arith;
          })
    | inr frames_left ↦
        let none_pending : ltb 0 (length e.pending) ≡ false = ground arith in
        rw (empty, frames_left, none_pending)
          (pad_frames-Flushed e e v (ground arith) (ground arith) (omega (arith, v.room)) refl refl
            room)
  ]
]
