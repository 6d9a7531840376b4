-- ===== src/Encoder.antt =====
-- Framing and segmentation of one channel: client/sentinel-agent/src/encode.rs.
-- libopus is a parameter: what a stateful encoder makes of a frame, given the frames it has been
-- given before, or none if it fails. A sample is the bit pattern of an i16.
pub mod Loop
pub mod Accounts
pub mod Flushing
use magick_sentinel.Prelude.{
  ℕ, zero, suc, ◌+◌, ◌-◌, ◌*◌, ◌/◌, min, Bool, true, false, Option, none, some, List, [], ◌∷◌, ◌++◌,
  length, take, drop, ltb, ◌==◌, ◌&&◌, if◌then◌else◌, Bytes, ◌%◌, u32_mod, add_u64,
}
use magick_sentinel.Protocol.{Channel, MediaFlags, frames_per_segment, pack_segment}

abbrev pub Samples : Type 0
Samples = List ℕ

abbrev pub Opus : Type 0
Opus = List Samples → Samples → Option Bytes

abbrev pub sample_rate : ℕ
sample_rate = 16_000

abbrev pub frame_samples : ℕ
frame_samples = 320

abbrev pub segment_ms : ℕ
segment_ms = frames_per_segment * 20

pub record Segment : Type 0 where
  pub channel : Channel
  pub seq : ℕ
  pub timestamp_ms : ℕ
  pub flags : MediaFlags
  pub payload : Bytes

pub record SegmentEncoder : Type 0 where
  pub history : List Samples  -- the state of libopus
  pub channel : Channel
  pub pending : Samples
  pub frames : List Bytes
  pub next_seq : ℕ
  pub segment_start_ms : ℕ
  pub silence_inserted : Bool
  pub foreign : Bool

unfoldable pub new : Channel → SegmentEncoder
new channel = record {
  history = [];
  channel = channel;
  pending = [];
  frames = [];
  next_seq = 0;
  segment_start_ms = 0;
  silence_inserted = false;
  foreign = false;
}

unfoldable pub mark_foreign : SegmentEncoder → SegmentEncoder
mark_foreign e = record e { foreign = true }

-- The counters wrap, as in a release build.
unfoldable pub emit : SegmentEncoder → SegmentEncoder × Segment
emit e = (
  record e {
    frames = [];
    next_seq = (e.next_seq + 1) % u32_mod;
    segment_start_ms = add_u64 e.segment_start_ms segment_ms;
    silence_inserted = false;
    foreign = false;
  },
  record {
    channel = e.channel;
    seq = e.next_seq;
    timestamp_ms = e.segment_start_ms;
    flags = record { foreign = e.foreign; silence_inserted = e.silence_inserted };
    payload = pack_segment e.frames;
  },
)

-- A result of the encoder with the state it leaves behind, which an error keeps.
pub data Outcome {ℓ} (A : Type ℓ) : Type ℓ where
  done : SegmentEncoder → A → Outcome A
  failed : SegmentEncoder → Outcome A
  out_of_fuel : Outcome A

-- `encode_frame` of the full `pending`, whose result joins the frames.
unfoldable pub add_frame : Option Bytes → SegmentEncoder → Outcome (Unit {0})
add_frame none e = failed e
add_frame (some frame) e =
    done
      (record e {
        history = e.history ++ (e.pending ∷ []);
        frames = e.frames ++ (frame ∷ []);
        pending = [];
      })
      tt

-- `if self.frames.len() == FRAMES_PER_SEGMENT { out.push(self.emit()) }`.
unfoldable pub emit_full : SegmentEncoder → SegmentEncoder × List Segment
unfolding emit
emit_full e =
    if length e.frames == frames_per_segment then ((emit e).0, (emit e).1 ∷ []) else (e, [])

abbrev pub then_emit : Outcome (Unit {0}) → Outcome (List Segment)
then_emit (done e u) = done (emit_full e).0 (emit_full e).1
then_emit (failed e) = failed e
then_emit out_of_fuel = out_of_fuel

-- What one round of `push_samples` does once it has extended `pending`.
unfoldable pub complete : Opus → SegmentEncoder → Outcome (List Segment)
unfolding add_frame emit_full
complete opus e =
    if length e.pending == frame_samples
    then then_emit (add_frame (opus e.history e.pending) e)
    else done e []

abbrev pub extend : SegmentEncoder → Samples → SegmentEncoder
extend e more = record e { pending = e.pending ++ more }

-- Go on after a round, with the segments made so far.
abbrev pub go_on :
    Outcome (List Segment)
    → List Segment
    → (SegmentEncoder → List Segment → Outcome (List Segment))
    → Outcome (List Segment)
go_on (done e segments) out next = next e (out ++ segments)
go_on (failed e) out next = failed e
go_on out_of_fuel out next = out_of_fuel

-- The loop of `push_samples`. A round takes samples or empties a full `pending`.
unfoldable pub push_loop :
    ℕ → Opus → Samples → List Segment → SegmentEncoder → Outcome (List Segment)
unfolding complete
push_loop fuel opus [] out e = done e out
push_loop zero opus (s ∷ ss) out e = out_of_fuel
push_loop (suc fuel) opus (s ∷ ss) out e =
    let taken = min (frame_samples - length e.pending) (length (s ∷ ss)) in
    go_on (complete opus (extend e (take taken (s ∷ ss)))) out
      (λ e' out'. push_loop fuel opus (drop taken (s ∷ ss)) out' e')

unfoldable pub push_samples : Opus → SegmentEncoder → Samples → Outcome (List Segment)
unfolding push_loop
push_samples opus e samples = push_loop (length samples + 1) opus samples [] e

abbrev pub replicate {ℓ} : {A : Type ℓ} → ℕ → A → List A
replicate zero x = []
replicate (suc n) x = x ∷ replicate n x

unfoldable pub insert_silence : Opus → SegmentEncoder → ℕ → Outcome (List Segment)
unfolding push_samples
insert_silence opus e gap_ms =
    if gap_ms == 0
    then done e []
    else push_samples opus (record e { silence_inserted = true })
        (replicate (gap_ms * sample_rate / 1_000) 0)

-- The part of `flush` that pads `pending` to a frame.
unfoldable pub flush_pending : Opus → SegmentEncoder → Outcome (Unit {0})
unfolding add_frame
flush_pending opus e =
    let padded = e.pending ++ replicate (frame_samples - length e.pending) 0 in
    let e' = record e { pending = padded } in
    if ltb 0 (length e.pending) then add_frame (opus e'.history e'.pending) e' else done e tt

-- The loop that fills the segment with dropped frames.
unfoldable pub pad_frames : SegmentEncoder → SegmentEncoder
pad_frames e = record e {
  frames = e.frames ++ replicate (frames_per_segment - length e.frames) [];
  silence_inserted = if ltb (length e.frames) frames_per_segment then true else e.silence_inserted;
}

-- `flush` marks the padded frame as silence.
abbrev pub flush_rest : Bool → Outcome (Unit {0}) → Outcome (Option Segment)
flush_rest padded (done e u) =
    let e' = pad_frames (if padded then record e { silence_inserted = true } else e) in
    done (emit e').0 (some (emit e').1)
flush_rest padded (failed e) = failed e
flush_rest padded out_of_fuel = out_of_fuel

unfoldable pub flush : Opus → SegmentEncoder → Outcome (Option Segment)
unfolding flush_pending pad_frames emit
flush opus e =
    if length e.pending == 0 && length e.frames == 0
    then done e none
    else flush_rest (ltb 0 (length e.pending)) (flush_pending opus e)
