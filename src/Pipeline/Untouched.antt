-- ===== src/Pipeline/Untouched.antt =====
-- What the parts of a step leave alone: the open call and the detector.
use magick_sentinel.Prelude.{
  ℕ, ◌≡◌, refl, ◌∙◌, false, Option, none, some, List, [], ◌∷◌, ◌++◌, Text, arith, Bool-cases, inl,
  inr, ◌==◌, length, ◌+◌,
}
use magick_sentinel.Protocol.{Channel, far, near}
use magick_sentinel.Detector.{Transition, EndReason}
use magick_sentinel.Encoder.{Segment, Outcome, done, failed, out_of_fuel, push_samples}
use magick_sentinel.Uplink.{push_segment}
use magick_sentinel.Pipeline.{Codec, ChannelPipe, to_row, each_pipe, bound_preroll}
use magick_sentinel.Pipeline.Step.{
  Reading, got, device_invalidated, Machine, Ran, ran, fell, after_run, encoded, read_pipe,
  read_open, read_channel, push_all, finish_flushed, finish_pipe, finish_taken, record_end,
  apply_transition, drain_pipe, drain_for, drain_encoders, with_pipe, pipe_of, report, act, heard,
}

abbrev pub machine_of {ℓ} : {A : Type ℓ} → Ran A → Machine
machine_of (ran m a) = m
machine_of (fell m) = m

-- A part of a step that leaves the call and the detector alone.
abbrev pub Same : Machine → Machine → Type 0
Same m m' = (m'.pipe.current_call ≡ m.pipe.current_call) × (m'.pipe.detector ≡ m.pipe.detector)

Same-after {ℓ κ} :
    {A : Type ℓ} {B : Type κ} (m : Machine) (r : Ran A) (next : Machine → A → Ran B)
    → Same m (machine_of r)
    → ((m1 : Machine) (a : A) → Same m1 (machine_of (next m1 a)))
    → Same m (machine_of (after_run r next))
Same-after m (ran m1 a) next (h, k) same = ((same m1 a).0 ∙ h, (same m1 a).1 ∙ k)
Same-after m (fell m1) next h same = h

encoded-Same :
    (ch : Channel) (c : ChannelPipe) (n : ℕ) (o : Outcome (List Segment)) (m : Machine)
    → Same m (machine_of (encoded ch c n o m))
unfolding encoded
encoded-Same far c n (done e segs) m = (refl, refl)
encoded-Same near c n (done e segs) m = (refl, refl)
encoded-Same far c n (failed e) m = (refl, refl)
encoded-Same near c n (failed e) m = (refl, refl)
encoded-Same ch c n out_of_fuel m = (refl, refl)

read_pipe-Same :
    (codec : Codec) (ch : Channel) (c : ChannelPipe) (r : Reading) (m : Machine)
    → Same m (machine_of (read_pipe codec ch c r m))
unfolding read_pipe
read_pipe-Same codec ch c device_invalidated m = (refl, refl)
read_pipe-Same codec ch c (got []) m = (refl, refl)
read_pipe-Same codec ch c (got (s ∷ ss)) m =
    let samples = s ∷ ss in
    let some_read : (length samples == 0) ≡ false = ground arith in
    let o = push_samples codec.opus c.encoder samples in
    rw some_read (encoded-Same ch (heard samples c) (length samples) o m)

read_open-Same :
    (codec : Codec) (ch : Channel) (c : Option ChannelPipe) (r : Reading) (m : Machine)
    → Same m (machine_of (read_open codec ch c r m))
unfolding read_open
read_open-Same codec ch none r m = (refl, refl)
read_open-Same codec ch (some c) r m = read_pipe-Same codec ch c r m

with_pipe-Same : (ch : Channel) (c : ChannelPipe) (m : Machine) → Same m (with_pipe ch c m)
with_pipe-Same far c m = (refl, refl)
with_pipe-Same near c m = (refl, refl)

push_all-Same :
    (id : Text) (ch : Channel) (segs : List Segment) (count : ℕ) (m : Machine)
    → Same m (machine_of (push_all id ch segs count m))
unfolding push_all
push_all-Same id ch [] count m = (refl, refl)
push_all-Same id ch (seg ∷ segs) count m =
    elim (Bool-cases (push_segment m.uplink (to_row id seg m.pipe.clock_ms)).1) [
      | inl e ↦ rw e (push_all-Same id ch segs (count + 1) _)
      | inr e ↦ rw e (refl, refl)
    ]

flushed-Same :
    (id : Text) (ch : Channel) (segs : List Segment) (count : ℕ) (c : ChannelPipe) (m : Machine)
    → Same m (machine_of (push_all id ch segs count (with_pipe ch c m)))
flushed-Same id far segs count c m = push_all-Same id far segs count (with_pipe far c m)
flushed-Same id near segs count c m = push_all-Same id near segs count (with_pipe near c m)

finish_flushed-Same :
    (id : Text) (ch : Channel) (c : ChannelPipe) (o : Outcome (Option Segment)) (count : ℕ)
    (m : Machine)
    → Same m (machine_of (finish_flushed id ch c o count m))
unfolding finish_flushed
finish_flushed-Same id ch c (done e none) count m = flushed-Same id ch c.ready count _ m
finish_flushed-Same id ch c (done e (some seg)) count m =
    flushed-Same id ch (c.ready ++ (seg ∷ [])) count _ m
finish_flushed-Same id ch c (failed e) count m = with_pipe-Same ch _ m
finish_flushed-Same id ch c out_of_fuel count m = (refl, refl)

finish_pipe-Same :
    (codec : Codec) (id : Text) (ch : Channel) (c : Option ChannelPipe) (count : ℕ) (m : Machine)
    → Same m (machine_of (finish_pipe codec id ch c count m))
unfolding finish_pipe
finish_pipe-Same codec id ch none count m = (refl, refl)
finish_pipe-Same codec id ch (some c) count m = finish_flushed-Same id ch c _ count m

drain_pipe-Same :
    (id : Text) (ch : Channel) (c : Option ChannelPipe) (count : ℕ) (m : Machine)
    → Same m (machine_of (drain_pipe id ch c count m))
unfolding drain_pipe
drain_pipe-Same id ch none count m = (refl, refl)
drain_pipe-Same id ch (some c) count m = flushed-Same id ch c.ready count _ m

drain_for-Same :
    (id : Option Text) (count : ℕ) (m : Machine) → Same m (machine_of (drain_for id count m))
unfolding drain_for
drain_for-Same none count m = (refl, refl)
drain_for-Same (some id) count m =
    Same-after m (drain_pipe id far m.pipe.far count m)
      (λ m1 n1. drain_pipe id near m1.pipe.near n1 m1) (drain_pipe-Same id far m.pipe.far count m)
      (λ m1 n1. drain_pipe-Same id near m1.pipe.near n1 m1)

pub finish_taken-Same :
    (codec : Codec) (reason : EndReason) (id : Option Text) (m : Machine)
    → Same m (machine_of (finish_taken codec reason id m))
unfolding finish_taken
finish_taken-Same codec reason none m = (refl, refl)
finish_taken-Same codec reason (some id) m =
    let close : Machine → ℕ → Ran ℕ = λ m2 n2. ran (record_end codec id reason m2) n2 in
    let near_part : Machine → ℕ → Ran ℕ =
      λ m1 n1. after_run (finish_pipe codec id near m1.pipe.near n1 m1) close in
    Same-after m (finish_pipe codec id far m.pipe.far 0 m) near_part
      (finish_pipe-Same codec id far m.pipe.far 0 m)
      (λ m1 n1.
        Same-after m1 (finish_pipe codec id near m1.pipe.near n1 m1) close
          (finish_pipe-Same codec id near m1.pipe.near n1 m1)
          (λ m2 n2. unfold record_end in (refl, refl)))

pub drain_encoders-Same : (count : ℕ) (m : Machine) → Same m (machine_of (drain_encoders count m))
unfolding drain_encoders
drain_encoders-Same count m = drain_for-Same m.pipe.current_call count m

pub read_channel-Same :
    (codec : Codec) (ch : Channel) (r : Reading) (m : Machine)
    → Same m (machine_of (read_channel codec ch r m))
unfolding read_channel
read_channel-Same codec ch r m = read_open-Same codec ch (pipe_of ch m.pipe) r m

report-Same : (t : Transition) (n : ℕ) (m : Machine) → Same m (machine_of (report t n m))
unfolding report bound_preroll each_pipe
report-Same t n m = (refl, refl)

act_ran-Same :
    (t : Transition) (r : Ran ℕ)
    → Same (machine_of r) (
        machine_of
          (after_run r (λ m1 n1. after_run (drain_encoders n1 m1) (λ m2 n2. report t n2 m2))))
act_ran-Same t (fell m) = (refl, refl)
act_ran-Same t (ran m n) =
    Same-after m (drain_encoders n m) (λ m2 n2. report t n2 m2) (drain_encoders-Same n m)
      (λ m2 n2. report-Same t n2 m2)

-- What a step does after the transition leaves the call and the detector alone.
pub act-Same :
    (codec : Codec) (fresh : Text) (t : Transition) (m : Machine)
    → Same (machine_of (apply_transition codec fresh t m)) (machine_of (act codec fresh t m))
unfolding act
act-Same codec fresh t m = act_ran-Same t (apply_transition codec fresh t m)
