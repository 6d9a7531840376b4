-- ===== src/Pipeline/Step.antt =====
-- One step: `step`, `read_channel`, `apply_transition`, `finish_call` and `drain_encoders` of
-- client/sentinel-agent/src/pipeline.rs.
-- A step that fails keeps what it has changed: `fell` holds the state it leaves.
use magick_sentinel.Prelude.{
  ℕ, ◌+◌, ◌*◌, ◌/◌, max, Bool, true, false, not, ◌&&◌, Option, none, some, List, [], ◌∷◌, ◌++◌,
  length, ◌==◌, if◌then◌else◌, add_u64, Text,
}
use magick_sentinel.Protocol.{Channel, far, near}
use magick_sentinel.Detector.{
  Transition, call_started, call_ended, arm_discarded, unchanged, far_voice, near_voice, EndReason,
}
use magick_sentinel.Foreign.{Decision, mark_foreign, judge, take_event}
use magick_sentinel.Encoder.{
  Samples, Segment, SegmentEncoder, Outcome, done, failed, out_of_fuel, push_samples, flush,
  sample_rate, frame_samples,
}
use magick_sentinel.Encoder
use magick_sentinel.Uplink.{Uplink, push_segment, begin_call, end_call}
use magick_sentinel.Uplink.Send.{set_channel}
use magick_sentinel.Pipeline.{
  Codec, CallStart, ChannelPipe, Pipeline, restart, each_pipe, tell, to_row, bound_preroll,
}

-- What a read returns: at most a buffer of samples, or an error.
pub data Reading : Type 0 where
  got : Samples → Reading
  device_invalidated : Reading

pub record Machine : Type 0 where
  pub pipe : Pipeline
  pub uplink : Uplink

pub data Ran {ℓ} (A : Type ℓ) : Type ℓ where
  ran : Machine → A → Ran A
  fell : Machine → Ran A

abbrev pub after_run {ℓ κ} : {A : Type ℓ} {B : Type κ} → Ran A → (Machine → A → Ran B) → Ran B
after_run (ran m a) next = next m a
after_run (fell m) next = fell m

abbrev pub pipe_of : Channel → Pipeline → Option ChannelPipe
pipe_of far p = p.far
pipe_of near p = p.near

abbrev pub set_pipe : Channel → ChannelPipe → Pipeline → Pipeline
set_pipe far c p = record p { far = some c }
set_pipe near c p = record p { near = some c }

abbrev pub with_pipe : Channel → ChannelPipe → Machine → Machine
with_pipe ch c m = record m { pipe = set_pipe ch c m.pipe }

-- The encoder's result for samples that a pipe has read.
unfoldable pub encoded : Channel → ChannelPipe → ℕ → Outcome (List Segment) → Machine → Ran ℕ
encoded ch c n (done e segments) m =
    ran (with_pipe ch (record c { encoder = e; ready = c.ready ++ segments }) m) n
encoded ch c n (failed e) m = fell (with_pipe ch (record c { encoder = e }) m)
encoded ch c n out_of_fuel m = fell m

-- A pipe that counts the samples of a read and shows its detector each whole frame.
abbrev pub heard : Samples → ChannelPipe → ChannelPipe
heard samples c = record c {
  samples_seen = add_u64 c.samples_seen (length samples);
  vad = if length samples == frame_samples then c.vad ++ (samples ∷ []) else c.vad;
}

-- A pipe takes the samples of a read.
unfoldable pub read_pipe : Codec → Channel → ChannelPipe → Reading → Machine → Ran ℕ
unfolding encoded push_samples
read_pipe codec ch c device_invalidated m = fell m
read_pipe codec ch c (got samples) m =
    if length samples == 0
    then ran m 0
    else encoded ch (heard samples c) (length samples) (push_samples codec.opus c.encoder samples) m

-- A channel that is not open reads nothing.
unfoldable pub read_open : Codec → Channel → Option ChannelPipe → Reading → Machine → Ran ℕ
unfolding read_pipe
read_open codec ch none reading m = ran m 0
read_open codec ch (some c) reading m = read_pipe codec ch c reading m

unfoldable pub read_channel : Codec → Channel → Reading → Machine → Ran ℕ
unfolding read_open
read_channel codec ch reading m = read_open codec ch (pipe_of ch m.pipe) reading m

-- Push segments under a call and note the highest number; the count of those pushed.
unfoldable pub push_all : Text → Channel → List Segment → ℕ → Machine → Ran ℕ
unfolding push_segment to_row
push_all id ch [] count m = ran m count
push_all id ch (seg ∷ segs) count m =
    let (u, pushed) = push_segment m.uplink (to_row id seg m.pipe.clock_ms) in
    let p = record m.pipe { last_seq = set_channel ch seg.seq m.pipe.last_seq } in
    let rest = push_all id ch segs (count + 1) (record { pipe = p; uplink = u }) in
    if pushed then rest else fell (record m { uplink = u })

-- The part of `finish_call` for one channel.
unfoldable pub finish_flushed :
    Text → Channel → ChannelPipe → Outcome (Option Segment) → ℕ → Machine → Ran ℕ
unfolding push_all
finish_flushed id ch c (done e none) count m =
    push_all id ch c.ready count (with_pipe ch (record c { encoder = e; ready = [] }) m)
finish_flushed id ch c (done e (some seg)) count m =
    push_all id ch (c.ready ++ (seg ∷ [])) count
      (with_pipe ch (record c { encoder = e; ready = [] }) m)
finish_flushed id ch c (failed e) count m =
    fell (with_pipe ch (record c { encoder = e; ready = [] }) m)
finish_flushed id ch c out_of_fuel count m = fell m

unfoldable pub finish_pipe : Codec → Text → Channel → Option ChannelPipe → ℕ → Machine → Ran ℕ
unfolding finish_flushed flush
finish_pipe codec id ch none count m = ran m count
finish_pipe codec id ch (some c) count m =
    finish_flushed id ch c (flush codec.opus c.encoder) count m

unfoldable pub record_end : Codec → Text → EndReason → Machine → Machine
unfolding end_call
record_end codec id reason m = record m {
  uplink =
      end_call m.uplink id
        (codec.end_json (record { call_id = id; reason = reason; last_seq = m.pipe.last_seq }));
}

-- `finish_call` of the call taken out of `current_call`.
unfoldable pub finish_taken : Codec → EndReason → Option Text → Machine → Ran ℕ
unfolding finish_pipe record_end
finish_taken codec reason none m = ran m 0
finish_taken codec reason (some id) m =
    after_run (finish_pipe codec id far m.pipe.far 0 m) (λ m1 n1.
      after_run (finish_pipe codec id near m1.pipe.near n1 m1)
        (λ m2 n2. ran (record_end codec id reason m2) n2))

unfoldable pub finish_call : Codec → EndReason → Machine → Ran ℕ
unfolding finish_taken
finish_call codec reason m =
    finish_taken codec reason m.pipe.current_call
      (record m { pipe = record m.pipe { current_call = none } })

unfoldable pub restart_pipes : Machine → Machine
unfolding each_pipe restart
restart_pipes m = record m { pipe = each_pipe restart m.pipe }

abbrev pub call_start : Text → Pipeline → CallStart
call_start id p = record {
  call_id = id;
  user_uid = p.user_uid;
  device_id = p.device_id;
  tier = p.tier;
  account_ref = p.account_ref;
}

-- `fresh` is the new ULID.
unfoldable pub start_call : Codec → Text → Machine → Machine
unfolding begin_call
start_call codec fresh m = record {
  pipe = record m.pipe { last_seq = λ ch. none; current_call = some fresh };
  uplink = begin_call m.uplink fresh (codec.start_json (call_start fresh m.pipe)) m.pipe.clock_ms;
}

unfoldable pub apply_transition : Codec → Text → Transition → Machine → Ran ℕ
unfolding restart_pipes start_call finish_call
apply_transition codec fresh Transition.armed m = ran (restart_pipes m) 0
apply_transition codec fresh call_started m = ran (start_call codec fresh m) 0
apply_transition codec fresh (call_ended reason) m = finish_call codec reason m
apply_transition codec fresh arm_discarded m = ran (restart_pipes m) 0
apply_transition codec fresh _ m = ran m 0

-- `drain_encoders` for one channel.
unfoldable pub drain_pipe : Text → Channel → Option ChannelPipe → ℕ → Machine → Ran ℕ
unfolding push_all
drain_pipe id ch none count m = ran m count
drain_pipe id ch (some c) count m =
    push_all id ch c.ready count (with_pipe ch (record c { ready = [] }) m)

unfoldable pub drain_for : Option Text → ℕ → Machine → Ran ℕ
unfolding drain_pipe
drain_for none count m = ran m count
drain_for (some id) count m =
    after_run (drain_pipe id far m.pipe.far count m)
      (λ m1 n1. drain_pipe id near m1.pipe.near n1 m1)

unfoldable pub drain_encoders : ℕ → Machine → Ran ℕ
unfolding drain_for
drain_encoders count m = drain_for m.pipe.current_call count m

abbrev pub pipe_voiced : Codec → Option ChannelPipe → Bool
pipe_voiced codec none = false
pipe_voiced codec (some c) = codec.is_voiced c.vad

abbrev pub is_foreign : Decision → Bool
is_foreign mark_foreign = true
is_foreign _ = false

abbrev pub mark_pipe : Bool → Option ChannelPipe → Option ChannelPipe
mark_pipe true (some c) = some (record c { encoder = Encoder.mark_foreign c.encoder })
mark_pipe true none = none
mark_pipe false c = c

abbrev pub append_event {ℓ} : {A : Type ℓ} → Option A → List A → List A
append_event none xs = xs
append_event (some x) xs = xs ++ (x ∷ [])

abbrev pub is_unchanged : Transition → Bool
is_unchanged unchanged = true
is_unchanged _ = false

-- Suppression and detection on `advance` milliseconds of audio: the new state and the transition.
unfoldable pub detect : Codec → ℕ → Pipeline → Pipeline × Transition
unfolding judge take_event tell
detect codec advance p =
    let clock = add_u64 p.clock_ms advance in
    let far_voiced = pipe_voiced codec p.far in
    let near_voiced = pipe_voiced codec p.near in
    let (s1, decision) = judge p.suppressor clock far_voiced advance in
    let (s2, event) = take_event s1 clock in
    let p1 = record p {
      clock_ms = clock;
      far = mark_pipe (is_foreign decision) p.far;
      suppressor = s2;
      events = append_event event p.events;
    } in
    let (p2, t1) = tell p1 (far_voice (far_voiced && not (is_foreign decision))) in
    let (p3, t2) = tell p2 (near_voice near_voiced) in (p3, if is_unchanged t1 then t2 else t1)

pub record StepResult : Type 0 where
  pub transition : Option Transition
  pub segments_spooled : ℕ
  pub call_id : Option Text

-- The end of a step: the bound of the ring buffers, and the result.
unfoldable pub report : Transition → ℕ → Machine → Ran StepResult
unfolding bound_preroll
report t spooled m =
    ran (record m { pipe = bound_preroll m.pipe })
      (record {
        transition = if is_unchanged t then none else some t;
        segments_spooled = spooled;
        call_id = m.pipe.current_call;
      })

-- What `step` does with a transition.
unfoldable pub act : Codec → Text → Transition → Machine → Ran StepResult
unfolding apply_transition drain_encoders report
act codec fresh t m =
    after_run (apply_transition codec fresh t m)
      (λ m1 n1. after_run (drain_encoders n1 m1) (λ m2 n2. report t n2 m2))

-- The part of `step` once both channels have been read.
unfoldable pub step_read : Codec → Text → ℕ → Machine → Ran StepResult
unfolding detect act
step_read codec fresh n m =
    let (p, t) = detect codec (n * 1_000 / sample_rate) m.pipe in
    act codec fresh t (record m { pipe = p })

-- Of `n` samples, the more of the two channels; with none there is nothing to do.
unfoldable pub step_rest : Codec → Text → ℕ → Machine → Ran StepResult
unfolding step_read
step_rest codec fresh n m =
    if n == 0
    then ran m (record { transition = none; segments_spooled = 0; call_id = none })
    else step_read codec fresh n m

unfoldable pub step : Codec → Text → Reading → Reading → Machine → Ran StepResult
unfolding read_channel step_rest
step codec fresh far_reading near_reading m =
    after_run (read_channel codec far far_reading m) (λ m1 n1.
      after_run (read_channel codec near near_reading m1)
        (λ m2 n2. step_rest codec fresh (max n1 n2) m2))
