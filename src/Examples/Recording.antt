-- ===== src/Examples/Recording.antt =====
-- Capture on concrete runs: the encoder, the pipeline's steps, the gate and the agent's ticks.
use magick_sentinel.Prelude.{
  inr, ◌≡◌, ◌≢◌, refl, true, not, none, some, [], ◌∷◌, text, arith, length, ◌==◌, text_eq,
}
use magick_sentinel.Protocol.{far, near}
use magick_sentinel.Tier
use magick_sentinel.Detector.{default_vad, Detector, CallState, in_record, session_state}
use magick_sentinel.Detector
use magick_sentinel.Encoder.{Opus, Samples, push_samples, flush, frame_samples}
use magick_sentinel.Encoder
use magick_sentinel.Encoder.Loop.{feed, Ensures, push_samples_refines}
use magick_sentinel.Encoder.Accounts.{Grown, push_samples_accounts, new-Inv}
use magick_sentinel.Pipeline.{Codec, Pipeline, new_pipe, on_user_changed}
use magick_sentinel.Pipeline
use magick_sentinel.Pipeline.Step.{got, device_invalidated, Machine, Ran, ran, step, StepResult}
use magick_sentinel.Pipeline.Untouched.{machine_of}
use magick_sentinel.Pipeline.Calls.{IsTimed, IsSynced, step-IsSynced}
use magick_sentinel.Pipeline.Preroll.{IsBounded, step-IsBounded}
use magick_sentinel.Encoder.{emit}
use magick_sentinel.Spool.Schema.{open_empty, default_limits}
use magick_sentinel.Uplink

-- An encoder that writes one byte a frame.
abbrev one_byte : Opus
one_byte history samples = some (1 ∷ [])

abbrev three_samples : Samples
three_samples = 7 ∷ 8 ∷ 9 ∷ []

push_samples_refines_example :
    push_samples one_byte (Encoder.new far) three_samples
    ≡ feed one_byte three_samples [] (Encoder.new far)
push_samples_refines_example =
    push_samples_refines one_byte (Encoder.new far) three_samples (new-Inv far).space

push_samples_accounts_example :
    Ensures
      (Grown one_byte (Encoder.new far) three_samples)
      (push_samples one_byte (Encoder.new far) three_samples)
unfolding Encoder.new
push_samples_accounts_example =
    push_samples_accounts one_byte (Encoder.new far) three_samples (new-Inv far) (omega arith)

abbrev codec : Codec
codec = record {
  opus = one_byte;
  is_voiced = λ frames. not (length frames == 0);
  start_json = λ s. s.call_id;
  end_json = λ e. e.call_id;
}

-- Both channels are open and the dialer's session is active.
abbrev pub opened : Pipeline
opened =
    (Pipeline.on_session_state
      (record (Pipeline.new default_vad Tier.b (text "device-1") (text "user-1")) {
        far = some (new_pipe far);
        near = some (new_pipe near);
      })
      true).0

abbrev pub listening : Machine
listening = record { pipe = opened; uplink = Uplink.new (open_empty default_limits) }

pub listening-IsTimed : IsTimed listening.pipe.detector.cfg
unfolding Pipeline.on_session_state Pipeline.tell Pipeline.new Detector.feed Detector.observe
listening-IsTimed = record {
  confirm = omega arith;
  arm = omega arith;
  hangup = omega arith;
  wrap = omega arith;
}

step-IsSynced_example :
    IsSynced
      (machine_of (step codec (text "01CALL") (got three_samples) device_invalidated listening))
unfolding Pipeline.on_session_state Pipeline.tell Pipeline.new Detector.feed in_record
step-IsSynced_example =
    step-IsSynced codec (text "01CALL") (got three_samples) device_invalidated listening
      listening-IsTimed refl

abbrev heard_three : Ran StepResult
heard_three = step codec (text "01CALL") (got three_samples) (got three_samples) listening

abbrev result_of : Ran StepResult → StepResult
result_of (ran m result) = result
result_of _ = record { transition = none; segments_spooled = 0; call_id = none }

step-IsBounded_example : IsBounded (machine_of heard_three).pipe
unfolding Pipeline.on_session_state Pipeline.tell Pipeline.new step new_pipe
step-IsBounded_example =
    step-IsBounded codec (text "01CALL") (got three_samples) (got three_samples) listening
      (machine_of heard_three) (result_of heard_three)
      ((omega arith, inr refl), (omega arith, inr refl)) refl

-- A pipeline in the middle of a call of user 1.
abbrev pub talking : Pipeline
talking = record opened {
  detector = record opened.detector { state = CallState.in_call };
  current_call = some (text "01CALL");
}

pub users_differ : text_eq (text "user-1") (text "user-1") ≢ text_eq (text "user-1") (text "user-2")
unfolding text_eq
users_differ e = ground (arith, e)

-- A call with one finished segment of the far channel.
abbrev waiting : Machine
waiting = record {
  pipe = record talking {
    far = some (record (new_pipe far) { ready = (emit (Encoder.new far)).1 ∷ [] });
  };
  uplink = listening.uplink;
}
