-- ===== src/Detector.antt =====
-- Call detection: client/sentinel-core/src/state.rs, with the timings of
-- client/sentinel-core/src/config.rs.
-- A method that mutates `&mut self` returns the new record; a match on the state or on the input
-- is a function by clauses. `debug_assert!` of `feed` is not part of a release build: the
-- monotonic clock is a hypothesis of the theorems that need it. `u64` sums wrap.
pub mod Invariant
pub mod Calls
pub mod Blocking
pub mod Timing
use magick_sentinel.Prelude.{
  ℕ, ◌-◌, Bool, true, false, not, ◌&&◌, ◌||◌, Option, none, some, leb, if◌then◌else◌, add_u64, Text,
  text_eq,
}

pub record VadConfig : Type 0 where
  pub speech_ms_to_confirm : ℕ
  pub armed_timeout_ms : ℕ
  pub hangup_silence_ms : ℕ
  pub wrap_ms : ℕ
  pub debounce_ms : ℕ

-- `VadConfig::default()`.
abbrev pub default_vad : VadConfig
default_vad = record {
  speech_ms_to_confirm = 300;
  armed_timeout_ms = 20_000;
  hangup_silence_ms = 8_000;
  wrap_ms = 3_000;
  debounce_ms = 2_000;
}

pub data CallState : Type 0 where
  idle armed in_call wrap finalize blocked : CallState

pub data BlockReason : Type 0 where
  signed_out pinned_device_missing offline_grace_expired device_revoked shutdown : BlockReason

-- `EndReason` of client/sentinel-core/src/protocol.rs.
pub data EndReason : Type 0 where
  hangup device_lost signed_out shutdown revoked error : EndReason

pub data DetectorInput : Type 0 where
  session_state : Bool → DetectorInput
  far_voice : Bool → DetectorInput
  near_voice : Bool → DetectorInput
  tick : DetectorInput
  block : BlockReason → DetectorInput
  unblock : DetectorInput
  user_changed : Text → DetectorInput

-- `Transition::None` is `unchanged`; `Blocked` and `Unblocked` are `now_blocked`, `now_unblocked`.
pub data Transition : Type 0 where
  unchanged armed call_started wrap_started : Transition
  call_ended : EndReason → Transition
  arm_discarded : Transition
  now_blocked : BlockReason → Transition
  now_unblocked : Transition

pub record Detector : Type 0 where
  pub cfg : VadConfig
  pub state : CallState
  pub entered_at_ms : ℕ
  pub now_ms : ℕ
  pub last_transition_ms : ℕ
  pub session_active : Bool
  pub armed_speech_ms : ℕ
  pub silence_ms : ℕ
  pub block_reason : Option BlockReason
  pub user_uid : Option Text
  pub reopen_after_end : Bool
  pub arm_exhausted : Bool

unfoldable pub new : VadConfig → Detector
new cfg = record {
  cfg = cfg;
  state = blocked;
  entered_at_ms = 0;
  now_ms = 0;
  last_transition_ms = 0;
  session_active = false;
  armed_speech_ms = 0;
  silence_ms = 0;
  block_reason = some BlockReason.signed_out;
  user_uid = none;
  reopen_after_end = false;
  arm_exhausted = false;
}

-- `saturating_sub` is the truncated difference.
unfoldable pub time_in_state_ms : Detector → ℕ
time_in_state_ms d = d.now_ms - d.entered_at_ms

unfoldable pub debounced : Detector → Bool
debounced d = leb d.cfg.debounce_ms (d.now_ms - d.last_transition_ms)

unfoldable pub goto : Detector → CallState → Transition → Detector × Transition
goto d next t =
    (record d { state = next; entered_at_ms = d.now_ms; last_transition_ms = d.now_ms }, t)

-- The `matches!(self.state, CallState::InCall | CallState::Wrap)` of two methods.
unfoldable pub in_record : CallState → Bool
in_record in_call = true
in_record wrap = true
in_record _ = false

unfoldable pub block_end_reason : BlockReason → EndReason
block_end_reason BlockReason.signed_out = EndReason.signed_out
block_end_reason pinned_device_missing = device_lost
block_end_reason offline_grace_expired = error
block_end_reason device_revoked = revoked
block_end_reason BlockReason.shutdown = EndReason.shutdown

unfoldable pub enter_blocked : Detector → BlockReason → Detector × Transition
unfolding in_record block_end_reason
enter_blocked d reason = (
  record d {
    block_reason = some reason;
    state = blocked;
    entered_at_ms = d.now_ms;
    last_transition_ms = d.now_ms;
  },
  if in_record d.state then call_ended (block_end_reason reason) else now_blocked reason,
)

-- The arms of `evaluate`.
unfoldable pub evaluate_in : CallState → Detector → Detector × Transition
unfolding goto debounced time_in_state_ms
evaluate_in blocked d = (d, unchanged)
evaluate_in idle d =
    if d.session_active && not d.arm_exhausted && debounced d
    then goto (record d { armed_speech_ms = 0 }) armed armed
    else (d, unchanged)
evaluate_in armed d =
    if leb d.cfg.speech_ms_to_confirm d.armed_speech_ms
    then goto (record d { silence_ms = 0 }) in_call call_started
    else if not d.session_active && debounced d
    then goto d idle arm_discarded
    else if leb d.cfg.armed_timeout_ms (time_in_state_ms d)
    then goto (record d { arm_exhausted = true }) idle arm_discarded
    else (d, unchanged)
evaluate_in in_call d =
    if not d.session_active && leb d.cfg.hangup_silence_ms d.silence_ms && debounced d
    then goto d wrap wrap_started
    else (d, unchanged)
evaluate_in wrap d =
    if d.session_active
    then goto (record d { silence_ms = 0 }) in_call unchanged
    else if leb d.cfg.wrap_ms (time_in_state_ms d)
    then goto d finalize (call_ended hangup)
    else (d, unchanged)
evaluate_in finalize d =
    if d.reopen_after_end && d.session_active
    then goto (record d { reopen_after_end = false; arm_exhausted = false; armed_speech_ms = 0 })
        armed armed
    else goto d idle unchanged

unfoldable pub evaluate : Detector → Detector × Transition
unfolding evaluate_in
evaluate d = evaluate_in d.state d

unfoldable pub leave_blocked : CallState → Detector → Detector × Transition
unfolding goto
leave_blocked blocked d = goto (record d { block_reason = none }) idle now_unblocked
leave_blocked _ d = (d, unchanged)

abbrev pub same_user : Option Text → Text → Bool
same_user none uid = false
same_user (some u) uid = text_eq u uid

-- The arms of `feed`, once the clock has advanced by `elapsed`.
unfoldable pub observe : ℕ → DetectorInput → Detector → Detector × Transition
unfolding enter_blocked leave_blocked evaluate goto in_record
observe elapsed (block reason) d = enter_blocked d reason
observe elapsed unblock d = leave_blocked d.state d
observe elapsed (user_changed uid) d =
    let changed = not (same_user d.user_uid uid) in
    let d' = record d { user_uid = some uid } in
    if changed && in_record d.state
    then goto (record d' { reopen_after_end = d.session_active; arm_exhausted = false }) idle
        (call_ended EndReason.signed_out)
    else (d', unchanged)
observe elapsed (session_state active) d = evaluate (record d {
  arm_exhausted = if active then d.arm_exhausted else false;
  session_active = active;
})
observe elapsed (far_voice voiced) d = evaluate (record d {
  armed_speech_ms = if voiced then add_u64 d.armed_speech_ms elapsed else d.armed_speech_ms;
  silence_ms = if voiced then 0 else add_u64 d.silence_ms elapsed;
})
observe elapsed (near_voice voiced) d =
    evaluate (record d { silence_ms = if voiced then 0 else add_u64 d.silence_ms elapsed })
observe elapsed tick d = evaluate (record d { silence_ms = add_u64 d.silence_ms elapsed })

unfoldable pub feed : Detector → ℕ → DetectorInput → Detector × Transition
unfolding observe
feed d now_ms input = observe (now_ms - d.now_ms) input (record d { now_ms = now_ms })
