-- ===== src/Agent/Showing.antt =====
-- What the widget shows of a recording, and the order of the reports on the capture state.
use magick_sentinel.Prelude.{
  ℕ, ◌≡◌, ◌≢◌, sym, Bool, true, false, Option, some, is_some, List, [], ◌∷◌, ◌++◌, Text, arith,
}
use magick_sentinel.Detector.{CallState, in_record}
use magick_sentinel.Identity.{IdentityStatus}
use magick_sentinel.Pipeline.{Pipeline}
use magick_sentinel.Pipeline.Calls.{user_change_strands, IsTimed, IsSynced, step-IsSynced}
use magick_sentinel.Pipeline.Step.{Reading, Machine, Ran, ran, fell, StepResult, step}
use magick_sentinel.Pipeline.Untouched.{machine_of}
use magick_sentinel.Startup.{StartTier}
use magick_sentinel.Agent.{Agent, Surroundings, capture_state, on_signed_in, captured, run_capture}
use magick_sentinel.Agent.Status.{
  widget_state, CaptureReport, capture_blocked, capture_armed, capture_disarmed, was_armed,
  report_of, report_capture_state,
}

captured_shows :
    (tier : Option StartTier) (s : Surroundings) (a : Agent) (now_ms : ℕ) (r : Ran StepResult)
    → IsSynced (machine_of r)
    → let shown = widget_state tier (captured s a r).0 now_ms in
      shown.recording ≡ is_some shown.call_id
unfolding widget_state capture_state
captured_shows tier s a now_ms (ran m result) h = sym h
captured_shows tier s a now_ms (fell m) h = sym h

-- After a step of the pipeline in a tick, also one that fails, the widget shows a recording exactly
-- when a call is open, if before the step a call was open exactly when the detector had a record
-- and no threshold of the detector is zero.
pub run_capture_shows :
    (tier : Option StartTier) (s : Surroundings) (a : Agent) (now_ms : ℕ) (p : Pipeline)
    (r q : Reading)
    → a.pipeline ≡ some p
    → IsTimed p.detector.cfg
    → IsSynced (record { pipe = p; uplink = a.uplink })
    → let shown = widget_state tier (run_capture s true a.pipeline (some (r, q)) a).0 now_ms in
      shown.recording ≡ is_some shown.call_id
unfolding run_capture
run_capture_shows tier s a now_ms p r q piped timed synced =
    let m : Machine = record { pipe = p; uplink = a.uplink } in
    rw piped (
      captured_shows tier s a now_ms (step s.codec s.fresh r q m)
        (step-IsSynced s.codec s.fresh r q m timed synced))

-- When another user signs in during a call, the widget shows that recording has ended and the call
-- still is open.
pub user_change_hides_call :
    (tier : Option StartTier) (a : Agent) (now_ms : ℕ) (p : Pipeline) (id old uid : Text)
    → a.pipeline ≡ some p
    → p.current_call ≡ some id
    → in_record p.detector.state ≡ true
    → p.detector.user_uid ≡ some old
    → old ≢ uid
    → ((widget_state tier a now_ms).recording ≡ true)
      × ((widget_state tier (on_signed_in a uid) now_ms).recording ≡ false)
      × ((widget_state tier (on_signed_in a uid) now_ms).call_id ≡ some id)
unfolding widget_state capture_state on_signed_in
user_change_hides_call tier a now_ms p id old uid piped ongoing recording known other =
    let (hidden, kept, _, _) = user_change_strands p id old uid ongoing recording known other in
    rw piped (recording, hidden, kept)

-- The reports of a run of ticks, each with the agent and its status then.
unfoldable pub reports : Option CallState → List (Agent × IdentityStatus) → List CaptureReport
unfolding report_capture_state
reports last [] = []
reports last ((a, st) ∷ ticks) =
    let (next, out) = report_capture_state a st last in
    let later = reports next ticks in out ++ later

-- Capture is reported as armed only when it was not, and as disarmed only when it was.
abbrev pub IsBracketed : Bool → List CaptureReport → Type 0
IsBracketed b [] = Unit {0}
IsBracketed b (capture_blocked reason ∷ rs) = IsBracketed false rs
IsBracketed b (capture_armed ∷ rs) = (b ≡ false) × IsBracketed true rs
IsBracketed b (capture_disarmed ∷ rs) = (b ≡ true) × IsBracketed false rs

report_of-IsBracketed :
    (previous : Option CallState) (state : CallState) (reason : Text) (rs : List CaptureReport)
    → IsBracketed (was_armed (some state)) rs
    → IsBracketed (was_armed previous) (report_of previous state reason ++ rs)
report_of-IsBracketed previous state reason rs h = ground (arith, h)

-- Over any run of ticks the reports alternate: capture is reported as armed only when the last such
-- report, if any, was that it is disarmed or blocked, and as disarmed only when it was armed.
pub reports-IsBracketed :
    (last : Option CallState) (ticks : List (Agent × IdentityStatus))
    → IsBracketed (was_armed last) (reports last ticks)
unfolding reports report_capture_state
reports-IsBracketed last [] = tt
reports-IsBracketed last ((a, st) ∷ ticks) =
    report_of-IsBracketed last (capture_state a) _ _
      (reports-IsBracketed (some (capture_state a)) ticks)
