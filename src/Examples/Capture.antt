-- ===== src/Examples/Capture.antt =====
-- The capture side on concrete runs: the detector, suppression, tiers and devices.
use magick_sentinel.Prelude.{
  ℕ, ◌≡◌, refl, true, false, List, [], ◌∷◌, none, some, text, text_eq, arith,
}
use magick_sentinel.Detector.{
  Detector, DetectorInput, session_state, far_voice, tick, unblock, user_changed, Transition,
  default_vad, unchanged, call_started, wrap_started, call_ended, now_unblocked, hangup, in_call,
  new, feed, in_record,
}
use magick_sentinel.Detector.Invariant.{Inv, run}
use magick_sentinel.Detector.Calls.{Alternates, run-new-Alternates}
use magick_sentinel.Detector.Timing.{silent_call_ends}
use magick_sentinel.Foreign.{
  Suppressor, default_params, judge, mark_foreign, retain, session, segment, report, Call,
  for_tier_a,
}
use magick_sentinel.Foreign
use magick_sentinel.Foreign.Accounting
use magick_sentinel.Foreign.Accounting.{
  judge_iff, run-new_accounts, run-new-Inv as suppressor_Inv, tier_a_keeps,
}
use magick_sentinel.Tier.{CaptureTier, classify, tier, x64}

-- An agent signs in, a call is answered at 2.6 s and the session ends at 3 s.
abbrev morning : List (ℕ × DetectorInput)
morning =
    (0, user_changed (text "agent-a"))
    ∷ (0, unblock)
    ∷ (2_000, tick)
    ∷ (2_100, session_state true)
    ∷ (2_600, far_voice true)
    ∷ (3_000, session_state false)
    ∷ []

unfoldable answered : Detector
unfolding run
answered = (run (new default_vad) morning).0

morning_test :
    (run (new default_vad) morning).1
    ≡ unchanged ∷ now_unblocked ∷ unchanged ∷ Transition.armed ∷ call_started ∷ unchanged ∷ []
unfolding run new feed text_eq
morning_test = refl

run-new-Alternates_example :
    Alternates false
      (run (new default_vad) morning).1
      (in_record (run (new default_vad) morning).0.state)
run-new-Alternates_example = run-new-Alternates default_vad morning

-- The detector of the example above, in its last state.
abbrev in_a_call : Detector
in_a_call = record {
  cfg = default_vad;
  state = in_call;
  entered_at_ms = 2_600;
  now_ms = 3_000;
  last_transition_ms = 2_600;
  session_active = false;
  armed_speech_ms = 500;
  silence_ms = 0;
  block_reason = none;
  user_uid = some (text "agent-a");
  reopen_after_end = false;
  arm_exhausted = false;
}

answered_test : answered ≡ in_a_call
unfolding answered run new feed text_eq
answered_test = refl

in_a_call-Inv : Inv in_a_call
in_a_call-Inv = ground arith

silent_call_ends_example :
    (run in_a_call ((13_000, tick) ∷ (16_000, tick) ∷ (16_020, tick) ∷ [])).1
    ≡ wrap_started ∷ call_ended hangup ∷ unchanged ∷ []
silent_call_ends_example =
    (silent_call_ends in_a_call 13_000 16_000 16_020 in_a_call-Inv refl refl (omega arith)
      (omega arith) (omega arith)).0

abbrev segments : List (ℕ × Call)
segments =
    (500, segment true 1_000)
    ∷ (1_500, segment true 1_000)
    ∷ (2_500, segment true 1_000)
    ∷ (2_600, report)
    ∷ (3_500, segment true 400)
    ∷ []

suppressed_test : (Accounting.run (Foreign.new default_params) segments).1 ≡ 2_000
unfolding Accounting.run Foreign.new Foreign.step Foreign.take_event judge
suppressed_test = refl

classify_client_test : tier (classify 10 0 20_348 false x64) ≡ some CaptureTier.b
unfolding tier classify
classify_client_test = refl
