-- ===== src/Detector/Timing.antt =====
-- When calls open and close.
use magick_sentinel.Prelude.{
  ℕ, ◌+◌, ◌-◌, ◌≤◌, ◌<◌, ◌≡◌, Bool, true, false, arith, [], ◌∷◌, Text, u64_mod,
}
use magick_sentinel.Detector.{
  CallState, idle, in_call, wrap, finalize, Detector, DetectorInput, far_voice, tick, user_changed,
  unchanged, call_started, wrap_started, call_ended, EndReason, hangup, feed, in_record, same_user,
}
use magick_sentinel.Detector.Invariant.{Inv, run}

-- A transition that opens, suspends or ends a call has its cause. A call opens only out of the
-- armed state, once the far speech has reached the configured amount. A hangup is suspected only
-- in a call with the session inactive, after the hangup silence and the debounce time. A call ends
-- as hung up only out of the wrap state, the session inactive and the wrap time passed.
pub transition_guards :
    (d : Detector) (now : ℕ) (i : DetectorInput)
    → let (d', t) = feed d now i in
      (t ≡ call_started
        → (d.state ≡ CallState.armed)
          × (d.cfg.speech_ms_to_confirm ≤ d'.armed_speech_ms)
          × (d'.state ≡ in_call))
      × (t ≡ wrap_started
          → (d.state ≡ in_call)
            × (d'.session_active ≡ false)
            × (d.cfg.hangup_silence_ms ≤ d'.silence_ms)
            × (d.cfg.debounce_ms ≤ now - d.last_transition_ms))
      × (t ≡ call_ended hangup
          → (d.state ≡ wrap)
            × (d'.session_active ≡ false)
            × (d.cfg.wrap_ms ≤ now - d.entered_at_ms))
unfolding feed
transition_guards d now i = (λ e. ground arith, λ e. ground arith, λ e. ground arith)

first_tick :
    (d : Detector) (t1 : ℕ)
    → Inv d
    → d.state ≡ in_call
    → d.session_active ≡ false
    → d.now_ms + d.cfg.debounce_ms + d.cfg.hangup_silence_ms ≤ t1
    → t1 < u64_mod
    → let (d', t) = feed d t1 tick in
      (t ≡ wrap_started)
      × (d'.state ≡ wrap)
      × (d'.session_active ≡ false)
      × (d'.entered_at_ms ≡ t1)
      × (d'.cfg.wrap_ms ≡ d.cfg.wrap_ms)
unfolding feed
first_tick d t1 v h s k b = ground arith

second_tick :
    (d : Detector) (t2 : ℕ)
    → d.state ≡ wrap
    → d.session_active ≡ false
    → d.entered_at_ms + d.cfg.wrap_ms ≤ t2
    → let (d', t) = feed d t2 tick in
      (t ≡ call_ended hangup) × (d'.state ≡ finalize) × (d'.session_active ≡ false)
unfolding feed
second_tick d t2 h s k = ground arith

third_tick :
    (d : Detector) (t3 : ℕ)
    → d.state ≡ finalize
    → d.session_active ≡ false
    → let (d', t) = feed d t3 tick in (t ≡ unchanged) × (d'.state ≡ idle)
unfolding feed
third_tick d t3 h s = ground arith

-- A call whose session is inactive does end: a tick after the debounce time and the hangup
-- silence suspects the hangup, a tick after the wrap time ends the call, and the next tick leaves
-- the detector idle.
pub silent_call_ends :
    (d : Detector) (t1 t2 t3 : ℕ)
    → Inv d
    → d.state ≡ in_call
    → d.session_active ≡ false
    → d.now_ms + d.cfg.debounce_ms + d.cfg.hangup_silence_ms ≤ t1
    → t1 + d.cfg.wrap_ms ≤ t2
    → t1 < u64_mod
    → ((run d ((t1, tick) ∷ (t2, tick) ∷ (t3, tick) ∷ [])).1
        ≡ wrap_started ∷ call_ended hangup ∷ unchanged ∷ [])
      × ((run d ((t1, tick) ∷ (t2, tick) ∷ (t3, tick) ∷ [])).0.state ≡ idle)
unfolding run
silent_call_ends d t1 t2 t3 v h s k1 k2 b =
    let (q1, q2, q3, q4, q5) = first_tick d t1 v h s k1 b in
    let (r1, r2, r3) = second_tick (feed d t1 tick).0 t2 q2 q3 (omega (arith, q4, q5)) in
    let (u1, u2) = third_tick (feed (feed d t1 tick).0 t2 tick).0 t3 r2 r3 in (cc (q1, r1, u1), u2)

-- When another user signs in during a call, the call is closed for the old user; and though the
-- session is active, the detector then stays idle on every tick and voice reading that comes
-- before the debounce time has passed: the new call does not open immediately.
pub reopen_waits :
    (d : Detector) (now later : ℕ) (uid : Text) (voiced : Bool)
    → in_record d.state ≡ true
    → d.session_active ≡ true
    → same_user d.user_uid uid ≡ false
    → later - now < d.cfg.debounce_ms
    → let (d', t) = feed d now (user_changed uid) in
      (t ≡ call_ended EndReason.signed_out)
      × (d'.reopen_after_end ≡ true)
      × ((feed d' later tick).1 ≡ unchanged)
      × ((feed d' later tick).0.state ≡ idle)
      × ((feed d' later (far_voice voiced)).1 ≡ unchanged)
      × ((feed d' later (far_voice voiced)).0.state ≡ idle)
unfolding feed
reopen_waits d now later uid voiced h s u k = ground arith
