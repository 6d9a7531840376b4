-- ===== src/Detector/Invariant.antt =====
-- What holds of the detector between two observations.
use magick_sentinel.Prelude.{
  ℕ, ◌≤◌, ◌<◌, ◌≡◌, Bool, true, false, is_some, arith, u64_mod, List, [], ◌∷◌,
}
use magick_sentinel.Detector.{
  VadConfig, CallState, blocked, Detector, DetectorInput, Transition, new, feed, evaluate,
}

abbrev pub is_blocked : CallState → Bool
is_blocked blocked = true
is_blocked _ = false

pub record Inv (d : Detector) : Type 0 where
  pub entered_past : d.entered_at_ms ≤ d.now_ms
  pub entered_by_transition : d.last_transition_ms ≡ d.entered_at_ms
  pub speech_past : d.armed_speech_ms ≤ d.now_ms
  pub silence_past : d.silence_ms ≤ d.now_ms
  pub reason_known : is_some d.block_reason ≡ is_blocked d.state

pub new-Inv : (cfg : VadConfig) → Inv (new cfg)
unfolding new
new-Inv cfg = ground arith

evaluate-Inv : (d : Detector) → Inv d → Inv (evaluate d).0
unfolding evaluate
evaluate-Inv d v = ground arith

-- Every observation on a clock that does not run backwards keeps the invariant. So the two
-- accumulators never exceed the clock and their u64 sums never wrap, the debounce clock is the
-- entry time of the state, and a block reason is set exactly in the blocked state.
pub feed-Inv :
    (d : Detector) (now : ℕ) (input : DetectorInput)
    → Inv d
    → d.now_ms ≤ now
    → now < u64_mod
    → Inv (feed d now input).0
unfolding feed
feed-Inv d now input v h k = ground arith

-- A list of readings whose clock starts at `t`, does not run backwards and fits u64.
abbrev pub IsTimed : ℕ → List (ℕ × DetectorInput) → Type 0
IsTimed t [] = Unit {0}
IsTimed t ((now, input) ∷ rest) = (t ≤ now) × (now < u64_mod) × IsTimed now rest

-- The transitions that a list of observations returns, and the state after it.
unfoldable pub run : Detector → List (ℕ × DetectorInput) → Detector × List Transition
run d [] = (d, [])
run d ((now, input) ∷ rest) =
    let (d', t) = feed d now input in let (e, ts) = run d' rest in (e, t ∷ ts)

feed-now_ms : (d : Detector) (now : ℕ) (i : DetectorInput) → (feed d now i).0.now_ms ≡ now
unfolding feed
feed-now_ms d now i = ground arith

run-Inv :
    (d : Detector) (inputs : List (ℕ × DetectorInput))
    → Inv d
    → IsTimed d.now_ms inputs
    → Inv (run d inputs).0
unfolding run
run-Inv d [] v h = v
run-Inv d ((now, i) ∷ rest) v (h, k, t) =
    run-Inv (feed d now i).0 rest (feed-Inv d now i v h k) (rw (feed-now_ms d now i) t)

-- The invariant holds after any history of a new detector over a monotonic u64 clock.
pub run-new-Inv :
    (cfg : VadConfig) (inputs : List (ℕ × DetectorInput))
    → IsTimed 0 inputs
    → Inv (run (new cfg) inputs).0
run-new-Inv cfg inputs h = run-Inv (new cfg) inputs (new-Inv cfg) (unfold new in h)
