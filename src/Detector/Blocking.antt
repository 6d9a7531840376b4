-- ===== src/Detector/Blocking.antt =====
-- While capture is blocked nothing is recorded, and a timed-out arm does not spin.
use magick_sentinel.Prelude.{ℕ, ◌≡◌, Bool, true, false, arith, List, [], ◌∷◌, All}
use magick_sentinel.Detector.{
  idle, blocked, Detector, DetectorInput, session_state, block, unblock, Transition, unchanged,
  now_blocked, feed,
}
use magick_sentinel.Detector.Invariant.{run}

abbrev pub is_unblock : DetectorInput → Bool
is_unblock unblock = true
is_unblock _ = false

-- Neither a record nor an arm is begun or ended.
abbrev pub is_quiet : Transition → Bool
is_quiet unchanged = true
is_quiet (now_blocked reason) = true
is_quiet _ = false

blocked_step :
    (d : Detector) (now : ℕ) (i : DetectorInput)
    → d.state ≡ blocked
    → is_unblock i ≡ false
    → ((feed d now i).0.state ≡ blocked) × (is_quiet (feed d now i).1 ≡ true)
unfolding feed
blocked_step d now i h u = ground arith

-- A blocked detector stays blocked, and neither arms nor opens nor closes a record, over any
-- observations among which no `unblock` stands.
pub blocked_run :
    (d : Detector) (inputs : List (ℕ × DetectorInput))
    → d.state ≡ blocked
    → All (λ e. is_unblock e.1 ≡ false) inputs
    → ((run d inputs).0.state ≡ blocked) × All (λ t. is_quiet t ≡ true) (run d inputs).1
unfolding run
blocked_run d [] h all = (h, tt)
blocked_run d ((now, i) ∷ rest) h (u, all) =
    let (still, quiet) = blocked_step d now i h u in
    let (end, quiets) = blocked_run (feed d now i).0 rest still all in (end, (quiet, quiets))

-- The observations by which the softphone session stays active and capture is not blocked.
abbrev pub keeps_session : DetectorInput → Bool
keeps_session (session_state active) = active
keeps_session (block reason) = false
keeps_session _ = true

exhausted_step :
    (d : Detector) (now : ℕ) (i : DetectorInput)
    → d.state ≡ idle
    → d.arm_exhausted ≡ true
    → keeps_session i ≡ true
    → ((feed d now i).0.state ≡ idle)
      × ((feed d now i).0.arm_exhausted ≡ true)
      × ((feed d now i).1 ≡ unchanged)
unfolding feed
exhausted_step d now i h x k = ground arith

-- After an arm has timed out, the detector does not arm again, whatever is heard and however long
-- it takes, until the session goes inactive or capture is blocked.
pub exhausted_run :
    (d : Detector) (inputs : List (ℕ × DetectorInput))
    → d.state ≡ idle
    → d.arm_exhausted ≡ true
    → All (λ e. keeps_session e.1 ≡ true) inputs
    → ((run d inputs).0.state ≡ idle) × All (λ t. t ≡ unchanged) (run d inputs).1
unfolding run
exhausted_run d [] h x all = (h, tt)
exhausted_run d ((now, i) ∷ rest) h x (k, all) =
    let (still, kept, same) = exhausted_step d now i h x k in
    let (end, sames) = exhausted_run (feed d now i).0 rest still kept all in (end, (same, sames))
