-- ===== src/Detector/Calls.antt =====
-- Calls are bracketed: which transitions open and close a record.
use magick_sentinel.Prelude.{ℕ, ◌≡◌, refl, Bool, true, false, not, arith, List, [], ◌∷◌}
use magick_sentinel.Detector.{
  VadConfig, Detector, DetectorInput, Transition, call_started, call_ended, new, feed, in_record,
}
use magick_sentinel.Detector.Invariant.{run}

-- Whether a record is open after a transition, if it was open before as given.
abbrev pub open_after : Bool → Transition → Bool
open_after b call_started = true
open_after b (call_ended reason) = false
open_after b _ = b

-- A transition that opens a record needs none open, and one that closes it needs one open.
abbrev pub allowed : Bool → Transition → Bool
allowed b call_started = not b
allowed b (call_ended reason) = b
allowed b _ = true

-- One observation opens a record only if none is open and closes one only if one is open, and
-- the new state is one of an open record exactly as the transition returned says.
pub feed_brackets :
    (d : Detector) (now : ℕ) (input : DetectorInput)
    → (allowed (in_record d.state) (feed d now input).1 ≡ true)
      × (in_record (feed d now input).0.state ≡ open_after (in_record d.state) (feed d now input).1)
unfolding feed in_record
feed_brackets d now input = ground arith

-- The starts and ends in a list of transitions alternate, from a record that is open as first
-- given to one that is open as last given.
abbrev pub Alternates : Bool → List Transition → Bool → Type 0
Alternates b [] e = b ≡ e
Alternates b (t ∷ ts) e = (allowed b t ≡ true) × Alternates (open_after b t) ts e

run-Alternates :
    (d : Detector) (inputs : List (ℕ × DetectorInput))
    → Alternates (in_record d.state) (run d inputs).1 (in_record (run d inputs).0.state)
unfolding run
run-Alternates d [] = refl
run-Alternates d ((now, i) ∷ rest) =
    let (ok, next) = feed_brackets d now i in
    (ok, rw next at (run-Alternates (feed d now i).0 rest))

-- Over any history of a new detector, call starts and call ends alternate, a start first, and a
-- record is open at the end exactly in the states of an open record.
pub run-new-Alternates :
    (cfg : VadConfig) (inputs : List (ℕ × DetectorInput))
    → Alternates false (run (new cfg) inputs).1 (in_record (run (new cfg) inputs).0.state)
unfolding new in_record
run-new-Alternates cfg inputs = run-Alternates (new cfg) inputs
