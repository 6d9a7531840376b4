-- ===== src/Examples/Shift.antt =====
-- What the widget and the reports show, and the configuration cache, on concrete runs.
use magick_sentinel.Prelude.{
  ℕ, ◌≡◌, refl, Bool, true, false, Option, none, some, is_some, List, [], ◌∷◌, text, text_eq, arith,
  ap, ◌==◌,
}
use magick_sentinel.ConfigSync.{Files, Outside, Format, open_store}
use magick_sentinel.ConfigSync.Cache.{refreshes, start, refreshes-start}
use magick_sentinel.Detector.{default_vad, Detector, CallState, in_record}
use magick_sentinel.Detector
use magick_sentinel.Pipeline
use magick_sentinel.Pipeline.Step.{got, device_invalidated}
use magick_sentinel.Startup.{tier_b}
use magick_sentinel.Agent.{Agent, on_signed_in, run_capture}
use magick_sentinel.Agent.Status.{widget_state}
use magick_sentinel.Agent.Showing.{run_capture_shows, user_change_hides_call}
use magick_sentinel.Examples.Recording.{talking, opened, listening-IsTimed, users_differ}
use magick_sentinel.Examples.Agents.{reporting, offline}

abbrev listening_agent : Agent
listening_agent = record reporting { pipeline = some opened }

abbrev talking_agent : Agent
talking_agent = record reporting { pipeline = some talking }

run_capture_shows_example :
    let a =
      (run_capture offline true
        (some opened)
        (some (got (7 ∷ 8 ∷ []), device_invalidated))
        listening_agent).0 in
    let shown = widget_state (some tier_b) a 10 in shown.recording ≡ is_some shown.call_id
unfolding Pipeline.on_session_state Pipeline.tell Pipeline.new Detector.feed in_record
run_capture_shows_example =
    run_capture_shows (some tier_b) offline listening_agent 10 opened (got (7 ∷ 8 ∷ []))
      device_invalidated refl listening-IsTimed refl

user_change_hides_call_example :
    ((widget_state (some tier_b) talking_agent 10).recording ≡ true)
    × ((widget_state (some tier_b) (on_signed_in talking_agent (text "user-2")) 10).recording
        ≡ false)
    × ((widget_state (some tier_b) (on_signed_in talking_agent (text "user-2")) 10).call_id
        ≡ some (text "01CALL"))
unfolding Pipeline.on_session_state Pipeline.tell Pipeline.new Detector.feed in_record
user_change_hides_call_example =
    user_change_hides_call (some tier_b) talking_agent 10 talking (text "01CALL") (text "user-1")
      (text "user-2") refl refl refl refl (λ e. users_differ (ap (text_eq (text "user-1")) e))

abbrev one_number : Format ℕ
one_number = record { print = λ n. n ∷ []; parse = λ s. elim s [ [] ↦ none | n ∷ s ↦ some n ] }

-- Configurations and policies are numbers here.
abbrev outside : Outside ℕ ℕ
outside = record {
  local_format = one_number;
  policy_format = one_number;
  default_config = 0;
  eq = λ m n. m == n;
}

-- A policy that cannot be written, one that is, and a server that does not answer.
abbrev day : List (Bool × Option ℕ)
day = (false, some 5) ∷ (true, some 6) ∷ (true, none) ∷ []

abbrev installed_files : Files
installed_files = record { config = none; policy = some (4 ∷ []) }

refreshes-start_example :
    let (c, files) = refreshes outside day (start outside true (some 7) installed_files) in
    (open_store outside (some 7) files ≡ c) × (c.policy ≡ some 6) × (c.local ≡ 7)
unfolding open_store
refreshes-start_example =
    refreshes-start outside true (some 7) installed_files day (λ n. refl) (λ n. refl)
      (λ m n e. ground (arith, e))
