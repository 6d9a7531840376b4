-- ===== src/Examples/Shell.antt =====
-- Telemetry and the loop of the service on concrete values.
use magick_sentinel.Prelude.{
  ℕ, ◌≡◌, ◌↔◌, ◌⊎◌, inl, inr, refl, true, false, Bool, none, List, [], ◌∷◌, ◌+◌, ◌==◌, Text, text,
  text_eq, arith,
}
use magick_sentinel.Telemetry.{
  Event, info, of_str, of_u64, Record, record_of, new, stop, drop_layer, run, Step, step,
  export_pass, flush, note_drops, emit, pass, target, attribute_permitted, drop_notice,
  to_ascii_lowercase, last_segment, last_of,
}
use magick_sentinel.Telemetry.Redaction.{AllPermitted, record_of_redacts}
use magick_sentinel.Telemetry.Accounting.{placed, emitted, run_places}
use magick_sentinel.Telemetry.Ending.{stop_needs_layer, export_passes}
use magick_sentinel.Update.{split_dots}
use magick_sentinel.Tier.{x64, tier, classify}
use magick_sentinel.Watch.{
  tier_of_build, Pass, session_logon, session_logoff, Received, event, timeout, passes, start,
}
use magick_sentinel.Watch.Tiers.{tier_name, tier_of_build_iff}
use magick_sentinel.Watch.Processes.{IsMatched, passes-start-IsMatched}

-- An event with an account reference.
abbrev about : Text → Event
about account = record {
  event_target = target;
  name = text "call";
  level = info;
  fields =
      (text "call.Account_Ref", of_str account)
      ∷ (text "spool_depth", of_u64 3)
      ∷ (text "message", of_str (text "done"))
      ∷ [];
}

account_forbidden : attribute_permitted (text "call.Account_Ref") ≡ false
unfolding attribute_permitted to_ascii_lowercase last_segment last_of split_dots text_eq
account_forbidden = refl

record_of_redacts_example :
    (record_of 5 (about (text "LN-1")) ≡ record_of 5 (about (text "LN-2")))
    × AllPermitted (record_of 5 (about (text "LN-1"))).attributes
record_of_redacts_example =
    record_of_redacts 5 (about (text "LN-1")) (about (text "LN-2")) refl refl
      (refl, inr account_forbidden, (refl, inl refl, (refl, inl refl, tt)))

abbrev steps : List Step
steps =
    emit 1 (about (text "a"))
    ∷ pass 2 true
    ∷ emit 3 (about (text "b"))
    ∷ pass 4 true
    ∷ pass 5 false
    ∷ emit 6 (about (text "c"))
    ∷ []

abbrev is_call : Record → Bool
is_call r = text_eq r.body (text "done")

notice_differs : (now count : ℕ) → is_call (drop_notice now count) ≡ false
unfolding drop_notice text_eq
notice_differs now count = refl

run_places_example : placed is_call (run steps new) ≡ placed is_call new + emitted is_call steps new
run_places_example = run_places is_call notice_differs steps new

stop_needs_layer_example :
    let e = run (pass 2 false ∷ []) (stop (run (pass 1 true ∷ []) new)) in
    (e.stopped ≡ false)
    × ((run (export_passes 9 (true ∷ [])) (drop_layer e)).stopped ≡ true)
    × ((run (export_passes 9 (true ∷ [])) (drop_layer e)).batch ≡ [])
unfolding run step export_pass flush note_drops stop new
stop_needs_layer_example =
    stop_needs_layer (pass 1 true ∷ []) (pass 2 false ∷ []) 9 (true ∷ []) (omega arith)

tier_of_build_iff_example :
    (tier_name (tier (classify 10 0 22631 false x64)) ≡ tier_of_build 22631 false)
    ↔ ((◌≡◌ {A = Bool} true true) ⊎ (tier_of_build 22631 false ≡ none))
tier_of_build_iff_example = tier_of_build_iff 0 22631 false x64

abbrev pass_with : Received → ℕ → Pass
pass_with received now = record {
  has_exited = λ id. id == 3;
  stop_requested = false;
  reaped_ms = now;
  polled_ms = now;
  launches = true;
  launched_ms = now;
  failed_ms = now;
  received = received;
  received_ms = now;
  stopping = false;
}

-- A session logs on, its agent is launched, exits and is launched again, and it logs off.
abbrev day_at_work : List Pass
day_at_work =
    pass_with (event (session_logon 3)) 10
    ∷ pass_with timeout 20
    ∷ pass_with timeout 2000
    ∷ pass_with (event (session_logoff 3)) 4000
    ∷ []

passes-start-IsMatched_example : IsMatched (passes day_at_work (start 0))
passes-start-IsMatched_example = passes-start-IsMatched 0 day_at_work
