-- ===== src/Foreign/Accounting.antt =====
-- Which segments are marked foreign, and that all of them are reported.
use magick_sentinel.Prelude.{
  ℕ, ◌+◌, ◌-◌, ◌≤◌, ◌<◌, ◌≡◌, refl, ◌∙◌, Bool, true, false, not, is_some, or_else, arith, u64_mod,
  List, [], ◌∷◌, ◌↔◌,
}
use magick_sentinel.Events.{count_of}
use magick_sentinel.Foreign.{
  SuppressorParams, Suppressor, retain, mark_foreign, new, for_tier_a, judge, set_session_active,
  take_event, Call, session, segment, report, step,
}

-- The time of the last edge to inactive is kept exactly while the session is inactive.
abbrev pub Inv : Suppressor → Type 0
Inv s = is_some s.inactive_since_ms ≡ not s.session_active

-- In a state that keeps the edge time, a segment is marked foreign exactly when suppression is
-- on, the session is inactive and has been for the trailing grace, and the segment is voiced.
pub judge_iff :
    (s : Suppressor) (now duration : ℕ) (voiced : Bool)
    → Inv s
    → ((judge s now voiced duration).1 ≡ mark_foreign) ↔ (
        (s.enabled ≡ true)
        × (s.session_active ≡ false)
        × (s.params.trailing_grace_ms ≤ now - or_else s.inactive_since_ms 0)
        × (voiced ≡ true))
unfolding judge
judge_iff s now duration voiced h = (λ e. ground arith, λ (a, b, c, d). ground arith)

unfoldable pub run : Suppressor → List (ℕ × Call) → Suppressor × ℕ
run s [] = (s, 0)
run s (c ∷ cs) =
    let (s', e) = step s c in let (t, reported) = run s' cs in (t, count_of e + reported)

abbrev duration_of : Call → ℕ
duration_of (segment voiced duration) = duration
duration_of _ = 0

abbrev pub total : List (ℕ × Call) → ℕ
total [] = 0
total ((now, c) ∷ cs) = duration_of c + total cs

step-Inv : (s : Suppressor) (c : ℕ × Call) → Inv s → Inv (step s c).0
unfolding step judge set_session_active take_event
step-Inv s (now, session active) h = ground arith
step-Inv s (now, segment voiced duration) h = ground arith
step-Inv s (now, report) h = ground arith

run-Inv : (s : Suppressor) (cs : List (ℕ × Call)) → Inv s → Inv (run s cs).0
unfolding run
run-Inv s [] h = h
run-Inv s (c ∷ cs) h = run-Inv (step s c).0 cs (step-Inv s c h)

pub run-new-Inv : (params : SuppressorParams) (cs : List (ℕ × Call)) → Inv (run (new params) cs).0
unfolding new
run-new-Inv params cs = run-Inv (new params) cs refl

-- What one call adds to the total is either still unreported or in the event returned.
step_accounts :
    (s : Suppressor) (now : ℕ) (c : Call)
    → s.suppressed_ms + duration_of c < u64_mod
    → s.unreported_ms ≤ s.suppressed_ms
    → let (s', e) = step s (now, c) in
      (s'.suppressed_ms + s.unreported_ms ≡ s.suppressed_ms + s'.unreported_ms + count_of e)
      × (s'.suppressed_ms ≤ s.suppressed_ms + duration_of c)
      × (s'.unreported_ms ≤ s'.suppressed_ms)
unfolding step judge set_session_active take_event
step_accounts s now (session active) h k = ground arith
step_accounts s now (segment voiced duration) h k = ground arith
step_accounts s now report h k = ground arith

run_accounts :
    (s : Suppressor) (cs : List (ℕ × Call))
    → s.suppressed_ms + total cs < u64_mod
    → s.unreported_ms ≤ s.suppressed_ms
    → let (s', reported) = run s cs in
      s'.suppressed_ms + s.unreported_ms ≡ s.suppressed_ms + s'.unreported_ms + reported
unfolding run
run_accounts s [] h k = omega arith
run_accounts s ((now, c) ∷ cs) h k =
    let (a, b, d) = step_accounts s now c (omega arith) k in
    let rest = run_accounts (step s (now, c)).0 cs (omega arith) d in omega (arith, a, rest)

-- No suppressed audio goes unreported: over any calls of a new suppressor, the milliseconds
-- suppressed are those of the events returned plus those still below the reporting threshold or
-- not yet asked for, provided the total length of the segments fits u64.
pub run-new_accounts :
    (params : SuppressorParams) (cs : List (ℕ × Call))
    → total cs < u64_mod
    → let (s', reported) = run (new params) cs in s'.suppressed_ms ≡ s'.unreported_ms + reported
unfolding new
run-new_accounts params cs h =
    omega (arith, run_accounts (new params) cs (omega arith) (omega arith))

disabled_step :
    (s : Suppressor) (c : ℕ × Call)
    → s.enabled ≡ false
    → ((step s c).0.enabled ≡ false) × ((step s c).0.suppressed_ms ≡ s.suppressed_ms)
unfolding step judge set_session_active take_event
disabled_step s (now, session active) h = ground arith
disabled_step s (now, segment voiced duration) h = ground arith
disabled_step s (now, report) h = ground arith

disabled_run :
    (s : Suppressor) (cs : List (ℕ × Call))
    → s.enabled ≡ false
    → ((run s cs).0.enabled ≡ false) × ((run s cs).0.suppressed_ms ≡ s.suppressed_ms)
unfolding run
disabled_run s [] h = (h, refl)
disabled_run s (c ∷ cs) h =
    let (off, same) = disabled_step s c h in
    let (end, sum) = disabled_run (step s c).0 cs off in (end, cc (same, sum))

-- On tier A no segment is ever marked foreign, after any calls, and nothing is ever suppressed.
pub tier_a_keeps :
    (cs : List (ℕ × Call)) (now duration : ℕ) (voiced : Bool)
    → ((judge (run for_tier_a cs).0 now voiced duration).1 ≡ retain)
      × ((run for_tier_a cs).0.suppressed_ms ≡ 0)
unfolding judge
tier_a_keeps cs now duration voiced =
    let (off, none') = disabled_run for_tier_a cs (unfold for_tier_a in refl) in
    (ground arith, none' ∙ (unfold for_tier_a in refl))
