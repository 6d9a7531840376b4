-- ===== src/Foreign.antt =====
-- Foreign-audio suppression: client/sentinel-capture/src/foreign.rs.
pub mod Accounting
use magick_sentinel.Prelude.{
  ℕ, ◌-◌, Bool, true, false, not, ◌&&◌, Option, none, some, ltb, if◌then◌else◌, add_u64, text, List,
  [], ◌∷◌,
}
use magick_sentinel.Events.{ClientEvent, foreign_audio_suppressed}
use magick_sentinel.Events

pub record SuppressorParams : Type 0 where
  pub trailing_grace_ms : ℕ
  pub leading_grace_ms : ℕ
  pub report_after_ms : ℕ

abbrev pub default_params : SuppressorParams
default_params = record {
  trailing_grace_ms = 1_500;
  leading_grace_ms = 1_000;
  report_after_ms = 2_000;
}

-- `Decision::Keep` is `retain`.
pub data Decision : Type 0 where
  retain mark_foreign : Decision

pub record Suppressor : Type 0 where
  pub params : SuppressorParams
  pub enabled : Bool
  pub session_active : Bool
  pub inactive_since_ms : Option ℕ
  pub active_since_ms : Option ℕ
  pub suppressed_ms : ℕ
  pub unreported_ms : ℕ

unfoldable pub new : SuppressorParams → Suppressor
new params = record {
  params = params;
  enabled = true;
  session_active = false;
  inactive_since_ms = some 0;
  active_since_ms = none;
  suppressed_ms = 0;
  unreported_ms = 0;
}

unfoldable pub for_tier_a : Suppressor
unfolding new
for_tier_a = record (new default_params) { enabled = false }

abbrev same : Bool → Bool → Bool
same true b = b
same false b = not b

unfoldable pub set_session_active : Suppressor → ℕ → Bool → Suppressor
set_session_active s now_ms active =
    if same active s.session_active
    then s
    else if active
    then record s { session_active = true; active_since_ms = some now_ms; inactive_since_ms = none }
    else record s {
      session_active = false;
      inactive_since_ms = some now_ms;
      active_since_ms = none;
    }

-- Within the trailing grace of the edge to inactive.
unfoldable pub in_grace : Suppressor → ℕ → Bool
in_grace s now_ms = elim s.inactive_since_ms [
  | none ↦ false
  | some since ↦ ltb (now_ms - since) s.params.trailing_grace_ms
]

unfoldable pub judge : Suppressor → ℕ → Bool → ℕ → Suppressor × Decision
unfolding in_grace
judge s now_ms voiced duration_ms =
    if not s.enabled
    then (s, retain)
    else if s.session_active
    then (s, retain)
    else if in_grace s now_ms
    then (s, retain)
    else if not voiced
    then (s, retain)
    else (
      record s {
        suppressed_ms = add_u64 s.suppressed_ms duration_ms;
        unreported_ms = add_u64 s.unreported_ms duration_ms;
      },
      mark_foreign,
    )

unfoldable pub hold_ms : Suppressor → ℕ
hold_ms s = if s.enabled then s.params.leading_grace_ms else 0

unfoldable pub take_event : Suppressor → ℕ → Suppressor × Option ClientEvent
take_event s now_ms = if ltb s.unreported_ms s.params.report_after_ms then (s, none) else (
  record s { unreported_ms = 0 },
  some (
      Events.with_detail
        (Events.with_count (Events.new foreign_audio_suppressed now_ms) s.unreported_ms)
        (text "loopback energy while the softphone session was inactive")),
)

pub data Call : Type 0 where
  session : Bool → Call
  segment : Bool → ℕ → Call
  report : Call

-- One call at a time: the new state, and the event if it made one.
unfoldable pub step : Suppressor → ℕ × Call → Suppressor × Option ClientEvent
step s (now, session active) = (set_session_active s now active, none)
step s (now, segment voiced duration) = ((judge s now voiced duration).0, none)
step s (now, report) = take_event s now
