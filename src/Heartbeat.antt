-- ===== src/Heartbeat.antt =====
-- The body of a heartbeat: client/sentinel-agent/src/heartbeat.rs.
-- `sent_at` is in nanoseconds from 1970; the calendar behind an RFC 3339 stamp of a number of
-- milliseconds is a parameter, and times stay after 1970.
use magick_sentinel.Prelude.{ℕ, ◌-◌, ◌*◌, ◌/◌, ◌≤◌, Bool, Option, List, map, Text, text, arith}
use magick_sentinel.Events.{
  EventKind, ClientEvent, tier_downgrade, spool_eviction, device_lost, device_restored,
  agent_restart, capture_error, foreign_audio_suppressed,
}

pub record HeartbeatEvent : Type 0 where
  pub kind : Text
  pub at : Text
  pub count : Option ℕ
  pub detail : Option Text

pub record HeartbeatInputs : Type 0 where
  pub device_id : Text
  pub capture_state : Text
  pub capture_tier : Option Text
  pub os_build : Text
  pub agent_version : Text
  pub spool_depth : ℕ
  pub spool_bytes : ℕ
  pub last_call_at : Option Text
  pub dialer_session_active : Bool
  pub signed_in : Bool
  pub agent_restarts : ℕ
  pub pinned_device_present : Bool

pub record Heartbeat : Type 0 where
  pub inputs : HeartbeatInputs
  pub events : List HeartbeatEvent
  pub sent_at : Text

-- The names that serde gives in snake case.
unfoldable pub event_kind_str : EventKind → Text
event_kind_str tier_downgrade = text "tier_downgrade"
event_kind_str spool_eviction = text "spool_eviction"
event_kind_str device_lost = text "device_lost"
event_kind_str device_restored = text "device_restored"
event_kind_str agent_restart = text "agent_restart"
event_kind_str capture_error = text "capture_error"
event_kind_str foreign_audio_suppressed = text "foreign_audio_suppressed"

-- When an event happened, in milliseconds, from its clock reading; a difference that would be
-- negative is 0.
unfoldable pub happened_ms : ℕ → ℕ → ℕ → ℕ
happened_ms now_ms sent_at at_ms = (sent_at - (now_ms - at_ms) * 1000000) / 1000000

unfoldable pub event_body : (ℕ → Text) → ℕ → ℕ → ClientEvent → HeartbeatEvent
unfolding event_kind_str happened_ms
event_body rfc3339 now_ms sent_at e = record {
  kind = event_kind_str e.kind;
  at = rfc3339 (happened_ms now_ms sent_at e.at_ms);
  count = e.count;
  detail = e.detail;
}

-- The fields of the inputs are copied one by one.
unfoldable pub build : (ℕ → Text) → HeartbeatInputs → List ClientEvent → ℕ → ℕ → Heartbeat
unfolding event_body
build rfc3339 inputs events now_ms sent_at = record {
  inputs = inputs;
  events = map (event_body rfc3339 now_ms sent_at) events;
  sent_at = rfc3339 (sent_at / 1000000);
}

-- Of two events the one with the later clock reading is not reported as the earlier one, and none
-- is reported as later than the heartbeat.
pub happened_ms-le :
    (now_ms sent_at a b : ℕ)
    → a ≤ b
    → (happened_ms now_ms sent_at a ≤ happened_ms now_ms sent_at b)
      × (happened_ms now_ms sent_at b ≤ sent_at / 1000000)
unfolding happened_ms
happened_ms-le now_ms sent_at a b h = (omega (arith, h), omega arith)
