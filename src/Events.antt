-- ===== src/Events.antt =====
-- Client events for the heartbeat: client/sentinel-core/src/events.rs.
use magick_sentinel.Prelude.{ℕ, Option, none, some, Text}

pub data EventKind : Type 0 where
  tier_downgrade spool_eviction device_lost device_restored agent_restart capture_error : EventKind
  foreign_audio_suppressed : EventKind

pub record ClientEvent : Type 0 where
  pub kind : EventKind
  pub at_ms : ℕ
  pub count : Option ℕ
  pub detail : Option Text

abbrev pub new : EventKind → ℕ → ClientEvent
new kind at_ms = record { kind = kind; at_ms = at_ms; count = none; detail = none }

abbrev pub with_count : ClientEvent → ℕ → ClientEvent
with_count e count = record e { count = some count }

abbrev pub with_detail : ClientEvent → Text → ClientEvent
with_detail e detail = record e { detail = some detail }

abbrev pub count_of : Option ClientEvent → ℕ
count_of none = 0
count_of (some e) = elim e.count [ none ↦ 0 | some n ↦ n ]
