-- ===== src/Examples/Service.antt =====
-- The service side on concrete runs: the backoff, the watchdog and the resume point.
use magick_sentinel.Prelude.{true, false, none, some}
use magick_sentinel.Backoff.{relaunch}
use magick_sentinel.Supervisor.{Slot}

abbrev waiting : Slot
waiting = record { running = false; next_attempt_ms = 9_000; backoff = relaunch; started_ms = none }

abbrev running : Slot
running = record waiting { running = true; started_ms = some 1_000 }
