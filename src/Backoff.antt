-- ===== src/Backoff.antt =====
-- Reconnect and relaunch backoff: client/sentinel-core/src/backoff.rs.
-- A `Duration` is a number of milliseconds, which is exact for every value in use; `Duration::MAX`
-- is just below 2^64 seconds. The random draw of the jitter is a function of its upper end.
pub mod Bounds
use magick_sentinel.Prelude.{
  ℕ, suc, ◌+◌, ◌*◌, ◌%◌, ◌^◌, min, Bool, true, false, Option, none, some, ltb, if◌then◌else◌,
  or_else, saturating_add_u32, u64_mod,
}

pub record Backoff : Type 0 where
  pub base : ℕ
  pub max_delay : ℕ  -- the field `cap`
  pub attempt : ℕ  -- u32
  pub jitter : Bool

abbrev pub uplink : Backoff
uplink = record { base = 1000; max_delay = 60_000; attempt = 0; jitter = true }

abbrev pub relaunch : Backoff
relaunch = record { base = 1000; max_delay = 60_000; attempt = 0; jitter = false }

-- `Duration::checked_mul`.
abbrev pub checked_mul : ℕ → ℕ → Option ℕ
checked_mul d k = if ltb (d * k) (u64_mod * 1000) then some (d * k) else none

unfoldable pub ceiling : Backoff → ℕ
ceiling b =
    let shift = min b.attempt 20 in
    min (or_else (checked_mul b.base (2 ^ shift)) b.max_delay) b.max_delay

-- `draw c` is what `gen_range(0..=c)` returns.
unfoldable pub next_delay : (ℕ → ℕ) → Backoff → Backoff × ℕ
next_delay draw b = (
  record b { attempt = saturating_add_u32 b.attempt 1 },
  if b.jitter then draw (ceiling b % u64_mod) else ceiling b,
)

unfoldable pub reset : Backoff → Backoff
reset b = record b { attempt = 0 }
