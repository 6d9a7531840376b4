-- ===== src/Backoff/Bounds.antt =====
-- How long the delays are.
use magick_sentinel.Prelude.{
  ℕ, zero, suc, ◌*◌, ◌^◌, ◌≤◌, ◌<◌, min, ◌≡◌, refl, ltb, if◌then◌else◌, arith, u64_mod, u32_mod,
}
use native.Mathlib.Nat.{pow-le-pow_right}
use magick_sentinel.Backoff.{Backoff, relaunch, ceiling, next_delay, reset}

-- The ceiling never passes the cap.
pub ceiling-le : (b : Backoff) → ceiling b ≤ b.max_delay
unfolding ceiling
ceiling-le b = omega arith

-- A delay never passes the ceiling of its attempt, nor that the cap, if the random draw stays
-- within its range and the cap fits u64.
pub next_delay-le :
    (draw : ℕ → ℕ) (b : Backoff)
    → ((c : ℕ) → draw c ≤ c)
    → b.max_delay < u64_mod
    → ((next_delay draw b).1 ≤ ceiling b) × (ceiling b ≤ b.max_delay)
unfolding next_delay
next_delay-le draw b h k = (ground (arith, ceiling-le b, h (ceiling b)), ceiling-le b)

pow_two-le : (k m : ℕ) → k ≤ m → 2 ^ k ≤ 2 ^ m
pow_two-le k m h = pow-le-pow_right (omega arith) h

pub ceiling-relaunch :
    (n : ℕ) → ceiling (record relaunch { attempt = n }) ≡ (if ltb n 6 then 1000 * 2 ^ n else 60_000)
unfolding ceiling
ceiling-relaunch zero = refl
ceiling-relaunch (suc zero) = refl
ceiling-relaunch (suc (suc zero)) = refl
ceiling-relaunch (suc (suc (suc zero))) = refl
ceiling-relaunch (suc (suc (suc (suc zero)))) = refl
ceiling-relaunch (suc (suc (suc (suc (suc zero))))) = refl
ceiling-relaunch (suc (suc (suc (suc (suc (suc n)))))) = ground (
  arith,
  pow_two-le 6 (min (suc (suc (suc (suc (suc (suc n)))))) 20) (omega arith),
  pow_two-le (min (suc (suc (suc (suc (suc (suc n)))))) 20) 20 (omega arith),
)

-- The backoff after `n` delays have been taken.
pub after : (ℕ → ℕ) → ℕ → Backoff → Backoff
after draw zero b = b
after draw (suc n) b = (next_delay draw (after draw n b)).0

after-attempt :
    (draw : ℕ → ℕ) (n : ℕ) → n < u32_mod → after draw n relaunch ≡ record relaunch { attempt = n }
unfolding after next_delay
after-attempt draw zero h = refl
after-attempt draw (suc n) h = rw (after-attempt draw n (omega arith)) (ground arith)

-- The relaunch policy waits 1, 2, 4, 8, 16 and 32 seconds and then 60 seconds for ever: the delay
-- after `n` others is 2^n seconds below six of them, and the cap from then on. A reset starts the
-- sequence again.
pub relaunch_delays :
    (draw : ℕ → ℕ) (n : ℕ)
    → n < u32_mod
    → ((next_delay draw (after draw n relaunch)).1 ≡ (if ltb n 6 then 1000 * 2 ^ n else 60_000))
      × (reset (after draw n relaunch) ≡ relaunch)
unfolding next_delay reset
relaunch_delays draw n h = rw (after-attempt draw n h) (ceiling-relaunch n, refl)
