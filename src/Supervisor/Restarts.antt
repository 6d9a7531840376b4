-- ===== src/Supervisor/Restarts.antt =====
-- What an exit costs: the restart counter and the relaunch delay.
use magick_sentinel.Prelude.{
  ℕ, ◌+◌, ◌-◌, ◌*◌, ◌^◌, ◌<◌, ◌≤◌, ◌≡◌, Bool, true, false, none, some, ltb, ◌==◌, if◌then◌else◌,
  arith, u32_mod, u64_mod, saturating_add_u32,
}
use magick_sentinel.Backoff.{relaunch, ceiling}
use magick_sentinel.Backoff.Bounds.{ceiling-le, ceiling-relaunch}
use magick_sentinel.Supervisor.{
  Slot, Supervisor, get, on_exited, on_launched, exited_slot, backoff_at_exit, healthy_run_ms,
}
use magick_sentinel.Supervisor.Sessions.{get-modify}

abbrev pub slot_after : ℕ → Bool → Slot → Slot
slot_after now expected slot =
    let b = backoff_at_exit now slot in
    record slot {
      running = false;
      started_ms = none;
      next_attempt_ms = if expected then now else now + ceiling b;
      backoff =
          if expected then slot.backoff else record b { attempt = saturating_add_u32 b.attempt 1 };
    }

exited_slot_lem :
    (now : ℕ) (expected : Bool) (slot : Slot)
    → now + slot.backoff.max_delay < u64_mod
    → slot.backoff.jitter ≡ false
    → exited_slot now expected slot ≡ slot_after now expected slot
unfolding exited_slot
exited_slot_lem now expected slot h j =
    ground (arith, ceiling-le slot.backoff, ceiling-le (record slot.backoff { attempt = 0 }))

-- After an unexpected exit of a tracked agent no agent runs in its session, the restart is
-- counted (the counter saturates), and the next attempt waits the delay of the slot's backoff:
-- that of the first attempt if the agent had run for the healthy time. An expected exit is not
-- counted and makes the session due at once. Other sessions are left alone in both cases.
pub on_exited_effect :
    (s : Supervisor) (id now : ℕ) (expected : Bool) (slot : Slot)
    → get id s.sessions ≡ some slot
    → now + slot.backoff.max_delay < u64_mod
    → slot.backoff.jitter ≡ false
    → let s' = on_exited s id now expected in
      (get id s'.sessions ≡ some (slot_after now expected slot))
      × (s'.restarts ≡ (if expected then s.restarts else saturating_add_u32 s.restarts 1))
      × ((j : ℕ) → (id == j) ≡ false → get j s'.sessions ≡ get j s.sessions)
unfolding on_exited
on_exited_effect s id now expected slot e h j = (
  ground (
    arith,
    exited_slot_lem now expected slot h j,
    get-modify id id (exited_slot now expected) s.sessions,
  ),
  ground arith,
  λ i n. ground (arith, get-modify i id (exited_slot now expected) s.sessions),
)

-- An agent that is launched and dies before the healthy time, again and again, is relaunched
-- ever later: after `n` such deaths the next one at `died` postpones the next attempt by 2^n
-- seconds below six of them and by a minute from then on, and raises the number of attempts by one.
-- After a healthy run the delay is one second again.
pub crash_delay :
    (s : Supervisor) (id n launched died : ℕ) (slot : Slot)
    → get id s.sessions ≡ some slot
    → slot.backoff ≡ record relaunch { attempt = n }
    → n + 1 < u32_mod
    → died + 60_000 < u64_mod
    → let s' = on_exited (on_launched s id launched) id died false in
      (died - launched < healthy_run_ms
        → (after : Slot) × (get id s'.sessions ≡ some after)
          × (after.next_attempt_ms ≡ died + (if ltb n 6 then 1000 * 2 ^ n else 60_000))
          × (after.backoff ≡ record relaunch { attempt = n + 1 }))
      × (healthy_run_ms ≤ died - launched
          → (after : Slot) × (get id s'.sessions ≡ some after)
            × (after.next_attempt_ms ≡ died + 1000)
            × (after.backoff ≡ record relaunch { attempt = 1 }))
unfolding on_launched backoff_at_exit
crash_delay s id n launched died slot e b hn hd = (
  λ quick. (slot_after died false up, effect, ground (arith, ceiling-relaunch n), ground arith),
  λ healthy. (slot_after died false up, effect, ground (arith, ceiling-relaunch 0), ground arith),
)
  where
    up : Slot
    up = record slot { running = true; started_ms = some launched }

    tracked : get id (on_launched s id launched).sessions ≡ some up
    tracked = ground (
      arith,
      get-modify id id (λ slot. record slot { running = true; started_ms = some launched })
          s.sessions,
    )

    effect :
        get id (on_exited (on_launched s id launched) id died false).sessions
        ≡ some (slot_after died false up)
    effect =
        (on_exited_effect (on_launched s id launched) id died false up tracked (ground arith)
          (ground arith)).0
