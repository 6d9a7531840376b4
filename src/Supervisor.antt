-- ===== src/Supervisor.antt =====
-- The agent watchdog: client/sentinel-service/src/supervisor.rs.
-- A `BTreeMap<u32, Slot>` is the list of its entries in ascending order of the keys.
pub mod Sessions
pub mod Poll
pub mod Restarts
use magick_sentinel.Prelude.{
  ℕ, ◌-◌, ◌*◌, ◌%◌, min, Bool, true, false, not, Option, none, some, List, [], ◌∷◌, map, ltb, leb,
  ◌==◌, if◌then◌else◌, or_else, saturating_add_u32, saturating_add_u64, keep, u64_mod,
}
use magick_sentinel.Backoff.{Backoff}
use magick_sentinel.Backoff

pub record Slot : Type 0 where
  pub running : Bool
  pub next_attempt_ms : ℕ
  pub backoff : Backoff
  pub started_ms : Option ℕ

pub data Action : Type 0 where
  launch : ℕ → Action
  idle : Option ℕ → Action

abbrev pub healthy_run_ms : ℕ
healthy_run_ms = 120_000

abbrev pub counter_reset_ms : ℕ
counter_reset_ms = 24 * 3_600_000

pub record Supervisor : Type 0 where
  pub sessions : List (ℕ × Slot)
  pub restarts : ℕ  -- u32
  pub counter_epoch_ms : ℕ

unfoldable pub new : ℕ → Supervisor
new now_ms = record { sessions = []; restarts = 0; counter_epoch_ms = now_ms }

-- `sessions.get(&id)`.
unfoldable pub get : ℕ → List (ℕ × Slot) → Option Slot
get id [] = none
get id ((k, s) ∷ rest) = if k == id then some s else get id rest

-- `sessions.entry(id).or_insert(slot)`.
unfoldable pub or_insert : ℕ → Slot → List (ℕ × Slot) → List (ℕ × Slot)
or_insert id slot [] = (id, slot) ∷ []
or_insert id slot ((k, s) ∷ rest) =
    let later = or_insert id slot rest in
    if k == id
    then (k, s) ∷ rest
    else if ltb id k
    then (id, slot) ∷ (k, s) ∷ rest
    else (k, s) ∷ later

-- A change through `sessions.get_mut(&id)`.
unfoldable pub modify : ℕ → (Slot → Slot) → List (ℕ × Slot) → List (ℕ × Slot)
modify id f [] = []
modify id f ((k, s) ∷ rest) = if k == id then (k, f s) ∷ rest else (k, s) ∷ modify id f rest

abbrev pub fresh_slot : ℕ → Slot
fresh_slot now_ms = record {
  running = false;
  next_attempt_ms = now_ms;
  backoff = Backoff.relaunch;
  started_ms = none;
}

unfoldable pub on_logon : Supervisor → ℕ → ℕ → Supervisor
on_logon s id now_ms = record s { sessions = or_insert id (fresh_slot now_ms) s.sessions }

unfoldable pub on_logoff : Supervisor → ℕ → Supervisor
on_logoff s id = record s { sessions = keep (λ e. not (e.0 == id)) s.sessions }

unfoldable pub on_launched : Supervisor → ℕ → ℕ → Supervisor
on_launched s id now_ms = record s {
  sessions =
      modify id (λ slot. record slot { running = true; started_ms = some now_ms }) s.sessions;
}

-- The backoff that the relaunch after an unexpected exit takes its delay from.
unfoldable pub backoff_at_exit : ℕ → Slot → Backoff
unfolding Backoff.reset
backoff_at_exit now_ms slot =
    if leb healthy_run_ms (now_ms - or_else slot.started_ms now_ms)
    then Backoff.reset slot.backoff
    else slot.backoff

-- The slot after the process has exited. The relaunch backoff draws no random number.
unfoldable pub exited_slot : ℕ → Bool → Slot → Slot
unfolding backoff_at_exit Backoff.next_delay
exited_slot now_ms expected slot =
    let (b, delay) = Backoff.next_delay (λ c. c) (backoff_at_exit now_ms slot) in
    if expected
    then record slot { running = false; started_ms = none; next_attempt_ms = now_ms }
    else record slot {
      running = false;
      started_ms = none;
      backoff = b;
      next_attempt_ms = saturating_add_u64 now_ms (delay % u64_mod);
    }

unfoldable pub on_exited : Supervisor → ℕ → ℕ → Bool → Supervisor
on_exited s id now_ms expected = elim (get id s.sessions) [
  | none ↦ s
  | some slot ↦ record s {
    sessions = modify id (exited_slot now_ms expected) s.sessions;
    restarts = if expected then s.restarts else saturating_add_u32 s.restarts 1;
  }
]

-- The loop of `poll`: `deadline` is the earliest one met so far.
unfoldable pub poll_loop : ℕ → Option ℕ → List (ℕ × Slot) → Action
poll_loop now_ms deadline [] = idle deadline
poll_loop now_ms deadline ((id, slot) ∷ rest) =
    let skip = poll_loop now_ms deadline rest in
    let wait =
      poll_loop now_ms
        (some (elim deadline [ none ↦ slot.next_attempt_ms | some d ↦ min d slot.next_attempt_ms ]))
        rest in
    if slot.running then skip else if leb slot.next_attempt_ms now_ms then launch id else wait

unfoldable pub reset_counter : Supervisor → ℕ → Supervisor
reset_counter s now_ms =
    if leb counter_reset_ms (now_ms - s.counter_epoch_ms)
    then record s { restarts = 0; counter_epoch_ms = now_ms }
    else s

unfoldable pub poll : Supervisor → ℕ → Supervisor × Action
unfolding poll_loop reset_counter
poll s now_ms = (reset_counter s now_ms, poll_loop now_ms none s.sessions)

unfoldable pub tracked_sessions : Supervisor → List ℕ
tracked_sessions s = map (λ e. e.0) s.sessions

abbrev pub running_slot : Option Slot → Bool
running_slot none = false
running_slot (some slot) = slot.running

unfoldable pub is_running : Supervisor → ℕ → Bool
is_running s id = running_slot (get id s.sessions)
