-- ===== src/Supervisor/Poll.antt =====
-- What `poll` decides.
use magick_sentinel.Prelude.{
  ℕ, ◌<◌, ◌≤◌, min, ◌≡◌, true, false, Option, none, some, [], ◌∷◌, leb, arith, ◌⊎◌, inl, inr,
  Bool-cases,
}
use mathlib.Core.Path.{subst}
use magick_sentinel.Supervisor.{Slot, Supervisor, launch, idle, get, poll, poll_loop}
use magick_sentinel.Supervisor.Sessions.{Table, IsSorted, Above}

-- Nothing to do for the slot at `now`, and its deadline is `d` or later.
abbrev pub Waits : ℕ → Slot → Option ℕ → Type 0
Waits now slot none = slot.running ≡ true
Waits now slot (some d) =
    (slot.running ≡ true) ⊎ ((now < slot.next_attempt_ms) × (d ≤ slot.next_attempt_ms))

abbrev pub AllWait : ℕ → Table → Option ℕ → Type 0
AllWait now [] d = Unit {0}
AllWait now ((k, s) ∷ rest) d = Waits now s d × AllWait now rest d

-- `none` is later than every deadline.
abbrev NoLater : Option ℕ → Option ℕ → Type 0
NoLater d none = Unit {0}
NoLater none (some x) = ⊥
NoLater (some d) (some x) = d ≤ x

loop_idle :
    (now : ℕ) (deadline : Option ℕ) (m : Table) (d : Option ℕ)
    → poll_loop now deadline m ≡ idle d
    → NoLater d deadline × AllWait now m d
unfolding poll_loop
loop_idle now none [] d e = (tt, tt)
loop_idle now (some x) [] none e = cc
loop_idle now (some x) [] (some d) e = (ground arith, tt)
loop_idle now none ((k, s) ∷ rest) none e =
    ground (arith, loop_idle now none rest none, loop_idle now (some s.next_attempt_ms) rest none)
loop_idle now none ((k, s) ∷ rest) (some d) e =
    ground (
      arith,
      loop_idle now none rest (some d),
      loop_idle now (some s.next_attempt_ms) rest (some d),
    )
loop_idle now (some x) ((k, s) ∷ rest) none e = ground (
  arith,
  loop_idle now (some x) rest none,
  loop_idle now (some (min x s.next_attempt_ms)) rest none,
)
loop_idle now (some x) ((k, s) ∷ rest) (some d) e = ground (
  arith,
  loop_idle now (some x) rest (some d),
  loop_idle now (some (min x s.next_attempt_ms)) rest (some d),
)

-- The slot of a session that is due: no agent runs in it and its next attempt is not in the
-- future.
abbrev pub IsDue : ℕ → Slot → Type 0
IsDue now slot = (slot.running ≡ false) × (slot.next_attempt_ms ≤ now)

Above-get : (k id : ℕ) (slot : Slot) (m : Table) → Above k m → get id m ≡ some slot → k < id
unfolding get
Above-get k id slot [] a e = cc
Above-get k id slot ((j, t) ∷ rest) (a, as') e = ground (arith, Above-get k id slot rest as')

get_later :
    (k id : ℕ) (s slot : Slot) (m : Table)
    → Above k m
    → get id m ≡ some slot
    → get id ((k, s) ∷ m) ≡ some slot
unfolding get
get_later k id s slot m a e = ground (arith, Above-get k id slot m a e)

-- The slots of smaller session numbers, in front of the one launched, are not due.
abbrev pub NoneDueBelow : ℕ → ℕ → Table → Type 0
NoneDueBelow now id [] = Unit {0}
NoneDueBelow now id ((k, s) ∷ rest) =
    (k < id → (s.running ≡ true) ⊎ (now < s.next_attempt_ms)) × NoneDueBelow now id rest

NoneDueBelow-Above : (now id k : ℕ) (m : Table) → id ≤ k → Above k m → NoneDueBelow now id m
NoneDueBelow-Above now id k [] h a = tt
NoneDueBelow-Above now id k ((j, s) ∷ rest) h (a, as') =
    (λ p. absurd (omega arith), NoneDueBelow-Above now id k rest h as')

abbrev Launches : ℕ → ℕ → Table → Type 0
Launches now id m =
    ((slot : Slot) × (get id m ≡ some slot) × IsDue now slot) × NoneDueBelow now id m

launch_here :
    (now k : ℕ) (s : Slot) (rest : Table)
    → Above k rest
    → IsDue now s
    → Launches now k ((k, s) ∷ rest)
unfolding get
launch_here now k s rest a due = (
  (s, ground arith, due),
  (λ p. absurd (omega arith), NoneDueBelow-Above now k k rest (omega arith) a),
)

launch_later :
    (now id k : ℕ) (s : Slot) (rest : Table)
    → Above k rest
    → ((s.running ≡ true) ⊎ (now < s.next_attempt_ms))
    → Launches now id rest
    → Launches now id ((k, s) ∷ rest)
launch_later now id k s rest a waits ((slot, e, due), below) =
    ((slot, get_later k id s slot rest a e, due), (λ p. waits, below))

loop_launch :
    (now id : ℕ) (deadline : Option ℕ) (m : Table)
    → IsSorted m
    → poll_loop now deadline m ≡ launch id
    → Launches now id m
loop_launch now id deadline [] h e = unfold poll_loop in cc
loop_launch now id deadline ((k, s) ∷ rest) (a, h) e = elim (Bool-cases s.running) [
  | inl r ↦
      launch_later now id k s rest a (inl r)
        (loop_launch now id deadline rest h (unfold poll_loop in ground arith))
  | inr r ↦ elim (Bool-cases (leb s.next_attempt_ms now)) [
    | inl due ↦
        let same : k ≡ id = unfold poll_loop in ground arith in
        subst (λ (x : ℕ). Launches now x ((k, s) ∷ rest)) same
          (launch_here now k s rest a (r, ground arith))
    | inr early ↦ launch_later now id k s rest a (inr (ground arith)) (
        loop_launch now id
          (some (elim deadline [ none ↦ s.next_attempt_ms | some d ↦ min d s.next_attempt_ms ]))
          rest h (unfold poll_loop in ground arith))
  ]
]

-- `poll` launches an agent only into a tracked session in which none runs and whose next attempt
-- is due, the first such session in the order of the numbers.
pub poll_launch :
    (s : Supervisor) (now id : ℕ)
    → IsSorted s.sessions
    → (poll s now).1 ≡ launch id
    → ((slot : Slot) × (get id s.sessions ≡ some slot) × IsDue now slot)
      × NoneDueBelow now id s.sessions
unfolding poll
poll_launch s now id h e = loop_launch now id none s.sessions h e

-- When `poll` is idle with no deadline an agent runs in every session; when it is idle with one,
-- each session has a running agent or an attempt after now and not before the deadline.
pub poll_idle :
    (s : Supervisor) (now : ℕ) (d : Option ℕ) → (poll s now).1 ≡ idle d → AllWait now s.sessions d
unfolding poll
poll_idle s now d e = (loop_idle now none s.sessions d e).1
