-- ===== src/Supervisor/Sessions.antt =====
-- The table of sessions.
use magick_sentinel.Prelude.{
  ℕ, ◌<◌, ◌≡◌, ◌≢◌, refl, Bool, Option, none, some, or_else, List, [], ◌∷◌, ◌==◌, if◌then◌else◌,
  arith, All, keep, All-keep,
}
use magick_sentinel.Supervisor.{
  Slot, Supervisor, new, get, or_insert, modify, fresh_slot, on_logon, on_logoff, on_launched,
  on_exited, poll, exited_slot,
}

abbrev pub Table : Type 0
Table = List (ℕ × Slot)

abbrev pub Above : ℕ → Table → Type 0
Above k m = All (λ e. k < e.0) m

-- Strictly ascending keys: at most one agent slot for a session.
abbrev pub IsSorted : Table → Type 0
IsSorted [] = Unit {0}
IsSorted ((k, s) ∷ rest) = Above k rest × IsSorted rest

Above-mono : (j k : ℕ) (m : Table) → j < k → Above k m → Above j m
Above-mono j k [] h a = tt
Above-mono j k ((i, s) ∷ rest) h (a, as') = (omega arith, Above-mono j k rest h as')

get-Above : (id : ℕ) (m : Table) → Above id m → get id m ≡ none
unfolding get
get-Above id [] a = refl
get-Above id ((k, s) ∷ rest) (a, as') = ground (arith, get-Above id rest as')

Above-or_insert :
    (j id : ℕ) (slot : Slot) (m : Table) → j < id → Above j m → Above j (or_insert id slot m)
unfolding or_insert
Above-or_insert j id slot [] h a = (h, tt)
Above-or_insert j id slot ((k, s) ∷ rest) h (a, as') =
    ground (arith, Above-or_insert j id slot rest h as')

pub or_insert-IsSorted :
    (id : ℕ) (slot : Slot) (m : Table) → IsSorted m → IsSorted (or_insert id slot m)
unfolding or_insert
or_insert-IsSorted id slot [] h = (tt, tt)
or_insert-IsSorted id slot ((k, s) ∷ rest) (a, h) = ground (
  arith,
  or_insert-IsSorted id slot rest h,
  λ (p : id < k). Above-mono id k rest p a,
  λ (p : k < id). Above-or_insert k id slot rest p a,
)

Above-modify : (j id : ℕ) (f : Slot → Slot) (m : Table) → Above j m → Above j (modify id f m)
unfolding modify
Above-modify j id f [] a = tt
Above-modify j id f ((k, s) ∷ rest) (a, as') = ground (arith, Above-modify j id f rest as')

pub modify-IsSorted : (id : ℕ) (f : Slot → Slot) (m : Table) → IsSorted m → IsSorted (modify id f m)
unfolding modify
modify-IsSorted id f [] h = tt
modify-IsSorted id f ((k, s) ∷ rest) (a, h) =
    ground (arith, modify-IsSorted id f rest h, Above-modify k id f rest a)

pub keep-IsSorted : (p : ℕ × Slot → Bool) (m : Table) → IsSorted m → IsSorted (keep p m)
keep-IsSorted p [] h = tt
keep-IsSorted p ((k, s) ∷ rest) (a, h) =
    ground (arith, keep-IsSorted p rest h, All-keep (λ (e : ℕ × Slot). k < e.0) p rest a)

pub get-or_insert :
    (j id : ℕ) (slot : Slot) (m : Table)
    → IsSorted m
    → get j (or_insert id slot m) ≡ (if id == j then some (or_else (get id m) slot) else get j m)
unfolding get or_insert
get-or_insert j id slot [] h = ground arith
get-or_insert j id slot ((k, s) ∷ rest) (a, h) = ground (
  arith,
  get-or_insert j id slot rest h,
  λ (p : id < k). get-Above id rest (Above-mono id k rest p a),
)

abbrev pub map_option : (Slot → Slot) → Option Slot → Option Slot
map_option f none = none
map_option f (some s) = some (f s)

pub get-modify :
    (j id : ℕ) (f : Slot → Slot) (m : Table)
    → get j (modify id f m) ≡ (if id == j then map_option f (get j m) else get j m)
unfolding get modify
get-modify j id f [] = ground arith
get-modify j id f ((k, s) ∷ rest) = ground (arith, get-modify j id f rest)

or_insert_tracked :
    (id : ℕ) (slot old : Slot) (m : Table)
    → IsSorted m
    → get id m ≡ some old
    → or_insert id slot m ≡ m
unfolding get or_insert
or_insert_tracked id slot old [] h e = cc
or_insert_tracked id slot old ((k, s) ∷ rest) (a, h) e = ground (
  arith,
  or_insert_tracked id slot old rest h,
  λ (p : id < k). get-Above id rest (Above-mono id k rest p a),
)

-- A logon, unlock or reconnect event for a session that is already tracked changes nothing, so it
-- starts no second agent; for any other session it adds an idle slot due at once, and leaves
-- every other session as it was.
pub on_logon_idempotent :
    (s : Supervisor) (id j now : ℕ) {old : Slot}
    → IsSorted s.sessions
    → (get id s.sessions ≡ some old → on_logon s id now ≡ s)
      × (get id s.sessions ≡ none → get id (on_logon s id now).sessions ≡ some (fresh_slot now))
      × (id ≢ j → get j (on_logon s id now).sessions ≡ get j s.sessions)
unfolding on_logon
on_logon_idempotent s id j now {old} h = (
  λ e. rw (or_insert_tracked id (fresh_slot now) old s.sessions h e),
  λ e. ground (arith, get-or_insert id id (fresh_slot now) s.sessions h),
  λ n. ground (arith, get-or_insert j id (fresh_slot now) s.sessions h),
)

pub data Event : Type 0 where
  logon logoff launched : ℕ → Event
  exited : ℕ → Bool → Event
  polled : Event

-- One event at a time `now`.
unfoldable pub step : Supervisor → ℕ × Event → Supervisor
step s (now, logon id) = on_logon s id now
step s (now, logoff id) = on_logoff s id
step s (now, launched id) = on_launched s id now
step s (now, exited id expected) = on_exited s id now expected
step s (now, polled) = (poll s now).0

unfoldable pub run : Supervisor → List (ℕ × Event) → Supervisor
run s [] = s
run s (e ∷ es) = run (step s e) es

step-IsSorted :
    (s : Supervisor) (e : ℕ × Event) → IsSorted s.sessions → IsSorted (step s e).sessions
unfolding step on_logon on_logoff on_launched on_exited poll
step-IsSorted s (now, logon id) h = or_insert-IsSorted id _ s.sessions h
step-IsSorted s (now, logoff id) h = keep-IsSorted _ s.sessions h
step-IsSorted s (now, launched id) h = modify-IsSorted id _ s.sessions h
step-IsSorted s (now, exited id expected) h =
    ground (arith, modify-IsSorted id (exited_slot now expected) s.sessions h)
step-IsSorted s (now, polled) h = ground arith

run-IsSorted :
    (s : Supervisor) (es : List (ℕ × Event)) → IsSorted s.sessions → IsSorted (run s es).sessions
unfolding run
run-IsSorted s [] h = h
run-IsSorted s (e ∷ es) h = run-IsSorted (step s e) es (step-IsSorted s e h)

-- After any events a session has at most one slot, and the slots stand in the order of the
-- session numbers.
pub run-new-IsSorted : (now : ℕ) (es : List (ℕ × Event)) → IsSorted (run (new now) es).sessions
unfolding new
run-new-IsSorted now es = run-IsSorted (new now) es tt
