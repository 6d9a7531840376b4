-- ===== src/Watch/Processes.antt =====
-- The processes that the service holds are those that its watchdog counts:
-- client/sentinel-service/src/main.rs over supervisor.rs.
use magick_sentinel.Prelude.{
  ℕ, ◌≡◌, refl, ◌∙◌, sym, ap, Bool, true, false, not, none, some, List, [], ◌∷◌, any, keep, ◌==◌,
  if◌then◌else◌, arith, Bool-cases, Option-cases, inl, inr,
}
use magick_sentinel.Supervisor as Supervisor
use magick_sentinel.Supervisor.{
  Slot, Supervisor, Action, launch, idle, get, is_running, running_slot, exited_slot, reset_counter,
  poll, on_logon, on_logoff, on_launched, on_exited, fresh_slot,
}
use magick_sentinel.Supervisor.Sessions.{
  Table, IsSorted, or_insert-IsSorted, modify-IsSorted, keep-IsSorted, get-or_insert, get-modify,
}
use magick_sentinel.Supervisor.Poll.{poll_launch}
use magick_sentinel.Watch.{
  Watch, start, session_logon, session_logoff, stop, Received, event, timeout, disconnected, Pass,
  remove, reap_one, reap, act, receive, pass, passes,
}

abbrev pub holds : Watch → ℕ → Bool
holds w id = any (λ p. p == id) w.processes

-- The table of the watchdog is sorted, and a process is held for a session exactly when an agent
-- counts as running in it.
pub record IsMatched (w : Watch) : Type 0 where
  pub sorted : IsSorted w.supervisor.sessions
  pub same : (id : ℕ) → holds w id ≡ is_running w.supervisor id

any-remove :
    (id j : ℕ) (ps : List ℕ)
    → any (λ p. p == j) (remove id ps) ≡ (if id == j then false else any (λ p. p == j) ps)
any-remove id j [] = ground arith
any-remove id j (p ∷ ps) = ground (arith, any-remove id j ps)

get-keep :
    (id j : ℕ) (m : Table)
    → get j (keep (λ e. not (e.0 == id)) m) ≡ (if id == j then none else get j m)
unfolding get
get-keep id j [] = ground arith
get-keep id j ((k, s) ∷ rest) = ground (arith, get-keep id j rest)

exited_running :
    (now : ℕ) (expected : Bool) (slot : Slot) → (exited_slot now expected slot).running ≡ false
unfolding exited_slot
exited_running now expected slot = ground arith

on_exited_absent :
    (s : Supervisor) (id now : ℕ) (expected : Bool)
    → get id s.sessions ≡ none
    → on_exited s id now expected ≡ s
unfolding on_exited
on_exited_absent s id now expected e = rw (e, on_exited) refl

on_exited_sessions :
    (s : Supervisor) (id now : ℕ) (expected : Bool) (slot : Slot)
    → get id s.sessions ≡ some slot
    → (on_exited s id now expected).sessions
      ≡ Supervisor.modify id (exited_slot now expected) s.sessions
unfolding on_exited
on_exited_sessions s id now expected slot e = rw (e, on_exited) refl

on_exited_running :
    (s : Supervisor) (id now : ℕ) (expected : Bool) (j : ℕ)
    → is_running (on_exited s id now expected) j ≡ (if id == j then false else is_running s j)
unfolding is_running
on_exited_running s id now expected j = elim (Option-cases (get id s.sessions)) [
  | inl e ↦ rw (on_exited_absent s id now expected e) (ground (arith, e))
  | inr (slot, e) ↦
      let f = exited_slot now expected in
      rw (on_exited_sessions s id now expected slot e, get-modify j id f s.sessions)
        (ground (arith, e, exited_running now expected slot))
]

on_exited-IsSorted :
    (s : Supervisor) (id now : ℕ) (expected : Bool)
    → IsSorted s.sessions
    → IsSorted (on_exited s id now expected).sessions
on_exited-IsSorted s id now expected h = elim (Option-cases (get id s.sessions)) [
  | inl e ↦ rw (on_exited_absent s id now expected e) h
  | inr (slot, e) ↦
      rw (on_exited_sessions s id now expected slot e)
        (modify-IsSorted id (exited_slot now expected) s.sessions h)
]

on_launched_running :
    (s : Supervisor) (id now j : ℕ) (slot : Slot)
    → get id s.sessions ≡ some slot
    → is_running (on_launched s id now) j ≡ (if id == j then true else is_running s j)
unfolding on_launched is_running
on_launched_running s id now j slot e =
    let f = λ (x : Slot). record x { running = true; started_ms = some now } in
    rw (get-modify j id f s.sessions) (ground (arith, e))

on_launched-IsSorted :
    (s : Supervisor) (id now : ℕ) → IsSorted s.sessions → IsSorted (on_launched s id now).sessions
unfolding on_launched
on_launched-IsSorted s id now h =
    modify-IsSorted id (λ x. record x { running = true; started_ms = some now }) s.sessions h

on_logon_running :
    (s : Supervisor) (id now j : ℕ)
    → IsSorted s.sessions
    → is_running (on_logon s id now) j ≡ is_running s j
unfolding on_logon is_running
on_logon_running s id now j h = elim (Option-cases (get id s.sessions)) [
  | inl e ↦ rw (get-or_insert j id (fresh_slot now) s.sessions h) (ground (arith, e))
  | inr (slot, e) ↦ rw (get-or_insert j id (fresh_slot now) s.sessions h) (ground (arith, e))
]

on_logoff_running :
    (s : Supervisor) (id j : ℕ)
    → is_running (on_logoff s id) j ≡ (if id == j then false else is_running s j)
unfolding on_logoff is_running
on_logoff_running s id j = rw (get-keep id j s.sessions) (ground arith)

reap_one-IsMatched : (p : Pass) (id : ℕ) (w : Watch) → IsMatched w → IsMatched (reap_one p id w)
unfolding reap_one
reap_one-IsMatched p id w h = record {
  sorted = on_exited-IsSorted w.supervisor id p.reaped_ms p.stop_requested h.sorted;
  same = λ j.
      any-remove id j w.processes
      ∙ sym (
          on_exited_running w.supervisor id p.reaped_ms p.stop_requested j
          ∙ ap (λ b. if id == j then false else b) (sym (h.same j)));
}

reap-IsMatched : (p : Pass) (ids : List ℕ) (w : Watch) → IsMatched w → IsMatched (reap p ids w)
unfolding reap
reap-IsMatched p [] w h = h
reap-IsMatched p (id ∷ ids) w h =
    reap-IsMatched p ids (reap_one p id w) (reap_one-IsMatched p id w h)

poll_sessions : (s : Supervisor) (now : ℕ) → (poll s now).0.sessions ≡ s.sessions
unfolding poll reset_counter
poll_sessions s now = ground arith

poll_running : (s : Supervisor) (now j : ℕ) → is_running (poll s now).0 j ≡ is_running s j
unfolding is_running
poll_running s now j = rw (poll_sessions s now) refl

act-IsMatched :
    (p : Pass) (s : Supervisor) (a : Action) (w : Watch)
    → IsSorted s.sessions
    → ((j : ℕ) → holds w j ≡ is_running s j)
    → ((id : ℕ)
        → a ≡ launch id
        → (slot : Slot) × (get id s.sessions ≡ some slot) × (slot.running ≡ false))
    → IsMatched (act p (s, a) w)
unfolding act
act-IsMatched p s (idle deadline) w sorted same due = record { sorted = sorted; same = same }
act-IsMatched p s (launch id) w sorted same due =
    let (slot, there, resting) = due id refl in
    let started = on_launched s id p.launched_ms in
    let launched = λ (j : ℕ). on_launched_running s id p.launched_ms j slot there in
    let quiet : is_running s id ≡ false = unfold is_running in rw there resting in
    elim (Bool-cases p.launches) [
      | inl e ↦ rw e (record {
        sorted = on_launched-IsSorted s id p.launched_ms sorted;
        same = λ j. ground (arith, launched j, any-remove id j w.processes, same j);
      })
      | inr e ↦ rw e (record {
        sorted =
            on_exited-IsSorted started id p.failed_ms false
              (on_launched-IsSorted s id p.launched_ms sorted);
        same = λ j.
            ground
              (arith, launched j, on_exited_running started id p.failed_ms false j, same j, quiet);
      })
    ]

receive-IsMatched : (p : Pass) (r : Received) (w : Watch) → IsMatched w → IsMatched (receive p r w)
unfolding receive
receive-IsMatched p (event (session_logon id)) w h = record {
  sorted =
      unfold on_logon in
      or_insert-IsSorted id (fresh_slot p.received_ms) w.supervisor.sessions h.sorted;
  same = λ j. h.same j ∙ sym (on_logon_running w.supervisor id p.received_ms j h.sorted);
}
receive-IsMatched p (event (session_logoff id)) w h = record {
  sorted = unfold on_logoff in keep-IsSorted (λ e. not (e.0 == id)) w.supervisor.sessions h.sorted;
  same = λ j.
      any-remove id j w.processes
      ∙ sym (
          on_logoff_running w.supervisor id j
          ∙ ap (λ b. if id == j then false else b) (sym (h.same j)));
}
receive-IsMatched p (event stop) w h = record { sorted = h.sorted; same = h.same }
receive-IsMatched p timeout w h = h
receive-IsMatched p disconnected w h = record { sorted = h.sorted; same = h.same }

polled-IsMatched :
    (p : Pass) (w : Watch) → IsMatched w → IsMatched (act p (poll w.supervisor p.polled_ms) w)
polled-IsMatched p w h =
    let (s, a) = poll w.supervisor p.polled_ms in
    let kept = poll_sessions w.supervisor p.polled_ms in
    act-IsMatched p s a w (rw kept h.sorted)
      (λ j. h.same j ∙ sym (poll_running w.supervisor p.polled_ms j))
      (λ id e.
        let ((slot, there, (resting, due)), below) =
          poll_launch w.supervisor p.polled_ms id h.sorted e in
        (slot, rw kept there, resting))

pass-IsMatched : (p : Pass) (w : Watch) → IsMatched w → IsMatched (pass p w)
unfolding pass
pass-IsMatched p w h =
    let reaped = reap-IsMatched p (keep p.has_exited w.processes) w h in
    let acted = polled-IsMatched p (reap p (keep p.has_exited w.processes) w) reaped in
    let done = receive-IsMatched p p.received _ acted in
    elim (Bool-cases p.stopping) [
      | inl e ↦ rw e (record { sorted = done.sorted; same = done.same })
      | inr e ↦ rw e done
    ]

either-IsMatched :
    (b : Bool) (v w : Watch) → IsMatched v → IsMatched w → IsMatched (if b then v else w)
either-IsMatched true v w h k = h
either-IsMatched false v w h k = k

passes-IsMatched : (ps : List Pass) (w : Watch) → IsMatched w → IsMatched (passes ps w)
unfolding passes
passes-IsMatched [] w h = h
passes-IsMatched (p ∷ ps) w h =
    either-IsMatched w.running (passes ps (pass p w)) w
      (passes-IsMatched ps (pass p w) (pass-IsMatched p w h)) h

-- Over any passes of the loop of the service, whatever exits, launches that fail and events, the
-- service holds a process for a session exactly when the watchdog counts an agent as running there,
-- and the table of the watchdog is sorted.
pub passes-start-IsMatched : (now : ℕ) (ps : List Pass) → IsMatched (passes ps (start now))
unfolding start
passes-start-IsMatched now ps =
    passes-IsMatched ps (start now)
      (record { sorted = tt; same = λ j. unfold is_running get in refl })
