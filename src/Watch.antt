-- ===== src/Watch.antt =====
-- The loop of the service and what it knows of its machine: client/sentinel-service/src/main.rs.
-- A pass is given what the clock, the processes, the launcher and the service manager answer. The
-- processes are the sessions that have one, as the keys of the map. The check of the credential is
-- in Enrolment/Service, and the answer to an update request is only logged.
pub mod Processes
pub mod Tiers
use magick_sentinel.Prelude.{
  ℕ, Bool, true, false, not, ◌&&◌, ◌||◌, Option, none, some, List, [], ◌∷◌, ◌++◌, keep, leb, ltb,
  ◌==◌, if◌then◌else◌, or_else, Text, text, text_eq, digits, u32_mod,
}
use magick_sentinel.Whitespace.{trim}
use magick_sentinel.Update.{parse_u64}
use magick_sentinel.Supervisor.{
  Supervisor, Action, launch, idle, poll, on_logon, on_logoff, on_launched, on_exited,
}
use magick_sentinel.Supervisor as Supervisor

abbrev pub u32_only : Option ℕ → Option ℕ
u32_only none = none
u32_only (some n) = if ltb n u32_mod then some n else none

-- `trim().parse::<u32>().ok()`.
unfoldable pub parse_build : Text → Option ℕ
unfolding trim parse_u64
parse_build s = u32_only (parse_u64 (trim s))

abbrev pub build_of : Option Text → ℕ
build_of none = 0
build_of (some s) = or_else (parse_build s) 0

abbrev pub says_server : Option Text → Bool
says_server none = false
says_server (some s) = text_eq s (text "Server")

unfoldable pub tier_of_build : ℕ → Bool → Option Text
tier_of_build build is_server =
    if leb (if is_server then 20348 else 22000) build
    then some (text "A")
    else if not is_server && leb 18362 build
    then some (text "B")
    else none

-- From the registry values `CurrentBuildNumber` and `InstallationType`.
unfoldable pub sentinel_capture_tier : Option Text → Option Text → Option Text × Text
unfolding parse_build tier_of_build
sentinel_capture_tier build_number installation_type =
    let build = build_of build_number in
    (tier_of_build build (says_server installation_type), text "10.0." ++ digits 10 build)

pub record Watch : Type 0 where
  pub supervisor : Supervisor
  pub processes : List ℕ
  pub running : Bool

unfoldable pub start : ℕ → Watch
unfolding Supervisor.new
start now_ms = record { supervisor = Supervisor.new now_ms; processes = []; running = true }

pub data ServiceEvent : Type 0 where
  session_logon session_logoff : ℕ → ServiceEvent
  stop : ServiceEvent

-- `timeout` and `disconnected` are the ends of `recv_timeout` without an event.
pub data Received : Type 0 where
  event : ServiceEvent → Received
  timeout disconnected : Received

pub record Pass : Type 0 where
  pub has_exited : ℕ → Bool
  pub stop_requested : Bool
  pub reaped_ms : ℕ
  pub polled_ms : ℕ
  pub launches : Bool
  pub launched_ms : ℕ
  pub failed_ms : ℕ
  pub received : Received
  pub received_ms : ℕ
  pub stopping : Bool

abbrev pub remove : ℕ → List ℕ → List ℕ
remove id ps = keep (λ p. not (p == id)) ps

unfoldable pub reap_one : Pass → ℕ → Watch → Watch
unfolding on_exited
reap_one p id w = record w {
  processes = remove id w.processes;
  supervisor = on_exited w.supervisor id p.reaped_ms p.stop_requested;
}

unfoldable pub reap : Pass → List ℕ → Watch → Watch
unfolding reap_one
reap p [] w = w
reap p (id ∷ ids) w = reap p ids (reap_one p id w)

unfoldable pub act : Pass → Supervisor × Action → Watch → Watch
unfolding on_launched on_exited
act p (s, idle deadline) w = record w { supervisor = s }
act p (s, launch id) w =
    if p.launches
    then record w {
      processes = id ∷ remove id w.processes;
      supervisor = on_launched s id p.launched_ms;
    }
    else record w { supervisor = on_exited (on_launched s id p.launched_ms) id p.failed_ms false }

unfoldable pub receive : Pass → Received → Watch → Watch
unfolding on_logon on_logoff
receive p (event (session_logon id)) w = record w {
  supervisor = on_logon w.supervisor id p.received_ms;
}
receive p (event (session_logoff id)) w = record w {
  supervisor = on_logoff w.supervisor id;
  processes = remove id w.processes;
}
receive p (event stop) w = record w { running = false }
receive p timeout w = w
receive p disconnected w = record w { running = false }

unfoldable pub pass : Pass → Watch → Watch
unfolding reap act receive poll
pass p w =
    let reaped = reap p (keep p.has_exited w.processes) w in
    let acted = act p (poll reaped.supervisor p.polled_ms) reaped in
    let done = receive p p.received acted in
    if p.stopping then record done { running = false } else done

unfoldable pub passes : List Pass → Watch → Watch
unfolding pass
passes [] w = w
passes (p ∷ ps) w = if w.running then passes ps (pass p w) else w
