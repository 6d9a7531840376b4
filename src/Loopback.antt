-- ===== src/Loopback.antt =====
-- The one-shot listener of a sign-in: client/sentinel-agent/src/auth/loopback.rs.
-- What comes in is a list: each entry is a connection, with the request line that is read from it or
-- a failure to read, or a failure of the listener; the sign-in window closes at the end of the list.
pub mod Waiting
use magick_sentinel.Prelude.{
  ℕ, Bool, true, false, not, ◌&&◌, ◌||◌, Option, none, some, List, [], ◌∷◌, ◌==◌, if◌then◌else◌,
  Text, text, text_eq, Bytes, take, ◌*◌,
}
use magick_sentinel.Whitespace.{is_empty}
use magick_sentinel.Config.{starts_with}
use magick_sentinel.Pkce as Pkce
use magick_sentinel.Pkce.{
  Callback, CallbackError, wrong_path, no_code, no_state, state_mismatch, malformed, provider,
  Parsed, split_on, parse_callback,
}

abbrev pub is_newline : ℕ → Bool
is_newline c = c == 13 || c == 10

-- `trim_end_matches(['\r', '\n'])`.
unfoldable pub trim_newlines : Text → Text
trim_newlines [] = []
trim_newlines (c ∷ cs) =
    let rest = trim_newlines cs in if is_newline c && is_empty rest then [] else c ∷ rest

abbrev pub target_of : Text × List Text → Option Text
target_of (method, target ∷ version ∷ more) =
    if not (text_eq method (text "GET"))
      || not (starts_with (text "HTTP/") version)
      || is_empty target
    then none
    else some target
target_of (method, target ∷ []) = none
target_of (method, []) = none

unfoldable pub request_target : Text → Option Text
unfolding trim_newlines starts_with split_on
request_target line = target_of (split_on 32 (trim_newlines line))

pub data Incoming : Type 0 where
  line : Text → Incoming
  unread : Incoming
  accept_failed : Incoming

pub data LoopbackError : Type 0 where
  timed_out io : LoopbackError
  callback : CallbackError → LoopbackError

pub data Waited : Type 0 where
  received : Callback → Waited
  gave_up : LoopbackError → Waited
  panicked : Waited

-- The status that is answered; nothing is answered to a request that has no target.
pub data Status : Type 0 where
  ok_200 not_found_404 bad_request_400 : Status

abbrev pub status_of : Parsed Callback → List Status
status_of (Pkce.ok cb) = ok_200 ∷ []
status_of (Pkce.err (wrong_path path)) = not_found_404 ∷ []
status_of (Pkce.err no_code) = bad_request_400 ∷ []
status_of (Pkce.err no_state) = bad_request_400 ∷ []
status_of (Pkce.err state_mismatch) = bad_request_400 ∷ []
status_of (Pkce.err malformed) = bad_request_400 ∷ []
status_of (Pkce.err (provider code description)) = bad_request_400 ∷ []
status_of Pkce.panic = []

abbrev pub parse_target : (Bytes → Text) → Option Text → Parsed Callback
parse_target lossy none = Pkce.err malformed
parse_target lossy (some target) = parse_callback lossy target

abbrev pub max_request_line : ℕ
max_request_line = 8 * 1024

-- `serve_one` for what the connection sends up to the end of its line, of which no more than 8 KiB
-- are read; a line that is not UTF-8, also where it is cut, is unread.
unfoldable pub serve_one : (Bytes → Text) → Text → Parsed Callback
unfolding request_target parse_callback
serve_one lossy l = parse_target lossy (request_target (take max_request_line l))

-- Whether a connection ends the wait, and how; `none` goes on.
abbrev pub ends_with : Parsed Callback → Option Waited
ends_with (Pkce.ok cb) = some (received cb)
ends_with (Pkce.err (wrong_path path)) = none
ends_with (Pkce.err no_code) = some (gave_up (callback no_code))
ends_with (Pkce.err no_state) = some (gave_up (callback no_state))
ends_with (Pkce.err state_mismatch) = some (gave_up (callback state_mismatch))
ends_with (Pkce.err malformed) = some (gave_up (callback malformed))
ends_with (Pkce.err (provider code description)) =
    some (gave_up (callback (provider code description)))
ends_with Pkce.panic = some panicked

abbrev pub end_of : (Bytes → Text) → Incoming → Option Waited
end_of lossy (line l) = ends_with (serve_one lossy l)
end_of lossy unread = some (gave_up io)
end_of lossy accept_failed = some (gave_up io)

abbrev pub or_wait : Option Waited → Waited → Waited
or_wait none later = later
or_wait (some w) later = w

unfoldable pub wait_for_callback : (Bytes → Text) → List Incoming → Waited
unfolding serve_one
wait_for_callback lossy [] = gave_up timed_out
wait_for_callback lossy (i ∷ is) =
    let later = wait_for_callback lossy is in or_wait (end_of lossy i) later
