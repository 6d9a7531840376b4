-- ===== src/Examples/Agents.antt =====
-- The agent, sign-in and updates on concrete runs.
use magick_sentinel.Prelude.{
  ◌⊎◌, List, ℕ, ◌≡◌, refl, true, false, not, Option, none, some, [], ◌∷◌, ◌++◌, text, Text, arith,
  length, ◌==◌,
}
use magick_sentinel.Events.{ClientEvent, device_lost}
use magick_sentinel.Events
use magick_sentinel.Detector.{default_vad}
use magick_sentinel.Identity.{IdentityGate, status, may_capture, IsAttributable, may_capture_iff}
use magick_sentinel.Identity
use magick_sentinel.Auth.{
  Seen, AuthService, AuthState, TokenSet, Disk, sign_out, refresh_at_ms, refresh_at_ms-bounds,
  run_background, restoring, refreshing, stop_capture, flush_spool, clear_tokens,
  end_server_session, sign_out_lem, refresh_at, min_refresh_margin,
}
use magick_sentinel.Auth
use magick_sentinel.Agent.{
  Agent, Policy, Surroundings, HeartbeatReply, failed, accepted, tick, capture_state, is_blocked,
}
use magick_sentinel.Agent
use magick_sentinel.Agent.Gate.{ticking, signing_in, session, perform_all, never_captures}
use magick_sentinel.Agent.Refusals.{refused_tick_blocks}
use magick_sentinel.Pipeline.{Codec}
use magick_sentinel.Pipeline.Step.{got}
use magick_sentinel.Pkce.{Callback, parse_callback, validate}
use magick_sentinel.Pkce
use magick_sentinel.Pkce.Callbacks.{redirect, parse_callback-redirect}
use magick_sentinel.Update.{staging_name}
use magick_sentinel.Update.Staging.{IsSafe, staging_name_lem}
use magick_sentinel.Spool.Schema.{open_empty, default_limits}
use magick_sentinel.Uplink.{Uplink}
use magick_sentinel.Uplink
use magick_sentinel.Uplink.Pump.{World}

abbrev codec : Codec
codec = record {
  opus = λ history samples. some (1 ∷ []);
  is_voiced = λ frames. not (length frames == 0);
  start_json = λ s. s.call_id;
  end_json = λ e. e.call_id;
}

abbrev world : World
world = record {
  dialled = some (record { sent = []; sends_left = 9 });
  inbox = [];
  quiet = true;
  draw = λ c. c;
  from_json = λ frame. none;
  bytes_of = λ id. [];
}

-- Both channels have a sample, and the heartbeat fails.
abbrev pub offline : Surroundings
offline = record {
  codec = codec;
  fresh = text "01CALL";
  source = some (got (7 ∷ []), got (8 ∷ []));
  wall_clock = text "2026-09-01T10:00:00.000Z";
  world = world;
  reply = failed;
  sign_outs = 0;
  disk = record { loads = true; saves = true; clears = true };
  flush_worlds = [];
  slice = 20;
}

abbrev empty_uplink : Uplink
empty_uplink = Uplink.new (open_empty default_limits)

abbrev policy : Policy
policy = record { vad = default_vad; offline_grace_ms = 28_800_000; pinned = [] }

abbrev tokens : TokenSet
tokens = record {
  id_token = text "id";
  refresh_token = some (text "rt");
  expires_in_s = 3_600;
  uid = text "user-1";
}

abbrev user : AuthService
user = record {
  store = some (text "rt");
  state = Auth.signed_in (Auth.credentials tokens 0);
  last_signout = [];
}

never_captures_example :
    may_capture (
      status
        (perform_all
          (signing_in (text "user-1") ∷ session true ∷ ticking offline 10 ∷ ticking offline 20 ∷ [])
          (Agent.new empty_uplink user policy (text "device-1"))).gate
        30)
    ≡ false
never_captures_example =
    never_captures empty_uplink user policy (text "device-1")
      (signing_in (text "user-1") ∷ session true ∷ ticking offline 10 ∷ ticking offline 20 ∷ []) 30

-- A signed-in agent that has an event to report.
abbrev pub reporting : Agent
reporting = record (Agent.new empty_uplink user policy (text "device-1")) {
  pending_events = Events.new device_lost 5 ∷ [];
}

refused_tick_blocks_example : is_blocked (capture_state (tick offline 10 reporting).0) ≡ true
unfolding Agent.new Identity.new Identity.set_signed_in may_capture status
refused_tick_blocks_example = refused_tick_blocks offline 10 reporting refl

-- Verified a second ago, in a grace window of eight hours.
abbrev gate : IdentityGate
gate = record {
  grace_ms = 28_800_000;
  last_verified_ms = some 4_000;
  signed_in = true;
  device_revoked = false;
  pinned_device_present = true;
}

abbrev disk : Disk
disk = record { loads = true; saves = true; clears = true }

-- Three segments are left when the flush ends.
sign_out_lem_example :
    let stop : List (Option Seen) → List (Option Seen) = λ done. done ++ (none ∷ []) in
    let flush : AuthService → List (Option Seen) → List (Option Seen) × Option ℕ =
      λ v done. (done ++ (some (v.store, v.state) ∷ []), some 3) in
    let (svc', calls', r) = sign_out disk stop flush user [] in
    (calls' ≡ none ∷ some (user.store, user.state) ∷ [])
    × ((disk.clears ≡ false) × (svc' ≡ user) × (r ≡ Auth.err Auth.store)
        ⊎ ((disk.clears ≡ true)
            × (r ≡ Auth.ok 3)
            × (svc'.store ≡ none)
            × ((run_background (restoring disk (λ t. some tokens) 50 ∷ []) svc').state
                ≡ Auth.signed_out)
            × ((run_background (restoring disk (λ t. some tokens) 50 ∷ []) svc').last_signout
                ≡ stop_capture ∷ flush_spool ∷ clear_tokens ∷ end_server_session ∷ [])))
sign_out_lem_example =
    sign_out_lem (λ seen. some 3) disk user [] (restoring disk (λ t. some tokens) 50 ∷ [])

parse_callback-redirect_example :
    parse_callback (λ bs. bs) (redirect (text "4/0 x") (text "s&t"))
    ≡ Pkce.ok (record { code = text "4/0 x"; state = text "s&t" })
parse_callback-redirect_example =
    parse_callback-redirect (λ bs. bs) 52 (text "/0 x") (text "s&t") (omega arith) (omega arith)
      refl refl

-- A version that tries to leave the directory.
staging_name_lem_example :
    (safe : Text) × (staging_name 12 (text "../../1....2")
      ≡ some (text "SentinelAgent-" ++ (safe ++ text ".msi")))
    × IsSafe safe
staging_name_lem_example = staging_name_lem 12 (text "../../1....2") (omega arith)
