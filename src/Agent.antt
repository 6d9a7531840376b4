-- ===== src/Agent.antt =====
-- The agent's loop: client/sentinel-agent/src/agent.rs, with `flush` of uplink/mod.rs.
-- One tick is given what it meets outside the program: the readings of the capture source, what
-- the uplink meets, the server's answer to a heartbeat, the widget's calls, and the token store.
-- What is shown in the widget and reported is in Status; posting to the widget is taken to succeed.
pub mod Gate
pub mod Refusals
pub mod Reporting
pub mod Status
pub mod Showing
use magick_sentinel.Prelude.{
  ℕ, zero, suc, ◌+◌, ◌-◌, Bool, true, false, not, ◌&&◌, ◌||◌, Option, none, some, List, [], ◌∷◌,
  ◌++◌, length, if◌then◌else◌, leb, ◌==◌, Text, saturating_add_u64, u64_mod,
}
use magick_sentinel.Tier.{CaptureTier}
use magick_sentinel.Device.{PinnedDevice, AudioDevice}
use magick_sentinel.Events.{ClientEvent}
use magick_sentinel.Detector.{CallState, VadConfig, signed_out, call_ended, Transition}
use magick_sentinel.Detector
use magick_sentinel.Identity.{
  IdentityGate, IdentityStatus, status, may_capture, block_reason, observe_verified, set_signed_in,
  set_device_revoked,
}
use magick_sentinel.Identity
use magick_sentinel.Auth.{AuthService, AuthState, AuthResult, Disk, id_token, is_signed_in}
use magick_sentinel.Auth
use magick_sentinel.Pipeline.{
  Codec, Pipeline, open_devices, take_events, on_session_state, on_user_changed, block_capture,
  unblock_capture,
}
use magick_sentinel.Pipeline
use magick_sentinel.Pipeline.Step.{Reading, Machine, Ran, ran, fell, StepResult, step}
use magick_sentinel.Spool.Schema.{stats}
use magick_sentinel.Uplink.{Uplink}
use magick_sentinel.Uplink.Pump.{World, pump}
use magick_sentinel.Uplink.Send.{Pass}

abbrev pub interval_ms : ℕ
interval_ms = 30_000

-- The policy's parts that the agent reads.
pub record Policy : Type 0 where
  pub vad : VadConfig
  pub offline_grace_ms : ℕ
  pub pinned : List PinnedDevice

pub record Agent : Type 0 where
  pub uplink : Uplink
  pub auth : AuthService
  pub gate : IdentityGate
  pub pipeline : Option Pipeline
  pub policy : Policy
  pub device_id : Text
  pub last_heartbeat_ms : Option ℕ
  pub last_call_at : Option Text
  pub dialer_session_active : Bool
  pub pinned_device_present : Bool
  pub pending_events : List ClientEvent
  pub revoked : Bool

unfoldable pub new : Uplink → AuthService → Policy → Text → Agent
unfolding Identity.new set_signed_in
new uplink auth policy device_id = record {
  uplink = uplink;
  auth = auth;
  gate = set_signed_in (Identity.new policy.offline_grace_ms) (is_signed_in auth.state);
  pipeline = none;
  policy = policy;
  device_id = device_id;
  last_heartbeat_ms = none;
  last_call_at = none;
  dialer_session_active = false;
  pinned_device_present = false;
  pending_events = [];
  revoked = false;
}

unfoldable pub record_event : Agent → ClientEvent → Agent
record_event a event = record a { pending_events = a.pending_events ++ (event ∷ []) }

abbrev pub state_of : Option Pipeline → CallState
state_of none = CallState.blocked
state_of (some p) = p.detector.state

unfoldable pub capture_state : Agent → CallState
capture_state a = state_of a.pipeline

-- `open_capture`, once the pipeline has tried to open its devices.
abbrev pub adopt_pipeline : Agent → Pipeline × Bool → Agent × Bool
adopt_pipeline a (p, true) = (record a { pinned_device_present = true; pipeline = some p }, true)
adopt_pipeline a (p, false) = (
  record a {
    pinned_device_present = false;
    pending_events = a.pending_events ++ p.events;
    pipeline = none;
  },
  false,
)

unfoldable pub open_capture : Agent → List AudioDevice → CaptureTier → Text → Agent × Bool
unfolding Pipeline.new open_devices
open_capture a devices tier user_uid =
    adopt_pipeline a
      (open_devices a.policy.pinned devices (Pipeline.new a.policy.vad tier a.device_id user_uid))

-- `if let Some(p) = self.pipeline.as_mut()`.
abbrev pub on_pipeline : (Pipeline → Pipeline) → Agent → Agent
on_pipeline f a = record a { pipeline = elim a.pipeline [ none ↦ none | some p ↦ some (f p) ] }

unfoldable pub on_session : Agent → Bool → Agent
unfolding on_session_state
on_session a active =
    on_pipeline (λ p. (on_session_state p active).0) (record a { dialer_session_active = active })

unfoldable pub on_signed_in : Agent → Text → Agent
unfolding on_user_changed set_signed_in
on_signed_in a user_uid =
    on_pipeline (λ p. (on_user_changed p user_uid).0)
      (record a { gate = set_signed_in a.gate true })

abbrev pub is_blocked : CallState → Bool
is_blocked CallState.blocked = true
is_blocked _ = false

-- The first part of a tick for the pipeline: the gate's decision reaches the detector.
unfoldable pub gated : Option Detector.BlockReason → Pipeline → Pipeline
unfolding block_capture unblock_capture
gated (some reason) p = if is_blocked p.detector.state then p else (block_capture p reason).0
gated none p = if is_blocked p.detector.state then (unblock_capture p).0 else p

-- `flush` of the uplink: passes until the spool is empty, or until the deadline. `worlds` holds
-- what each pass meets before the deadline, and `slice` is the time one receive may take.
unfoldable pub flush_uplink : List World → ℕ → ℕ → Uplink → Uplink × ℕ
unfolding pump stats
flush_uplink [] slice clock u = (u, (stats u.spool).segments)
flush_uplink (w ∷ ws) slice clock u =
    let rest = flush_uplink ws slice (saturating_add_u64 clock slice) (pump w clock u).up in
    if (stats u.spool).segments == 0 then (u, 0) else rest

pub data HeartbeatReply : Type 0 where
  accepted forbidden failed : HeartbeatReply

pub record Surroundings : Type 0 where
  pub codec : Codec
  pub fresh : Text
  pub source : Option (Reading × Reading)
  pub wall_clock : Text
  pub world : World
  pub reply : HeartbeatReply
  pub sign_outs : ℕ  -- how often the widget asks for it
  pub disk : Disk
  pub flush_worlds : List World
  pub slice : ℕ

abbrev pub ended : Option Transition → Bool
ended (some (call_ended reason)) = true
ended _ = false

-- What a step of the pipeline has done; none says that it failed.
abbrev pub captured : Surroundings → Agent → Ran StepResult → Agent × Option ℕ
captured s a (ran m r) = (
  record a {
    pipeline = some m.pipe;
    uplink = m.uplink;
    last_call_at = if ended r.transition then some s.wall_clock else a.last_call_at;
  },
  some r.segments_spooled,
)
captured s a (fell m) = (record a { pipeline = some m.pipe; uplink = m.uplink }, none)

-- Capture, which needs the gate's leave, a pipeline and a source.
unfoldable pub run_capture :
    Surroundings → Bool → Option Pipeline → Option (Reading × Reading) → Agent → Agent × Option ℕ
unfolding step
run_capture s true (some p) (some (r, q)) a =
    captured s a (step s.codec s.fresh r q (record { pipe = p; uplink = a.uplink }))
run_capture s true (some p) none a = (a, some 0)
run_capture s true none source a = (a, some 0)
run_capture s false p source a = (a, some 0)

abbrev pub events_of : Option Pipeline → List ClientEvent
events_of none = []
events_of (some p) = p.events

unfoldable pub take_pipeline_events : Agent → Agent
unfolding take_events
take_pipeline_events a =
    on_pipeline (λ p. (take_events p).0)
      (record a { pending_events = a.pending_events ++ events_of a.pipeline })

-- What a pass of the uplink tells the agent.
abbrev pub uploaded : ℕ → Agent → Pass → Agent
uploaded now_ms a pass = record a {
  uplink = record pass.up { events = [] };
  gate = if pass.outcome.verified then observe_verified a.gate now_ms else a.gate;
  revoked = pass.outcome.device_revoked || a.revoked;
  pending_events = a.pending_events ++ pass.up.events;
}

abbrev pub tell_gate : Agent → Agent
tell_gate a = if a.revoked then record a { gate = set_device_revoked a.gate true } else a

-- The uplink's part of a tick, with the segments sent and acknowledged.
unfoldable pub upload : World → ℕ → Agent → Agent × ℕ × ℕ
unfolding pump observe_verified set_device_revoked
upload w now_ms a =
    let pass = pump w now_ms a.uplink in
    if a.revoked
    then (tell_gate a, 0, 0)
    else (tell_gate (uploaded now_ms a pass), pass.outcome.sent, pass.outcome.acked)

abbrev pub replied : HeartbeatReply → ℕ → Agent → Agent × Bool
replied accepted now_ms a =
    (record a { pending_events = []; gate = observe_verified a.gate now_ms }, true)
replied forbidden now_ms a =
    (record a { pending_events = []; revoked = true; gate = set_device_revoked a.gate true }, false)
replied failed now_ms a = (a, false)

unfoldable pub send_heartbeat : HeartbeatReply → ℕ → Agent → Agent × Bool
unfolding observe_verified set_device_revoked
send_heartbeat reply now_ms a = elim (id_token a.auth.state) [
  | none ↦ (a, false)
  | some token ↦ replied reply now_ms a
]

abbrev pub heartbeat_due : Option ℕ → ℕ → Bool
heartbeat_due none now_ms = true
heartbeat_due (some last) now_ms = leb interval_ms (now_ms - last)

unfoldable pub beat : HeartbeatReply → ℕ → Agent → Agent × Bool
unfolding send_heartbeat
beat reply now_ms a =
    if heartbeat_due a.last_heartbeat_ms now_ms
    then send_heartbeat reply now_ms (record a { last_heartbeat_ms = some now_ms })
    else (a, false)

-- The part of `sign_out` after that of the service; the Boolean says whether it succeeded.
abbrev pub signed_out_with : Agent → AuthService × Uplink × AuthResult ℕ → Agent × Bool
signed_out_with a (svc, u, Auth.ok remaining) = (
  on_pipeline (λ p. (block_capture p signed_out).0)
      (record a { auth = svc; uplink = u; gate = set_signed_in a.gate false }),
  true,
)
signed_out_with a (svc, u, Auth.err e) = (record a { auth = svc; uplink = u }, false)

unfoldable pub flush_with : Surroundings → ℕ → AuthService → Uplink → Uplink × Option ℕ
unfolding flush_uplink
flush_with s now_ms svc u =
    let (u', left) = flush_uplink s.flush_worlds s.slice now_ms u in (u', some left)

-- Stopping capture is a flag: the pipeline does not run meanwhile.
unfoldable pub sign_out : Surroundings → ℕ → Agent → Agent × Bool
unfolding Auth.sign_out flush_with block_capture set_signed_in
sign_out s now_ms a =
    signed_out_with a (Auth.sign_out s.disk (λ u. u) (flush_with s now_ms) a.auth a.uplink)

-- The host calls that ask to sign out, one after the other; a failure ends the tick.
unfoldable pub sign_out_calls : Surroundings → ℕ → ℕ → Agent → Agent × Bool
unfolding sign_out
sign_out_calls s now_ms zero a = (a, true)
sign_out_calls s now_ms (suc n) a =
    let (a', ok) = sign_out s now_ms a in
    let rest = sign_out_calls s now_ms n a' in if ok then rest else (a', false)

pub record TickResult : Type 0 where
  pub segments_spooled : ℕ
  pub segments_sent : ℕ
  pub segments_acked : ℕ
  pub heartbeat_sent : Bool
  pub capture_state : CallState
  pub signed_out : Bool

-- The part of a tick after capture, which has spooled `n` segments; none says that it failed.
unfoldable pub after_capture : Surroundings → ℕ → ℕ → Agent → Agent × Option TickResult
unfolding take_pipeline_events upload beat sign_out_calls capture_state
after_capture s now_ms n a =
    let a1 = take_pipeline_events a in
    let (a2, sent, acked) = upload s.world now_ms a1 in
    let (a3, beaten) = beat s.reply now_ms a2 in
    let (a4, ok) = sign_out_calls s now_ms s.sign_outs a3 in
    let result : TickResult = record {
      segments_spooled = n;
      segments_sent = sent;
      segments_acked = acked;
      heartbeat_sent = beaten;
      capture_state = capture_state a1;
      signed_out = not (s.sign_outs == 0);
    } in
    (a4, if ok then some result else none)

-- The part of a tick from capture on.
unfoldable pub then_upload : Surroundings → ℕ → Agent × Option ℕ → Agent × Option TickResult
unfolding after_capture
then_upload s now_ms (a, none) = (a, none)
then_upload s now_ms (a, some n) = after_capture s now_ms n a

unfoldable pub tick : Surroundings → ℕ → Agent → Agent × Option TickResult
unfolding gated run_capture then_upload status block_reason may_capture
tick s now_ms a =
    let st = status a.gate now_ms in
    let a1 = on_pipeline (gated (block_reason st)) a in
    then_upload s now_ms (run_capture s (may_capture st) a1.pipeline s.source a1)
