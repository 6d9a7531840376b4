-- ===== src/Agent/Status.antt =====
-- What the agent shows and reports: the state of the widget and the reports of
-- client/sentinel-agent/src/agent.rs, with the names that client/sentinel-core/src/state.rs gives.
-- What was reported last is kept beside the agent, and the tier is given.
use magick_sentinel.Prelude.{
  ℕ, Bool, true, false, not, ◌&&◌, Option, none, some, is_some, or_else, List, [], ◌∷◌,
  if◌then◌else◌, Text, text,
}
use magick_sentinel.Events.{EventKind, ClientEvent, spool_eviction}
use magick_sentinel.Detector.{
  CallState, idle, armed, in_call, wrap, finalize, blocked, BlockReason, pinned_device_missing,
  offline_grace_expired, device_revoked, shutdown, in_record,
}
use magick_sentinel.Detector
use magick_sentinel.Identity.{IdentityStatus, status, block_reason, widget_message}
use magick_sentinel.Auth.{is_signed_in}
use magick_sentinel.Pipeline.{Pipeline}
use magick_sentinel.Spool.Schema.{stats}
use magick_sentinel.Startup.{StartTier, tier_a, tier_b}
use magick_sentinel.Agent.{Agent, capture_state}
use magick_sentinel.Widget.{WidgetState}

unfoldable pub as_str : CallState → Text
as_str idle = text "IDLE"
as_str armed = text "ARMED"
as_str in_call = text "IN_CALL"
as_str wrap = text "WRAP"
as_str finalize = text "FINALIZE"
as_str blocked = text "BLOCKED"

unfoldable pub tier_name : StartTier → Text
tier_name tier_a = text "A"
tier_name tier_b = text "B"

abbrev pub current_call_id : Option Pipeline → Option Text
current_call_id none = none
current_call_id (some p) = p.current_call

abbrev pub tier_text : Option StartTier → Option Text
tier_text none = none
tier_text (some t) = some (tier_name t)

unfoldable pub widget_state : Option StartTier → Agent → ℕ → WidgetState
unfolding status capture_state as_str widget_message in_record stats
widget_state tier a now_ms = record {
  auth_state = if is_signed_in a.auth.state then text "signed_in" else text "signed_out";
  capture_state = as_str (capture_state a);
  tier = tier_text tier;
  coverage = none;
  call_id = current_call_id a.pipeline;
  message = widget_message (status a.gate now_ms);
  recording = in_record (capture_state a);
  spool_depth = (stats a.uplink.spool).segments;
}

pub data CaptureReport : Type 0 where
  capture_blocked : Text → CaptureReport
  capture_armed capture_disarmed : CaptureReport

abbrev pub is_armed : CallState → Bool
is_armed armed = true
is_armed in_call = true
is_armed wrap = true
is_armed _ = false

abbrev pub was_armed : Option CallState → Bool
was_armed none = false
was_armed (some s) = is_armed s

abbrev pub is_state : CallState → CallState → Bool
is_state idle idle = true
is_state armed armed = true
is_state in_call in_call = true
is_state wrap wrap = true
is_state finalize finalize = true
is_state blocked blocked = true
is_state _ _ = false

abbrev pub is_last : Option CallState → CallState → Bool
is_last none s = false
is_last (some last) s = is_state last s

-- The reason of a block: that of the gate, or else the pinned device or the pipeline.
abbrev pub reason_of : Option BlockReason → Bool → Bool → Text
reason_of (some Detector.signed_out) present piped = text "signed_out"
reason_of (some pinned_device_missing) present piped = text "pinned_device_missing"
reason_of (some offline_grace_expired) present piped = text "offline_grace_expired"
reason_of (some device_revoked) present piped = text "device_revoked"
reason_of (some shutdown) present piped = text "shutdown"
reason_of none present piped =
    if not present
    then text "pinned_device_missing"
    else if not piped
    then text "no_capture_pipeline"
    else text "unknown"

abbrev pub is_blocked_state : CallState → Bool
is_blocked_state blocked = true
is_blocked_state _ = false

-- The report of a change from what was reported last; `reason` is that of a block.
abbrev pub report_of : Option CallState → CallState → Text → List CaptureReport
report_of previous state reason =
    if is_last previous state
    then []
    else if is_blocked_state state
    then capture_blocked reason ∷ []
    else if is_armed state && not (was_armed previous)
    then capture_armed ∷ []
    else if was_armed previous && not (is_armed state)
    then capture_disarmed ∷ []
    else []

-- The state that has now been reported, and the report.
unfoldable pub report_capture_state :
    Agent → IdentityStatus → Option CallState → Option CallState × List CaptureReport
unfolding capture_state block_reason
report_capture_state a st previous = (
  some (capture_state a),
  report_of previous (capture_state a)
      (reason_of (block_reason st) a.pinned_device_present (is_some a.pipeline)),
)

abbrev pub is_same : Option Bool → Bool → Bool
is_same none b = false
is_same (some c) b = if c then b else not b

unfoldable pub report_sign_in_state : Agent → Option Bool → Option Bool × List Bool
report_sign_in_state a previous =
    let signed_in = is_signed_in a.auth.state in
    if is_same previous signed_in then (previous, []) else (some signed_in, signed_in ∷ [])

pub data ClientReport : Type 0 where
  spool_evicted : ℕ → ClientReport
  client_event : EventKind → ℕ → Text → ClientReport

abbrev pub report_kind : EventKind → ℕ → Text → ClientReport
report_kind spool_eviction count detail = spool_evicted count
report_kind kind count detail = client_event kind count detail

unfoldable pub report_client_event : ClientEvent → ClientReport
report_client_event ev = report_kind ev.kind (or_else ev.count 0) (or_else ev.detail [])
