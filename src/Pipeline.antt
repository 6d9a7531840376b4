-- ===== src/Pipeline.antt =====
-- The capture pipeline: client/sentinel-agent/src/pipeline.rs.
-- A capture source is a parameter of each step, as what a read of each channel returns. The voice
-- detector of client/sentinel-capture/src/vad.rs, which is floating point, and libopus are
-- functions of the frames they have been given; creating a libopus encoder is taken to succeed.
-- serde's texts, the fresh ULID and the wall clock are parameters too.
pub mod Step
pub mod Preroll
pub mod Untouched
pub mod Calls
pub mod Spooling
use magick_sentinel.Prelude.{
  ℕ, zero, suc, ◌+◌, ◌*◌, ◌/◌, max, Bool, true, false, not, ◌&&◌, ◌||◌, Option, none, some, List,
  [], ◌∷◌, ◌++◌, length, drop, ltb, ◌-◌, ◌==◌, is_some, if◌then◌else◌, add_u64, Text, Bytes,
}
use magick_sentinel.Protocol.{Channel, far, near}
use magick_sentinel.Tier.{CaptureTier}
use magick_sentinel.Tier
use magick_sentinel.Device.{PinnedDevice, AudioDevice, Direction, render, capture, resolve_pinned}
use magick_sentinel.Events.{ClientEvent, device_lost}
use magick_sentinel.Events
use magick_sentinel.Detector.{
  VadConfig, CallState, Detector, DetectorInput, session_state, block, unblock, user_changed,
  BlockReason, pinned_device_missing, Transition, EndReason,
}
use magick_sentinel.Detector
use magick_sentinel.Foreign.{Suppressor, default_params, set_session_active}
use magick_sentinel.Foreign
use magick_sentinel.Encoder.{Opus, Samples, Segment, SegmentEncoder}
use magick_sentinel.Encoder
use magick_sentinel.Resume.{ChannelMap}
use magick_sentinel.Spool.Schema.{SegmentRow}
use magick_sentinel.Uplink.{Uplink}

abbrev pub preroll_max_segments : ℕ
preroll_max_segments = 60

-- `CallStart` and `CallEnd` of client/sentinel-core/src/protocol.rs; the times, the direction,
-- the codec and the rate are left to the texts.
pub record CallStart : Type 0 where
  pub call_id : Text
  pub user_uid : Text
  pub device_id : Text
  pub tier : CaptureTier
  pub account_ref : Option Text

pub record CallEnd : Type 0 where
  pub call_id : Text
  pub reason : EndReason
  pub last_seq : ChannelMap

pub record Codec : Type 0 where
  pub opus : Opus
  pub is_voiced : List Samples → Bool
  pub start_json : CallStart → Text
  pub end_json : CallEnd → Text

pub record ChannelPipe : Type 0 where
  pub vad : List Samples  -- the frames it has been given
  pub encoder : SegmentEncoder
  pub samples_seen : ℕ
  pub ready : List Segment

unfoldable pub new_pipe : Channel → ChannelPipe
unfolding Encoder.new
new_pipe channel = record { vad = []; encoder = Encoder.new channel; samples_seen = 0; ready = [] }

unfoldable pub restart : ChannelPipe → ChannelPipe
unfolding Encoder.new
restart p = record p { encoder = Encoder.new p.encoder.channel; ready = [] }

pub record Pipeline : Type 0 where
  pub detector : Detector
  pub far : Option ChannelPipe
  pub near : Option ChannelPipe
  pub suppressor : Suppressor
  pub tier : CaptureTier
  pub device_id : Text
  pub user_uid : Text
  pub clock_ms : ℕ
  pub current_call : Option Text
  pub events : List ClientEvent
  pub last_seq : ChannelMap
  pub account_ref : Option Text

-- Tier A needs no suppression.
abbrev pub suppressor_for : CaptureTier → Suppressor
suppressor_for Tier.a = Foreign.for_tier_a
suppressor_for Tier.b = Foreign.new default_params

unfoldable pub new : VadConfig → CaptureTier → Text → Text → Pipeline
unfolding Detector.feed Detector.new
new vad tier device_id user_uid = record {
  detector = (Detector.feed (Detector.new vad) 0 (user_changed user_uid)).0;
  far = none;
  near = none;
  suppressor = suppressor_for tier;
  tier = tier;
  device_id = device_id;
  user_uid = user_uid;
  clock_ms = 0;
  current_call = none;
  events = [];
  last_seq = λ ch. none;
  account_ref = none;
}

unfoldable pub take_events : Pipeline → Pipeline × List ClientEvent
take_events p = (record p { events = [] }, p.events)

unfoldable pub set_account_ref : Pipeline → Option Text → Pipeline
set_account_ref p account_ref = record p { account_ref = account_ref }

-- The detector is told something at the pipeline's clock.
unfoldable pub tell : Pipeline → DetectorInput → Pipeline × Transition
unfolding Detector.feed
tell p input =
    let (d, t) = Detector.feed p.detector p.clock_ms input in (record p { detector = d }, t)

-- The endpoints of the two channels, if both are present.
unfoldable pub pick_both : List PinnedDevice → List AudioDevice → Option (AudioDevice × AudioDevice)
unfolding resolve_pinned
pick_both pinned devices = elim (resolve_pinned pinned devices render) [
  | none ↦ none
  | some r ↦ elim (resolve_pinned pinned devices capture) [ none ↦ none | some c ↦ some (r, c) ]
]

-- The Boolean says whether `open` succeeded.
unfoldable pub open_on : Option (AudioDevice × AudioDevice) → Pipeline → Pipeline × Bool
unfolding tell new_pipe
open_on none p =
    let p' = (tell p (block pinned_device_missing)).0 in
    (record p' { events = p'.events ++ (Events.new device_lost p.clock_ms ∷ []) }, false)
open_on (some devices) p =
    ((tell (record p { far = some (new_pipe far); near = some (new_pipe near) }) unblock).0, true)

unfoldable pub open_devices : List PinnedDevice → List AudioDevice → Pipeline → Pipeline × Bool
unfolding pick_both open_on
open_devices pinned devices p = open_on (pick_both pinned devices) p

unfoldable pub on_session_state : Pipeline → Bool → Pipeline × Transition
unfolding tell set_session_active
on_session_state p active =
    tell (record p { suppressor = set_session_active p.suppressor p.clock_ms active })
      (session_state active)

unfoldable pub on_user_changed : Pipeline → Text → Pipeline × Transition
unfolding tell
on_user_changed p uid = tell (record p { user_uid = uid }) (user_changed uid)

unfoldable pub block_capture : Pipeline → BlockReason → Pipeline × Transition
unfolding tell
block_capture p reason = tell p (block reason)

unfoldable pub unblock_capture : Pipeline → Pipeline × Transition
unfolding tell
unblock_capture p = tell p unblock

unfoldable pub on_device_lost : Pipeline → Pipeline × Transition
unfolding tell
on_device_lost p =
    tell
      (record p {
        far = none;
        near = none;
        events = p.events ++ (Events.new device_lost p.clock_ms ∷ []);
      })
      (block pinned_device_missing)

unfoldable pub to_row : Text → Segment → ℕ → SegmentRow
to_row call_id seg created_ms = record {
  call_id = call_id;
  channel = seg.channel;
  seq = seg.seq;
  timestamp_ms = seg.timestamp_ms;
  flags = seg.flags;
  payload = seg.payload;
  created_ms = created_ms;
}

-- The ring buffer of one channel.
unfoldable pub bound_pipe : Bool → ChannelPipe → ChannelPipe
bound_pipe keeping p =
    if not keeping
    then record p { ready = [] }
    else if ltb preroll_max_segments (length p.ready)
    then record p { ready = drop (length p.ready - preroll_max_segments) p.ready }
    else p

abbrev pub map_pipe : (ChannelPipe → ChannelPipe) → Option ChannelPipe → Option ChannelPipe
map_pipe f none = none
map_pipe f (some p) = some (f p)

-- `for pipe in [self.far, self.near].flatten()` with a change that cannot fail.
unfoldable pub each_pipe : (ChannelPipe → ChannelPipe) → Pipeline → Pipeline
each_pipe f p = record p { far = map_pipe f p.far; near = map_pipe f p.near }

abbrev pub is_armed : CallState → Bool
is_armed CallState.armed = true
is_armed _ = false

-- `armed` or `in_call` of `bound_preroll`.
abbrev pub keeps_audio : Pipeline → Bool
keeps_audio p = is_armed p.detector.state || is_some p.current_call

unfoldable pub bound_preroll : Pipeline → Pipeline
unfolding each_pipe bound_pipe
bound_preroll p = each_pipe (bound_pipe (keeps_audio p)) p
