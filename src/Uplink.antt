-- ===== src/Uplink.antt =====
-- The uplink's state and its connection: client/sentinel-agent/src/uplink/mod.rs and transport.rs,
-- with `ControlMessage` of client/sentinel-core/src/protocol.rs.
-- A map is a function of its keys; the set of known calls, which is iterated, is a sorted list.
-- A failed send ends the use of a connection, so a connection is described by the frames sent on
-- it and the number of sends that succeed before one fails. The fields that only telemetry reads
-- are left out.
pub mod Send
pub mod Receive
pub mod Pump
pub mod Retention
pub mod Deletion
pub mod Waiting
use magick_sentinel.Prelude.{
  ℕ, zero, suc, ◌+◌, Bool, true, false, not, ◌&&◌, Option, none, some, List, [], ◌∷◌, ◌++◌, keep,
  ltb, ◌==◌, if◌then◌else◌, saturating_add_u64, u64_mod, Text, Bytes, text, text_eq, text_lt, ◌%◌,
}
use magick_sentinel.Protocol.{Channel, channel_as_u8}
use magick_sentinel.Backoff.{Backoff}
use magick_sentinel.Backoff
use magick_sentinel.Events.{ClientEvent, capture_error}
use magick_sentinel.Events
use magick_sentinel.Resume.{ChannelMap}
use magick_sentinel.Spool.Schema.{Spool, SegmentRow, Result, ok, err}
use magick_sentinel.Spool.CallTable
use magick_sentinel.Spool.Segments

-- `CallStart`, `CallEnd` and `Heartbeat` go to the server: their fields are not read here.
pub data ControlMessage : Type 0 where
  call_start call_end heartbeat : ControlMessage
  ack : Text → ℕ → ℕ → ControlMessage
  resume : Text → List (Text × ℕ) → ControlMessage
  call_error : Text → Text → Text → Bool → ControlMessage
  heartbeat_ack : Text → ℕ → ControlMessage

pub data Incoming : Type 0 where
  text_frame : Text → Incoming
  binary_frame : Bytes → Incoming
  closed : Option ℕ → Incoming

pub data Frame : Type 0 where
  text_sent : Text → Frame
  binary_sent : Bytes → Frame

pub record Wire : Type 0 where
  pub sent : List Frame
  pub sends_left : ℕ

abbrev pub token_invalid : ℕ
token_invalid = 4401

abbrev pub forbidden : ℕ
forbidden = 4403

abbrev pub resume_timeout_ms : ℕ
resume_timeout_ms = 5_000

pub record PumpOutcome : Type 0 where
  pub connected : Bool
  pub sent : ℕ
  pub acked : ℕ
  pub verified : Bool
  pub device_revoked : Bool
  pub token_rejected : Bool
  pub policy_version : Option ℕ

abbrev pub default_outcome : PumpOutcome
default_outcome = record {
  connected = false;
  sent = 0;
  acked = 0;
  verified = false;
  device_revoked = false;
  token_rejected = false;
  policy_version = none;
}

pub record Uplink : Type 0 where
  pub spool : Spool
  pub transport : Option Wire
  pub backoff : Backoff
  pub next_attempt_ms : ℕ
  pub started_this_connection : Text → Bool
  pub ended_this_connection : Text → Bool
  pub known_calls : List Text
  pub resume_points : Text → Option ChannelMap
  pub sent_through : Text → ChannelMap
  pub awaiting_resume : Text → Option ℕ
  pub events : List ClientEvent
  pub policy_version : ℕ  -- the bits of an i64, which is only compared

-- A map with one entry set.
abbrev pub put {ℓ} : {A : Type ℓ} → Text → A → (Text → A) → Text → A
put key v f x = if text_eq x key then v else f x

-- `insert` and `remove` of the set of known calls.
unfoldable pub insert_call : Text → List Text → List Text
insert_call id [] = id ∷ []
insert_call id (c ∷ cs) =
    let later = insert_call id cs in
    if text_eq c id then c ∷ cs else if text_lt id c then id ∷ c ∷ cs else c ∷ later

unfoldable pub remove_call : Text → List Text → List Text
remove_call id cs = keep (λ c. not (text_eq c id)) cs

unfoldable pub insert_calls : List Text → List Text → List Text
unfolding insert_call
insert_calls [] known = known
insert_calls (id ∷ ids) known = insert_calls ids (insert_call id known)

unfoldable pub new : Spool → Uplink
new spool = record {
  spool = spool;
  transport = none;
  backoff = Backoff.uplink;
  next_attempt_ms = 0;
  started_this_connection = λ id. false;
  ended_this_connection = λ id. false;
  known_calls = insert_calls (CallTable.pending_calls spool) [];
  resume_points = λ id. none;
  sent_through = λ id ch. none;
  awaiting_resume = λ id. none;
  events = [];
  policy_version = 0;
}

-- `json` is what serde writes for the frame.
unfoldable pub begin_call : Uplink → Text → Text → ℕ → Uplink
begin_call u call_id json now_ms = record u {
  spool = CallTable.begin_call u.spool call_id json now_ms;
  known_calls = insert_call call_id u.known_calls;
}

unfoldable pub end_call : Uplink → Text → Text → Uplink
end_call u call_id json = record u { spool = CallTable.end_call u.spool call_id json }

-- The Boolean says whether the call succeeded.
unfoldable pub push_segment : Uplink → SegmentRow → Uplink × Bool
push_segment u seg = elim (Segments.push u.spool seg).1 [
  | err e ↦ (u, false)
  | ok none ↦ (record u { spool = (Segments.push u.spool seg).0 }, true)
  | ok (some ev) ↦
      (record u { spool = (Segments.push u.spool seg).0; events = u.events ++ (ev ∷ []) }, true)
]

-- The transport after one more frame, or none if there is no transport or the send fails.
unfoldable pub send_on : Option Wire → Frame → Option Wire
send_on none frame = none
send_on (some w) frame = elim w.sends_left [
  | zero ↦ none
  | suc n ↦ some (record { sent = w.sent ++ (frame ∷ []); sends_left = n })
]

-- A new connection: what the last one knew is forgotten.
unfoldable pub connected_to : Uplink → Wire → Uplink
connected_to u w = record u {
  transport = some w;
  started_this_connection = λ id. false;
  ended_this_connection = λ id. false;
  resume_points = λ id. none;
  sent_through = λ id ch. none;
  awaiting_resume = λ id. none;
}

-- Postpone the next attempt by the backoff; `draw` is its random number.
unfoldable pub postponed : (ℕ → ℕ) → ℕ → Uplink → Uplink
unfolding Backoff.next_delay
postponed draw now_ms u =
    let (b, delay) = Backoff.next_delay draw u.backoff in
    record u { backoff = b; next_attempt_ms = saturating_add_u64 now_ms (delay % u64_mod) }

unfoldable pub drop_connection : (ℕ → ℕ) → ℕ → Uplink → Uplink
unfolding postponed
drop_connection draw now_ms u =
    let u' = postponed draw now_ms (record u { transport = none }) in
    record u' {
      events =
          u'.events
          ++ (Events.with_detail (Events.new capture_error now_ms) (text "uplink_reconnect") ∷ []);
    }
