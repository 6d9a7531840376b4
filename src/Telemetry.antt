-- ===== src/Telemetry.antt =====
-- Endpoint telemetry: client/sentinel-service/src/telemetry/mod.rs, layer.rs and the records of
-- otlp.rs. Encoding a batch and the exchange with the collector are left out: a step says whether
-- the batch is taken. A signed number is its sign and its size, and a float is its bytes.
pub mod Redaction
pub mod Accounting
pub mod Bounds
pub mod Ending
use magick_sentinel.Prelude.{
  ℕ, ◌+◌, ◌-◌, ◌%◌, min, Bool, true, false, not, ◌&&◌, ◌||◌, Option, none, some, List, [], ◌∷◌,
  ◌++◌, map, ltb, leb, ◌==◌, if◌then◌else◌, or_else, any, length, Text, text, text_eq, Bytes,
  u64_mod,
}
use magick_sentinel.Update.{split_dots}

abbrev pub queue_capacity : ℕ
queue_capacity = 1024

abbrev pub max_batch : ℕ
max_batch = 128

abbrev pub target : Text
target = text "sentinel.telemetry"

abbrev pub forbidden_attributes : List Text
forbidden_attributes = map text (
    "user_uid" ∷ "uid" ∷ "firebase_uid" ∷ "user.id" ∷ "enduser.id" ∷ "email" ∷ "display_name"
    ∷ "account_ref" ∷ "account" ∷ "borrower" ∷ "phone" ∷ "msisdn" ∷ "transcript" ∷ "text"
    ∷ "utterance" ∷ "summary" ∷ "audio" ∷ "payload" ∷ "token" ∷ "id_token" ∷ "refresh_token"
    ∷ "authorization" ∷ "enrollment_token" ∷ "spool_key" ∷ "private_key" ∷ [])

abbrev pub lower : ℕ → ℕ
lower c = if leb 65 c && leb c 90 then c + 32 else c

unfoldable pub to_ascii_lowercase : Text → Text
to_ascii_lowercase [] = []
to_ascii_lowercase (c ∷ s) = lower c ∷ to_ascii_lowercase s

unfoldable pub last_of : Text → List Text → Text
last_of s [] = s
last_of s (t ∷ ts) = last_of t ts

-- `rsplit('.').next()`.
unfoldable pub last_segment : Text → Text
unfolding split_dots last_of
last_segment s = let (first, others) = split_dots s in last_of first others

unfoldable pub attribute_permitted : Text → Bool
unfolding to_ascii_lowercase last_segment
attribute_permitted key =
    let low = to_ascii_lowercase key in
    let last = last_segment low in
    not (any (λ f. text_eq low f || text_eq last f) forbidden_attributes)

pub data AttrValue : Type 0 where
  str : Text → AttrValue
  int : Bool → ℕ → AttrValue
  bool : Bool → AttrValue
  float : Bytes → AttrValue

pub data Level : Type 0 where
  trace debug info warn error : Level

-- The numbers of the severities.
unfoldable pub severity : Level → ℕ
severity trace = 1
severity debug = 5
severity info = 9
severity warn = 13
severity error = 17

-- What a field of an event is recorded as.
pub data FieldValue : Type 0 where
  of_str of_debug of_error : Text → FieldValue
  of_i64 : Bool → ℕ → FieldValue
  of_u64 : ℕ → FieldValue
  of_bool : Bool → FieldValue
  of_f64 : Bytes → FieldValue

abbrev pub i64_max : ℕ
i64_max = 9_223_372_036_854_775_807

unfoldable pub attr_value : FieldValue → AttrValue
attr_value (of_str s) = str s
attr_value (of_debug s) = str s
attr_value (of_error s) = str s
attr_value (of_i64 negative n) = int negative n
attr_value (of_u64 n) = int false (min n i64_max)
attr_value (of_bool b) = bool b
attr_value (of_f64 x) = float x

pub record FieldVisitor : Type 0 where
  pub message : Option Text
  pub attributes : List (Text × AttrValue)

abbrev pub as_message : AttrValue → FieldVisitor → FieldVisitor
as_message (str s) v = record v { message = some s }
as_message (int negative n) v = v
as_message (bool b) v = v
as_message (float x) v = v

unfoldable pub push : Text → AttrValue → FieldVisitor → FieldVisitor
unfolding attribute_permitted
push name value v =
    if text_eq name (text "message")
    then as_message value v
    else if not (attribute_permitted name)
    then record v {
      attributes = v.attributes ++ ((text "telemetry.dropped_attribute", str name) ∷ []);
    }
    else record v { attributes = v.attributes ++ ((name, value) ∷ []) }

unfoldable pub visit : List (Text × FieldValue) → FieldVisitor → FieldVisitor
unfolding push attr_value
visit [] v = v
visit ((name, value) ∷ fields) v = visit fields (push name (attr_value value) v)

pub record Record : Type 0 where
  pub time_unix_nano : ℕ
  pub severity_number : ℕ
  pub body : Text
  pub attributes : List (Text × AttrValue)

pub record Event : Type 0 where
  pub event_target : Text
  pub name : Text
  pub level : Level
  pub fields : List (Text × FieldValue)

unfoldable pub record_of : ℕ → Event → Record
unfolding visit severity
record_of now e =
    let v = visit e.fields (record { message = none; attributes = [] }) in
    record {
      time_unix_nano = now;
      severity_number = severity e.level;
      body = or_else v.message e.name;
      attributes = v.attributes;
    }

-- The channel with the number of its senders, the exporter, and which records have been taken by
-- the collector, lost with a batch that was not taken, and refused by a full queue.
pub record Exporter : Type 0 where
  pub queue : List Record
  pub layer : Bool  -- whether the layer still holds its sender
  pub handle : Bool  -- whether the handle does
  pub dropped : ℕ
  pub batch : List Record
  pub reported_drops : ℕ
  pub endpoint_failing : Bool
  pub stopped : Bool
  pub shipped : List Record
  pub lost : List Record
  pub refused : List Record

-- The layer and the handle hold a sender each; the channel is open while one does.
unfoldable pub new : Exporter
new = record {
  queue = [];
  layer = true;
  handle = true;
  dropped = 0;
  batch = [];
  reported_drops = 0;
  endpoint_failing = false;
  stopped = false;
  shipped = [];
  lost = [];
  refused = [];
}

-- `try_send` into a bounded channel whose receiver is gone fails without counting.
unfoldable pub enqueue : Record → Exporter → Exporter
enqueue r e =
    if e.stopped
    then e
    else if ltb (length e.queue) queue_capacity
    then record e { queue = e.queue ++ (r ∷ []) }
    else record e { dropped = (e.dropped + 1) % u64_mod; refused = e.refused ++ (r ∷ []) }

unfoldable pub on_event : ℕ → Event → Exporter → Exporter
unfolding enqueue record_of
on_event now event e =
    if not e.layer || not (text_eq event.event_target target)
    then e
    else enqueue (record_of now event) e

unfoldable pub drop_notice : ℕ → ℕ → Record
unfolding severity
drop_notice now count = record {
  time_unix_nano = now;
  severity_number = severity warn;
  body = text "telemetry records were dropped because the export queue was full";
  attributes =
      (text "event", str (text "telemetry.dropped")) ∷ (text "dropped", int false count) ∷ [];
}

unfoldable pub note_drops : ℕ → Exporter → Exporter
unfolding drop_notice
note_drops now e =
    if ltb e.reported_drops e.dropped
    then record e {
      batch = e.batch ++ (drop_notice now (e.dropped - e.reported_drops) ∷ []);
      reported_drops = e.dropped;
    }
    else e

abbrev pub ship : Bool → List Record → Exporter → Exporter
ship taken [] e = e
ship true (r ∷ rs) e = record e {
  batch = [];
  endpoint_failing = false;
  shipped = e.shipped ++ (r ∷ rs);
}
ship false (r ∷ rs) e = record e { batch = []; endpoint_failing = true; lost = e.lost ++ (r ∷ rs) }

unfoldable pub flush : ℕ → Bool → Exporter → Exporter
unfolding note_drops
flush now taken e = let noted = note_drops now e in ship taken noted.batch noted

abbrev pub flush_full : ℕ → Bool → Exporter → Exporter
flush_full now taken e = if ltb (length e.batch) max_batch then e else flush now taken e

-- One pass of `export_loop`: a record, else the end when no sender is left, else a timeout.
abbrev pub receive : List Record → ℕ → Bool → Exporter → Exporter
receive (r ∷ rs) now taken e =
    flush_full now taken (record e { queue = rs; batch = e.batch ++ (r ∷ []) })
receive [] now taken e =
    if e.layer || e.handle then flush now taken e else record (flush now taken e) { stopped = true }

unfoldable pub export_pass : ℕ → Bool → Exporter → Exporter
unfolding flush
export_pass now taken e = if e.stopped then e else receive e.queue now taken e

-- `TelemetryHandle::stop`, which drops the sender of the handle.
unfoldable pub stop : Exporter → Exporter
stop e = record e { handle = false }

-- The drop of `OtlpLayer`, as when its subscriber is no longer installed.
unfoldable pub drop_layer : Exporter → Exporter
drop_layer e = record e { layer = false }

pub data Step : Type 0 where
  emit : ℕ → Event → Step
  pass : ℕ → Bool → Step

unfoldable pub step : Step → Exporter → Exporter
unfolding on_event export_pass
step (emit now event) e = on_event now event e
step (pass now taken) e = export_pass now taken e

unfoldable pub run : List Step → Exporter → Exporter
unfolding step
run [] e = e
run (s ∷ ss) e = run ss (step s e)
