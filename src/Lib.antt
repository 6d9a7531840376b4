-- ===== src/Lib.antt =====
-- Sentinel is the desktop client of a call-recording product: an agent detects calls and captures
-- both audio channels, an encrypted spool keeps the segments until the server has acknowledged
-- them, and a service watches over the agent.
--
-- How the parts interact. A tick of the agent asks the identity gate whether capture is allowed,
-- lets the pipeline take a step, lets the uplink make a pass, and sends a heartbeat. A step of the
-- pipeline reads both channels, frames and encodes what it has read, and reports voice to the call
-- detector, whose transitions open and close calls; the foreign-audio suppressor marks what is not
-- call audio. Finished segments wait in the channel's pipe until a call is open, and are pushed to
-- the spool under their call, channel and number. After a connect the resume point and the spool's
-- watermarks decide which segments are sent, as binary media records; acknowledgements delete
-- them. The service enrols the machine, writes the credential that the agent presents, relaunches
-- the agent with the backoff and speaks to it in frames on a named pipe. Losses are reported as client events.
--
-- Which file models which part:
-- - Prelude: shared tests, lists, bytes and machine-width sums.
-- - Detector: client/sentinel-core/src/state.rs. `Detector` is the struct; `feed` is the method,
--   with the match on the input in `observe` and that of `evaluate` in `evaluate_in`.
-- - Protocol: client/sentinel-core/src/protocol.rs. `encode`, `decode`, `decode_all`,
--   `pack_segment` and `unpack_segment` work on lists of bytes; a `Vec` grown in place is returned.
-- - Spool: client/sentinel-core/src/spool.rs. The three tables are lists, in Schema; each SQL
--   statement is a function on them. CallTable has the calls, Segments the writes with eviction,
--   Uploads what is to be sent, Upkeep the acknowledgements, sealing and clean-up.
-- - Backoff, Events: backoff.rs and events.rs beside them.
-- - Resume: client/sentinel-agent/src/uplink/resume.rs.
-- - Supervisor, Frames: client/sentinel-service/src/supervisor.rs and ipc/codec.rs.
-- - Tier, Device, Foreign: tier.rs, device.rs and foreign.rs of client/sentinel-capture/src.
-- - Uplink: client/sentinel-agent/src/uplink/mod.rs. Uplink has the state and the connection, Send
--   is `send_pending`, Receive `read_incoming` and `handle_control`, and Pump `pump`.
-- - Der: client/sentinel-service/src/der.rs; each function returns the bytes it writes.
-- - Encoder: client/sentinel-agent/src/encode.rs; its loop over samples is `push_loop`, and
--   libopus is a function of the frames it has been given.
-- - Pipeline: client/sentinel-agent/src/pipeline.rs. Pipeline has the state and the operations
--   between steps, Step is `step` and what it calls; a step that fails holds the state it leaves.
-- - Identity, Agent: client/sentinel-agent/src/identity.rs and agent.rs, with `flush` of
--   uplink/mod.rs. `tick` is the method, with one function for each of its numbered parts.
-- - Auth, Pkce: client/sentinel-agent/src/auth/mod.rs and auth/pkce.rs.
-- - Update, CrashDump: client/sentinel-service/src/update.rs and crashdump.rs.
-- - SpoolKey: client/sentinel-service/src/spoolkey.rs.
-- - DeviceKey, Csr: client/sentinel-service/src/devicekey/mod.rs and csr.rs.
-- - Enrolment: client/sentinel-service/src/enroll.rs, http.rs and device.rs, as actions on the
--   credential directory and the requests that have been sent; Enrolment/Service is
--   `ensure_enrolled` and its caller in main.rs.
-- - Credential: client/sentinel-agent/src/device.rs.
-- - Telemetry: client/sentinel-service/src/telemetry/mod.rs, layer.rs and the records of otlp.rs.
-- - Watch: the loop of client/sentinel-service/src/main.rs.
-- - Loopback: client/sentinel-agent/src/auth/loopback.rs, with the connections as a list.
-- - Api, Heartbeat: client/sentinel-agent/src/api.rs and heartbeat.rs.
-- - Widget: client/sentinel-agent/src/widget/mod.rs and position.rs.
-- - ConfigSync: client/sentinel-service/src/config_sync.rs.
-- - Startup: client/sentinel-agent/src/main.rs, what an agent starts with.
-- - Config: client/sentinel-core/src/config.rs, with `from_local` and `authorize_url` of pkce.rs;
--   Whitespace is the standard library's `trim`.
-- - Examples: tests and the theorems on concrete inputs.
--
-- Bounds and fuel. Numbers are natural numbers; where the source wraps, saturates or truncates,
-- the definition says so, and where it relies on a width the theorem has that hypothesis. The
-- loop of `decode_all` has the length of its buffer as fuel, and each record takes at least one
-- byte; the loop of `unpack_segment` likewise; the eviction loop has the number of rows as fuel
-- and deletes one at least in each round; the loop of `push_samples` has the number of samples and
-- one more, and each round takes a sample at least; the loop of `staging_path` has the length of
-- the version, and each round shortens it. The results that speak of these loops include that
-- they return.
--
-- Not modelled: serde's JSON texts, which are byte strings or texts here; the SQLite engine and
-- the errors it can raise; the random draw of the backoff, which is a function; audio devices,
-- sockets, Windows, cryptography, the browser and the credential store of a sign-in, the voice
-- detector and libopus, the encoding of telemetry, and the server, whose parts are in other languages.
pub mod Prelude
pub mod Protocol
pub mod Detector
pub mod Backoff
pub mod Supervisor
pub mod Events
pub mod Foreign
pub mod Resume
pub mod Tier
pub mod Device
pub mod Spool
pub mod Frames
pub mod Uplink
pub mod Der
pub mod DeviceKey
pub mod Csr
pub mod Encoder
pub mod Pipeline
pub mod Identity
pub mod Auth
pub mod Agent
pub mod Whitespace
pub mod Config
pub mod Update
pub mod Pkce
pub mod CrashDump
pub mod SpoolKey
pub mod Enrolment
pub mod Credential
pub mod Telemetry
pub mod Watch
pub mod Loopback
pub mod Widget
pub mod Api
pub mod Heartbeat
pub mod Startup
pub mod ConfigSync
pub mod Examples
