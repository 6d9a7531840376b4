-- ===== src/Uplink/Pump.antt =====
-- One pass: `pump` of client/sentinel-agent/src/uplink/mod.rs.
use magick_sentinel.Prelude.{
  ℕ, Bool, true, false, Option, none, some, List, ltb, if◌then◌else◌, Text, Bytes,
}
use magick_sentinel.Uplink.{
  ControlMessage, Incoming, Wire, Uplink, default_outcome, connected_to, postponed, drop_connection,
}
use magick_sentinel.Uplink.Send.{Pass, send_pending}
use magick_sentinel.Uplink.Receive.{read_incoming}

-- What a pass meets outside the program: what `connect` returns, the messages that arrive and
-- whether the last receive timed out, the random draw, serde's parser and the bytes of a ULID.
pub record World : Type 0 where
  pub dialled : Option Wire
  pub inbox : List Incoming
  pub quiet : Bool
  pub draw : ℕ → ℕ
  pub from_json : Text → Option ControlMessage
  pub bytes_of : Text → Bytes

-- A failed part drops the connection.
abbrev pub or_drop : World → ℕ → Pass × Bool → Pass × Bool
or_drop w now (s, true) = (s, true)
or_drop w now (s, false) = (
  record { up = drop_connection w.draw now s.up; outcome = record s.outcome { connected = false } },
  false,
)

-- What follows the sending: the reading, if the connection still stands.
unfoldable pub then_read : World → ℕ → Pass × Bool → Pass
unfolding drop_connection
then_read w now (s, true) = (or_drop w now (read_incoming w.from_json now w.quiet w.inbox s)).0
then_read w now (s, false) = (or_drop w now (s, false)).0

-- The part of `pump` with a connection.
unfoldable pub exchange : World → ℕ → Uplink → Pass
unfolding then_read
exchange w now u = then_read w now (
    send_pending w.bytes_of now
      (record { up = u; outcome = record default_outcome { connected = true } }))

-- The part that connects.
unfoldable pub dial : World → ℕ → Option Wire → Uplink → Pass
unfolding exchange connected_to postponed
dial w now (some wire) u = exchange w now (connected_to u wire)
dial w now none u = record { up = postponed w.draw now u; outcome = default_outcome }

-- `pump`, by its transport.
unfoldable pub pump_on : World → ℕ → Option Wire → Uplink → Pass
unfolding dial
pump_on w now (some wire) u = exchange w now u
pump_on w now none u =
    if ltb now u.next_attempt_ms
    then record { up = u; outcome = default_outcome }
    else dial w now w.dialled u

unfoldable pub pump : World → ℕ → Uplink → Pass
unfolding pump_on
pump w now u = pump_on w now u.transport u
