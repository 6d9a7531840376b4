-- ===== src/Examples/Upload.antt =====
-- The uplink on a concrete connection.
use magick_sentinel.Prelude.{
  ◌≡◌, refl, true, false, [], ◌∷◌, none, some, text, text_eq, Option, Text, if◌then◌else◌,
}
use magick_sentinel.Protocol.{far}
use magick_sentinel.Spool.Schema.{Spool, default_limits}
use magick_sentinel.Spool.CallTable.{is_sealed}
use magick_sentinel.Uplink.{Wire, ControlMessage, ack, text_frame, closed, new, default_outcome}
use magick_sentinel.Uplink.Send.{Pass}
use magick_sentinel.Uplink.Pump.{World, pump}
use magick_sentinel.Uplink.Deletion.{segments_of, pump_keeps}

abbrev call_c : Text
call_c = text "c"

-- Call `c` with one segment; its first two were acknowledged.
abbrev one_left : Spool
one_left = record {
  segments =
      record {
        call_id = call_c;
        channel = far;
        seq = 2;
        timestamp_ms = 2_000;
        flags = record { foreign = false; silence_inserted = false };
        payload = 9 ∷ [];
        created_ms = 50;
      }
      ∷ [];
  calls =
      record {
        call_id = call_c;
        start_json = text "start c";
        end_json = none;
        is_sealed = false;
        created_ms = 0;
      }
      ∷ [];
  acks = record { call_id = call_c; channel = far; through_seq = 1 } ∷ [];
  limits = default_limits;
}

abbrev parse : Text → Option ControlMessage
parse frame = if text_eq frame (text "ack d") then some (ack (text "d") 0 7) else none

-- An acknowledgement of another call arrives, then the server closes the connection.
abbrev world : World
world = record {
  dialled = some (record { sent = []; sends_left = 9 });
  inbox = text_frame (text "ack d") ∷ closed (some 4403) ∷ [];
  quiet = true;
  draw = λ c. c;
  from_json = parse;
  bytes_of = λ id. [];
}

pump_keeps_example :
    segments_of call_c (pump world 100 (new one_left)).up.spool ≡ segments_of call_c one_left
unfolding new text_eq
pump_keeps_example = pump_keeps world 100 call_c (new one_left) (refl, (refl, tt))

abbrev wire : Wire
wire = record { sent = []; sends_left = 9 }

abbrev first_turn : Pass
first_turn = record {
  up = record (new one_left) { transport = some wire };
  outcome = default_outcome;
}
