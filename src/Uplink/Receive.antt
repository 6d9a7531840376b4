-- ===== src/Uplink/Receive.antt =====
-- Reading what has arrived: `read_incoming` and `handle_control` of
-- client/sentinel-agent/src/uplink/mod.rs.
-- The messages of a pass are those that arrive before a receive times out or fails; `from_json`
-- is serde's parser of a control frame.
use magick_sentinel.Prelude.{
  ℕ, ◌+◌, Bool, true, false, ◌||◌, Option, none, some, List, [], ◌∷◌, ◌++◌, ◌==◌, if◌then◌else◌,
  Text,
}
use magick_sentinel.Protocol.{Channel, Result, ok, err, channel_from_u8}
use magick_sentinel.Backoff
use magick_sentinel.Resume.{plan}
use magick_sentinel.Spool.Upkeep
use magick_sentinel.Uplink.{
  ControlMessage, ack, resume, call_error, heartbeat_ack, Incoming, text_frame, binary_frame,
  closed, put, remove_call, token_invalid, forbidden,
}
use magick_sentinel.Uplink.Send.{Pass}

unfoldable pub apply_ack : Text → Channel → ℕ → Pass → Pass
unfolding Upkeep.ack Backoff.reset
apply_ack id ch through s =
    let (spool, deleted) = Upkeep.ack s.up.spool id ch through in
    record {
      up = record s.up { spool = spool; backoff = Backoff.reset s.up.backoff };
      outcome = record s.outcome { acked = s.outcome.acked + deleted; verified = true };
    }

unfoldable pub apply_resume : Text → List (Text × ℕ) → Pass → Pass
apply_resume id acked s = record {
  up = record s.up {
    awaiting_resume = put id none s.up.awaiting_resume;
    resume_points =
        put id (some (plan (Upkeep.acked_through s.up.spool id) acked)) s.up.resume_points;
  };
  outcome = record s.outcome { verified = true };
}

unfoldable pub apply_fatal : ℕ → Text → Text → Pass → Pass
unfolding Upkeep.seal
apply_fatal now id code s =
    let (spool, ev) = Upkeep.seal s.up.spool id code now in
    record s {
      up = record s.up {
        spool = spool;
        events = s.up.events ++ (ev ∷ []);
        known_calls = remove_call id s.up.known_calls;
      };
    }

-- `let Ok(ch) = Channel::from_u8(channel) else { return }`.
unfoldable pub ack_on : Result Channel → Text → ℕ → Pass → Pass
unfolding apply_ack
ack_on (err e) id through s = s
ack_on (ok ch) id through s = apply_ack id ch through s

unfoldable pub handle_message : ℕ → ControlMessage → Pass → Pass
unfolding ack_on apply_resume apply_fatal
handle_message now (ack id channel through) s = ack_on (channel_from_u8 channel) id through s
handle_message now (resume id acked) s = apply_resume id acked s
handle_message now (call_error id code message fatal) s =
    if fatal then apply_fatal now id code s else s
handle_message now (heartbeat_ack server_time version) s =
    if version == s.up.policy_version
    then record s { outcome = record s.outcome { verified = true } }
    else record {
      up = record s.up { policy_version = version };
      outcome = record s.outcome { verified = true; policy_version = some version };
    }
handle_message now _ s = s

-- A frame that does not parse is ignored.
unfoldable pub handle_parsed : ℕ → Option ControlMessage → Pass → Pass
unfolding handle_message
handle_parsed now none s = s
handle_parsed now (some msg) s = handle_message now msg s

unfoldable pub handle_control : (Text → Option ControlMessage) → ℕ → Text → Pass → Pass
unfolding handle_parsed
handle_control from_json now frame s = handle_parsed now (from_json frame) s

-- What a close code says.
unfoldable pub note_close : Option ℕ → Pass → Pass
note_close none s = s
note_close (some code) s = record s {
  outcome = record s.outcome {
    device_revoked = code == forbidden || s.outcome.device_revoked;
    token_rejected = code == token_invalid || s.outcome.token_rejected;
  };
}

-- `quiet` says whether the last receive timed out rather than failed.
unfoldable pub read_incoming :
    (Text → Option ControlMessage) → ℕ → Bool → List Incoming → Pass → Pass × Bool
unfolding handle_control note_close
read_incoming from_json now quiet [] s = (s, quiet)
read_incoming from_json now quiet (text_frame frame ∷ rest) s =
    read_incoming from_json now quiet rest (handle_control from_json now frame s)
read_incoming from_json now quiet (binary_frame bytes ∷ rest) s =
    read_incoming from_json now quiet rest s
read_incoming from_json now quiet (closed code ∷ rest) s = (note_close code s, false)
