-- ===== src/Uplink/Deletion.antt =====
-- What a pass deletes from the spool.
use magick_sentinel.Prelude.{
  ℕ, ◌≡◌, refl, ap, ◌∙◌, Bool, true, false, ◌&&◌, Option, none, some, List, [], ◌∷◌, keep, All,
  Text, text_eq, text_eq_iff, arith, Bool-cases, inl, inr, ltb,
}
use magick_sentinel.Protocol.{Channel, Result, ok, err, channel_from_u8}
use magick_sentinel.Spool.Schema.{Spool, SegmentRow}
use magick_sentinel.Spool.Upkeep.{covered}
use magick_sentinel.Spool.Upkeep
use magick_sentinel.Uplink.{
  ControlMessage, ack, resume, call_start, call_end, heartbeat, call_error, heartbeat_ack, Incoming,
  text_frame, binary_frame, closed, Wire, Uplink, connected_to, postponed, drop_connection,
}
use magick_sentinel.Uplink.Send.{Pass}
use magick_sentinel.Uplink.Receive.{
  ack_on, handle_parsed, apply_ack, apply_resume, apply_fatal, handle_message, handle_control,
  note_close, read_incoming,
}
use magick_sentinel.Uplink.Retention.{send_pending_spool}
use magick_sentinel.Uplink.Pump.{World, or_drop, then_read, exchange, dial, pump_on, pump}

-- The segments of a call.
abbrev pub segments_of : Text → Spool → List SegmentRow
segments_of id s = keep (λ r. text_eq r.call_id id) s.segments

-- A message that acknowledges segments of the call, or refuses it for good.
abbrev pub settles : Text → Option ControlMessage → Bool
settles id (some (ack id' channel through)) = text_eq id' id
settles id (some (call_error id' code message fatal)) = fatal && text_eq id' id
settles id _ = false

abbrev pub frame_settles : (Text → Option ControlMessage) → Text → Incoming → Bool
frame_settles from_json id (text_frame frame) = settles id (from_json frame)
frame_settles from_json id _ = false

keep_rows :
    (id : Text) (p : SegmentRow → Bool) (rows : List SegmentRow)
    → ((r : SegmentRow) → text_eq r.call_id id ≡ true → p r ≡ true)
    → keep (λ r. text_eq r.call_id id) (keep p rows) ≡ keep (λ r. text_eq r.call_id id) rows
keep_rows id p [] h = refl
keep_rows id p (r ∷ rows) h = ground (arith, h r, keep_rows id p rows h)

other_call :
    (r id id' : Text) → text_eq id' id ≡ false → text_eq r id ≡ true → text_eq r id' ≡ false
other_call r id id' n e = ground (arith, text_eq_iff r id, text_eq_iff r id', text_eq_iff id' id)

apply_ack_segments :
    (id id' : Text) (ch : Channel) (through : ℕ) (s : Pass)
    → text_eq id' id ≡ false
    → segments_of id (apply_ack id' ch through s).up.spool ≡ segments_of id s.up.spool
unfolding apply_ack Upkeep.ack
apply_ack_segments id id' ch through s n =
    keep_rows id _ s.up.spool.segments (λ r e. ground (arith, other_call r.call_id id id' n e))

ack_on_segments :
    (id id' : Text) (r : Result Channel) (through : ℕ) (s : Pass)
    → text_eq id' id ≡ false
    → segments_of id (ack_on r id' through s).up.spool ≡ segments_of id s.up.spool
unfolding ack_on
ack_on_segments id id' (err e) through s n = refl
ack_on_segments id id' (ok ch) through s n = apply_ack_segments id id' ch through s n

apply_fatal_segments :
    (now : ℕ) (id id' code : Text) (s : Pass)
    → text_eq id' id ≡ false
    → segments_of id (apply_fatal now id' code s).up.spool ≡ segments_of id s.up.spool
unfolding apply_fatal Upkeep.seal
apply_fatal_segments now id id' code s n =
    keep_rows id _ s.up.spool.segments (λ r e. ground (arith, other_call r.call_id id id' n e))

handle_message_segments :
    (now : ℕ) (id : Text) (msg : ControlMessage) (s : Pass)
    → settles id (some msg) ≡ false
    → segments_of id (handle_message now msg s).up.spool ≡ segments_of id s.up.spool
unfolding handle_message apply_resume
handle_message_segments now id (ack id' channel through) s n =
    ack_on_segments id id' (channel_from_u8 channel) through s n
handle_message_segments now id (resume id' acked) s n = refl
handle_message_segments now id (call_error id' code message true) s n =
    apply_fatal_segments now id id' code s n
handle_message_segments now id (call_error id' code message false) s n = refl
handle_message_segments now id (heartbeat_ack t version) s n = ground arith
handle_message_segments now id call_start s n = refl
handle_message_segments now id call_end s n = refl
handle_message_segments now id heartbeat s n = refl

handle_parsed_segments :
    (now : ℕ) (id : Text) (m : Option ControlMessage) (s : Pass)
    → settles id m ≡ false
    → segments_of id (handle_parsed now m s).up.spool ≡ segments_of id s.up.spool
unfolding handle_parsed
handle_parsed_segments now id none s n = refl
handle_parsed_segments now id (some msg) s n = handle_message_segments now id msg s n

read_incoming_segments :
    (from_json : Text → Option ControlMessage) (now : ℕ) (quiet : Bool) (id : Text)
    (inbox : List Incoming) (s : Pass)
    → All (λ m. frame_settles from_json id m ≡ false) inbox
    → segments_of id (read_incoming from_json now quiet inbox s).0.up.spool
      ≡ segments_of id s.up.spool
unfolding read_incoming note_close handle_control
read_incoming_segments from_json now quiet id [] s h = refl
read_incoming_segments from_json now quiet id (text_frame frame ∷ rest) s (n, h) =
    read_incoming_segments from_json now quiet id rest (handle_control from_json now frame s) h
    ∙ handle_parsed_segments now id (from_json frame) s n
read_incoming_segments from_json now quiet id (binary_frame bytes ∷ rest) s (n, h) =
    read_incoming_segments from_json now quiet id rest s h
read_incoming_segments from_json now quiet id (closed none ∷ rest) s h = refl
read_incoming_segments from_json now quiet id (closed (some code) ∷ rest) s h = refl

or_drop_spool :
    (w : World) (now : ℕ) (r : Pass × Bool) → (or_drop w now r).0.up.spool ≡ r.0.up.spool
unfolding drop_connection
or_drop_spool w now (s, true) = refl
or_drop_spool w now (s, false) = refl

then_read_segments :
    (w : World) (now : ℕ) (id : Text) (r : Pass × Bool)
    → All (λ m. frame_settles w.from_json id m ≡ false) w.inbox
    → segments_of id (then_read w now r).up.spool ≡ segments_of id r.0.up.spool
unfolding then_read
then_read_segments w now id (s, true) h =
    ap (segments_of id) (or_drop_spool w now (read_incoming w.from_json now w.quiet w.inbox s))
    ∙ read_incoming_segments w.from_json now w.quiet id w.inbox s h
then_read_segments w now id (s, false) h = ap (segments_of id) (or_drop_spool w now (s, false))

exchange_segments :
    (w : World) (now : ℕ) (id : Text) (u : Uplink)
    → All (λ m. frame_settles w.from_json id m ≡ false) w.inbox
    → segments_of id (exchange w now u).up.spool ≡ segments_of id u.spool
unfolding exchange
exchange_segments w now id u h =
    then_read_segments w now id _ h ∙ ap (segments_of id) (send_pending_spool w.bytes_of now _)

dial_segments :
    (w : World) (now : ℕ) (id : Text) (wire : Option Wire) (u : Uplink)
    → All (λ m. frame_settles w.from_json id m ≡ false) w.inbox
    → segments_of id (dial w now wire u).up.spool ≡ segments_of id u.spool
unfolding dial connected_to postponed
dial_segments w now id (some wire) u h = exchange_segments w now id (connected_to u wire) h
dial_segments w now id none u h = refl

pump_on_segments :
    (w : World) (now : ℕ) (id : Text) (wire : Option Wire) (u : Uplink)
    → All (λ m. frame_settles w.from_json id m ≡ false) w.inbox
    → segments_of id (pump_on w now wire u).up.spool ≡ segments_of id u.spool
unfolding pump_on
pump_on_segments w now id (some wire) u h = exchange_segments w now id u h
pump_on_segments w now id none u h = elim (Bool-cases (ltb now u.next_attempt_ms)) [
  | inl e ↦ rw e refl
  | inr e ↦ rw e (dial_segments w now id w.dialled u h)
]

-- A pass deletes segments of a call only if a message that arrives in it acknowledges segments of
-- that call or refuses the call for good: without such a message the call's segments are, after
-- the pass, those it had before, whether the pass connects, fails to, sends, or loses the
-- connection.
pub pump_keeps :
    (w : World) (now : ℕ) (id : Text) (u : Uplink)
    → All (λ m. frame_settles w.from_json id m ≡ false) w.inbox
    → segments_of id (pump w now u).up.spool ≡ segments_of id u.spool
unfolding pump
pump_keeps w now id u h = pump_on_segments w now id u.transport u h
