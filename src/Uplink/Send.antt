-- ===== src/Uplink/Send.antt =====
-- Sending what is pending: `send_pending` of client/sentinel-agent/src/uplink/mod.rs.
-- The Boolean beside the state says whether the pass goes on: a failed send ends it.
use magick_sentinel.Prelude.{
  ℕ, ◌+◌, ◌*◌, Bool, true, false, ◌||◌, Option, none, some, List, [], ◌∷◌, is_some, ltb, leb, ◌==◌,
  if◌then◌else◌, saturating_add_u64, Text, Bytes,
}
use magick_sentinel.Protocol.{
  Channel, far, near, Result, ok, err, encode_into, segments_per_message,
}
use magick_sentinel.Resume.{ChannelMap, plan, should_send}
use magick_sentinel.Spool.Schema.{SegmentRow, to_record}
use magick_sentinel.Spool.CallTable.{is_sealed, call_start_json, call_end_json, pending_calls}
use magick_sentinel.Spool.Uploads.{take_pending}
use magick_sentinel.Spool.Upkeep.{acked_through}
use magick_sentinel.Uplink.{
  Frame, text_sent, binary_sent, Uplink, PumpOutcome, put, send_on, insert_calls, remove_call,
  resume_timeout_ms,
}

abbrev pub segments_per_pass : ℕ
segments_per_pass = segments_per_message * 4

pub record Pass : Type 0 where
  pub up : Uplink
  pub outcome : PumpOutcome

-- `?`: go on with the state of the first part, if that has not failed.
abbrev pub continue : Pass × Bool → (Pass → Pass × Bool) → Pass × Bool
continue (s, true) next = next s
continue (s, false) next = (s, false)

unfoldable pub transmit : Frame → Pass → Pass × Bool
transmit frame s = elim (send_on s.up.transport frame) [
  | none ↦ (s, false)
  | some w ↦ (record s { up = record s.up { transport = some w } }, true)
]

-- A replay: the call has acknowledgements, or was sent on before.
abbrev pub is_replay : Uplink → Text → Bool
is_replay u id =
    is_some (acked_through u.spool id far)
    || is_some (acked_through u.spool id near)
    || (is_some (u.sent_through id far) || is_some (u.sent_through id near))

unfoldable pub mark_started : ℕ → Text → Pass → Pass
mark_started now id s = record s {
  up = record s.up {
    started_this_connection = put id true s.up.started_this_connection;
    awaiting_resume =
        if is_replay s.up id
        then put id (some (saturating_add_u64 now resume_timeout_ms)) s.up.awaiting_resume
        else s.up.awaiting_resume;
  };
}

-- Send a recorded frame, if there is one, and mark that it was sent.
unfoldable pub send_recorded : Option Text → (Pass → Pass) → Pass → Pass × Bool
unfolding transmit
send_recorded none mark s = (s, true)
send_recorded (some json) mark s = continue (transmit (text_sent json) s) (λ t. (mark t, true))

unfoldable pub send_start : ℕ → Text → Pass → Pass × Bool
unfolding send_recorded
send_start now id s =
    if s.up.started_this_connection id
    then (s, true)
    else send_recorded (call_start_json s.up.spool id) (mark_started now id) s

unfoldable pub mark_ended : Text → Pass → Pass
mark_ended id s = record s {
  up = record s.up { ended_this_connection = put id true s.up.ended_this_connection };
}

unfoldable pub send_end : Text → Pass → Pass × Bool
unfolding send_recorded
send_end id s =
    if s.up.ended_this_connection id
    then (s, true)
    else send_recorded (call_end_json s.up.spool id) (mark_ended id) s

unfoldable pub resume_point_for : Uplink → Text → ChannelMap
resume_point_for u id = elim (u.resume_points id) [
  | some p ↦ p
  | none ↦ plan (acked_through u.spool id) []
]

abbrev pub same_channel : Channel → Channel → Bool
same_channel far far = true
same_channel near near = true
same_channel _ _ = false

abbrev pub set_channel : Channel → ℕ → ChannelMap → ChannelMap
set_channel ch v f c = if same_channel c ch then some v else f c

-- `sent_through.get(&key).is_some_and(|&hi| seq <= hi)`.
abbrev pub already_sent : Option ℕ → ℕ → Bool
already_sent none seq = false
already_sent (some hi) seq = leb seq hi

unfoldable pub mark_sent : Text → SegmentRow → Pass → Pass
mark_sent id row s = record {
  up = record s.up {
    sent_through =
        put id (set_channel row.channel row.seq (s.up.sent_through id)) s.up.sent_through;
  };
  outcome = record s.outcome { sent = s.outcome.sent + 1 };
}

unfoldable pub flush_batch : Bytes → ℕ → Pass → Pass × Bool
unfolding transmit
flush_batch batch in_batch s = if ltb 0 in_batch then transmit (binary_sent batch) s else (s, true)

-- The bytes of the message being built, and the number of records in it.
abbrev pub Batch : Type 0
Batch = Bytes × ℕ

-- One encoded row: it joins the batch, which is sent when it is full.
unfoldable pub send_encoded :
    Text → SegmentRow → Result Bytes → Batch → Pass → (Pass × Bool) × Batch
unfolding mark_sent transmit
send_encoded id row (err e) batch s = ((s, true), batch)
send_encoded id row (ok more) (batch, in_batch) s =
    if in_batch + 1 == segments_per_message
    then (transmit (binary_sent more) (mark_sent id row s), ([], 0))
    else ((mark_sent id row s, true), (more, in_batch + 1))

-- `bytes_of` is the sixteen bytes of a ULID.
unfoldable pub send_row :
    (Text → Bytes) → Text → ChannelMap → SegmentRow → Batch → Pass → (Pass × Bool) × Batch
unfolding send_encoded
send_row bytes_of id point row batch s =
    if should_send point row.channel row.seq
    then (if already_sent (s.up.sent_through id row.channel) row.seq
        then ((s, true), batch)
        else send_encoded id row (encode_into (to_record row (bytes_of id)) batch.0) batch s)
    else ((s, true), batch)

-- The loop on the pending rows.
unfoldable pub send_rows :
    (Text → Bytes) → Text → ChannelMap → List SegmentRow → Batch → Pass → Pass × Bool
unfolding send_row flush_batch
send_rows bytes_of id point [] batch s = flush_batch batch.0 batch.1 s
send_rows bytes_of id point (row ∷ rows) batch s =
    let (r, next) = send_row bytes_of id point row batch s in
    continue r (send_rows bytes_of id point rows next)

unfoldable pub send_media : (Text → Bytes) → Text → Pass → Pass × Bool
unfolding send_rows send_end resume_point_for
send_media bytes_of id s =
    continue
      (send_rows bytes_of id (resume_point_for s.up id)
        (take_pending s.up.spool id segments_per_pass) ([], 0) s)
      (send_end id)

-- Media is held until the server has answered or the waiting time is over.
unfoldable pub hold_or_send : (Text → Bytes) → ℕ → Text → Pass → Pass × Bool
unfolding send_media
hold_or_send bytes_of now id s = elim (s.up.awaiting_resume id) [
  | none ↦ send_media bytes_of id s
  | some deadline ↦
      if ltb now deadline
      then (s, true)
      else send_media bytes_of id
          (record s { up = record s.up { awaiting_resume = put id none s.up.awaiting_resume } })
]

unfoldable pub send_call : (Text → Bytes) → ℕ → Text → Pass → Pass × Bool
unfolding send_start hold_or_send
send_call bytes_of now id s =
    if is_sealed s.up.spool id
    then (record s { up = record s.up { known_calls = remove_call id s.up.known_calls } }, true)
    else continue (send_start now id s) (hold_or_send bytes_of now id)

unfoldable pub send_calls : (Text → Bytes) → ℕ → List Text → Pass → Pass × Bool
unfolding send_call
send_calls bytes_of now [] s = (s, true)
send_calls bytes_of now (id ∷ ids) s =
    continue (send_call bytes_of now id s) (send_calls bytes_of now ids)

unfoldable pub send_pending : (Text → Bytes) → ℕ → Pass → Pass × Bool
unfolding send_calls
send_pending bytes_of now s =
    let known = insert_calls (pending_calls s.up.spool) s.up.known_calls in
    send_calls bytes_of now known (record s { up = record s.up { known_calls = known } })
