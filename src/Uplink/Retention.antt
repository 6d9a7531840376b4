-- ===== src/Uplink/Retention.antt =====
-- Sending leaves the spool alone.
use magick_sentinel.Prelude.{
  ℕ, ◌≡◌, refl, ◌∙◌, Bool, true, false, Option, none, some, List, [], ◌∷◌, Text, Bytes, arith,
}
use magick_sentinel.Protocol.{Result, ok, err, encode_into}
use magick_sentinel.Resume.{ChannelMap}
use magick_sentinel.Spool.Schema.{Spool, SegmentRow, to_record}
use magick_sentinel.Spool.CallTable.{call_start_json, call_end_json}
use magick_sentinel.Uplink.{Frame, binary_sent, text_sent, put}
use magick_sentinel.Uplink.Send.{
  Pass, Batch, send_recorded, send_encoded, send_row, continue, transmit, send_start, send_end,
  send_rows, flush_batch, mark_sent, mark_started, mark_ended, send_media, hold_or_send, send_call,
  send_calls, send_pending,
}

-- The spool after a part of a pass.
abbrev spool_of : Pass × Bool → Spool
spool_of r = r.0.up.spool

continue_spool :
    (r : Pass × Bool) (next : Pass → Pass × Bool)
    → ((t : Pass) → spool_of (next t) ≡ t.up.spool)
    → spool_of (continue r next) ≡ spool_of r
continue_spool (s, true) next h = h s
continue_spool (s, false) next h = refl

transmit_spool : (frame : Frame) (s : Pass) → spool_of (transmit frame s) ≡ s.up.spool
unfolding transmit
transmit_spool frame s = ground arith

send_recorded_spool :
    (json : Option Text) (mark : Pass → Pass) (s : Pass)
    → ((t : Pass) → (mark t).up.spool ≡ t.up.spool)
    → spool_of (send_recorded json mark s) ≡ s.up.spool
unfolding send_recorded
send_recorded_spool none mark s h = refl
send_recorded_spool (some json) mark s h =
    continue_spool (transmit (text_sent json) s) (λ t. (mark t, true)) h
    ∙ transmit_spool (text_sent json) s

send_start_spool : (now : ℕ) (id : Text) (s : Pass) → spool_of (send_start now id s) ≡ s.up.spool
unfolding send_start
send_start_spool now id s = ground (
  arith,
  send_recorded_spool (call_start_json s.up.spool id) (mark_started now id) s
      (λ t. unfold mark_started in refl),
)

send_end_spool : (id : Text) (s : Pass) → spool_of (send_end id s) ≡ s.up.spool
unfolding send_end
send_end_spool id s = ground (
  arith,
  send_recorded_spool (call_end_json s.up.spool id) (mark_ended id) s
      (λ t. unfold mark_ended in refl),
)

flush_spool : (batch : Bytes) (n : ℕ) (s : Pass) → spool_of (flush_batch batch n s) ≡ s.up.spool
unfolding flush_batch
flush_spool batch n s = ground (arith, transmit_spool (binary_sent batch) s)

send_encoded_spool :
    (id : Text) (row : SegmentRow) (r : Result Bytes) (batch : Batch) (s : Pass)
    → spool_of (send_encoded id row r batch s).0 ≡ s.up.spool
unfolding send_encoded mark_sent
send_encoded_spool id row (err e) batch s = refl
send_encoded_spool id row (ok more) (batch, n) s =
    ground (arith, transmit_spool (binary_sent more) (mark_sent id row s))

send_row_spool :
    (bytes_of : Text → Bytes) (id : Text) (point : ChannelMap) (row : SegmentRow) (batch : Batch)
    (s : Pass)
    → spool_of (send_row bytes_of id point row batch s).0 ≡ s.up.spool
unfolding send_row
send_row_spool bytes_of id point row batch s =
    ground
      (arith, send_encoded_spool id row (encode_into (to_record row (bytes_of id)) batch.0) batch s)

send_rows_spool :
    (bytes_of : Text → Bytes) (id : Text) (point : ChannelMap) (rows : List SegmentRow)
    (batch : Batch) (s : Pass)
    → spool_of (send_rows bytes_of id point rows batch s) ≡ s.up.spool
unfolding send_rows
send_rows_spool bytes_of id point [] batch s = flush_spool batch.0 batch.1 s
send_rows_spool bytes_of id point (row ∷ rows) batch s =
    let (r, next) = send_row bytes_of id point row batch s in
    continue_spool r (send_rows bytes_of id point rows next)
      (send_rows_spool bytes_of id point rows next)
    ∙ send_row_spool bytes_of id point row batch s

send_media_spool :
    (bytes_of : Text → Bytes) (id : Text) (s : Pass)
    → spool_of (send_media bytes_of id s) ≡ s.up.spool
unfolding send_media
send_media_spool bytes_of id s =
    continue_spool _ (send_end id) (send_end_spool id) ∙ send_rows_spool bytes_of id _ _ ([], 0) s

hold_or_send_spool :
    (bytes_of : Text → Bytes) (now : ℕ) (id : Text) (s : Pass)
    → spool_of (hold_or_send bytes_of now id s) ≡ s.up.spool
unfolding hold_or_send
hold_or_send_spool bytes_of now id s = ground (
  arith,
  send_media_spool bytes_of id s,
  send_media_spool bytes_of id
      (record s { up = record s.up { awaiting_resume = put id none s.up.awaiting_resume } }),
)

send_call_spool :
    (bytes_of : Text → Bytes) (now : ℕ) (id : Text) (s : Pass)
    → spool_of (send_call bytes_of now id s) ≡ s.up.spool
unfolding send_call
send_call_spool bytes_of now id s = ground (
  arith,
  continue_spool (send_start now id s) (hold_or_send bytes_of now id)
      (hold_or_send_spool bytes_of now id),
  send_start_spool now id s,
)

send_calls_spool :
    (bytes_of : Text → Bytes) (now : ℕ) (ids : List Text) (s : Pass)
    → spool_of (send_calls bytes_of now ids s) ≡ s.up.spool
unfolding send_calls
send_calls_spool bytes_of now [] s = refl
send_calls_spool bytes_of now (id ∷ ids) s =
    continue_spool (send_call bytes_of now id s) (send_calls bytes_of now ids)
      (send_calls_spool bytes_of now ids)
    ∙ send_call_spool bytes_of now id s

-- Sending never changes the spool.
pub send_pending_spool :
    (bytes_of : Text → Bytes) (now : ℕ) (s : Pass)
    → spool_of (send_pending bytes_of now s) ≡ s.up.spool
unfolding send_pending
send_pending_spool bytes_of now s = send_calls_spool bytes_of now _ _
