-- ===== src/Spool/Upkeep.antt =====
-- Acknowledgements, sealing and clean-up: client/sentinel-core/src/spool.rs.
use magick_sentinel.Prelude.{
  ℕ, ◌-◌, max, Bool, true, not, ◌&&◌, Option, List, [], ◌∷◌, ◌++◌, length, keep, any, leb, ◌==◌,
  if◌then◌else◌, Text, text, text_eq, or_else, is_some,
}
use magick_sentinel.Protocol.{Channel, channel_as_u8}
use magick_sentinel.Events.{ClientEvent, spool_eviction}
use magick_sentinel.Events
use magick_sentinel.Spool.Schema.{SegmentRow, CallRow, AckRow, Spool, on_channel}
use magick_sentinel.Spool.CallTable.{update_call}
use magick_sentinel.Spool.Uploads.{find_ack}

-- The upsert of `ack`.
unfoldable pub upsert_ack : Text → Channel → ℕ → List AckRow → List AckRow
upsert_ack id ch through [] = record { call_id = id; channel = ch; through_seq = through } ∷ []
upsert_ack id ch through (a ∷ rest) =
    if text_eq a.call_id id && channel_as_u8 a.channel == channel_as_u8 ch
    then record a { through_seq = max a.through_seq through } ∷ rest
    else a ∷ upsert_ack id ch through rest

-- WHERE call_id = id AND channel = ch AND seq <= through.
abbrev pub covered : Text → Channel → ℕ → SegmentRow → Bool
covered id ch through r = on_channel id ch r && leb r.seq through

unfoldable pub ack : Spool → Text → Channel → ℕ → Spool × ℕ
unfolding upsert_ack find_ack
ack s call_id ch through_seq =
    let acks = upsert_ack call_id ch through_seq s.acks in
    let effective = or_else (find_ack call_id ch acks) 0 in
    let left = keep (λ r. not (covered call_id ch effective r)) s.segments in
    (record s { acks = acks; segments = left }, length s.segments - length left)

-- The map from channels to watermarks.
unfoldable pub acked_through : Spool → Text → Channel → Option ℕ
unfolding find_ack
acked_through s call_id ch = find_ack call_id ch s.acks

unfoldable pub seal : Spool → Text → Text → ℕ → Spool × ClientEvent
unfolding update_call
seal s call_id reason now_ms =
    let lost = length (keep (λ r. text_eq r.call_id call_id) s.segments) in
    (
      record s {
        segments = keep (λ r. not (text_eq r.call_id call_id)) s.segments;
        calls = update_call call_id (λ c. record c { is_sealed = true }) s.calls;
      },
      Events.with_detail (Events.with_count (Events.new spool_eviction now_ms) lost)
          (text "call rejected: " ++ reason),
    )

abbrev pub is_finished : List SegmentRow → CallRow → Bool
is_finished rows c = is_some c.end_json && not (any (λ r. text_eq r.call_id c.call_id) rows)

unfoldable pub vacuum_finished_calls : Spool → Spool × ℕ
vacuum_finished_calls s =
    let left = keep (λ c. not (is_finished s.segments c)) s.calls in
    (record s { calls = left }, length s.calls - length left)
