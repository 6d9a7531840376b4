-- ===== src/Spool/Uploads.antt =====
-- What is still to be sent: client/sentinel-core/src/spool.rs.
use magick_sentinel.Prelude.{
  ℕ, Bool, true, ◌&&◌, ◌||◌, Option, none, some, List, [], ◌∷◌, take, keep, ltb, leb, ◌==◌,
  if◌then◌else◌, Text, text_eq,
}
use magick_sentinel.Protocol.{Channel, channel_as_u8}
use magick_sentinel.Spool.Schema.{SegmentRow, AckRow, Spool}

-- ORDER BY channel, seq.
unfoldable pub in_order : SegmentRow → SegmentRow → Bool
in_order x y =
    ltb (channel_as_u8 x.channel) (channel_as_u8 y.channel)
    || (channel_as_u8 x.channel == channel_as_u8 y.channel) && leb x.seq y.seq

unfoldable pub insert_in_order : SegmentRow → List SegmentRow → List SegmentRow
unfolding in_order
insert_in_order x [] = x ∷ []
insert_in_order x (y ∷ ys) =
    let rest = insert_in_order x ys in if in_order x y then x ∷ y ∷ ys else y ∷ rest

unfoldable pub sort_in_order : List SegmentRow → List SegmentRow
unfolding insert_in_order
sort_in_order [] = []
sort_in_order (x ∷ xs) = insert_in_order x (sort_in_order xs)

unfoldable pub find_ack : Text → Channel → List AckRow → Option ℕ
find_ack id ch [] = none
find_ack id ch (a ∷ rest) =
    if text_eq a.call_id id && channel_as_u8 a.channel == channel_as_u8 ch
    then some a.through_seq
    else find_ack id ch rest

-- s.seq > COALESCE(a.through_seq, -1).
abbrev pub beyond : Option ℕ → ℕ → Bool
beyond none seq = true
beyond (some through) seq = ltb through seq

unfoldable pub is_pending : List AckRow → Text → SegmentRow → Bool
unfolding find_ack
is_pending acks id r = text_eq r.call_id id && beyond (find_ack r.call_id r.channel acks) r.seq

unfoldable pub take_pending : Spool → Text → ℕ → List SegmentRow
unfolding sort_in_order is_pending
take_pending s call_id limit =
    take limit (sort_in_order (keep (is_pending s.acks call_id) s.segments))
