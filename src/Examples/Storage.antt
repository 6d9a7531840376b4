-- ===== src/Examples/Storage.antt =====
-- The spool on concrete tables.
use magick_sentinel.Prelude.{
  ℕ, ◌*◌, ◌≤◌, ◌≡◌, refl, false, [], ◌∷◌, none, some, text, Text, text_eq,
}
use magick_sentinel.Protocol.{far, near, channel_as_u8}
use magick_sentinel.Spool.Schema.{Spool, SegmentRow, CallRow, total_bytes, before}
use magick_sentinel.Spool.CallTable.{is_sealed}
use magick_sentinel.Spool.Segments.{push, evict_loop}
use magick_sentinel.Spool.Uploads.{take_pending}
use magick_sentinel.Spool.Upkeep.{ack, acked_through}
use magick_sentinel.Spool.Order.{IsTable}
use magick_sentinel.Spool.Eviction.{push_accounts, push_oldest_first}
use magick_sentinel.Spool.AckLaws.{ack_effect}

abbrev call_a : Text
call_a = text "a"

abbrev call_b : Text
call_b = text "b"

-- A segment of call `a` with a payload of three bytes.
abbrev segment : ℕ → ℕ → SegmentRow
segment seq created = record {
  call_id = call_a;
  channel = far;
  seq = seq;
  timestamp_ms = 1_000 * seq;
  flags = record { foreign = false; silence_inserted = false };
  payload = 1 ∷ 2 ∷ 3 ∷ [];
  created_ms = created;
}

abbrev row_a : CallRow
row_a = record {
  call_id = call_a;
  start_json = text "start a";
  end_json = none;
  is_sealed = false;
  created_ms = 0;
}

-- Two calls, two segments and a cap of eight bytes.
abbrev two_segments : Spool
two_segments = record {
  segments = segment 0 10 ∷ segment 1 1_010 ∷ [];
  calls = row_a ∷ record row_a { call_id = call_b; end_json = some (text "end b") } ∷ [];
  acks = [];
  limits = record { max_bytes = 8; max_age_ms = 100_000 };
}

two_segments-IsTable : IsTable two_segments.segments
two_segments-IsTable =
    unfold text_eq before channel_as_u8 in
    record { is_sorted = ((refl, tt), (tt, tt)); is_keyed = ((refl, tt), (tt, tt)) }

-- The third segment does not fit: the oldest one goes, and is counted.
evicted_test :
    (push two_segments (segment 2 2_010)).0.segments ≡ segment 1 1_010 ∷ segment 2 2_010 ∷ []
unfolding push text_eq before evict_loop channel_as_u8
evicted_test = refl

push_accounts_example : total_bytes (push two_segments (segment 2 2_010)).0.segments ≤ 8
unfolding is_sealed text_eq
push_accounts_example = ((push_accounts two_segments (segment 2 2_010)).1 refl).2

push_oldest_first_example : IsTable (push two_segments (segment 2 2_010)).0.segments
unfolding is_sealed text_eq
push_oldest_first_example =
    (push_oldest_first two_segments (segment 2 2_010) two_segments-IsTable refl).0

ack_effect_example : acked_through (ack two_segments call_a far 0).0 call_a far ≡ some 0
unfolding acked_through
ack_effect_example = (ack_effect two_segments call_a call_b far near 0).0

-- What is left to send after the first segment is acknowledged.
pending_test : take_pending (ack two_segments call_a far 0).0 call_a 64 ≡ segment 1 1_010 ∷ []
unfolding take_pending ack text_eq channel_as_u8
pending_test = refl
