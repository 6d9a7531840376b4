-- ===== src/Spool/Schema.antt =====
-- The tables of the spool and the rows of `segments`: client/sentinel-core/src/spool.rs, with
-- `SpoolLimits` of client/sentinel-core/src/config.rs.
use magick_sentinel.Prelude.{
  ℕ, ◌+◌, ◌*◌, ◌%◌, Bool, ◌&&◌, ◌||◌, Option, none, some, List, [], ◌∷◌, length, any, ltb, ◌==◌,
  if◌then◌else◌, u64_mod, Text, Bytes, text_eq, text_lt,
}
use magick_sentinel.Protocol.{Channel, MediaFlags, MediaRecord, channel_as_u8}

pub data SpoolError : Type 0 where
  sealed : Text → SpoolError

pub data Result {ℓ} (A : Type ℓ) : Type ℓ where
  ok : A → Result A
  err : SpoolError → Result A

pub record SpoolLimits : Type 0 where
  pub max_bytes : ℕ
  pub max_age_ms : ℕ

-- `SpoolLimits::default()`.
abbrev pub default_limits : SpoolLimits
default_limits = record { max_bytes = 2 * 1024 * 1024 * 1024; max_age_ms = 72 * 3_600_000 }

pub record SegmentRow : Type 0 where
  pub call_id : Text
  pub channel : Channel
  pub seq : ℕ
  pub timestamp_ms : ℕ
  pub flags : MediaFlags
  pub payload : Bytes
  pub created_ms : ℕ

unfoldable pub to_record : SegmentRow → Bytes → MediaRecord
to_record row call_id_bin = record {
  channel = row.channel;
  flags = row.flags;
  seq = row.seq;
  timestamp_ms = row.timestamp_ms;
  call_id = call_id_bin;
  payload = row.payload;
}

pub record CallRow : Type 0 where
  pub call_id : Text
  pub start_json : Text
  pub end_json : Option Text
  pub is_sealed : Bool
  pub created_ms : ℕ

pub record AckRow : Type 0 where
  pub call_id : Text
  pub channel : Channel
  pub through_seq : ℕ

pub record SpoolStats : Type 0 where
  pub segments : ℕ
  pub bytes : ℕ
  pub oldest_created_ms : Option ℕ

pub record Spool : Type 0 where
  pub segments : List SegmentRow
  pub calls : List CallRow
  pub acks : List AckRow
  pub limits : SpoolLimits

-- `SCHEMA` on a fresh database.
unfoldable pub open_empty : SpoolLimits → Spool
open_empty limits = record { segments = []; calls = []; acks = []; limits = limits }

-- `x as i64`, as a number in the same order.
abbrev pub as_i64 : ℕ → ℕ
as_i64 x = (x + 9223372036854775808) % u64_mod

-- ORDER BY created_ms, call_id, channel, seq.
unfoldable pub before : SegmentRow → SegmentRow → Bool
before x y =
    ltb (as_i64 x.created_ms) (as_i64 y.created_ms)
    || (as_i64 x.created_ms == as_i64 y.created_ms)
      && (text_lt x.call_id y.call_id
          || text_eq x.call_id y.call_id
            && (ltb (channel_as_u8 x.channel) (channel_as_u8 y.channel)
                || (channel_as_u8 x.channel == channel_as_u8 y.channel) && ltb x.seq y.seq))

-- WHERE call_id = id AND channel = ch.
abbrev pub on_channel : Text → Channel → SegmentRow → Bool
on_channel id ch r = text_eq r.call_id id && channel_as_u8 r.channel == channel_as_u8 ch

-- The primary key (call_id, channel, seq).
abbrev pub same_key : SegmentRow → SegmentRow → Bool
same_key x y = on_channel y.call_id y.channel x && x.seq == y.seq

unfoldable pub insert_sorted : SegmentRow → List SegmentRow → List SegmentRow
insert_sorted x [] = x ∷ []
insert_sorted x (y ∷ ys) =
    let rest = insert_sorted x ys in if before x y then x ∷ y ∷ ys else y ∷ rest

-- INSERT INTO segments ... ON CONFLICT DO NOTHING.
unfoldable pub insert_segment : SegmentRow → List SegmentRow → List SegmentRow
unfolding insert_sorted
insert_segment x rows = if any (λ y. same_key x y) rows then rows else insert_sorted x rows

unfoldable pub total_bytes : List SegmentRow → ℕ
total_bytes [] = 0
total_bytes (r ∷ rs) = length r.payload + total_bytes rs

-- min(created_ms), as i64.
abbrev pub min_created : List SegmentRow → Option ℕ
min_created [] = none
min_created (r ∷ rs) = elim (min_created rs) [
  | none ↦ some r.created_ms
  | some m ↦ some (if ltb (as_i64 m) (as_i64 r.created_ms) then m else r.created_ms)
]

unfoldable pub stats : Spool → SpoolStats
unfolding total_bytes
stats s = record {
  segments = length s.segments;
  bytes = total_bytes s.segments;
  oldest_created_ms = min_created s.segments;
}
