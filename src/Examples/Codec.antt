-- ===== src/Examples/Codec.antt =====
-- The media protocol and the pipe framing on concrete bytes.
use magick_sentinel.Prelude.{◌≡◌, refl, true, false, List, [], ◌∷◌, ◌++◌, take, Bytes, some, arith}
use magick_sentinel.Protocol.{
  near, MediaRecord, IsTyped, ok, err, encoding, encoded_len, encode, decode, decode_all,
  channel_as_u8, flags_to_bits, decode_rest, channel_from_u8, flags_from_bits, reserved_byte,
}
use magick_sentinel.Protocol.RoundTrip.{decode-encode}
use magick_sentinel.Protocol.Canonical.{encode-decode}
use magick_sentinel.Protocol.Message.{decode_all_total, Outcome}
use magick_sentinel.Frames.Chunks.{drain, frames, frame, drain-frames}
use magick_sentinel.Der.{oid, write_len}

abbrev record_one : MediaRecord
record_one = record {
  channel = near;
  flags = record { foreign = true; silence_inserted = false };
  seq = 842;
  timestamp_ms = 842_000;
  call_id = 1 ∷ 2 ∷ 3 ∷ 4 ∷ 5 ∷ 6 ∷ 7 ∷ 8 ∷ 9 ∷ 10 ∷ 11 ∷ 12 ∷ 13 ∷ 14 ∷ 15 ∷ 16 ∷ [];
  payload = 255 ∷ 254 ∷ [];
}

record_one-IsTyped : IsTyped record_one
record_one-IsTyped = omega arith

-- The layout of the contract, byte for byte.
layout_test :
    encoding record_one
    ≡ 1 ∷ 1 ∷ 1 ∷ 0 ∷ 74 ∷ 3 ∷ 0 ∷ 0 ∷ 16 ∷ 217 ∷ 12 ∷ 0 ∷ 0 ∷ 0 ∷ 0 ∷ 0 ∷ 1 ∷ 2 ∷ 3 ∷ 4 ∷ 5 ∷ 6 ∷ 7
      ∷ 8 ∷ 9 ∷ 10 ∷ 11 ∷ 12 ∷ 13 ∷ 14 ∷ 15 ∷ 16 ∷ 2 ∷ 0 ∷ 255 ∷ 254 ∷ []
unfolding channel_as_u8 flags_to_bits
layout_test = refl

decode-encode_example :
    decode (encoding record_one ++ (9 ∷ 9 ∷ [])) ≡ ok (record_one, encoded_len record_one)
decode-encode_example = (decode-encode record_one (9 ∷ 9 ∷ []) record_one-IsTyped (omega arith)).1

abbrev wire : Bytes
wire =
    1 ∷ 1 ∷ 1 ∷ 0 ∷ 74 ∷ 3 ∷ 0 ∷ 0 ∷ 16 ∷ 217 ∷ 12 ∷ 0 ∷ 0 ∷ 0 ∷ 0 ∷ 0 ∷ 1 ∷ 2 ∷ 3 ∷ 4 ∷ 5 ∷ 6 ∷ 7
    ∷ 8 ∷ 9 ∷ 10 ∷ 11 ∷ 12 ∷ 13 ∷ 14 ∷ 15 ∷ 16 ∷ 2 ∷ 0 ∷ 255 ∷ 254 ∷ 9 ∷ []

encode-decode_example : encode record_one ≡ ok (take 36 wire)
unfolding decode decode_rest channel_from_u8 flags_from_bits
encode-decode_example = (encode-decode wire record_one 36 (omega arith) refl).3

-- A set reserved byte is refused.
reserved_test : decode (1 ∷ 1 ∷ 1 ∷ 7 ∷ take 32 wire) ≡ err (reserved_byte 7)
unfolding decode decode_rest channel_from_u8 flags_from_bits
reserved_test = refl

decode_all_total_example : Outcome [] wire (decode_all wire)
decode_all_total_example = (decode_all_total wire (omega arith)).1 (omega arith)

abbrev bodies : List Bytes
bodies = (123 ∷ 125 ∷ []) ∷ (91 ∷ 93 ∷ []) ∷ []

drain-frames_example :
    drain 3 (record { buf = frames bodies ++ take 5 (frame (1 ∷ 2 ∷ 3 ∷ [])) })
    ≡ (bodies, record { buf = take 5 (frame (1 ∷ 2 ∷ 3 ∷ [])) })
drain-frames_example =
    drain-frames bodies (1 ∷ 2 ∷ 3 ∷ []) 5 (omega arith) (omega arith) (omega arith)

oid_test :
    oid (1 ∷ 2 ∷ 840 ∷ 10_045 ∷ 2 ∷ 1 ∷ []) ≡ some (6 ∷ 7 ∷ 42 ∷ 134 ∷ 72 ∷ 206 ∷ 61 ∷ 2 ∷ 1 ∷ [])
unfolding oid
oid_test = refl

long_length_test : write_len 300 ≡ 130 ∷ 1 ∷ 44 ∷ []
unfolding write_len
long_length_test = refl
