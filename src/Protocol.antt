-- ===== src/Protocol.antt =====
-- The binary media protocol: client/sentinel-core/src/protocol.rs.
-- Bytes are numbers below 256, `[u8; 16]` and `Vec<u8>` are lists; an index into the buffer is
-- `get_or`, whose default stands where the guard on the length has already returned.
pub mod Flags
pub mod RoundTrip
pub mod Canonical
pub mod Message
pub mod Segment
use magick_sentinel.Prelude.{
  ℕ, zero, suc, ◌+◌, ◌-◌, ◌*◌, ◌%◌, ◌≤◌, ◌<◌, bit_and, bit_or, Bool, true, false, not, ◌&&◌, List,
  [], ◌∷◌, ◌++◌, ltb, leb, ◌==◌, if◌then◌else◌, length, take, drop, get_or, slice, All, Bytes,
  IsByte, le_bytes, from_le_bytes, ◌≡◌,
}

abbrev pub version : ℕ
version = 1

abbrev pub header_len : ℕ
header_len = 34

abbrev pub frames_per_segment : ℕ
frames_per_segment = 50

abbrev pub segments_per_message : ℕ
segments_per_message = 10

abbrev pub max_message_bytes : ℕ
max_message_bytes = 1024 * 1024

pub data ProtocolError : Type 0 where
  truncated : ℕ → ℕ → ProtocolError
  bad_version : ℕ → ProtocolError
  bad_channel : ℕ → ProtocolError
  reserved_flags : ℕ → ProtocolError
  reserved_byte : ℕ → ProtocolError
  payload_too_large : ℕ → ProtocolError
  message_too_large : ℕ → ProtocolError

-- Rust's `Result<A, ProtocolError>`, and the `?` operator as bind.
pub data Result {ℓ} (A : Type ℓ) : Type ℓ where
  ok : A → Result A
  err : ProtocolError → Result A

infixl 5 ◌>>◌ ◌>>=◌
abbrev pub ◌>>◌ {κ} : {Y : Type κ} → Result (Unit {0}) → Result Y → Result Y
err problem >> later = err problem
ok x >> later = later

abbrev pub ◌>>=◌ {ℓ κ} : {X : Type ℓ} {Y : Type κ} → Result X → (X → Result Y) → Result Y
err problem >>= next = err problem
ok x >>= next = next x

-- `if !c { return Err(e) }`.
abbrev pub require : Bool → ProtocolError → Result (Unit {0})
require true e = ok tt
require false e = err e

pub data Channel : Type 0 where
  far near : Channel

pub Channel-discrete : Discrete Channel
Channel-discrete = hlevel

unfoldable pub channel_as_u8 : Channel → ℕ
channel_as_u8 far = 0
channel_as_u8 near = 1

unfoldable pub channel_from_u8 : ℕ → Result Channel
channel_from_u8 v = if v == 0 then ok far else if v == 1 then ok near else err (bad_channel v)

pub record MediaFlags : Type 0 where
  pub foreign : Bool
  pub silence_inserted : Bool

unfoldable pub flags_to_bits : MediaFlags → ℕ
flags_to_bits f = bit_or (if f.foreign then 0x01 else 0) (if f.silence_inserted then 0x02 else 0)

unfoldable pub flags_from_bits : ℕ → Result MediaFlags
flags_from_bits bits = do
  require (bit_and bits 0xfc == 0) (reserved_flags bits)
  ok (record {
    foreign = not (bit_and bits 0x01 == 0);
    silence_inserted = not (bit_and bits 0x02 == 0);
  })

pub record MediaRecord : Type 0 where
  pub channel : Channel
  pub flags : MediaFlags
  pub seq : ℕ  -- u32
  pub timestamp_ms : ℕ  -- u64
  pub call_id : Bytes  -- [u8; 16]
  pub payload : Bytes

-- What the Rust types say of a record.
pub record IsTyped (r : MediaRecord) : Type 0 where
  pub seq_u32 : r.seq < 4294967296
  pub timestamp_u64 : r.timestamp_ms < 18446744073709551616
  pub call_id_16 : length r.call_id ≡ 16
  pub call_id_bytes : All IsByte r.call_id
  pub payload_bytes : All IsByte r.payload

unfoldable pub encoded_len : MediaRecord → ℕ
encoded_len r = header_len + length r.payload

-- The bytes that `encode_into` appends, once the length fits `u16`.
abbrev pub encoding : MediaRecord → Bytes
encoding r =
    version
    ∷ channel_as_u8 r.channel
    ∷ flags_to_bits r.flags
    ∷ 0
    ∷ (le_bytes 4 r.seq
        ++ (le_bytes 8 r.timestamp_ms
            ++ (r.call_id ++ (le_bytes 2 (length r.payload) ++ r.payload))))

unfoldable pub encode_into : MediaRecord → Bytes → Result Bytes
encode_into r out = do
  require (ltb (length r.payload) 65536) (payload_too_large (length r.payload))
  ok (out ++ encoding r)

unfoldable pub encode : MediaRecord → Result Bytes
unfolding encode_into
encode r = encode_into r []

-- The record that the bytes up to `total` hold.
abbrev pub record_at : Channel → MediaFlags → Bytes → ℕ → MediaRecord
record_at channel flags buf total = record {
  channel = channel;
  flags = flags;
  seq = from_le_bytes (slice 4 8 buf);
  timestamp_ms = from_le_bytes (slice 8 16 buf);
  call_id = slice 16 32 buf;
  payload = slice header_len total buf;
}

-- `decode` from the reserved byte on.
unfoldable pub decode_rest : Channel → MediaFlags → Bytes → Result (MediaRecord × ℕ)
decode_rest channel flags buf = do
  require (get_or buf 3 0 == 0) (reserved_byte (get_or buf 3 0))
  let total = header_len + from_le_bytes (slice 32 34 buf)
  require (leb total (length buf)) (truncated total (length buf))
  ok (record_at channel flags buf total, total)

-- The record and the number of bytes used.
unfoldable pub decode : Bytes → Result (MediaRecord × ℕ)
decode buf = do
  require (leb header_len (length buf)) (truncated header_len (length buf))
  require (get_or buf 0 0 == version) (bad_version (get_or buf 0 0))
  channel ← channel_from_u8 (get_or buf 1 0)
  flags ← flags_from_bits (get_or buf 2 0)
  decode_rest channel flags buf

-- The loop of `decode_all` over `buf[off..]`, on fuel: a round uses a header at least.
-- `none` of the fuel is a Rust result; `Message` shows that the fuel given is enough.
pub data Loop {ℓ} (A : Type ℓ) : Type ℓ where
  done : A → Loop A
  failed : ProtocolError → Loop A
  out_of_fuel : Loop A

unfoldable pub decode_loop : ℕ → Bytes → List MediaRecord → Loop (List MediaRecord)
decode_loop fuel [] out = done out
decode_loop zero (b ∷ bs) out = out_of_fuel
decode_loop (suc fuel) (b ∷ bs) out = elim (decode (b ∷ bs)) [
  | ok (rec, used) ↦ decode_loop fuel (drop used (b ∷ bs)) (out ++ (rec ∷ []))
  | err e ↦ failed e
]

unfoldable pub decode_all : Bytes → Loop (List MediaRecord)
unfolding decode_loop
decode_all buf =
    if ltb max_message_bytes (length buf)
    then failed (message_too_large (length buf))
    else decode_loop (length buf) buf []

-- `frame.len() as u16` keeps the low 16 bits.
unfoldable pub pack_segment : List Bytes → Bytes
pack_segment [] = []
pack_segment (frame ∷ frames) = le_bytes 2 (length frame % 65536) ++ (frame ++ pack_segment frames)

-- The loop of `unpack_segment` at offset `off` of a payload of `have` bytes; the list is
-- `payload[off..]`.
unfoldable pub unpack_loop : ℕ → ℕ → ℕ → Bytes → List Bytes → Loop (List Bytes)
unpack_loop fuel have off [] out = done out
unpack_loop zero have off (b ∷ bs) out = out_of_fuel
unpack_loop (suc fuel) have off (b ∷ bs) out =
    let len = from_le_bytes (take 2 (b ∷ bs)) in
    let body = drop 2 (b ∷ bs) in
    let rest =
      unpack_loop fuel have (off + 2 + len) (drop len body) (out ++ (take len body ∷ [])) in
    if ltb (length (b ∷ bs)) 2
    then failed (truncated (off + 2) have)
    else if ltb (length body) len
    then failed (truncated (off + 2 + len) have)
    else rest

unfoldable pub unpack_segment : Bytes → Loop (List Bytes)
unfolding unpack_loop
unpack_segment payload = unpack_loop (length payload) (length payload) 0 payload []
