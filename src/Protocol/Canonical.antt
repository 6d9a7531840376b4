-- ===== src/Protocol/Canonical.antt =====
-- What a successful decode says of the bytes that were read.
use magick_sentinel.Prelude.{
  ℕ, zero, suc, ◌+◌, ◌-◌, ◌^◌, ◌≤◌, ◌<◌, ◌≡◌, refl, arith, [], ◌∷◌, ◌++◌, length, take, drop,
  get_or, slice, All, length-drop, length-take, Bytes, IsByte, le_bytes, from_le_bytes, take-add,
  drop-add, le_bytes-from_le_bytes, from_le_bytes-lt, All-take, All-drop,
}
use magick_sentinel.Protocol.{
  Channel, MediaFlags, MediaRecord, ok, IsTyped, encoding, encode, decode, decode_rest, record_at,
  encoded_len, channel_from_u8, flags_from_bits,
}
use magick_sentinel.Protocol.Flags.{to_bits-from_bits, as_u8-from_u8}

decode_rest_ok :
    (c : Channel) (f : MediaFlags) (buf : Bytes) (r : MediaRecord) (used : ℕ)
    → decode_rest c f buf ≡ ok (r, used)
    → let total = 34 + from_le_bytes (slice 32 34 buf) in
      (get_or buf 3 0 ≡ 0) × (total ≤ length buf) × (r ≡ record_at c f buf total) × (used ≡ total)
unfolding decode_rest
decode_rest_ok c f buf r used e = ground arith

decode_ok :
    (buf : Bytes) (r : MediaRecord) (used : ℕ)
    → decode buf ≡ ok (r, used)
    → (34 ≤ length buf)
      × (get_or buf 0 0 ≡ 1)
      × ((c : Channel) × (f : MediaFlags) × (channel_from_u8 (get_or buf 1 0) ≡ ok c)
          × (flags_from_bits (get_or buf 2 0) ≡ ok f)
          × (decode_rest c f buf ≡ ok (r, used)))
unfolding decode
decode_ok buf r used e = ground arith

first_four :
    (xs : Bytes)
    → 4 ≤ length xs
    → take 4 xs ≡ get_or xs 0 0 ∷ get_or xs 1 0 ∷ get_or xs 2 0 ∷ get_or xs 3 0 ∷ []
first_four [] h = absurd (omega arith)
first_four (a ∷ []) h = absurd (omega arith)
first_four (a ∷ b ∷ []) h = absurd (omega arith)
first_four (a ∷ b ∷ c ∷ []) h = absurd (omega arith)
first_four (a ∷ b ∷ c ∷ d ∷ xs) h = refl

get_or-IsByte : (xs : Bytes) (i : ℕ) → All IsByte xs → IsByte (get_or xs i 0)
get_or-IsByte [] i all = omega arith
get_or-IsByte (x ∷ xs) zero all = all.0
get_or-IsByte (x ∷ xs) (suc i) all = get_or-IsByte xs i all.1

module _ (buf : Bytes) (all : All IsByte buf) (long : 34 ≤ length buf) where
  length-slice : (a b : ℕ) → a ≤ b → b ≤ length buf → length (slice a b buf) ≡ b - a
  length-slice a b h k = length-take (b - a) (drop a buf) (omega (arith, length-drop a buf))

  slice-bytes : (a b : ℕ) → All IsByte (slice a b buf)
  slice-bytes a b = All-take IsByte (b - a) (drop a buf) (All-drop IsByte a buf all)

  le_bytes-slice :
      (a b : ℕ)
      → a ≤ b
      → b ≤ length buf
      → le_bytes (b - a) (from_le_bytes (slice a b buf)) ≡ slice a b buf
  le_bytes-slice a b h k =
      le_bytes-from_le_bytes (slice a b buf) (b - a) (length-slice a b h k) (slice-bytes a b)

  value-lt : (a b : ℕ) → a ≤ b → b ≤ length buf → from_le_bytes (slice a b buf) < 256 ^ (b - a)
  value-lt a b h k =
      rw (length-slice a b h k) at (from_le_bytes-lt (slice a b buf) (slice-bytes a b))

  cut : (a m n : ℕ) → take (m + n) (drop a buf) ≡ take m (drop a buf) ++ take n (drop (a + m) buf)
  cut a m n = rw drop-add (take-add m n (drop a buf))

  -- The fields of the layout, one behind the other.
  layout :
      (n : ℕ)
      → take (4 + (4 + (8 + (16 + (2 + n))))) buf
        ≡ take 4 buf
          ++ (slice 4 8 buf
              ++ (slice 8 16 buf ++ (slice 16 32 buf ++ (slice 32 34 buf ++ take n (drop 34 buf)))))
  layout n = rw (cut 0 4, cut 4 4, cut 8 8, cut 16 16, cut 32 2)

  encoding-record_at :
      (c : Channel) (f : MediaFlags) (n : ℕ)
      → n ≡ from_le_bytes (slice 32 34 buf)
      → 34 + n ≤ length buf
      → get_or buf 0 0 ≡ 1
      → get_or buf 3 0 ≡ 0
      → channel_from_u8 (get_or buf 1 0) ≡ ok c
      → flags_from_bits (get_or buf 2 0) ≡ ok f
      → encoding (record_at c f buf (34 + n)) ≡ take (34 + n) buf
  encoding-record_at c f n hn hl h0 h3 hc hf = ground (
    arith,
    layout n,
    first_four buf (omega arith),
    as_u8-from_u8 (get_or buf 1 0) c hc,
    to_bits-from_bits (get_or buf 2 0) f (get_or-IsByte buf 2 all) hf,
    le_bytes-slice 4 8 (omega arith) (omega arith),
    le_bytes-slice 8 16 (omega arith) (omega arith),
    le_bytes-slice 32 34 (omega arith) (omega arith),
    length-slice 34 (34 + n) (omega arith) hl,
  )

  record_at-IsTyped : (c : Channel) (f : MediaFlags) (total : ℕ) → IsTyped (record_at c f buf total)
  record_at-IsTyped c f total = record {
    seq_u32 = value-lt 4 8 (omega arith) (omega arith);
    timestamp_u64 = value-lt 8 16 (omega arith) (omega arith);
    call_id_16 = length-slice 16 32 (omega arith) (omega arith);
    call_id_bytes = slice-bytes 16 32;
    payload_bytes = slice-bytes 34 total;
  }

abbrev RoundTrips : Bytes → MediaRecord → ℕ → Type 0
RoundTrips buf r used =
    IsTyped r × (used ≡ encoded_len r) × (used ≤ length buf) × (encode r ≡ ok (take used buf))

-- The claim for the record that the layout gives.
at_layout :
    (buf : Bytes) (c : Channel) (f : MediaFlags)
    → All IsByte buf
    → 34 ≤ length buf
    → get_or buf 0 0 ≡ 1
    → get_or buf 3 0 ≡ 0
    → channel_from_u8 (get_or buf 1 0) ≡ ok c
    → flags_from_bits (get_or buf 2 0) ≡ ok f
    → 34 + from_le_bytes (slice 32 34 buf) ≤ length buf
    → let total = 34 + from_le_bytes (slice 32 34 buf) in
      RoundTrips buf (record_at c f buf total) total
unfolding encode encoded_len
at_layout buf c f all long h0 h3 hc hf hl =
    let n = from_le_bytes (slice 32 34 buf) in
    let size = length-slice buf all long 34 (34 + n) (omega arith) hl in
    let small = value-lt buf all long 32 34 (omega arith) (omega arith) in
    (
      record_at-IsTyped buf all long c f (34 + n),
      omega (arith, size),
      hl,
      ground (arith, size, small, encoding-record_at buf all long c f n refl hl h0 h3 hc hf),
    )

-- Only canonical bytes decode: when `decode` returns a record and a count for a buffer of bytes,
-- the count lies within the buffer, the record has the ranges of its Rust types, and encoding it
-- gives back exactly the bytes that were used.
pub encode-decode :
    (buf : Bytes) (r : MediaRecord) (used : ℕ)
    → All IsByte buf
    → decode buf ≡ ok (r, used)
    → IsTyped r × (used ≡ encoded_len r) × (used ≤ length buf) × (encode r ≡ ok (take used buf))
encode-decode buf r used all e =
    let (long, h0, (c, f, hc, hf, er)) = decode_ok buf r used e in
    let (h3, hl, hr, hu) = decode_rest_ok c f buf r used er in
    rw hr (rw hu (at_layout buf c f all long h0 h3 hc hf hl))
