-- ===== src/Protocol/RoundTrip.antt =====
-- Encoding a media record and reading it back.
use magick_sentinel.Prelude.{
  ℕ, zero, suc, if◌then◌else◌, ltb, ◌+◌, ◌-◌, ◌≤◌, ◌<◌, ◌≡◌, refl, ap, sym, ◌∙◌, Bool-cases, inl,
  inr, length-take, ltb, arith, List, [], ◌∷◌, ◌++◌, append_assoc, append-nil, length, take, drop,
  get_or, slice, length-append, take-append, drop-append, drop-add, take-take, Bytes, le_bytes,
  from_le_bytes, from_le_bytes-le_bytes,
}
use native.Mathlib.Nat.{zero-add, suc-add}
use magick_sentinel.Protocol.{
  MediaRecord, ok, err, IsTyped, truncated, header_len, encoding, encoded_len, encode, decode,
  decode_rest,
}
use magick_sentinel.Protocol.Flags.{from_bits-to_bits, from_u8-as_u8}

-- What stands behind the four leading bytes, the sequence number and the timestamp.
abbrev tail : MediaRecord → Bytes → Bytes
tail r rest = r.call_id ++ (le_bytes 2 (length r.payload) ++ (r.payload ++ rest))

tail_assoc :
    (r : MediaRecord) (rest : Bytes)
    → (r.call_id ++ (le_bytes 2 (length r.payload) ++ r.payload)) ++ rest ≡ tail r rest
tail_assoc r rest = simp append_assoc

pub length-encoding :
    (r : MediaRecord) → IsTyped r → length (encoding r) ≡ header_len + length r.payload
length-encoding r t =
    omega
      (arith, length-append r.call_id (le_bytes 2 (length r.payload) ++ r.payload), t.call_id_16)

module _ (r : MediaRecord) (rest : Bytes) (t : IsTyped r) (small : length r.payload < 65536) where
  abbrev buf : Bytes
  buf = encoding r ++ rest

  call_id_at : slice 16 32 buf ≡ r.call_id
  call_id_at = rw (tail_assoc r rest) (take-append r.call_id _ 16 t.call_id_16)

  drop_call_id : drop 16 (tail r rest) ≡ le_bytes 2 (length r.payload) ++ (r.payload ++ rest)
  drop_call_id = drop-append r.call_id _ 16 t.call_id_16

  drop_32 : drop 32 buf ≡ le_bytes 2 (length r.payload) ++ (r.payload ++ rest)
  drop_32 = rw (tail_assoc r rest) drop_call_id

  drop_34 : drop 34 buf ≡ r.payload ++ rest
  drop_34 = drop-add 32 2 buf ∙ ap (drop 2) drop_32

  length_at : from_le_bytes (slice 32 34 buf) ≡ length r.payload
  length_at = rw drop_32 (from_le_bytes-le_bytes 2 (length r.payload) small)

  payload_at : slice 34 (34 + length r.payload) buf ≡ r.payload
  payload_at = rw drop_34 (take-append r.payload rest _ (omega arith))

  length_buf : length buf ≡ 34 + length r.payload + length rest
  length_buf = omega (arith, length-append (encoding r) rest, length-encoding r t)

  -- Decoding reads back the record that was encoded, uses the bytes of that record and none of
  -- those that follow it.
  pub decode-encoding : decode buf ≡ ok (r, encoded_len r)
  unfolding decode decode_rest encoded_len
  decode-encoding = ground (
    arith,
    from_u8-as_u8 r.channel,
    from_bits-to_bits r.flags,
    length_buf,
    length_at,
    payload_at,
    call_id_at,
    from_le_bytes-le_bytes 4 r.seq t.seq_u32,
    from_le_bytes-le_bytes 8 r.timestamp_ms t.timestamp_u64,
  )

  -- A record of the Rust types whose payload fits the u16 length is encoded, and decoding the
  -- bytes in front of any others gives the record back with their number.
  pub decode-encode :
      (encode r ≡ ok (encoding r))
      × (decode (encoding r ++ rest) ≡ ok (r, encoded_len r))
      × (encoded_len r ≡ length (encoding r))
  unfolding encode encoded_len
  decode-encode = (ground arith, decode-encoding, sym (length-encoding r t))

module _ {ℓ} {A : Type ℓ} where
  get_or-take : (k i : ℕ) (xs : List A) (d : A) → i < k → get_or (take k xs) i d ≡ get_or xs i d
  get_or-take zero i xs d h = absurd (omega arith)
  get_or-take (suc k) i [] d h = refl
  get_or-take (suc k) zero (x ∷ xs) d h = refl
  get_or-take (suc k) (suc i) (x ∷ xs) d h = get_or-take k i xs d (omega arith)

  drop-take : (k n : ℕ) (xs : List A) → drop n (take (n + k) xs) ≡ take k (drop n xs)
  drop-take k zero xs = rw zero-add
  drop-take zero (suc n) [] = rw suc-add
  drop-take (suc k) (suc n) [] = rw suc-add
  drop-take k (suc n) (x ∷ xs) = rw suc-add (drop-take k n xs)

  slice-take : (k a b : ℕ) (xs : List A) → a ≤ b → b ≤ k → slice a b (take k xs) ≡ slice a b xs
  slice-take k a b xs h g =
      let e : k ≡ a + (k - a) = omega arith in
      rw e (rw (drop-take (k - a) a xs) (take-take (k - a) (b - a) (drop a xs) (omega arith)))

-- A record that is cut off anywhere is refused as truncated. The error names the bytes at hand
-- and the bytes needed: the header when even that is cut, and the whole record otherwise.
pub decode_truncated :
    (r : MediaRecord) (k : ℕ)
    → IsTyped r
    → length r.payload < 65536
    → k < encoded_len r
    → decode (take k (encoding r))
      ≡ err (truncated (if ltb k header_len then header_len else encoded_len r) k)
unfolding decode decode_rest encoded_len
decode_truncated r k t small h = elim (Bool-cases (ltb k 34)) [
  | inl few ↦ ground (arith, length-take k (encoding r), length-encoding r t)
  | inr many ↦ ground (
    arith,
    length-take k (encoding r),
    length-encoding r t,
    get_or-take k 0 (encoding r) 0,
    get_or-take k 1 (encoding r) 0,
    get_or-take k 2 (encoding r) 0,
    get_or-take k 3 (encoding r) 0,
    slice-take k 32 34 (encoding r),
    from_u8-as_u8 r.channel,
    from_bits-to_bits r.flags,
    rw append-nil at (length_at r [] t small),
  )
]
