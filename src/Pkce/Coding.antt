-- ===== src/Pkce/Coding.antt =====
-- Percent coding, `split_once` and `constant_time_eq` of client/sentinel-agent/src/auth/pkce.rs.
use magick_sentinel.Prelude.{
  ℕ, zero, suc, ◌/◌, ◌%◌, ◌<◌, ◌≡◌, ◌≢◌, refl, ◌∙◌, ap, Bool, true, false, not, ◌&&◌, none, some,
  [], ◌∷◌, ◌++◌, Text, Bytes, All, append_assoc, ltb, IsByte, arith, Bool-cases, inl, inr,
  if◌then◌else◌, ◌==◌, length, bit_or, bit_xor, ◌↔◌,
}
use magick_sentinel.Pkce.{
  percent, is_unreserved, encode_byte, percent_encode, from_radix_16, cuts, push, plain,
  decode_bytes, percent_decode, split_once, differences, constant_time_eq, hex_upper,
}

hex_round_trip :
    (b : ℕ) → b < 256 → from_radix_16 (hex_upper (b / 16)) (hex_upper (b % 16)) ≡ some b
unfolding from_radix_16
hex_round_trip b h = ground (arith, h)

-- A coded text is ASCII, so that no slice cuts a character of it.
cuts-encode_byte : (b : ℕ) (rest : Text) → b < 256 → cuts (encode_byte b ++ rest) ≡ false
unfolding cuts encode_byte is_unreserved
cuts-encode_byte b rest h = ground (arith, h)

cuts-percent_encode : (s : Text) → All IsByte s → cuts (percent_encode s) ≡ false
unfolding cuts percent_encode
cuts-percent_encode [] h = refl
cuts-percent_encode (b ∷ bs) (hb, h) = cuts-encode_byte b (percent_encode bs) hb

decode-plain :
    (c : ℕ) (xs : Text) → c ≢ percent → decode_bytes (c ∷ xs) ≡ push (plain c) (decode_bytes xs)
unfolding decode_bytes
decode-plain c [] h = refl
decode-plain c (a ∷ []) h = refl
decode-plain c (a ∷ b ∷ bs) h = ground (arith, h)

decode-hex :
    (a b v : ℕ) (rest : Text)
    → cuts rest ≡ false
    → from_radix_16 a b ≡ some v
    → decode_bytes (percent ∷ a ∷ b ∷ rest) ≡ push v (decode_bytes rest)
unfolding decode_bytes
decode-hex a b v rest h k = rw (h, k) refl

decode_unreserved :
    (b : ℕ) (rest : Text)
    → is_unreserved b ≡ true
    → decode_bytes (b ∷ rest) ≡ push b (decode_bytes rest)
unfolding is_unreserved
decode_unreserved b rest e =
    let kept : plain b ≡ b = ground (arith, e) in
    decode-plain b rest (ground (arith, e)) ∙ ap (λ c. push c (decode_bytes rest)) kept

decode-encode_byte :
    (b : ℕ) (rest : Text)
    → b < 256
    → cuts rest ≡ false
    → decode_bytes (encode_byte b ++ rest) ≡ push b (decode_bytes rest)
unfolding encode_byte
decode-encode_byte b rest h k = elim (Bool-cases (is_unreserved b)) [
  | inl e ↦ rw e (decode_unreserved b rest e)
  | inr e ↦
      rw e (decode-hex (hex_upper (b / 16)) (hex_upper (b % 16)) b rest k (hex_round_trip b h))
]

decode_bytes-percent_encode : (s : Text) → All IsByte s → decode_bytes (percent_encode s) ≡ some s
unfolding percent_encode decode_bytes
decode_bytes-percent_encode [] h = refl
decode_bytes-percent_encode (b ∷ bs) (hb, h) =
    decode-encode_byte b (percent_encode bs) hb (cuts-percent_encode bs h)
    ∙ ap (push b) (decode_bytes-percent_encode bs h)

-- Decoding a coded text gives the text back, and does not panic, where the standard library's
-- lossy conversion leaves the text, which is valid UTF-8, as it is.
pub percent_decode-percent_encode :
    (lossy : Bytes → Text) (s : Text)
    → All IsByte s
    → lossy s ≡ s
    → percent_decode lossy (percent_encode s) ≡ some s
unfolding percent_decode
percent_decode-percent_encode lossy s h valid = rw (decode_bytes-percent_encode s h, valid) refl

-- A text that does not have a byte.
abbrev pub Lacks : ℕ → Text → Type 0
Lacks sep s = All (λ c. (c == sep) ≡ false) s

pub split_once-append :
    (sep : ℕ) (s rest : Text) → Lacks sep s → split_once sep (s ++ (sep ∷ rest)) ≡ (s, some rest)
unfolding split_once
split_once-append sep [] rest h = ground arith
split_once-append sep (c ∷ cs) rest (hc, h) = rw (hc, split_once-append sep cs rest h) refl

pub split_once-Lacks : (sep : ℕ) (s : Text) → Lacks sep s → split_once sep s ≡ (s, none)
unfolding split_once
split_once-Lacks sep [] h = refl
split_once-Lacks sep (c ∷ cs) (hc, h) = rw (hc, split_once-Lacks sep cs h) refl

hex_upper-Unreserved : (n : ℕ) → n < 16 → is_unreserved (hex_upper n) ≡ true
unfolding is_unreserved
hex_upper-Unreserved n h = ground (arith, h)

differs : (b sep : ℕ) → is_unreserved b ≡ true → is_unreserved sep ≡ false → (b == sep) ≡ false
differs b sep h k = ground (arith, h, k)

-- No byte of a coded text separates.
Lacks-encode_byte :
    (sep b : ℕ) (rest : Text)
    → b < 256
    → is_unreserved sep ≡ false
    → (percent == sep) ≡ false
    → Lacks sep rest
    → Lacks sep (encode_byte b ++ rest)
unfolding encode_byte
Lacks-encode_byte sep b rest h free other k =
    let hi = differs (hex_upper (b / 16)) sep (hex_upper-Unreserved (b / 16) (omega arith)) free in
    let lo = differs (hex_upper (b % 16)) sep (hex_upper-Unreserved (b % 16) (omega arith)) free in
    elim (Bool-cases (is_unreserved b)) [
      | inl e ↦ rw e (differs b sep e free, k)
      | inr e ↦ rw e (other, (hi, (lo, k)))
    ]

pub Lacks-percent_encode :
    (sep : ℕ) (s rest : Text)
    → All IsByte s
    → is_unreserved sep ≡ false
    → (percent == sep) ≡ false
    → Lacks sep rest
    → Lacks sep (percent_encode s ++ rest)
unfolding percent_encode
Lacks-percent_encode sep [] rest h free other k = k
Lacks-percent_encode sep (b ∷ bs) rest (hb, h) free other k =
    rw (append_assoc (encode_byte b) (percent_encode bs) rest) (
      Lacks-encode_byte sep b (percent_encode bs ++ rest) hb free other
        (Lacks-percent_encode sep bs rest h free other k))

-- Whether a test passes for each byte.
passes : (ℕ → Bool) → ℕ → Bool
passes test zero = true
passes test (suc last) = let earlier = passes test last in if test last then earlier else false

passes-test : (test : ℕ → Bool) (n b : ℕ) → b < n → passes test n ≡ true → test b ≡ true
unfolding passes
passes-test test zero b h e = ground (arith, h)
passes-test test (suc last) b h e = ground (arith, h, e, passes-test test last b)

-- Of two bytes: their exclusive or is zero exactly when they are the same, and their or exactly
-- when both are zero; both are bytes.
abbrev bits_tell : ℕ → ℕ → Bool
bits_tell x y =
    (if x == y then bit_xor x y == 0 else not (bit_xor x y == 0))
    && (if x == 0 && y == 0 then bit_or x y == 0 else not (bit_or x y == 0))
    && ltb (bit_xor x y) 256
    && ltb (bit_or x y) 256

bits_table : passes (λ x. passes (bits_tell x) 256) 256 ≡ true
unfolding passes
bits_table = refl

bits_row : (x : ℕ) → x < 256 → passes (bits_tell x) 256 ≡ true
bits_row x h = passes-test (λ x. passes (bits_tell x) 256) 256 x h bits_table

bits_lem : (x y : ℕ) → x < 256 → y < 256 → bits_tell x y ≡ true
bits_lem x y h k = passes-test (bits_tell x) 256 y k (bits_row x h)

xor-byte : (x y : ℕ) → x < 256 → y < 256 → bit_xor x y < 256
xor-byte x y h k = ground (arith, bits_lem x y h k)

or-byte : (x y : ℕ) → x < 256 → y < 256 → bit_or x y < 256
or-byte x y h k = ground (arith, bits_lem x y h k)

xor-zero : (x y : ℕ) → x < 256 → y < 256 → (bit_xor x y ≡ 0) ↔ (x ≡ y)
xor-zero x y h k =
    (λ e. ground (arith, bits_lem x y h k, e), λ e. ground (arith, bits_lem x y h k, e))

or-zero : (x y : ℕ) → x < 256 → y < 256 → (bit_or x y ≡ 0) ↔ ((x ≡ 0) × (y ≡ 0))
or-zero x y h k =
    (λ e. ground (arith, bits_lem x y h k, e), λ e. ground (arith, bits_lem x y h k, e))

-- The loop ends with zero exactly when it starts with zero and the texts are the same.
differences_zero :
    (xs ys : Bytes) (diff : ℕ)
    → All IsByte xs
    → All IsByte ys
    → length xs ≡ length ys
    → diff < 256
    → (differences xs ys diff ≡ 0) ↔ ((diff ≡ 0) × (xs ≡ ys))
unfolding differences
differences_zero [] [] diff hx hy same h = (λ e. (e, refl), λ (e, _). e)
differences_zero [] (y ∷ ys) diff hx hy same h = absurd (omega arith)
differences_zero (x ∷ xs) [] diff hx hy same h = absurd (omega arith)
differences_zero (x ∷ xs) (y ∷ ys) diff (bx, hx) (by, hy) same h =
    let z = bit_xor x y in
    let bz = xor-byte x y bx by in
    let (there, back) =
      differences_zero xs ys (bit_or diff z) hx hy (omega arith) (or-byte diff z h bz) in
    let (xor_there, xor_back) = xor-zero x y bx by in
    let (or_there, or_back) = or-zero diff z h bz in
    (
      λ e.
          let (none_set, rest) = there e in
          let (start, none_new) = or_there none_set in (start, λ i. xor_there none_new i ∷ rest i),
      λ (start, e). back (or_back (start, xor_back (cc)), cc),
    )

-- The comparison that takes the same time for every byte says of two byte strings exactly whether
-- they are equal.
pub constant_time_eq_iff :
    (a b : Bytes) → All IsByte a → All IsByte b → (constant_time_eq a b ≡ true) ↔ (a ≡ b)
unfolding constant_time_eq
constant_time_eq_iff a b ha hb = elim (Bool-cases (length a == length b)) [
  | inl e ↦
      let (there, back) = differences_zero a b 0 ha hb (ground (arith, e)) (omega arith) in
      rw e (λ r. (there (ground (arith, r))).1, λ r. ground (arith, back (refl, r)))
  | inr e ↦ rw e (λ r. cc, λ r. ground (arith, ap length r, e))
]
