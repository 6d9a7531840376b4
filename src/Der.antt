-- ===== src/Der.antt =====
-- The DER writer of certificate requests: client/sentinel-service/src/der.rs.
-- `out` is what a function appends. `v & 0x7f` and `v >> 7` are the remainder and the quotient by
-- 128, and `d | 0x80` of such a remainder is a sum. An assertion that fails is `none`.
pub mod Reading
pub mod Lengths
use magick_sentinel.Prelude.{
  ℕ, zero, suc, ◌+◌, ◌-◌, ◌*◌, ◌/◌, ◌%◌, Option, none, some, List, [], ◌∷◌, ◌++◌, length, take,
  drop, ltb, leb, ◌==◌, ◌&&◌, if◌then◌else◌, or_else, Bytes, Text, text,
}

abbrev pub tag_integer : ℕ
tag_integer = 0x02

abbrev pub tag_bit_string : ℕ
tag_bit_string = 0x03

abbrev pub tag_oid : ℕ
tag_oid = 0x06

abbrev pub tag_utf8_string : ℕ
tag_utf8_string = 0x0c

abbrev pub tag_sequence : ℕ
tag_sequence = 0x30

abbrev pub tag_set : ℕ
tag_set = 0x31

abbrev pub tag_context_0_constructed : ℕ
tag_context_0_constructed = 0xa0

abbrev newline : ℕ
newline = 0x0a

-- The `k` bytes of `x`, highest first, in front of `more`: `to_be_bytes`.
unfoldable pub be_bytes : ℕ → ℕ → Bytes → Bytes
be_bytes zero x more = more
be_bytes (suc k) x more = be_bytes k (x / 256) ((x % 256) ∷ more)

-- `position(|&b| b != 0)`.
unfoldable pub first_nonzero : Bytes → Option ℕ
first_nonzero [] = none
first_nonzero (b ∷ bs) =
    if b == 0 then elim (first_nonzero bs) [ none ↦ none | some i ↦ some (i + 1) ] else some 0

unfoldable pub write_len : ℕ → Bytes
unfolding be_bytes first_nonzero
write_len len =
    let bytes = be_bytes 8 len [] in
    let significant = drop (or_else (first_nonzero bytes) (length bytes - 1)) bytes in
    if ltb len 0x80 then len ∷ [] else (0x80 + length significant) ∷ significant

unfoldable pub tlv : ℕ → Bytes → Bytes
unfolding write_len
tlv tag body = tag ∷ (write_len (length body) ++ body)

abbrev pub concat : List Bytes → Bytes
concat [] = []
concat (m ∷ ms) = m ++ concat ms

unfoldable pub sequence : List Bytes → Bytes
unfolding tlv
sequence members = tlv tag_sequence (concat members)

unfoldable pub set : List Bytes → Bytes
unfolding tlv
set members = tlv tag_set (concat members)

unfoldable pub utf8_string : Text → Bytes
unfolding tlv
utf8_string s = tlv tag_utf8_string s

unfoldable pub bit_string : Bytes → Bytes
unfolding tlv
bit_string bytes = tlv tag_bit_string (0x00 ∷ bytes)

-- `magnitude[start..]`, the magnitude from its first byte that is not zero.
unfoldable pub trim_zeros : Bytes → Bytes
trim_zeros [] = []
trim_zeros (b ∷ bs) = if b == 0 then trim_zeros bs else b ∷ bs

-- The body of `unsigned_integer`, from the trimmed magnitude.
unfoldable pub integer_body : Bytes → Bytes
integer_body [] = 0x00 ∷ []
integer_body (b ∷ bs) = if leb 0x80 b then 0x00 ∷ b ∷ bs else b ∷ bs

unfoldable pub unsigned_integer : Bytes → Bytes
unfolding tlv integer_body trim_zeros
unsigned_integer magnitude = tlv tag_integer (integer_body (trim_zeros magnitude))

unfoldable pub small_integer : ℕ → Bytes
unfolding tlv
small_integer v = tlv tag_integer (v ∷ [])

-- The digits of `base128` that have the continuation bit; four are enough for a u32.
unfoldable pub base128_high : ℕ → ℕ → Bytes
base128_high zero v = []
base128_high (suc n) v =
    let more = base128_high n (v / 128) in if v == 0 then [] else more ++ ((0x80 + v % 128) ∷ [])

unfoldable pub base128 : ℕ → Bytes
unfolding base128_high
base128 v = base128_high 4 (v / 128) ++ ((v % 128) ∷ [])

unfoldable pub arcs_body : List ℕ → Bytes
unfolding base128
arcs_body [] = []
arcs_body (arc ∷ arcs) = base128 arc ++ arcs_body arcs

unfoldable pub oid : List ℕ → Option Bytes
unfolding tlv arcs_body
oid (a ∷ b ∷ arcs) =
    if leb a 2 && ltb b 40 then some (tlv tag_oid ((a * 40 + b) ∷ arcs_body arcs)) else none
oid _ = none

-- `chunks(64)` with each chunk on a line of its own; the fuel is the length, which is enough.
unfoldable pub lines_64 : ℕ → Text → Text
lines_64 zero s = []
lines_64 (suc n) [] = []
lines_64 (suc n) (c ∷ s) = take 64 (c ∷ s) ++ (newline ∷ lines_64 n (drop 64 (c ∷ s)))

-- The base64 alphabet is the parameter `encode`.
unfoldable pub to_pem : (Bytes → Text) → Text → Bytes → Text
unfolding lines_64
to_pem encode label der =
    let b64 = encode der in
    text "-----BEGIN "
    ++ (label
        ++ (text "-----\n"
            ++ (lines_64 (length b64) b64 ++ (text "-----END " ++ (label ++ text "-----\n")))))
