-- ===== src/Pkce.antt =====
-- The sign-in request and its callback: client/sentinel-agent/src/auth/pkce.rs.
-- Random values and challenges are texts; `lossy` is the standard library's `from_utf8_lossy`.
pub mod Coding
pub mod Callbacks
use magick_sentinel.Prelude.{
  ℕ, zero, suc, ◌+◌, ◌*◌, ◌-◌, ◌/◌, ◌%◌, Bool, true, false, ◌&&◌, ◌||◌, not, Option, none, some,
  List, [], ◌∷◌, ◌++◌, if◌then◌else◌, ltb, leb, ◌==◌, Text, Bytes, text, text_eq, length, digits,
  any, bit_or, bit_xor,
}

abbrev pub percent : ℕ
percent = 37

abbrev pub plus : ℕ
plus = 43

abbrev pub within : ℕ → ℕ → ℕ → Bool
within a b c = leb a c && leb c b

-- The letters, the digits, and `-._~`.
unfoldable pub is_unreserved : ℕ → Bool
is_unreserved b =
    within 65 90 b
    || within 97 122 b
    || within 48 57 b
    || (b == 45)
    || (b == 46)
    || (b == 95)
    || (b == 126)

-- A digit of `{:02X}`.
abbrev pub hex_upper : ℕ → ℕ
hex_upper n = if ltb n 10 then 48 + n else 55 + n

unfoldable pub encode_byte : ℕ → Text
unfolding is_unreserved
encode_byte b =
    if is_unreserved b then b ∷ [] else percent ∷ hex_upper (b / 16) ∷ hex_upper (b % 16) ∷ []

unfoldable pub percent_encode : Text → Text
unfolding encode_byte
percent_encode [] = []
percent_encode (b ∷ bs) = encode_byte b ++ percent_encode bs

abbrev pub hex_value : ℕ → Option ℕ
hex_value c =
    if within 48 57 c
    then some (c - 48)
    else if within 65 70 c
    then some (c - 55)
    else if within 97 102 c
    then some (c - 87)
    else none

abbrev pub two_digits : Option ℕ → Option ℕ → Option ℕ
two_digits (some a) (some b) = some (16 * a + b)
two_digits (some a) none = none
two_digits none b = none

-- `u8::from_str_radix(_, 16)` of two bytes: a plus sign may stand first.
unfoldable pub from_radix_16 : ℕ → ℕ → Option ℕ
from_radix_16 a b = if a == plus then hex_value b else two_digits (hex_value a) (hex_value b)

-- Whether a slice that ends before these bytes of a text cuts a character.
unfoldable pub cuts : Text → Bool
cuts [] = false
cuts (b ∷ bs) = within 128 191 b

abbrev pub push : ℕ → Option Text → Option Text
push b none = none
push b (some bs) = some (b ∷ bs)

abbrev pub plain : ℕ → ℕ
plain c = if c == plus then 32 else c

-- The bytes that `percent_decode` makes of a text, or none where the slice panics.
unfoldable pub decode_bytes : Text → Option Text
unfolding cuts from_radix_16
decode_bytes [] = some []
decode_bytes (c ∷ []) = some (plain c ∷ [])
decode_bytes (c ∷ a ∷ []) = push (plain c) (decode_bytes (a ∷ []))
decode_bytes (c ∷ a ∷ b ∷ bs) =
    let kept = push (plain c) (decode_bytes (a ∷ b ∷ bs)) in
    let decoded = decode_bytes bs in
    if not (c == percent)
    then kept
    else if cuts bs
    then none
    else elim (from_radix_16 a b) as (λ r. Option Text) [ none ↦ kept | some v ↦ push v decoded ]

abbrev pub make_text : (Bytes → Text) → Option Text → Option Text
make_text lossy none = none
make_text lossy (some bs) = some (lossy bs)

unfoldable pub percent_decode : (Bytes → Text) → Text → Option Text
unfolding decode_bytes
percent_decode lossy s = make_text lossy (decode_bytes s)

-- `split_once`: what stands before the first separator, and after it if there is one.
unfoldable pub split_once : ℕ → Text → Text × Option Text
split_once sep [] = ([], none)
split_once sep (c ∷ cs) =
    let rest = split_once sep cs in if c == sep then ([], some cs) else (c ∷ rest.0, rest.1)

-- `split`: the parts between separators.
unfoldable pub split_on : ℕ → Text → Text × List Text
split_on sep [] = ([], [])
split_on sep (c ∷ cs) =
    let (part, parts) = split_on sep cs in
    if c == sep then ([], part ∷ parts) else (c ∷ part, parts)

pub data CallbackError : Type 0 where
  wrong_path : Text → CallbackError
  no_code no_state state_mismatch malformed : CallbackError
  provider : Text → Option Text → CallbackError

pub record Callback : Type 0 where
  pub code : Text
  pub state : Text

-- A result, an error, or a panic.
pub data Parsed {ℓ} (A : Type ℓ) : Type ℓ where
  ok : A → Parsed A
  err : CallbackError → Parsed A
  panic : Parsed A

-- The four values that the loop over the pairs collects.
pub record Fields : Type 0 where
  pub code : Option Text
  pub state : Option Text
  pub error : Option Text
  pub error_description : Option Text

abbrev pub no_fields : Fields
no_fields = record { code = none; state = none; error = none; error_description = none }

unfoldable pub set_field : Text → Text → Fields → Fields
set_field k v f =
    if text_eq k (text "code")
    then record f { code = some v }
    else if text_eq k (text "state")
    then record f { state = some v }
    else if text_eq k (text "error")
    then record f { error = some v }
    else if text_eq k (text "error_description")
    then record f { error_description = some v }
    else f

abbrev pub value_of : Option Text → Text
value_of none = []
value_of (some v) = v

abbrev pub and_then : Option Text → (Text → Option Fields) → Option Fields
and_then none next = none
and_then (some v) next = next v

unfoldable pub read_pairs : (Bytes → Text) → List Text → Fields → Option Fields
unfolding percent_decode split_once set_field
read_pairs lossy [] f = some f
read_pairs lossy ([] ∷ pairs) f = read_pairs lossy pairs f
read_pairs lossy ((c ∷ cs) ∷ pairs) f =
    let (k, v) = split_once 61 (c ∷ cs) in
    let rest = λ (decoded : Text). read_pairs lossy pairs (set_field k decoded f) in
    and_then (percent_decode lossy (value_of v)) rest

-- The checks of `parse_callback` after the loop, by the three values in turn.
abbrev pub conclude_code : Text → Option Text → Parsed Callback
conclude_code state none = err no_code
conclude_code state (some []) = err no_code
conclude_code state (some (c ∷ cs)) = ok (record { code = c ∷ cs; state = state })

abbrev pub conclude_state : Option Text → Option Text → Parsed Callback
conclude_state none code = err no_state
conclude_state (some state) code = conclude_code state code

unfoldable pub conclude : Option Text → Fields → Parsed Callback
conclude none f = conclude_state f.state f.code
conclude (some code) f = err (provider code f.error_description)

abbrev pub conclude_read : Option Fields → Parsed Callback
conclude_read none = panic
conclude_read (some f) = conclude f.error f

abbrev pub parts : Text × List Text → List Text
parts (first, rest) = first ∷ rest

unfoldable pub parse_callback : (Bytes → Text) → Text → Parsed Callback
unfolding split_once split_on read_pairs conclude
parse_callback lossy target =
    let (path, query) = split_once 63 target in
    if not (text_eq path (text "/callback"))
    then err (wrong_path path)
    else conclude_read (read_pairs lossy (parts (split_on 38 (value_of query))) no_fields)

-- The loop of `constant_time_eq`.
unfoldable pub differences : Bytes → Bytes → ℕ → ℕ
differences (x ∷ xs) (y ∷ ys) diff = differences xs ys (bit_or diff (bit_xor x y))
differences [] ys diff = diff
differences (x ∷ xs) [] diff = diff

unfoldable pub constant_time_eq : Bytes → Bytes → Bool
unfolding differences
constant_time_eq a b = if not (length a == length b) then false else differences a b 0 == 0

-- `validate` of a callback, given the state of the attempt.
unfoldable pub validate : Text → Callback → Parsed Text
unfolding constant_time_eq
validate state cb = if not (constant_time_eq state cb.state) then err state_mismatch else ok cb.code
