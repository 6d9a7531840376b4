-- ===== src/Update.antt =====
-- Updates: client/sentinel-service/src/update.rs.
-- `verify_sha256`, which reads a file and hashes it, is left out.
pub mod Staging
pub mod Decisions
use magick_sentinel.Prelude.{
  ℕ, zero, suc, ◌+◌, ◌*◌, ◌-◌, ◌/◌, ◌%◌, Bool, true, false, not, ◌&&◌, ◌||◌, Option, none, some,
  List, [], ◌∷◌, ◌++◌, if◌then◌else◌, ltb, leb, ◌==◌, Text, Bytes, text, text_lt, length, keep,
  u64_mod,
}
use magick_sentinel.Whitespace.{trim, from_to}

pub data ApplyDecision : Type 0 where
  apply defer_in_call nothing : ApplyDecision

-- The digits of `parse::<u64>`, after those whose value is `acc`.
unfoldable pub read_digits : ℕ → Text → Option ℕ
read_digits acc [] = some acc
read_digits acc (c ∷ cs) =
    let next = acc * 10 + (c - 48) in
    let rest = read_digits next cs in if from_to 48 57 c && ltb next u64_mod then rest else none

-- `parse::<u64>`: a plus sign may stand first.
unfoldable pub parse_u64 : Text → Option ℕ
unfolding read_digits
parse_u64 [] = none
parse_u64 (c ∷ []) = read_digits 0 (c ∷ [])
parse_u64 (c ∷ d ∷ cs) = if c == 43 then read_digits 0 (d ∷ cs) else read_digits 0 (c ∷ d ∷ cs)

-- The parts between dots.
unfoldable pub split_dots : Text → Text × List Text
split_dots [] = ([], [])
split_dots (c ∷ cs) =
    let (part, parts) = split_dots cs in if c == 46 then ([], part ∷ parts) else (c ∷ part, parts)

abbrev pub cons_both : Option ℕ → Option (List ℕ) → Option (List ℕ)
cons_both none ns = none
cons_both (some n) none = none
cons_both (some n) (some ns) = some (n ∷ ns)

-- `collect` of the parts: all must be numbers.
unfoldable pub parse_parts : List Text → Option (List ℕ)
unfolding trim parse_u64
parse_parts [] = some []
parse_parts (p ∷ ps) = cons_both (parse_u64 (trim p)) (parse_parts ps)

-- At least three parts.
abbrev pub pad : List ℕ → List ℕ
pad [] = 0 ∷ 0 ∷ 0 ∷ []
pad (a ∷ []) = a ∷ 0 ∷ 0 ∷ []
pad (a ∷ b ∷ []) = a ∷ b ∷ 0 ∷ []
pad (a ∷ b ∷ c ∷ ns) = a ∷ b ∷ c ∷ ns

abbrev pub padded : Option (List ℕ) → Option (List ℕ)
padded none = none
padded (some ns) = some (pad ns)

-- `Version::parse`; splitting never gives an empty list of parts.
unfoldable pub parse_version : Text → Option (List ℕ)
unfolding split_dots parse_parts
parse_version s = let (first, rest) = split_dots s in padded (parse_parts (first ∷ rest))

-- The derived order of two versions, on their lists of numbers.
abbrev pub decide_on : Option (List ℕ) → Option (List ℕ) → Bool → ApplyDecision
decide_on (some staged) (some current) in_call =
    if not (text_lt current staged) then nothing else if in_call then defer_in_call else apply
decide_on (some staged) none in_call = nothing
decide_on none current in_call = nothing

abbrev pub parse_staged : Option Text → Option (List ℕ)
parse_staged none = none
parse_staged (some s) = parse_version s

unfoldable pub decide : Text → Option Text → Bool → Bool → ApplyDecision
unfolding parse_version text_lt
decide current staged agent_in_call mandatory =
    decide_on (parse_staged staged) (parse_version current) agent_in_call

-- A digit of `{:02x}`.
abbrev pub hex_digit : ℕ → ℕ
hex_digit n = if ltb n 10 then 48 + n else 87 + n

unfoldable pub hex_lower : Bytes → Text
hex_lower [] = []
hex_lower (b ∷ bs) = hex_digit (b / 16) ∷ hex_digit (b % 16) ∷ hex_lower bs

-- ASCII letters and digits, the dot and the dash.
abbrev pub is_kept : ℕ → Bool
is_kept c = from_to 48 57 c || from_to 65 90 c || from_to 97 122 c || (c == 46) || (c == 45)

unfoldable pub has_dots : Text → Bool
has_dots [] = false
has_dots (a ∷ []) = false
has_dots (a ∷ b ∷ s) = let rest = has_dots (b ∷ s) in if (a == 46) && (b == 46) then true else rest

-- `replace("..", ".")`.
unfoldable pub replace_dots : Text → Text
replace_dots [] = []
replace_dots (a ∷ []) = a ∷ []
replace_dots (a ∷ b ∷ s) =
    let after = replace_dots s in
    let rest = replace_dots (b ∷ s) in if (a == 46) && (b == 46) then 46 ∷ after else a ∷ rest

-- The loop, on fuel; none where that runs out.
unfoldable pub collapse : ℕ → Text → Option Text
unfolding has_dots replace_dots
collapse zero s = if has_dots s then none else some s
collapse (suc n) s = let rest = collapse n (replace_dots s) in if has_dots s then rest else some s

abbrev pub named : Option Text → Option Text
named none = none
named (some safe) = some (text "SentinelAgent-" ++ (safe ++ text ".msi"))

-- The name of the file; `staging_path` joins it to its root.
unfoldable pub staging_name : ℕ → Text → Option Text
unfolding collapse
staging_name fuel version = named (collapse fuel (keep is_kept version))
