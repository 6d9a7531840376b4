-- ===== src/Whitespace.antt =====
-- `str::trim` of Rust's standard library, on UTF-8.
use magick_sentinel.Prelude.{
  ℕ, Bool, true, false, ◌&&◌, ◌||◌, [], ◌∷◌, if◌then◌else◌, leb, ◌==◌, Text, ◌≡◌, ◌≤◌, refl, arith,
}

abbrev pub from_to : ℕ → ℕ → ℕ → Bool
from_to a b c = leb a c && leb c b

-- `trim_start`: the characters of Unicode's White_Space, in UTF-8.
unfoldable pub trim_start : Text → Text
trim_start [] = []
trim_start (a ∷ []) = if from_to 9 13 a || (a == 32) then [] else a ∷ []
trim_start (a ∷ b ∷ []) =
    let one = trim_start (b ∷ []) in
    if from_to 9 13 a || (a == 32)
    then one
    else if (a == 194) && ((b == 133) || (b == 160))
    then []
    else a ∷ b ∷ []
trim_start (a ∷ b ∷ c ∷ s) =
    let one = trim_start (b ∷ c ∷ s) in
    let two = trim_start (c ∷ s) in
    let three = trim_start s in
    if from_to 9 13 a || (a == 32)
    then one
    else if (a == 194) && ((b == 133) || (b == 160))
    then two
    else if ((a == 225) && (b == 154) && (c == 128))
        || ((a == 226)
            && (b == 128)
            && (from_to 128 138 c || (c == 168) || (c == 169) || (c == 175)))
        || ((a == 226) && (b == 129) && (c == 159))
        || ((a == 227) && (b == 128) && (c == 128))
    then three
    else a ∷ b ∷ c ∷ s

abbrev pub is_empty : Text → Bool
is_empty [] = true
is_empty (c ∷ cs) = false

-- `trim_end`: from where only white space follows.
unfoldable pub trim_end : Text → Text
unfolding trim_start
trim_end [] = []
trim_end (c ∷ cs) =
    let rest = trim_end cs in if is_empty (trim_start (c ∷ cs)) then [] else c ∷ rest

unfoldable pub trim : Text → Text
unfolding trim_end trim_start
trim s = trim_end (trim_start s)

-- A visible ASCII character in front is kept.
pub trim_start-visible : (c : ℕ) (s : Text) → 33 ≤ c → c ≤ 127 → trim_start (c ∷ s) ≡ c ∷ s
unfolding trim_start
trim_start-visible c [] h k = ground (arith, h, k)
trim_start-visible c (a ∷ []) h k = ground (arith, h, k)
trim_start-visible c (a ∷ b ∷ s) h k = ground (arith, h, k)

pub trim_end-visible : (c : ℕ) (s : Text) → 33 ≤ c → c ≤ 127 → trim_end (c ∷ s) ≡ c ∷ trim_end s
unfolding trim_end
trim_end-visible c s h k = rw (trim_start-visible c s h k) refl
