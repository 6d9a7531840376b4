-- ===== src/Der/Reading.antt =====
-- What a reader of DER finds in what is written.
use magick_sentinel.Prelude.{
  ℕ, zero, suc, ◌+◌, ◌-◌, ◌*◌, ◌/◌, ◌%◌, ◌^◌, ◌≤◌, ◌<◌, ◌≡◌, refl, sym, ◌∙◌, ap, append-nil, Option,
  none, some, List, [], ◌∷◌, ◌++◌, append_assoc, length, ltb, leb, ◌==◌, if◌then◌else◌, false,
  Bytes, All, arith, u32_mod, Bool-cases, inl, inr,
}
use native.Mathlib.Nat.{pow-suc}
use magick_sentinel.Der.{
  base128, base128_high, arcs_body, oid, tlv, tag_oid, trim_zeros, integer_body,
}

-- Read a base-128 number, by the rule of X.690 8.19: `sofar` is what the bytes before it say.
unfoldable pub read128 : ℕ → Bytes → Option (ℕ × Bytes)
read128 sofar [] = none
read128 sofar (b ∷ bs) =
    let more = read128 (sofar * 128 + (b - 128)) bs in
    if ltb b 128 then some (sofar * 128 + b, bs) else more

-- Read `n` arcs.
unfoldable pub read_arcs : ℕ → Bytes → Option (List ℕ × Bytes)
unfolding read128
read_arcs zero bs = some ([], bs)
read_arcs (suc n) bs = elim (read128 0 bs) [
  | none ↦ none
  | some (arc, rest) ↦ elim (read_arcs n rest) [
    | none ↦ none
    | some (arcs, left) ↦ some (arc ∷ arcs, left)
  ]
]

read128_more :
    (sofar b : ℕ) (bs : Bytes)
    → 128 ≤ b
    → read128 sofar (b ∷ bs) ≡ read128 (sofar * 128 + (b - 128)) bs
unfolding read128
read128_more sofar b bs h = ground arith

read128_last :
    (sofar b : ℕ) (bs : Bytes) → b < 128 → read128 sofar (b ∷ bs) ≡ some (sofar * 128 + b, bs)
unfolding read128
read128_last sofar b bs h = ground arith

read128-high :
    (n v : ℕ) (rest : Bytes) → v < 128 ^ n → read128 0 (base128_high n v ++ rest) ≡ read128 v rest
unfolding base128_high
read128-high zero v rest h = ap (λ x. read128 x rest) (omega arith)
read128-high (suc n) v rest h = elim (Bool-cases (v == 0)) [
  | inl e ↦ rw e (ap (λ x. read128 x rest) (ground arith))
  | inr e ↦
      rw (e, append_assoc (base128_high n (v / 128)) ((0x80 + v % 128) ∷ []) rest)
        (read128-high n (v / 128) ((0x80 + v % 128) ∷ rest) (omega (arith, pow-suc 128 n))
          ∙ one_digit v rest)
]
  where
    one_digit :
        (v : ℕ) (rest : Bytes) → read128 (v / 128) ((0x80 + v % 128) ∷ rest) ≡ read128 v rest
    one_digit v rest =
        read128_more (v / 128) (0x80 + v % 128) rest (omega arith)
        ∙ ap (λ x. read128 x rest) (omega arith)

read128-base128 :
    (v : ℕ) (rest : Bytes) → v < u32_mod → read128 0 (base128 v ++ rest) ≡ some (v, rest)
unfolding base128
read128-base128 v rest h = rw (append_assoc (base128_high 4 (v / 128)) ((v % 128) ∷ []) rest) (
    read128-high 4 (v / 128) ((v % 128) ∷ rest) (omega arith)
    ∙ read128_last (v / 128) (v % 128) rest (omega arith)
    ∙ ap (λ x. some (x, rest)) (omega arith))

read_arcs-arcs_body :
    (arcs : List ℕ) (rest : Bytes)
    → All (λ a. a < u32_mod) arcs
    → read_arcs (length arcs) (arcs_body arcs ++ rest) ≡ some (arcs, rest)
unfolding read_arcs arcs_body
read_arcs-arcs_body [] rest h = refl
read_arcs-arcs_body (a ∷ arcs) rest (ha, h) =
    rw (append_assoc (base128 a) (arcs_body arcs) rest) (
      ground
        (arith, read128-base128 a (arcs_body arcs ++ rest) ha, read_arcs-arcs_body arcs rest h))

-- An object identifier whose first arcs are in range is written under its tag, its first byte
-- holds the first two arcs, and a reader finds the other arcs, each a u32, in what follows.
pub read_arcs-oid :
    (a b : ℕ) (arcs : List ℕ)
    → a ≤ 2
    → b < 40
    → All (λ arc. arc < u32_mod) arcs
    → (oid (a ∷ b ∷ arcs) ≡ some (tlv tag_oid ((a * 40 + b) ∷ arcs_body arcs)))
      × ((a * 40 + b) / 40 ≡ a)
      × ((a * 40 + b) % 40 ≡ b)
      × (read_arcs (length arcs) (arcs_body arcs) ≡ some (arcs, []))
unfolding oid
read_arcs-oid a b arcs ha hb h = (
  ground arith,
  omega arith,
  omega arith,
  ap (read_arcs (length arcs)) (sym (append-nil (arcs_body arcs))) ∙ read_arcs-arcs_body arcs [] h,
)

-- The number that a big-endian magnitude stands for.
abbrev pub be_value : Bytes → ℕ
be_value [] = 0
be_value (b ∷ bs) = b * 256 ^ length bs + be_value bs

-- The first byte of a body, and whether the body is minimal: one byte, or not a zero in front of
-- a byte below 128.
abbrev pub IsMinimal : Bytes → Type 0
IsMinimal [] = ⊥
IsMinimal (b ∷ []) = b < 128
IsMinimal (b ∷ c ∷ bs) = (b < 128) × (b ≡ 0 → 128 ≤ c)

nonzero : (b : ℕ) → (suc b == 0) ≡ false
nonzero b = ground arith

trim_value : (m : Bytes) → be_value (trim_zeros m) ≡ be_value m
unfolding trim_zeros
trim_value [] = refl
trim_value (zero ∷ bs) = trim_value bs ∙ omega arith
trim_value (suc b ∷ bs) = rw (nonzero b) refl

body_value : (t : Bytes) → be_value (integer_body t) ≡ be_value t
unfolding integer_body
body_value [] = refl
body_value (b ∷ bs) = elim (Bool-cases (leb 0x80 b)) [
  | inl e ↦ rw e (omega arith)
  | inr e ↦ rw e refl
]

abbrev HeadNonzero : Bytes → Type 0
HeadNonzero [] = Unit {0}
HeadNonzero (b ∷ bs) = 0 < b

trim_zeros-HeadNonzero : (m : Bytes) → HeadNonzero (trim_zeros m)
unfolding trim_zeros
trim_zeros-HeadNonzero [] = tt
trim_zeros-HeadNonzero (zero ∷ bs) = trim_zeros-HeadNonzero bs
trim_zeros-HeadNonzero (suc b ∷ bs) = rw (nonzero b) (omega arith)

trimmed-IsMinimal : (t : Bytes) → HeadNonzero t → IsMinimal (integer_body t)
unfolding integer_body
trimmed-IsMinimal [] h = omega arith
trimmed-IsMinimal (b ∷ []) h = elim (Bool-cases (leb 0x80 b)) [
  | inl e ↦ rw e (omega arith, λ z. ground arith)
  | inr e ↦ rw e (ground arith)
]
trimmed-IsMinimal (b ∷ c ∷ bs) h = elim (Bool-cases (leb 0x80 b)) [
  | inl e ↦ rw e (omega arith, λ z. ground arith)
  | inr e ↦ rw e (ground arith, λ z. absurd (omega arith))
]

-- The INTEGER written for a magnitude stands for the same number, is not negative, and is as
-- short as it can be.
pub integer_body-IsMinimal :
    (m : Bytes)
    → (be_value (integer_body (trim_zeros m)) ≡ be_value m)
      × IsMinimal (integer_body (trim_zeros m))
integer_body-IsMinimal m = (
  body_value (trim_zeros m) ∙ trim_value m,
  trimmed-IsMinimal (trim_zeros m) (trim_zeros-HeadNonzero m),
)
