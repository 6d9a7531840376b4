-- ===== src/Update/Staging.antt =====
-- The staged file's name: `staging_path` of client/sentinel-service/src/update.rs.
use magick_sentinel.Prelude.{
  ℕ, zero, suc, ◌<◌, ◌≤◌, ◌≡◌, refl, ap, true, false, ◌&&◌, some, [], ◌∷◌, ◌++◌, ◌==◌, Text, text,
  length, keep, All, arith, Bool-cases, inl, inr,
}
use magick_sentinel.Update.{is_kept, has_dots, replace_dots, collapse, named, staging_name}

-- A replacement shortens what it finds something in.
length-replace_dots :
    (s : Text)
    → (length (replace_dots s) ≤ length s)
      × (has_dots s ≡ true → length (replace_dots s) < length s)
unfolding replace_dots has_dots
length-replace_dots [] = (omega arith, λ h. cc)
length-replace_dots (a ∷ []) = (omega arith, λ h. cc)
length-replace_dots (a ∷ b ∷ s) =
    let after = length-replace_dots s in
    let rest = length-replace_dots (b ∷ s) in
    (ground (arith, after, rest), λ h. ground (arith, h, after.0, rest.0, rest.1))

-- Every byte may stand in a file name.
abbrev AllKept : Text → Type 0
AllKept s = All (λ c. is_kept c ≡ true) s

keep-AllKept : (s : Text) → AllKept (keep is_kept s)
keep-AllKept [] = _
keep-AllKept (c ∷ cs) = elim (Bool-cases (is_kept c)) [
  | inl e ↦ rw e (e, keep-AllKept cs)
  | inr e ↦ rw e (keep-AllKept cs)
]

replace_dots-AllKept : (s : Text) → AllKept s → AllKept (replace_dots s)
unfolding replace_dots
replace_dots-AllKept [] h = _
replace_dots-AllKept (a ∷ []) h = h
replace_dots-AllKept (a ∷ b ∷ s) (ha, (hb, h)) = elim (Bool-cases ((a == 46) && (b == 46))) [
  | inl e ↦ rw e (refl, replace_dots-AllKept s h)
  | inr e ↦ rw e (ha, replace_dots-AllKept (b ∷ s) (hb, h))
]

length-keep-le : (s : Text) → length (keep is_kept s) ≤ length s
length-keep-le [] = omega arith
length-keep-le (c ∷ cs) = elim (Bool-cases (is_kept c)) [
  | inl e ↦ rw e (omega (arith, length-keep-le cs))
  | inr e ↦ rw e (omega (arith, length-keep-le cs))
]

-- A text with nothing more to replace, which may stand in a file name.
abbrev pub IsSafe : Text → Type 0
IsSafe s = AllKept s × (has_dots s ≡ false)

empty_no_dots : (s : Text) → length s ≡ 0 → has_dots s ≡ false
unfolding has_dots
empty_no_dots [] h = refl
empty_no_dots (c ∷ s) h = absurd (omega arith)

collapse-IsSafe :
    (fuel : ℕ) (s : Text)
    → length s ≤ fuel
    → AllKept s
    → (t : Text) × (collapse fuel s ≡ some t) × IsSafe t
unfolding collapse
collapse-IsSafe zero s h kept =
    let clean = empty_no_dots s (omega arith) in (s, rw clean refl, (kept, clean))
collapse-IsSafe (suc n) s h kept = elim (Bool-cases (has_dots s)) [
  | inl e ↦
      let shorter = (length-replace_dots s).1 e in
      rw e (collapse-IsSafe n (replace_dots s) (omega arith) (replace_dots-AllKept s kept))
  | inr e ↦ rw e (s, refl, (kept, e))
]

-- With as many rounds as the version has bytes, the loop ends, whatever the version is, and what
-- it puts between the two fixed parts of the file's name has only letters, digits, dots and
-- dashes, with no two dots together: no separator, and no way out of the directory.
pub staging_name_lem :
    (fuel : ℕ) (version : Text)
    → length version ≤ fuel
    → (safe : Text) × (staging_name fuel version
        ≡ some (text "SentinelAgent-" ++ (safe ++ text ".msi")))
      × IsSafe safe
unfolding staging_name
staging_name_lem fuel version h =
    let (safe, e, ok) =
      collapse-IsSafe fuel (keep is_kept version) (omega (arith, length-keep-le version))
        (keep-AllKept version) in
    (safe, ap named e, ok)
