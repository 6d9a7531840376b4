-- ===== src/Update/Decisions.antt =====
-- Which updates are applied: `decide` of client/sentinel-service/src/update.rs.
use magick_sentinel.Prelude.{
  ℕ, ◌≡◌, ◌≢◌, refl, Bool, true, false, Option, none, some, List, [], ◌∷◌, Text, text_lt, arith,
}
use magick_sentinel.Update.{apply, decide, decide_on, parse_version}

text_lt_trans : (r s t : List ℕ) → text_lt r s ≡ true → text_lt s t ≡ true → text_lt r t ≡ true
unfolding text_lt
text_lt_trans [] [] t h k = cc
text_lt_trans r (b ∷ s) [] h k = cc
text_lt_trans [] (b ∷ s) (c ∷ t) h k = refl
text_lt_trans (a ∷ r) [] t h k = cc
text_lt_trans (a ∷ r) (b ∷ s) (c ∷ t) h k = ground (arith, h, k, text_lt_trans r s t)

text_lt_irrefl : (s : List ℕ) → text_lt s s ≡ false
unfolding text_lt
text_lt_irrefl [] = refl
text_lt_irrefl (a ∷ s) = ground (arith, text_lt_irrefl s)

-- An update that is applied has a later version.
decide_on_newer :
    (staged current : Option (List ℕ)) (in_call : Bool)
    → decide_on staged current in_call ≡ apply
    → (s : List ℕ) × (c : List ℕ) × (staged ≡ some s)
      × (current ≡ some c)
      × (text_lt c s ≡ true)
      × (in_call ≡ false)
decide_on_newer none current in_call h = ground arith
decide_on_newer (some s) none in_call h = ground arith
decide_on_newer (some s) (some c) in_call h =
    (s, c, refl, refl, ground (arith, h), ground (arith, h))

decide_on_later : (s c : List ℕ) → text_lt c s ≡ true → decide_on (some s) (some c) false ≡ apply
decide_on_later s c h = rw h refl

-- The versions that two updates lead through.
steps_up :
    (a b c : Option (List ℕ)) (first second : Bool)
    → decide_on b a first ≡ apply
    → decide_on c b second ≡ apply
    → decide_on c a false ≡ apply
steps_up a b c first second h k =
    let (s, r, eb, ea, lt, _) = decide_on_newer b a first h in
    let (u, t, ec, eb2, lt2, _) = decide_on_newer c b second k in
    let same : s ≡ t = ground (arith, eb, eb2) in
    let up : text_lt r u ≡ true = text_lt_trans r s u lt (rw same lt2) in
    rw (ea, ec) (decide_on_later u r up)

applied_idle :
    (staged current : Option (List ℕ)) (in_call : Bool)
    → decide_on staged current in_call ≡ apply
    → in_call ≡ false
applied_idle staged current in_call h =
    let (_, _, _, _, _, idle) = decide_on_newer staged current in_call h in idle

goes_up : (a b : Option (List ℕ)) → decide_on b a false ≡ apply → decide_on a b false ≢ apply
goes_up a b h k =
    let again : decide_on a a false ≡ apply = steps_up a b a false false h k in
    let (s, c, es, ec, lt, _) = decide_on_newer a a false again in
    let same : s ≡ c = ground (arith, es, ec) in
    let never = text_lt_irrefl c in ground (arith, rw same at lt, never)

-- An update is never applied in a call, mandatory or not; two updates applied one after the other
-- could have been one; and no history of updates leads back to a version that it has left.
pub decide_lem :
    (a b c : Text) (in_call_1 in_call_2 mandatory_1 mandatory_2 mandatory : Bool)
    → decide a (some b) in_call_1 mandatory_1 ≡ apply
    → decide b (some c) in_call_2 mandatory_2 ≡ apply
    → (in_call_1 ≡ false)
      × (in_call_2 ≡ false)
      × (decide a (some c) false mandatory ≡ apply)
      × ((in_call : Bool) → decide c (some a) in_call mandatory ≢ apply)
unfolding decide
decide_lem a b c in_call_1 in_call_2 mandatory_1 mandatory_2 mandatory h k =
    let va = parse_version a in
    let vb = parse_version b in
    let vc = parse_version c in
    let up = steps_up va vb vc in_call_1 in_call_2 h k in
    (
      applied_idle vb va in_call_1 h,
      applied_idle vc vb in_call_2 k,
      up,
      λ in_call e. goes_up va vc up (rw (applied_idle va vc in_call e) at e),
    )
