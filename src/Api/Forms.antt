-- ===== src/Api/Forms.antt =====
-- The forms that go to the token endpoint: client/sentinel-agent/src/api.rs.
use magick_sentinel.Prelude.{
  false, ◌==◌, ℕ, ◌≡◌, refl, ◌∙◌, ap, Option, none, some, List, [], ◌∷◌, ◌++◌, append-nil, Text,
  Bytes, text, All, IsByte,
}
use magick_sentinel.Config.{join}
use magick_sentinel.Pkce.{
  percent_encode, percent_decode, split_once, split_on, parts, is_unreserved, value_of,
}
use magick_sentinel.Pkce.Coding.{
  Lacks, Lacks-percent_encode, percent_decode-percent_encode, split_once-append,
}
use magick_sentinel.Pkce.Callbacks.{split_on-append, split_on-Lacks}
use magick_sentinel.Api.{encode_pairs, encode_form}

-- How the receiver reads a form: pairs between ampersands, at the first equals sign.
abbrev pub decode_both : Option Text → Option Text → Option (Text × Text)
decode_both (some k) (some v) = some (k, v)
decode_both (some k) none = none
decode_both none v = none

unfoldable pub read_pair : (Bytes → Text) → Text → Option (Text × Text)
unfolding split_once percent_decode
read_pair lossy s =
    let (k, v) = split_once 61 s in
    decode_both (percent_decode lossy k) (percent_decode lossy (value_of v))

abbrev pub cons_pair :
    Option (Text × Text) → Option (List (Text × Text)) → Option (List (Text × Text))
cons_pair (some p) (some ps) = some (p ∷ ps)
cons_pair (some p) none = none
cons_pair none ps = none

unfoldable pub read_all : (Bytes → Text) → List Text → Option (List (Text × Text))
unfolding read_pair
read_all lossy [] = some []
read_all lossy (s ∷ ss) = cons_pair (read_pair lossy s) (read_all lossy ss)

unfoldable pub read_form : (Bytes → Text) → Text → Option (List (Text × Text))
unfolding read_all split_on
read_form lossy s = read_all lossy (parts (split_on 38 s))

-- Bytes that are valid UTF-8, by the lossy conversion that leaves them as they are.
abbrev pub IsText : (Bytes → Text) → Text → Type 0
IsText lossy s = All IsByte s × (lossy s ≡ s)

abbrev pub IsPair : (Bytes → Text) → Text × Text → Type 0
IsPair lossy p = IsText lossy p.0 × IsText lossy p.1

abbrev encode_pair : Text → Text → Text
encode_pair k v = percent_encode k ++ (text "=" ++ percent_encode v)

coded_Lacks :
    (sep : ℕ) (s : Text)
    → All IsByte s
    → is_unreserved sep ≡ false
    → (37 == sep) ≡ false
    → Lacks sep (percent_encode s)
coded_Lacks sep s h free other =
    rw (append-nil (percent_encode s)) at (Lacks-percent_encode sep s [] h free other tt)

encode_pair-Lacks : (k v : Text) → All IsByte k → All IsByte v → Lacks 38 (encode_pair k v)
unfolding is_unreserved
encode_pair-Lacks k v hk hv =
    Lacks-percent_encode 38 k (text "=" ++ percent_encode v) hk refl refl
      (refl, coded_Lacks 38 v hv refl refl)

read_pair-encode_pair :
    (lossy : Bytes → Text) (k v : Text)
    → IsText lossy k
    → IsText lossy v
    → read_pair lossy (encode_pair k v) ≡ some (k, v)
unfolding read_pair is_unreserved
read_pair-encode_pair lossy k v (hk, ek) (hv, ev) =
    rw (split_once-append 61 (percent_encode k) (percent_encode v) (coded_Lacks 61 k hk refl refl))
      (rw (percent_decode-percent_encode lossy k hk ek, percent_decode-percent_encode lossy v hv ev)
        refl)

-- A form that is not empty, whose keys and values are any texts, is read back by the receiver pair
-- for pair.
pub read_form-encode_form :
    (lossy : Bytes → Text) (p : Text × Text) (ps : List (Text × Text))
    → IsPair lossy p
    → All (IsPair lossy) ps
    → read_form lossy (encode_form (p ∷ ps)) ≡ some (p ∷ ps)
unfolding read_form encode_form encode_pairs read_all join
read_form-encode_form lossy (k, v) [] (hk, hv) h =
    ap (λ x. read_all lossy (parts x))
      (split_on-Lacks 38 (encode_pair k v) (encode_pair-Lacks k v hk.0 hv.0))
    ∙ ap (λ x. cons_pair x (some [])) (read_pair-encode_pair lossy k v hk hv)
read_form-encode_form lossy (k, v) (q ∷ ps) (hk, hv) (hq, h) =
    ap (λ x. read_all lossy (parts x))
      (split_on-append 38 (encode_pair k v) (encode_form (q ∷ ps))
        (encode_pair-Lacks k v hk.0 hv.0))
    ∙ ap (λ x. cons_pair x (read_form lossy (encode_form (q ∷ ps))))
        (read_pair-encode_pair lossy k v hk hv)
    ∙ ap (cons_pair (some (k, v))) (read_form-encode_form lossy q ps hq h)
