-- ===== src/Pkce/Callbacks.antt =====
-- The loopback callback of client/sentinel-agent/src/auth/pkce.rs: `parse_callback` and `validate`.
use magick_sentinel.Prelude.{
  ℕ, ◌≡◌, refl, sym, ◌∙◌, ap, some, [], ◌∷◌, ◌++◌, Text, Bytes, text, text_eq, All, IsByte, arith,
  Bool-cases, inl, inr, append-nil, ◌↔◌,
}
use magick_sentinel.Pkce.{
  percent_encode, split_once, split_on, no_fields, read_pairs, set_field, conclude, conclude_read,
  parse_callback, Callback, ok, validate, constant_time_eq, parts, is_unreserved,
}
use magick_sentinel.Pkce.Coding.{
  Lacks, Lacks-percent_encode, percent_decode-percent_encode, constant_time_eq_iff,
}

pub split_on-append :
    (sep : ℕ) (s rest : Text)
    → Lacks sep s
    → split_on sep (s ++ (sep ∷ rest)) ≡ (s, parts (split_on sep rest))
unfolding split_on
split_on-append sep [] rest h = ground arith
split_on-append sep (c ∷ cs) rest (hc, h) = rw (hc, split_on-append sep cs rest h) refl

pub split_on-Lacks : (sep : ℕ) (s : Text) → Lacks sep s → split_on sep s ≡ (s, [])
unfolding split_on
split_on-Lacks sep [] h = refl
split_on-Lacks sep (c ∷ cs) (hc, h) = rw (hc, split_on-Lacks sep cs h) refl

coded_Lacks : (s : Text) → All IsByte s → Lacks 38 (percent_encode s)
unfolding is_unreserved
coded_Lacks s h = rw (append-nil (percent_encode s)) at (Lacks-percent_encode 38 s [] h refl refl _)

-- What the identity provider sends the browser to.
abbrev pub redirect : Text → Text → Text
redirect code state =
    text "/callback?code=" ++ (percent_encode code ++ (text "&state=" ++ percent_encode state))

redirect_pairs :
    (code state : Text)
    → All IsByte code
    → All IsByte state
    → split_on 38
        (text "code=" ++ (percent_encode code ++ (text "&state=" ++ percent_encode state)))
      ≡ (text "code=" ++ percent_encode code, (text "state=" ++ percent_encode state) ∷ [])
redirect_pairs code state hc hs =
    let first : Lacks 38 (text "code=" ++ percent_encode code) =
      (refl, (refl, (refl, (refl, (refl, coded_Lacks code hc))))) in
    let second : Lacks 38 (text "state=" ++ percent_encode state) =
      (refl, (refl, (refl, (refl, (refl, (refl, coded_Lacks state hs)))))) in
    split_on-append 38 (text "code=" ++ percent_encode code) (text "state=" ++ percent_encode state)
      first
    ∙ ap (λ r. (text "code=" ++ percent_encode code, parts r))
        (split_on-Lacks 38 (text "state=" ++ percent_encode state) second)

redirect_fields :
    (lossy : Bytes → Text) (code state : Text)
    → All IsByte code
    → All IsByte state
    → lossy code ≡ code
    → lossy state ≡ state
    → read_pairs lossy
        ((text "code=" ++ percent_encode code) ∷ (text "state=" ++ percent_encode state) ∷ [])
        no_fields
      ≡ some (record no_fields { code = some code; state = some state })
unfolding read_pairs split_once set_field text_eq
redirect_fields lossy code state hc hs kc ks =
    rw
      (
        percent_decode-percent_encode lossy code hc kc,
        percent_decode-percent_encode lossy state hs ks,
      )
      refl

-- The redirect of an honest provider is read back whole: the code and the state that it carries
-- are found, whatever bytes they have, if the code is not empty.
pub parse_callback-redirect :
    (lossy : Bytes → Text) (c : ℕ) (code state : Text)
    → All IsByte (c ∷ code)
    → All IsByte state
    → lossy (c ∷ code) ≡ c ∷ code
    → lossy state ≡ state
    → parse_callback lossy (redirect (c ∷ code) state)
      ≡ ok (record { code = c ∷ code; state = state })
unfolding parse_callback split_once text_eq conclude
parse_callback-redirect lossy c code state hc hs kc ks =
    ap (λ r. conclude_read (read_pairs lossy (parts r) no_fields))
      (redirect_pairs (c ∷ code) state hc hs)
    ∙ ap conclude_read (redirect_fields lossy (c ∷ code) state hc hs kc ks)

-- A callback yields a code exactly when it carries the state of the attempt, and then the code is
-- the one it carries; with any other state it is refused as a mismatch.
pub validate_lem :
    (state : Text) (cb : Callback) (code : Text)
    → All IsByte state
    → All IsByte cb.state
    → (validate state cb ≡ ok code) ↔ ((cb.state ≡ state) × (cb.code ≡ code))
unfolding validate
validate_lem state cb code hs hc =
    let (there, back) = constant_time_eq_iff state cb.state hs hc in
    elim (Bool-cases (constant_time_eq state cb.state)) [
      | inl e ↦ rw e (λ r. (sym (there e), ground (arith, r)), λ (_, k). ap ok k)
      | inr e ↦ rw e (λ r. ground (arith, r), λ (k, _). ground (arith, e, back (sym k)))
    ]
