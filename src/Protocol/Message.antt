-- ===== src/Protocol/Message.antt =====
-- Messages of several records: `decode_all` and its loop.
use magick_sentinel.Prelude.{
  ℕ, zero, suc, ◌≤◌, ◌<◌, ◌≡◌, refl, ap, ◌∙◌, false, ltb, arith, List, [], ◌∷◌, ◌++◌, append_assoc,
  append-nil, length, take, drop, All, All-drop, length-append, length-drop, drop-append, Bytes,
  IsByte, take-append-drop, ◌⊎◌, inl, inr,
}
use magick_sentinel.Protocol.{
  MediaRecord, ProtocolError, Result, ok, err, IsTyped, encoding, encoded_len, encode, decode, Loop,
  done, failed, decode_loop, decode_all, max_message_bytes, message_too_large,
}
use magick_sentinel.Protocol.RoundTrip.{decode-encoding, length-encoding}
use magick_sentinel.Protocol.Canonical.{encode-decode}

-- A record that `encode_into` accepts.
abbrev pub IsSendable : MediaRecord → Type 0
IsSendable r = IsTyped r × (length r.payload < 65536)

-- The concatenated encodings: the content of one binary message.
abbrev pub encodings : List MediaRecord → Bytes
encodings [] = []
encodings (r ∷ rs) = encoding r ++ encodings rs

Result-cases {ℓ} :
    {A : Type ℓ} (m : Result A) → ((a : A) × (m ≡ ok a)) ⊎ ((e : ProtocolError) × (m ≡ err e))
Result-cases (ok a) = inl (a, refl)
Result-cases (err e) = inr (e, refl)

decode_loop_ok :
    (fuel : ℕ) (b : ℕ) (bs : Bytes) (out : List MediaRecord) (r : MediaRecord) (used : ℕ)
    → decode (b ∷ bs) ≡ ok (r, used)
    → decode_loop (suc fuel) (b ∷ bs) out ≡ decode_loop fuel (drop used (b ∷ bs)) (out ++ (r ∷ []))
unfolding decode_loop
decode_loop_ok fuel b bs out r used e = rw (e, decode_loop)

decode_loop_err :
    (fuel : ℕ) (b : ℕ) (bs : Bytes) (out : List MediaRecord) (x : ProtocolError)
    → decode (b ∷ bs) ≡ err x
    → decode_loop (suc fuel) (b ∷ bs) out ≡ failed x
unfolding decode_loop
decode_loop_err fuel b bs out x e = rw (e, decode_loop)

loop-encodings :
    (rs : List MediaRecord) (fuel : ℕ) (out : List MediaRecord)
    → All IsSendable rs
    → length (encodings rs) ≤ fuel
    → decode_loop fuel (encodings rs) out ≡ done (out ++ rs)
loop-encodings [] fuel out all h = rw append-nil (unfold decode_loop in refl)
loop-encodings (r ∷ rs) zero out all h = absurd (omega arith)
loop-encodings (r ∷ rs) (suc fuel) out ((t, small), all) h =
    decode_loop_ok fuel _ _ out r (encoded_len r) (decode-encoding r (encodings rs) t small)
    ∙ ap (λ (bs : Bytes). decode_loop fuel bs (out ++ (r ∷ []))) rest
    ∙ loop-encodings rs fuel (out ++ (r ∷ [])) all
        (omega (arith, length-append (encoding r) (encodings rs)))
    ∙ ap done (append_assoc out (r ∷ []) rs)
  where
    rest : drop (encoded_len r) (encoding r ++ encodings rs) ≡ encodings rs
    rest = unfold encoded_len in drop-append (encoding r) (encodings rs) _ (length-encoding r t)

-- A message within the size limit that concatenates the encodings of any records decodes to those
-- records, in order.
pub decode_all-encodings :
    (rs : List MediaRecord)
    → All IsSendable rs
    → length (encodings rs) ≤ max_message_bytes
    → decode_all (encodings rs) ≡ done rs
unfolding decode_all
decode_all-encodings rs all h = ground (arith, loop-encodings rs (length (encodings rs)) [] all)

-- The loop's two outcomes, and what each says.
abbrev pub Outcome : List MediaRecord → Bytes → Loop (List MediaRecord) → Type 0
Outcome out buf l =
    ((rs : List MediaRecord) × (l ≡ done (out ++ rs)) × (encodings rs ≡ buf) × All IsTyped rs)
    ⊎ ((e : ProtocolError) × (l ≡ failed e))

loop-Outcome :
    (fuel : ℕ) (buf : Bytes) (out : List MediaRecord)
    → All IsByte buf
    → length buf ≤ fuel
    → Outcome out buf (decode_loop fuel buf out)
loop-Outcome fuel [] out all h = inl ([], rw append-nil (unfold decode_loop in refl), refl, tt)
loop-Outcome zero (b ∷ bs) out all h = absurd (omega arith)
loop-Outcome (suc fuel) (b ∷ bs) out all h = elim (Result-cases (decode (b ∷ bs))) [
  | inr (x, e) ↦ inr (x, decode_loop_err fuel b bs out x e)
  | inl ((r, used), e) ↦
      let (t, hu, hl, he) = encode-decode (b ∷ bs) r used all e in
      step r used e t hu he (
        loop-Outcome fuel (drop used (b ∷ bs)) (out ++ (r ∷ [])) (All-drop IsByte used _ all)
          (shorter used r hu))
]
  where
    shorter :
        (used : ℕ) (r : MediaRecord) → used ≡ encoded_len r → length (drop used (b ∷ bs)) ≤ fuel
    shorter used r hu = unfold encoded_len in omega (arith, length-drop used (b ∷ bs))

    same_bytes :
        (r : MediaRecord) (used : ℕ)
        → encode r ≡ ok (take used (b ∷ bs))
        → encoding r ≡ take used (b ∷ bs)
    same_bytes r used he = unfold encode in ground arith

    step :
        (r : MediaRecord) (used : ℕ)
        → decode (b ∷ bs) ≡ ok (r, used)
        → IsTyped r
        → used ≡ encoded_len r
        → encode r ≡ ok (take used (b ∷ bs))
        → Outcome
            (out ++ (r ∷ []))
            (drop used (b ∷ bs))
            (decode_loop fuel (drop used (b ∷ bs)) (out ++ (r ∷ [])))
        → Outcome out (b ∷ bs) (decode_loop (suc fuel) (b ∷ bs) out)
    step r used e t hu he (inr (x, q)) = inr (x, decode_loop_ok fuel b bs out r used e ∙ q)
    step r used e t hu he (inl (rs, q, hb, ts)) = inl (
      r ∷ rs,
      decode_loop_ok fuel b bs out r used e ∙ q ∙ ap done (append_assoc out (r ∷ []) rs),
      rw hb (
          ap (λ (xs : Bytes). xs ++ drop used (b ∷ bs)) (same_bytes r used he)
          ∙ take-append-drop used (b ∷ bs)),
      (t, ts),
    )

-- On any buffer of bytes `decode_all` ends. It refuses a buffer above the limit as too large;
-- otherwise it returns an error, or records with the ranges of their Rust types whose
-- concatenated encodings are exactly the buffer.
pub decode_all_total :
    (buf : Bytes)
    → All IsByte buf
    → (max_message_bytes < length buf → decode_all buf ≡ failed (message_too_large (length buf)))
      × (length buf ≤ max_message_bytes → Outcome [] buf (decode_all buf))
unfolding decode_all
decode_all_total buf all =
    (λ h. ground arith, λ h. rw (within h) (loop-Outcome (length buf) buf [] all (omega arith)))
  where
    within : length buf ≤ max_message_bytes → ltb max_message_bytes (length buf) ≡ false
    within h = ground arith
