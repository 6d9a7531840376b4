-- ===== src/Der/Lengths.antt =====
-- A reader of tags and lengths finds what client/sentinel-service/src/der.rs writes.
use magick_sentinel.Prelude.{
  ℕ, zero, suc, ◌+◌, ◌-◌, ◌*◌, ◌/◌, ◌%◌, ◌^◌, ◌<◌, ◌≡◌, ◌≢◌, refl, sym, ◌∙◌, ap, Option, none, some,
  List, [], ◌∷◌, ◌++◌, append_assoc, length, take, drop, take-append, drop-append, length-append,
  ltb, if◌then◌else◌, false, Bytes, All, arith, Bool-cases, Option-cases, inl, inr, u64_mod,
  or_else,
}
use native.Mathlib.Nat.{pow-suc}
use magick_sentinel.Der.{be_bytes, first_nonzero, write_len, tlv}
use magick_sentinel.Der.Reading.{be_value}

-- Read `k` bytes as a number, highest first: `sofar` is what the bytes before them say.
unfoldable pub read_be : ℕ → ℕ → Bytes → Option (ℕ × Bytes)
read_be sofar zero bs = some (sofar, bs)
read_be sofar (suc k) [] = none
read_be sofar (suc k) (b ∷ bs) = read_be (sofar * 256 + b) k bs

-- A length, by the rule of X.690 8.1.3.
unfoldable pub read_len : Bytes → Option (ℕ × Bytes)
unfolding read_be
read_len [] = none
read_len (b ∷ bs) = if ltb b 128 then some (b, bs) else read_be 0 (b - 128) bs

abbrev pub split_off : ℕ → Option (ℕ × Bytes) → Option (ℕ × Bytes × Bytes)
split_off tag none = none
split_off tag (some (n, bs)) = some (tag, take n bs, drop n bs)

-- One element: its tag, its body and what follows.
unfoldable pub read_tlv : Bytes → Option (ℕ × Bytes × Bytes)
unfolding read_len
read_tlv [] = none
read_tlv (tag ∷ bs) = split_off tag (read_len bs)

read_be-be_value :
    (sofar : ℕ) (s rest : Bytes)
    → read_be sofar (length s) (s ++ rest) ≡ some (sofar * 256 ^ length s + be_value s, rest)
unfolding read_be
read_be-be_value sofar [] rest = ap (λ x. some (x, rest)) (omega arith)
read_be-be_value sofar (b ∷ s) rest =
    read_be-be_value (sofar * 256 + b) s rest
    ∙ ap (λ x. some (x, rest)) (shift (256 ^ length s) (pow-suc 256 (length s)))
  where
    shift :
        (p : ℕ)
        → 256 ^ suc (length s) ≡ p * 256
        → (sofar * 256 + b) * p + be_value s ≡ sofar * 256 ^ suc (length s) + (b * p + be_value s)
    shift p e = rw e (omega arith)

be_value-be_bytes :
    (k x : ℕ) (more : Bytes)
    → x < 256 ^ k
    → be_value (be_bytes k x more) ≡ x * 256 ^ length more + be_value more
unfolding be_bytes
be_value-be_bytes zero x more h = let e : x ≡ 0 = omega arith in rw e (omega arith)
be_value-be_bytes (suc k) x more h =
    be_value-be_bytes k (x / 256) ((x % 256) ∷ more) (omega (arith, pow-suc 256 k))
    ∙ joined (256 ^ length more) (256 ^ suc (length more)) (pow-suc 256 (length more))
  where
    joined :
        (p q : ℕ)
        → q ≡ p * 256
        → (x / 256) * q + ((x % 256) * p + be_value more) ≡ x * p + be_value more
    joined p q e =
        let whole : (x / 256) * 256 + x % 256 ≡ x = omega arith in
        rw e (omega (arith, ap (λ (t : ℕ). t * p) whole))

length-be_bytes : (k x : ℕ) (more : Bytes) → length (be_bytes k x more) ≡ k + length more
unfolding be_bytes
length-be_bytes zero x more = omega arith
length-be_bytes (suc k) x more = length-be_bytes k (x / 256) ((x % 256) ∷ more) ∙ omega arith

first_nonzero-zero :
    (bs : Bytes) (r : Option ℕ)
    → first_nonzero bs ≡ r
    → first_nonzero (zero ∷ bs) ≡ elim r [ none ↦ none | some i ↦ some (i + 1) ]
unfolding first_nonzero
first_nonzero-zero bs r e = rw e refl

first_nonzero-suc : (b : ℕ) (bs : Bytes) → first_nonzero (suc b ∷ bs) ≡ some 0
unfolding first_nonzero
first_nonzero-suc b bs = ground arith

first_nonzero-none : (bs : Bytes) → first_nonzero bs ≡ none → be_value bs ≡ 0
first_nonzero-none [] e = refl
first_nonzero-none (zero ∷ bs) e = elim (Option-cases (first_nonzero bs)) [
  | inl k ↦ omega (arith, first_nonzero-none bs k)
  | inr (i, k) ↦ cc (e, first_nonzero-zero bs (some i) k)
]
first_nonzero-none (suc b ∷ bs) e = cc (e, first_nonzero-suc b bs)

nil_none : (i : ℕ) → first_nonzero [] ≢ some i
unfolding first_nonzero
nil_none i e = cc e

some_injective : {i j : ℕ} → some i ≡ some j → i ≡ j
some_injective e = cc e

first_nonzero-some :
    (bs : Bytes) (i : ℕ)
    → first_nonzero bs ≡ some i
    → (be_value (drop i bs) ≡ be_value bs) × (i < length bs)
first_nonzero-some [] i e = absurd (nil_none i e)
first_nonzero-some (zero ∷ bs) i e = elim (Option-cases (first_nonzero bs)) [
  | inl k ↦ cc (e, first_nonzero-zero bs none k)
  | inr (j, k) ↦
      let (same, below) = first_nonzero-some bs j k in
      let next : suc j ≡ i =
        some_injective (ap some (omega arith) ∙ sym (first_nonzero-zero bs (some j) k) ∙ e) in
      rw (← next) (same ∙ omega arith, omega (arith, below))
]
first_nonzero-some (suc b ∷ bs) i e =
    let start : 0 ≡ i = some_injective (sym (first_nonzero-suc b bs) ∙ e) in
    rw (← start) (refl, omega arith)

read_len_long :
    (s rest : Bytes) → read_len ((128 + length s) ∷ (s ++ rest)) ≡ some (be_value s, rest)
unfolding read_len
read_len_long s rest =
    let long : ltb (128 + length s) 128 ≡ false = ground arith in
    let size : 128 + length s - 128 ≡ length s = omega arith in
    rw (long, size) (read_be-be_value 0 s rest ∙ ap (λ x. some (x, rest)) (omega arith))

significant_value :
    (bytes : Bytes) (r : Option ℕ)
    → first_nonzero bytes ≡ r
    → 0 < be_value bytes
    → be_value (drop (or_else r (length bytes - 1)) bytes) ≡ be_value bytes
significant_value bytes none e h = absurd (omega (arith, first_nonzero-none bytes e, h))
significant_value bytes (some i) e h = (first_nonzero-some bytes i e).0

read_len-write_len :
    (n : ℕ) (rest : Bytes) → n < u64_mod → read_len (write_len n ++ rest) ≡ some (n, rest)
unfolding write_len read_len
read_len-write_len n rest h = elim (Bool-cases (ltb n 0x80)) [
  | inl e ↦ rw (e, e) refl
  | inr e ↦
      let bytes : Bytes = be_bytes 8 n [] in
      let value : be_value bytes ≡ n = be_value-be_bytes 8 n [] h ∙ omega arith in
      let first = first_nonzero bytes in
      let above : 0 < be_value bytes = rw value (ground (arith, e)) in
      let same = significant_value bytes first refl above in
      rw e (
        read_len_long (drop (or_else first (length bytes - 1)) bytes) rest
        ∙ ap (λ (x : ℕ). some (x, rest)) (same ∙ value))
]

-- One element that is written is read back whole, with what follows it, if its body is shorter than
-- 2 ^ 64 bytes.
pub read_tlv-tlv :
    (tag : ℕ) (body rest : Bytes)
    → length body < u64_mod
    → read_tlv (tlv tag body ++ rest) ≡ some (tag, body, rest)
unfolding read_tlv tlv
read_tlv-tlv tag body rest h =
    rw
      (
        append_assoc (write_len (length body)) body rest,
        read_len-write_len (length body) (body ++ rest) h,
      )
      (λ i. some (
        tag,
        take-append body rest (length body) refl i,
        drop-append body rest (length body) refl i,
      ))

-- Elements one after the other.
abbrev pub written : List (ℕ × Bytes) → Bytes
written [] = []
written ((tag, body) ∷ ms) = tlv tag body ++ written ms

abbrev pub then_elements :
    (Bytes → Option (List (ℕ × Bytes))) → Option (ℕ × Bytes × Bytes) → Option (List (ℕ × Bytes))
then_elements next none = none
then_elements next (some (tag, body, rest)) = elim (next rest) [
  | none ↦ none
  | some ms ↦ some ((tag, body) ∷ ms)
]

-- Read `n` elements with nothing left over.
unfoldable pub elements : ℕ → Bytes → Option (List (ℕ × Bytes))
unfolding read_tlv
elements zero [] = some []
elements zero (b ∷ bs) = none
elements (suc n) bs = then_elements (elements n) (read_tlv bs)

-- Elements whose bodies are shorter than 2 ^ 64 bytes are read back.
pub elements-written :
    (ms : List (ℕ × Bytes))
    → All (λ m. length m.1 < u64_mod) ms
    → elements (length ms) (written ms) ≡ some ms
unfolding elements
elements-written [] h = refl
elements-written ((tag, body) ∷ ms) (short, h) =
    rw (read_tlv-tlv tag body (written ms) short) (rw (elements-written ms h) refl)

length-tlv : (tag : ℕ) (body : Bytes) → length body < length (tlv tag body)
unfolding tlv
length-tlv tag body = omega (arith, length-append (write_len (length body)) body)

-- The bodies are shorter than what is written.
pub written-shorter :
    (ms : List (ℕ × Bytes)) (n : ℕ) → length (written ms) < n → All (λ m. length m.1 < n) ms
written-shorter [] n h = tt
written-shorter ((tag, body) ∷ ms) n h =
    let sum = length-append (tlv tag body) (written ms) in
    (omega (arith, sum, length-tlv tag body), written-shorter ms n (omega (arith, sum)))
