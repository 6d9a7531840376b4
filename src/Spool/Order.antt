-- ===== src/Spool/Order.antt =====
-- The order of the eviction query on the rows of `segments`, and the primary key.
use magick_sentinel.Prelude.{
  ℕ, zero, suc, ◌≡◌, refl, sym, Bool, true, false, ◌&&◌, ◌||◌, List, [], ◌∷◌, ltb, ◌==◌, ltb→lt,
  lt→ltb, take, drop, keep, any, All, All-keep, All-drop, Text, text_eq, text_lt, text_eq_iff,
  arith, Bool-cases, inl, inr,
}
use magick_sentinel.Protocol.{channel_as_u8}
use magick_sentinel.Spool.Schema.{
  SegmentRow, as_i64, before, same_key, insert_sorted, insert_segment,
}

text_lt_trans : (s t u : Text) → text_lt s t ≡ true → text_lt t u ≡ true → text_lt s u ≡ true
unfolding text_lt
text_lt_trans [] [] u h k = cc
text_lt_trans [] (b ∷ t) [] h k = cc
text_lt_trans [] (b ∷ t) (c ∷ u) h k = refl
text_lt_trans (a ∷ s) [] u h k = cc
text_lt_trans (a ∷ s) (b ∷ t) [] h k = cc
text_lt_trans (a ∷ s) (b ∷ t) (c ∷ u) h k = ground (arith, text_lt_trans s t u)

-- A lexicographic test: the first components are in order, or equal and the rest is in order.
lex_trans :
    (l1 l2 l3 e1 e2 e3 r1 r2 r3 : Bool)
    → (l1 ≡ true → l2 ≡ true → l3 ≡ true)
    → (l1 ≡ true → e2 ≡ true → l3 ≡ true)
    → (e1 ≡ true → l2 ≡ true → l3 ≡ true)
    → (e1 ≡ true → e2 ≡ true → e3 ≡ true)
    → (r1 ≡ true → r2 ≡ true → r3 ≡ true)
    → (l1 || e1 && r1) ≡ true
    → (l2 || e2 && r2) ≡ true
    → (l3 || e3 && r3) ≡ true
lex_trans true true l3 e1 e2 e3 r1 r2 r3 a b c d f h k = rw (a refl refl)
lex_trans true false l3 e1 true e3 r1 r2 r3 a b c d f h k = rw (b refl refl)
lex_trans true false l3 e1 false e3 r1 r2 r3 a b c d f h k = cc
lex_trans false true l3 true e2 e3 r1 r2 r3 a b c d f h k = rw (c refl refl)
lex_trans false true l3 false e2 e3 r1 r2 r3 a b c d f h k = cc
lex_trans false false true e1 e2 e3 r1 r2 r3 a b c d f h k = refl
lex_trans false false false true true e3 r1 r2 r3 a b c d f h k = rw (d refl refl, f h k)
lex_trans false false false true false e3 r1 r2 r3 a b c d f h k = cc
lex_trans false false false false e2 e3 r1 r2 r3 a b c d f h k = cc

text_lt_left : (s t u : Text) → text_eq s t ≡ true → text_lt t u ≡ true → text_lt s u ≡ true
text_lt_left s t u h k = rw ((text_eq_iff s t).0 h) k

text_lt_right : (s t u : Text) → text_lt s t ≡ true → text_eq t u ≡ true → text_lt s u ≡ true
text_lt_right s t u h k = rw (sym ((text_eq_iff t u).0 k)) h

text_eq_trans : (s t u : Text) → text_eq s t ≡ true → text_eq t u ≡ true → text_eq s u ≡ true
text_eq_trans s t u h k = rw ((text_eq_iff s t).0 h) k

num_lex_trans :
    (a b c : ℕ) (r1 r2 r3 : Bool)
    → (r1 ≡ true → r2 ≡ true → r3 ≡ true)
    → (ltb a b || (a == b) && r1) ≡ true
    → (ltb b c || (b == c) && r2) ≡ true
    → (ltb a c || (a == c) && r3) ≡ true
num_lex_trans a b c r1 r2 r3 f =
    lex_trans (ltb a b) (ltb b c) (ltb a c) (a == b) (b == c) (a == c) r1 r2 r3
      (λ h k. ground arith) (λ h k. ground arith) (λ h k. ground arith) (λ h k. ground arith) f

text_lex_trans :
    (s t u : Text) (r1 r2 r3 : Bool)
    → (r1 ≡ true → r2 ≡ true → r3 ≡ true)
    → (text_lt s t || text_eq s t && r1) ≡ true
    → (text_lt t u || text_eq t u && r2) ≡ true
    → (text_lt s u || text_eq s u && r3) ≡ true
text_lex_trans s t u r1 r2 r3 f =
    lex_trans (text_lt s t) (text_lt t u) (text_lt s u) (text_eq s t) (text_eq t u) (text_eq s u) r1
      r2 r3 (text_lt_trans s t u) (text_lt_right s t u) (text_lt_left s t u) (text_eq_trans s t u) f

-- The last two components of the order, and the last three.
abbrev by_seq : SegmentRow → SegmentRow → Bool
by_seq x y =
    ltb (channel_as_u8 x.channel) (channel_as_u8 y.channel)
    || (channel_as_u8 x.channel == channel_as_u8 y.channel) && ltb x.seq y.seq

abbrev by_call : SegmentRow → SegmentRow → Bool
by_call x y = text_lt x.call_id y.call_id || text_eq x.call_id y.call_id && by_seq x y

by_seq_trans : (x y z : SegmentRow) → by_seq x y ≡ true → by_seq y z ≡ true → by_seq x z ≡ true
by_seq_trans x y z =
    num_lex_trans (channel_as_u8 x.channel) (channel_as_u8 y.channel) (channel_as_u8 z.channel) _ _
      _ (λ h k. lt→ltb _ _ (omega (arith, ltb→lt _ _ h, ltb→lt _ _ k)))

before_trans : (x y z : SegmentRow) → before x y ≡ true → before y z ≡ true → before x z ≡ true
unfolding before
before_trans x y z =
    num_lex_trans (as_i64 x.created_ms) (as_i64 y.created_ms) (as_i64 z.created_ms) (by_call x y)
      (by_call y z) (by_call x z)
      (text_lex_trans x.call_id y.call_id z.call_id (by_seq x y) (by_seq y z) (by_seq x z)
        (by_seq_trans x y z))

text_lt_irrefl : (s : Text) → text_lt s s ≡ false
unfolding text_lt
text_lt_irrefl [] = refl
text_lt_irrefl (a ∷ s) = ground (arith, text_lt_irrefl s)

before_irrefl : (x : SegmentRow) → before x x ≡ false
unfolding before
before_irrefl x = ground (arith, text_lt_irrefl x.call_id)

before_asym : (x y : SegmentRow) → before x y ≡ true → before y x ≡ false
before_asym x y h = elim (Bool-cases (before y x)) [
  | inr b ↦ b
  | inl b ↦ cc (before_trans x y x h b, before_irrefl x)
]

-- No row stands before one that the order puts first.
abbrev pub IsSorted : List SegmentRow → Type 0
IsSorted [] = Unit {0}
IsSorted (x ∷ xs) = All (λ y. before y x ≡ false) xs × IsSorted xs

before-All :
    (x y : SegmentRow) (zs : List SegmentRow)
    → before x y ≡ true
    → All (λ z. before z y ≡ false) zs
    → All (λ z. before z x ≡ false) zs
before-All x y [] h all = tt
before-All x y (z ∷ zs) h (a, all) = (
  elim (Bool-cases (before z x)) [ inl b ↦ cc (before_trans z x y b h) | inr b ↦ b ],
  before-All x y zs h all,
)

insert-All :
    (p : SegmentRow → Type 0) (x : SegmentRow) (ys : List SegmentRow)
    → p x
    → All p ys
    → All p (insert_sorted x ys)
unfolding insert_sorted
insert-All p x [] h all = (h, tt)
insert-All p x (y ∷ ys) h (a, all) = elim (Bool-cases (before x y)) [
  | inl b ↦ rw (b, insert_sorted) (h, (a, all))
  | inr b ↦ rw (b, insert_sorted) (a, insert-All p x ys h all)
]

insert_sorted-IsSorted :
    (x : SegmentRow) (ys : List SegmentRow) → IsSorted ys → IsSorted (insert_sorted x ys)
unfolding insert_sorted
insert_sorted-IsSorted x [] h = (tt, tt)
insert_sorted-IsSorted x (y ∷ ys) (a, h) = elim (Bool-cases (before x y)) [
  | inl b ↦ rw (b, insert_sorted) ((before_asym x y b, before-All x y ys b a), (a, h))
  | inr b ↦ rw (b, insert_sorted) (insert-All _ x ys b a, insert_sorted-IsSorted x ys h)
]

-- Each primary key stands once.
abbrev pub IsKeyed : List SegmentRow → Type 0
IsKeyed [] = Unit {0}
IsKeyed (x ∷ xs) = All (λ y. same_key x y ≡ false) xs × IsKeyed xs

text_eq_sym : (s t : Text) → text_eq s t ≡ text_eq t s
text_eq_sym s t = ground (arith, text_eq_iff s t, text_eq_iff t s)

same_key_sym : (x y : SegmentRow) → same_key x y ≡ same_key y x
same_key_sym x y = ground (arith, text_eq_sym x.call_id y.call_id)

not_any :
    (x : SegmentRow) (ys : List SegmentRow)
    → any (λ y. same_key x y) ys ≡ false
    → All (λ y. same_key x y ≡ false) ys
not_any x [] h = tt
not_any x (y ∷ ys) h = (ground arith, not_any x ys (ground arith))

insert_sorted-IsKeyed :
    (x : SegmentRow) (ys : List SegmentRow)
    → All (λ y. same_key x y ≡ false) ys
    → IsKeyed ys
    → IsKeyed (insert_sorted x ys)
unfolding insert_sorted
insert_sorted-IsKeyed x [] new h = (tt, tt)
insert_sorted-IsKeyed x (y ∷ ys) (n, new) (a, h) = elim (Bool-cases (before x y)) [
  | inl b ↦ rw (b, insert_sorted) ((n, new), (a, h))
  | inr b ↦
      rw (b, insert_sorted)
        (insert-All _ x ys (rw same_key_sym n) a, insert_sorted-IsKeyed x ys new h)
]

-- What holds of the rows of `segments` at all times.
pub record IsTable (rows : List SegmentRow) : Type 0 where
  pub is_sorted : IsSorted rows
  pub is_keyed : IsKeyed rows

pub insert_segment-IsTable :
    (x : SegmentRow) (rows : List SegmentRow) → IsTable rows → IsTable (insert_segment x rows)
unfolding insert_segment
insert_segment-IsTable x rows t = elim (Bool-cases (any (λ y. same_key x y) rows)) [
  | inl e ↦ rw e t
  | inr e ↦ rw e (record {
    is_sorted = insert_sorted-IsSorted x rows t.is_sorted;
    is_keyed = insert_sorted-IsKeyed x rows (not_any x rows e) t.is_keyed;
  })
]

keep-IsSorted : (p : SegmentRow → Bool) (xs : List SegmentRow) → IsSorted xs → IsSorted (keep p xs)
keep-IsSorted p [] h = tt
keep-IsSorted p (x ∷ xs) (a, h) = elim (Bool-cases (p x)) [
  | inl e ↦ rw e (All-keep _ p xs a, keep-IsSorted p xs h)
  | inr e ↦ rw e (keep-IsSorted p xs h)
]

keep-IsKeyed : (p : SegmentRow → Bool) (xs : List SegmentRow) → IsKeyed xs → IsKeyed (keep p xs)
keep-IsKeyed p [] h = tt
keep-IsKeyed p (x ∷ xs) (a, h) = elim (Bool-cases (p x)) [
  | inl e ↦ rw e (All-keep _ p xs a, keep-IsKeyed p xs h)
  | inr e ↦ rw e (keep-IsKeyed p xs h)
]

pub keep-IsTable :
    (p : SegmentRow → Bool) (rows : List SegmentRow) → IsTable rows → IsTable (keep p rows)
keep-IsTable p rows t = record {
  is_sorted = keep-IsSorted p rows t.is_sorted;
  is_keyed = keep-IsKeyed p rows t.is_keyed;
}

drop-IsSorted : (n : ℕ) (xs : List SegmentRow) → IsSorted xs → IsSorted (drop n xs)
drop-IsSorted zero xs h = h
drop-IsSorted (suc n) [] h = tt
drop-IsSorted (suc n) (x ∷ xs) (a, h) = drop-IsSorted n xs h

drop-IsKeyed : (n : ℕ) (xs : List SegmentRow) → IsKeyed xs → IsKeyed (drop n xs)
drop-IsKeyed zero xs h = h
drop-IsKeyed (suc n) [] h = tt
drop-IsKeyed (suc n) (x ∷ xs) (a, h) = drop-IsKeyed n xs h

pub drop-IsTable : (n : ℕ) (rows : List SegmentRow) → IsTable rows → IsTable (drop n rows)
drop-IsTable n rows t = record {
  is_sorted = drop-IsSorted n rows t.is_sorted;
  is_keyed = drop-IsKeyed n rows t.is_keyed;
}

-- Every row taken from the front is one that no row left behind it stands before.
pub oldest_first :
    (n : ℕ) (xs : List SegmentRow)
    → IsSorted xs
    → All (λ gone. All (λ left. before left gone ≡ false) (drop n xs)) (take n xs)
oldest_first zero xs h = tt
oldest_first (suc n) [] h = tt
oldest_first (suc n) (x ∷ xs) (a, h) = (All-drop _ n xs a, oldest_first n xs h)
