-- ===== src/Spool/PendingLaws.antt =====
-- What `take_pending` returns.
use magick_sentinel.Prelude.{
  ℕ, ◌<◌, ◌≤◌, ◌≡◌, refl, ◌∙◌, Bool, true, false, Option, none, some, List, [], ◌∷◌, take, keep,
  All, All-take, Text, text_eq, text_eq_iff, arith, Bool-cases, inl, inr,
}
use mathlib.Core.Path.{ap₂}
use mathlib.Core.List.{Perm}
use mathlib.Core.List.Perm
use magick_sentinel.Protocol.{Channel}
use magick_sentinel.Spool.Schema.{Spool, SegmentRow, AckRow}
use magick_sentinel.Spool.Uploads.{
  in_order, insert_in_order, sort_in_order, find_ack, is_pending, take_pending,
}
use magick_sentinel.Spool.Upkeep.{ack, acked_through}
use magick_sentinel.Spool.AckLaws.{ack_effect, raised}

insert-perm : (x : SegmentRow) (ys : List SegmentRow) → Perm (insert_in_order x ys) (x ∷ ys)
unfolding insert_in_order
insert-perm x [] = Perm.refl (x ∷ [])
insert-perm x (y ∷ ys) = elim (Bool-cases (in_order x y)) [
  | inl e ↦ rw (e, insert_in_order) (Perm.refl (x ∷ y ∷ ys))
  | inr e ↦ rw (e, insert_in_order) (Perm.trans (Perm.cons y (insert-perm x ys)) (Perm.swap x y ys))
]

sort-perm : (xs : List SegmentRow) → Perm (sort_in_order xs) xs
unfolding sort_in_order
sort-perm [] = Perm.refl []
sort-perm (x ∷ xs) = Perm.trans (insert-perm x (sort_in_order xs)) (Perm.cons x (sort-perm xs))

-- Ascending in (channel, seq).
abbrev pub IsInOrder : List SegmentRow → Type 0
IsInOrder [] = Unit {0}
IsInOrder (x ∷ xs) = All (λ y. in_order x y ≡ true) xs × IsInOrder xs

in_order_trans :
    (x y z : SegmentRow) → in_order x y ≡ true → in_order y z ≡ true → in_order x z ≡ true
unfolding in_order
in_order_trans x y z h k = ground arith

in_order_total : (x y : SegmentRow) → in_order x y ≡ false → in_order y x ≡ true
unfolding in_order
in_order_total x y h = ground arith

in_order-All :
    (x y : SegmentRow) (zs : List SegmentRow)
    → in_order x y ≡ true
    → All (λ z. in_order y z ≡ true) zs
    → All (λ z. in_order x z ≡ true) zs
in_order-All x y [] h all = tt
in_order-All x y (z ∷ zs) h (a, all) = (in_order_trans x y z h a, in_order-All x y zs h all)

insert-All :
    (p : SegmentRow → Type 0) (x : SegmentRow) (ys : List SegmentRow)
    → p x
    → All p ys
    → All p (insert_in_order x ys)
unfolding insert_in_order
insert-All p x [] h all = (h, tt)
insert-All p x (y ∷ ys) h (a, all) = elim (Bool-cases (in_order x y)) [
  | inl b ↦ rw (b, insert_in_order) (h, (a, all))
  | inr b ↦ rw (b, insert_in_order) (a, insert-All p x ys h all)
]

insert-IsInOrder :
    (x : SegmentRow) (ys : List SegmentRow) → IsInOrder ys → IsInOrder (insert_in_order x ys)
unfolding insert_in_order
insert-IsInOrder x [] h = (tt, tt)
insert-IsInOrder x (y ∷ ys) (a, h) = elim (Bool-cases (in_order x y)) [
  | inl b ↦ rw (b, insert_in_order) ((b, in_order-All x y ys b a), (a, h))
  | inr b ↦
      rw (b, insert_in_order) (insert-All _ x ys (in_order_total x y b) a, insert-IsInOrder x ys h)
]

sort-IsInOrder : (xs : List SegmentRow) → IsInOrder (sort_in_order xs)
unfolding sort_in_order
sort-IsInOrder [] = tt
sort-IsInOrder (x ∷ xs) = insert-IsInOrder x (sort_in_order xs) (sort-IsInOrder xs)

sort-All : (p : SegmentRow → Type 0) (xs : List SegmentRow) → All p xs → All p (sort_in_order xs)
unfolding sort_in_order
sort-All p [] h = tt
sort-All p (x ∷ xs) (a, h) = insert-All p x (sort_in_order xs) a (sort-All p xs h)

keep_passes : (p : SegmentRow → Bool) (xs : List SegmentRow) → All (λ r. p r ≡ true) (keep p xs)
keep_passes p [] = tt
keep_passes p (x ∷ xs) = elim (Bool-cases (p x)) [
  | inl e ↦ rw e (e, keep_passes p xs)
  | inr e ↦ rw e (keep_passes p xs)
]

-- The upload list is the front, up to the limit, of all rows of the call that lie beyond the
-- watermark of their channel, each as often as the table holds it, in the order of channel and
-- number.
pub take_pending_front :
    (s : Spool) (id : Text) (limit : ℕ)
    → (rows : List SegmentRow) × (take_pending s id limit ≡ take limit rows)
      × Perm rows (keep (is_pending s.acks id) s.segments)
      × IsInOrder rows
      × All (λ r. is_pending s.acks id r ≡ true) (take_pending s id limit)
unfolding take_pending
take_pending_front s id limit =
    let p = is_pending s.acks id in
    let pending = keep p s.segments in
    (
      sort_in_order pending,
      refl,
      sort-perm pending,
      sort-IsInOrder pending,
      All-take _ limit (sort_in_order pending) (sort-All _ pending (keep_passes p s.segments)),
    )

pending_beyond :
    (acks : List AckRow) (id : Text) (w : ℕ) (r : SegmentRow) (ch : Channel)
    → find_ack id ch acks ≡ some w
    → is_pending acks id r ≡ true
    → r.channel ≡ ch
    → w < r.seq
unfolding is_pending
pending_beyond acks id w r ch h e q = elim (Bool-cases (text_eq r.call_id id)) [
  | inl t ↦
      let same : r.call_id ≡ id = (text_eq_iff r.call_id id).0 t in
      let found : find_ack r.call_id r.channel acks ≡ some w =
        ap₂ (λ (a : Text) (b : Channel). find_ack a b acks) same q ∙ h in
      ground arith
  | inr t ↦ cc
]

raised-le : (o : Option ℕ) (through : ℕ) → through ≤ raised o through
raised-le none through = omega arith
raised-le (some old) through = omega arith

All-map :
    (p q : SegmentRow → Type 0) (xs : List SegmentRow)
    → ((r : SegmentRow) → p r → q r)
    → All p xs
    → All q xs
All-map p q [] f h = tt
All-map p q (x ∷ xs) f (a, h) = (f x a, All-map p q xs f h)

-- What has been acknowledged is never offered for upload again: after an acknowledgement through
-- `through`, every row that `take_pending` returns for that call and channel has a larger number.
pub take_pending_after_ack :
    (s : Spool) (id : Text) (ch : Channel) (through limit : ℕ)
    → All (λ r. r.channel ≡ ch → through < r.seq) (take_pending (ack s id ch through).0 id limit)
take_pending_after_ack s id ch through limit =
    let s' = (ack s id ch through).0 in
    let front = take_pending_front s' id limit in
    let w : find_ack id ch s'.acks ≡ some (raised (acked_through s id ch) through) =
      unfold acked_through in (ack_effect s id id ch ch through).0 in
    All-map (λ r. is_pending s'.acks id r ≡ true) (λ r. r.channel ≡ ch → through < r.seq)
      (take_pending s' id limit)
      (λ r e q. omega (
        arith,
        pending_beyond s'.acks id (raised (acked_through s id ch) through) r ch w e q,
        raised-le (acked_through s id ch) through,
      ))
      front.4
