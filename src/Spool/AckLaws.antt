-- ===== src/Spool/AckLaws.antt =====
-- What an acknowledgement changes.
use magick_sentinel.Prelude.{
  ℕ, ◌+◌, ◌-◌, ◌≤◌, max, ◌≡◌, refl, ap, Bool, true, false, not, ◌&&◌, Option, none, some, or_else,
  List, [], ◌∷◌, ◌==◌, if◌then◌else◌, length, keep, length-keep, Text, text_eq, text_eq_iff, arith,
  Bool-cases, inl, inr,
}
use magick_sentinel.Protocol.{Channel, channel_as_u8}
use magick_sentinel.Spool.Schema.{Spool, SegmentRow, AckRow}
use magick_sentinel.Spool.Uploads.{find_ack}
use magick_sentinel.Spool.Upkeep.{upsert_ack, ack, acked_through, covered}

abbrev pub same_channel : Text → Channel → Text → Channel → Bool
same_channel id ch id' ch' = text_eq id id' && channel_as_u8 ch == channel_as_u8 ch'

-- The watermark after an acknowledgement: the larger of the old one and the new.
abbrev pub raised : Option ℕ → ℕ → ℕ
raised none through = through
raised (some old) through = max old through

find_ack-upsert_ack :
    (id id' : Text) (ch ch' : Channel) (through : ℕ) (acks : List AckRow)
    → find_ack id' ch' (upsert_ack id ch through acks) ≡ (
        if same_channel id ch id' ch'
        then some (raised (find_ack id ch acks) through)
        else find_ack id' ch' acks)
unfolding find_ack upsert_ack
find_ack-upsert_ack id id' ch ch' through [] = refl
find_ack-upsert_ack id id' ch ch' through (a ∷ rest) = ground (
  arith,
  text_eq_iff id id',
  text_eq_iff a.call_id id,
  text_eq_iff a.call_id id',
  find_ack-upsert_ack id id' ch ch' through rest,
)

text_eq_self : (s : Text) → text_eq s s ≡ true
text_eq_self s = (text_eq_iff s s).1 refl

-- The row is one that an acknowledgement through `through` allows to be deleted.
abbrev pub left_by : Text → Channel → ℕ → List SegmentRow → List SegmentRow
left_by id ch through rows = keep (λ r. not (covered id ch through r)) rows

found_after :
    (s : Spool) (id : Text) (ch : Channel) (through : ℕ)
    → find_ack id ch (upsert_ack id ch through s.acks)
      ≡ some (raised (find_ack id ch s.acks) through)
found_after s id ch through =
    ground (arith, find_ack-upsert_ack id id ch ch through s.acks, text_eq_self id)

-- An acknowledgement moves the watermark of its call and channel to the larger of the old one and
-- the new, never back, and leaves every other watermark. It deletes exactly the segments of that
-- call and channel up to the new watermark, and returns their number; calls stay.
pub ack_effect :
    (s : Spool) (id id' : Text) (ch ch' : Channel) (through : ℕ)
    → let (s', deleted) = ack s id ch through in
      let w = raised (acked_through s id ch) through in
      (acked_through s' id ch ≡ some w)
      × (same_channel id ch id' ch' ≡ false → acked_through s' id' ch' ≡ acked_through s id' ch')
      × (s'.segments ≡ left_by id ch w s.segments)
      × (deleted + length s'.segments ≡ length s.segments)
      × (s'.calls ≡ s.calls)
unfolding ack acked_through
ack_effect s id id' ch ch' through = (
  found_after s id ch through,
  λ h. ground (arith, find_ack-upsert_ack id id' ch ch' through s.acks),
  rw (found_after s id ch through),
  omega (
    arith,
    length-keep
        (λ r. not (covered id ch (or_else (find_ack id ch (upsert_ack id ch through s.acks)) 0) r))
        s.segments,
  ),
  refl,
)

upsert_ack_stale :
    (id : Text) (ch : Channel) (through stale : ℕ) (acks : List AckRow)
    → stale ≤ through
    → upsert_ack id ch stale (upsert_ack id ch through acks) ≡ upsert_ack id ch through acks
unfolding upsert_ack
upsert_ack_stale id ch through stale [] h = ground (arith, text_eq_self id)
upsert_ack_stale id ch through stale (a ∷ rest) h =
    ground (arith, upsert_ack_stale id ch through stale rest h)

keep_again {ℓ} : {A : Type ℓ} (p : A → Bool) (xs : List A) → keep p (keep p xs) ≡ keep p xs
keep_again p [] = refl
keep_again p (x ∷ xs) = elim (Bool-cases (p x)) [
  | inl e ↦ rw e (rw e (ap (◌∷◌ x) (keep_again p xs)))
  | inr e ↦ rw e (keep_again p xs)
]

sub_self : (n : ℕ) → n - n ≡ 0
sub_self n = omega arith

-- A stale acknowledgement that arrives after a later one, or one that is repeated, changes
-- nothing and deletes nothing.
pub ack_stale :
    (s : Spool) (id : Text) (ch : Channel) (through stale : ℕ)
    → stale ≤ through
    → ack (ack s id ch through).0 id ch stale ≡ ((ack s id ch through).0, 0)
unfolding ack
ack_stale s id ch through stale h =
    let p = λ (r : SegmentRow).
      not (covered id ch (or_else (find_ack id ch (upsert_ack id ch through s.acks)) 0) r) in
    rw (upsert_ack_stale id ch through stale s.acks h, keep_again p s.segments)
      (ap
        (λ (n : ℕ).
          (record s { acks = upsert_ack id ch through s.acks; segments = keep p s.segments }, n))
        (sub_self (length (keep p s.segments))))
