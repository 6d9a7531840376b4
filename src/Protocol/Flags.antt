-- ===== src/Protocol/Flags.antt =====
-- The flags byte and the channel byte of a media record, checked over all 256 values.
use magick_sentinel.Prelude.{
  ℕ, zero, suc, ◌+◌, ◌<◌, bit_and, ◌≡◌, refl, Bool, true, false, not, ◌==◌, leb, ltb, if◌then◌else◌,
  arith, ◌⊎◌, inl, inr,
}
use magick_sentinel.Protocol.{
  Channel, far, near, MediaFlags, ok, channel_as_u8, channel_from_u8, flags_to_bits,
  flags_from_bits,
}

-- Whether a test passes at `n` and at every number below.
up_to : (ℕ → Bool) → ℕ → Bool
up_to test zero = test zero
up_to test (suc n) = if test (suc n) then up_to test n else false

up_to-passes : (test : ℕ → Bool) (n b : ℕ) → up_to test n ≡ true → b < n + 1 → test b ≡ true
unfolding up_to
up_to-passes test zero zero e h = e
up_to-passes test zero (suc b) e h = absurd (omega arith)
up_to-passes test (suc n) b e h = elim (same_or_below b n h) [
  | inl same ↦ rw same (ground arith)
  | inr below ↦ up_to-passes test n b (ground arith) below
]
  where
    same_or_below : (b n : ℕ) → b < suc n + 1 → (b ≡ suc n) ⊎ (b < n + 1)
    same_or_below b n h = ground arith

reserved_test : ℕ → Bool
reserved_test b = if leb 4 b then not (bit_and b 0xfc == 0) else bit_and b 0xfc == 0

reserved_table : up_to reserved_test 255 ≡ true
unfolding up_to reserved_test
reserved_table = refl

-- The reserved bits of a byte are all clear exactly when it is below 4.
pub reserved_bits : (b : ℕ) → b < 256 → (bit_and b 0xfc == 0) ≡ ltb b 4
unfolding reserved_test
reserved_bits b h = ground (arith, up_to-passes reserved_test 255 b reserved_table h)

pub from_bits-to_bits : (f : MediaFlags) → flags_from_bits (flags_to_bits f) ≡ ok f
unfolding flags_from_bits flags_to_bits
from_bits-to_bits f = by_cases f.foreign f.silence_inserted
  where
    by_cases :
        (a b : Bool)
        → flags_from_bits (flags_to_bits (record { foreign = a; silence_inserted = b }))
          ≡ ok (record { foreign = a; silence_inserted = b })
    by_cases true true = refl
    by_cases true false = refl
    by_cases false true = refl
    by_cases false false = refl

small_bits : (b : ℕ) (f : MediaFlags) → b < 4 → flags_from_bits b ≡ ok f → flags_to_bits f ≡ b
unfolding flags_from_bits flags_to_bits
small_bits zero f h e = ground arith
small_bits (suc zero) f h e = ground arith
small_bits (suc (suc zero)) f h e = ground arith
small_bits (suc (suc (suc zero))) f h e = ground arith
small_bits (suc (suc (suc (suc b)))) f h e = absurd (omega arith)

pub to_bits-from_bits :
    (b : ℕ) (f : MediaFlags) → b < 256 → flags_from_bits b ≡ ok f → flags_to_bits f ≡ b
to_bits-from_bits b f h e = elim (Lt4 b h e) [ inl lt ↦ small_bits b f lt e | inr x ↦ absurd x ]
  where
    Lt4 : (b : ℕ) → b < 256 → flags_from_bits b ≡ ok f → (b < 4) ⊎ ⊥
    Lt4 b h e = unfold flags_from_bits in ground (arith, reserved_bits b h)

pub to_bits-lt : (f : MediaFlags) → flags_to_bits f < 256
unfolding flags_to_bits
to_bits-lt f = by_cases f.foreign f.silence_inserted
  where
    by_cases : (a b : Bool) → flags_to_bits (record { foreign = a; silence_inserted = b }) < 256
    by_cases true true = omega arith
    by_cases true false = omega arith
    by_cases false true = omega arith
    by_cases false false = omega arith

pub from_u8-as_u8 : (c : Channel) → channel_from_u8 (channel_as_u8 c) ≡ ok c
unfolding channel_from_u8 channel_as_u8
from_u8-as_u8 far = refl
from_u8-as_u8 near = refl

pub as_u8-from_u8 : (v : ℕ) (c : Channel) → channel_from_u8 v ≡ ok c → channel_as_u8 c ≡ v
unfolding channel_from_u8 channel_as_u8
as_u8-from_u8 v c e = ground arith
