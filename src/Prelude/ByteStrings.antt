-- ===== src/Prelude/ByteStrings.antt =====
-- Byte strings: Rust's `to_le_bytes` and `from_le_bytes`, and text as its UTF-8 bytes.
use Prim.Native.Nat.{ℕ, zero, suc, ◌+◌, ◌*◌, ◌/◌, ◌%◌, ◌^◌, ◌<◌}
use mathlib.Core.Path.{◌≡◌, refl, ap}
use mathlib.Core.Logic.{◌↔◌}
use mathlib.Core.Bool.{Bool, true, false, ◌&&◌}
use mathlib.Core.List.{List, [], ◌∷◌, ◌++◌}
use Prim.Native.Char.{code}
use Prim.Native.String.{String}
use native.Mathlib.Omega.{arith}
use native.Mathlib.Nat.{pow-suc}
use magick_sentinel.Prelude.Tests.{ltb, ◌==◌, if◌then◌else◌}
use magick_sentinel.Prelude.Lists.{length, All}

abbrev pub Bytes : Type 0
Bytes = List ℕ

abbrev pub IsByte : ℕ → Type 0
IsByte b = b < 256

-- The `k` bytes of `x`, lowest first.
abbrev pub le_bytes : ℕ → ℕ → Bytes
le_bytes zero x = []
le_bytes (suc k) x = (x % 256) ∷ le_bytes k (x / 256)

abbrev pub from_le_bytes : Bytes → ℕ
from_le_bytes [] = 0
from_le_bytes (b ∷ bs) = b + 256 * from_le_bytes bs

pub length-le_bytes : (k x : ℕ) → length (le_bytes k x) ≡ k
length-le_bytes zero x = refl
length-le_bytes (suc k) x = ap suc (length-le_bytes k (x / 256))

pub le_bytes-IsByte : (k x : ℕ) → All IsByte (le_bytes k x)
le_bytes-IsByte zero x = tt
le_bytes-IsByte (suc k) x = (omega arith, le_bytes-IsByte k (x / 256))

pub from_le_bytes-le_bytes : (k x : ℕ) → x < 256 ^ k → from_le_bytes (le_bytes k x) ≡ x
from_le_bytes-le_bytes zero x h = omega arith
from_le_bytes-le_bytes (suc k) x h =
    omega (arith, from_le_bytes-le_bytes k (x / 256) (omega (arith, pow-suc 256 k)))

pub from_le_bytes-lt : (bs : Bytes) → All IsByte bs → from_le_bytes bs < 256 ^ length bs
from_le_bytes-lt [] all = omega arith
from_le_bytes-lt (b ∷ bs) (hb, all) =
    omega (arith, from_le_bytes-lt bs all, pow-suc 256 (length bs))

pub le_bytes-from_le_bytes :
    (bs : Bytes) (k : ℕ) → length bs ≡ k → All IsByte bs → le_bytes k (from_le_bytes bs) ≡ bs
le_bytes-from_le_bytes [] zero h all = refl
le_bytes-from_le_bytes [] (suc k) h all = absurd (omega arith)
le_bytes-from_le_bytes (b ∷ bs) zero h all = absurd (omega arith)
le_bytes-from_le_bytes (b ∷ bs) (suc k) h (hb, all) = ground (
  arith,
  low b (from_le_bytes bs),
  high b (from_le_bytes bs),
  le_bytes-from_le_bytes bs k (omega arith) all,
)
  where
    low : (b n : ℕ) → b < 256 → (b + 256 * n) % 256 ≡ b
    low b n h = omega arith

    high : (b n : ℕ) → b < 256 → (b + 256 * n) / 256 ≡ n
    high b n h = omega arith

-- Text is its UTF-8 bytes; equality of texts, and SQLite's BINARY order on them.
abbrev pub Text : Type 0
Text = List ℕ

unfoldable pub text_eq : Text → Text → Bool
text_eq [] [] = true
text_eq [] (b ∷ bs) = false
text_eq (a ∷ as') [] = false
text_eq (a ∷ as') (b ∷ bs) = a == b && text_eq as' bs

pub text_eq_iff : (s t : Text) → (text_eq s t ≡ true) ↔ (s ≡ t)
unfolding text_eq
text_eq_iff [] [] = (λ _. refl, λ _. refl)
text_eq_iff [] (b ∷ bs) = (λ e. cc, λ e. cc)
text_eq_iff (a ∷ as') [] = (λ e. cc, λ e. cc)
text_eq_iff (a ∷ as') (b ∷ bs) =
    (λ e. ground (arith, text_eq_iff as' bs), λ e. ground (arith, text_eq_iff as' bs))

pub text_eq_refl : (s : Text) → text_eq s s ≡ true
text_eq_refl s = (text_eq_iff s s).1 refl

unfoldable pub text_lt : Text → Text → Bool
text_lt [] [] = false
text_lt [] (b ∷ bs) = true
text_lt (a ∷ as') [] = false
text_lt (a ∷ as') (b ∷ bs) =
    let rest = text_lt as' bs in if ltb a b then true else if a == b then rest else false

-- The bytes of an ASCII literal.
abbrev pub text : String → Text
text String.[] = []
text (String.◌∷◌ c s) = code c ∷ text s

-- The decimal digits of a number below 10^k, as `format!("{n}")` writes them.
unfoldable pub digits : ℕ → ℕ → Text
digits zero n = []
digits (suc k) n =
    let more = digits k (n / 10) in if ltb n 10 then (48 + n) ∷ [] else more ++ ((48 + n % 10) ∷ [])
