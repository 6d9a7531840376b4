-- ===== src/SpoolKey/RoundTrip.antt =====
-- The agent opens the spool with the key that the service has generated:
-- client/sentinel-service/src/spoolkey.rs.
use magick_sentinel.Prelude.{
  ℕ, ◌/◌, ◌%◌, ◌<◌, ◌≡◌, refl, sym, ◌∙◌, ap, Bool, true, false, Option, [], ◌∷◌, ◌++◌, ◌==◌, Text,
  Bytes, All, IsByte, length, get_or, drop, arith, ◌↔◌,
}
use magick_sentinel.Update.{hex_lower, hex_digit}
use magick_sentinel.SpoolKey.{
  KeyWrapper, KeyResult, ok, err, key_bytes, generate_and_store, store_blob, resolve,
  plaintext_wrapper, magic,
}

hex_digit_injective : (a b : ℕ) → a < 16 → b < 16 → hex_digit a ≡ hex_digit b → a ≡ b
hex_digit_injective a b h k e = ground (arith, h, k, e)

byte_of_digits : (a b : ℕ) → a / 16 ≡ b / 16 → a % 16 ≡ b % 16 → a ≡ b
byte_of_digits a b h k = omega (arith, h, k)

hex_lower_injective :
    (xs ys : Bytes) → All IsByte xs → All IsByte ys → hex_lower xs ≡ hex_lower ys → xs ≡ ys
unfolding hex_lower
hex_lower_injective [] [] h k e = refl
hex_lower_injective [] (y ∷ ys) h k e = cc
hex_lower_injective (x ∷ xs) [] h k e = cc
hex_lower_injective (x ∷ xs) (y ∷ ys) (hx, h) (hy, k) e =
    let high : hex_digit (x / 16) ≡ hex_digit (y / 16) = ap (λ (s : Text). get_or s 0 0) e in
    let low : hex_digit (x % 16) ≡ hex_digit (y % 16) = ap (λ (s : Text). get_or s 1 0) e in
    let rest : hex_lower xs ≡ hex_lower ys = ap (λ (s : Text). drop 2 s) e in
    let first : x ≡ y =
      byte_of_digits x y
        (hex_digit_injective (x / 16) (y / 16) (omega (arith, hx)) (omega (arith, hy)) high)
        (hex_digit_injective (x % 16) (y % 16) (omega arith) (omega arith) low) in
    let others = hex_lower_injective xs ys h k rest in λ i. first i ∷ others i

resolve-stored :
    (w : KeyWrapper) (writable : Bool) (file : Option Bytes) (material : Bytes)
    (r : KeyResult Bytes) (key : Text)
    → ((blob : Bytes) → r ≡ ok blob → w.unwrap_blob blob ≡ ok material)
    → length material ≡ key_bytes
    → (store_blob writable file material r).1 ≡ ok key
    → (resolve w (store_blob writable file material r).0 ≡ ok key) × (key ≡ hex_lower material)
unfolding resolve
resolve-stored w writable file material (err x) key law size h = ground (arith, h)
resolve-stored w false file material (ok blob) key law size h = ground (arith, h)
resolve-stored w true file material (ok blob) key law size h =
    let same : hex_lower material ≡ key = ground (arith, h) in
    let whole : (length material == key_bytes) ≡ true = ground (arith, size) in
    (rw (law blob refl, whole) (ap ok same), sym same)

-- A key that has been generated is the one that is read back, whatever file was there before, if
-- what the wrapper makes of this material it turns back into it; and no other material gives this
-- key.
pub resolve-generate_and_store :
    (w : KeyWrapper) (writable : Bool) (file : Option Bytes) (material other : Bytes) (key : Text)
    → ((blob : Bytes) → w.wrap material ≡ ok blob → w.unwrap_blob blob ≡ ok material)
    → length material ≡ key_bytes
    → All IsByte material
    → All IsByte other
    → (generate_and_store w writable material file).1 ≡ ok key
    → (resolve w (generate_and_store w writable material file).0 ≡ ok key)
      × ((hex_lower other ≡ key) ↔ (other ≡ material))
unfolding generate_and_store
resolve-generate_and_store w writable file material other key law size hm ho h =
    let (read, named) = resolve-stored w writable file material (w.wrap material) key law size h in
    (
      read,
      (λ e. hex_lower_injective other material ho hm (e ∙ named), λ e. ap hex_lower e ∙ sym named),
    )

-- The development wrapper is one that turns back what it makes.
pub plaintext_unwraps :
    (permitted : Bool) (material blob : Bytes)
    → (plaintext_wrapper permitted).wrap material ≡ ok blob
    → (plaintext_wrapper permitted).unwrap_blob blob ≡ ok material
unfolding plaintext_wrapper
plaintext_unwraps false material blob h = ground (arith, h)
plaintext_unwraps true material blob h =
    let same : magic ++ material ≡ blob = ground (arith, h) in rw (← same) refl
