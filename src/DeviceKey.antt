-- ===== src/DeviceKey.antt =====
-- The private key of a device, as far as its callers see it:
-- client/sentinel-service/src/devicekey/mod.rs. The key itself is a parameter, as a record of what
-- its operations answer.
use magick_sentinel.Prelude.{
  ℕ, Bool, true, false, not, List, [], ◌∷◌, length, take, drop, or_else, ◌==◌, if◌then◌else◌, Text,
  Bytes, text, digits, ◌++◌,
}
use magick_sentinel.Der.{sequence, oid, bit_string, unsigned_integer}

pub data DeviceKeyError : Type 0 where
  platform : Text → DeviceKeyError
  not_found software_key_not_permitted io : DeviceKeyError
  malformed : Text → DeviceKeyError
  sign_failed : Text → DeviceKeyError

pub data KeyAnswer {ℓ} (A : Type ℓ) : Type ℓ where
  done : A → KeyAnswer A
  failed : DeviceKeyError → KeyAnswer A

abbrev pub then_use {ℓ κ} :
    {A : Type ℓ} {B : Type κ} → KeyAnswer A → (A → KeyAnswer B) → KeyAnswer B
then_use (done a) f = f a
then_use (failed e) f = failed e

pub data KeyKind : Type 0 where
  cng software : KeyKind

unfoldable pub meets_non_exportable_requirement : KeyKind → Bool
meets_non_exportable_requirement cng = true
meets_non_exportable_requirement software = false

pub record DeviceKey : Type 0 where
  pub public_point : KeyAnswer Bytes
  pub sign : Bytes → KeyAnswer Bytes
  pub kind : KeyKind

-- An object identifier of the source, all of which have arcs that `oid` accepts.
abbrev pub known_oid : List ℕ → Bytes
known_oid arcs = or_else (oid arcs) []

unfoldable pub spki_p256 : Bytes → Bytes
unfolding sequence oid bit_string
spki_p256 point = sequence (
    sequence (
      known_oid (1 ∷ 2 ∷ 840 ∷ 10045 ∷ 2 ∷ 1 ∷ [])
      ∷ known_oid (1 ∷ 2 ∷ 840 ∷ 10045 ∷ 3 ∷ 1 ∷ 7 ∷ [])
      ∷ [])
    ∷ bit_string point
    ∷ [])

unfoldable pub sig_der_from_fixed : Bytes → KeyAnswer Bytes
unfolding sequence unsigned_integer
sig_der_from_fixed raw =
    if not (length raw == 64)
    then failed (
        sign_failed (
          text "expected a 64-byte P-256 signature, got "
          ++ (digits 20 (length raw) ++ text " bytes")))
    else done (sequence (unsigned_integer (take 32 raw) ∷ unsigned_integer (drop 32 raw) ∷ []))
