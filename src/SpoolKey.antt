-- ===== src/SpoolKey.antt =====
-- The key of the spool: client/sentinel-service/src/spoolkey.rs.
-- The key file is its bytes, if it is there; DPAPI is one of the wrappers, which are parameters. The
-- random material is given, and the directory is taken to be writable or not.
pub mod RoundTrip
use magick_sentinel.Prelude.{
  ℕ, zero, suc, ◌+◌, Bool, true, false, not, Option, none, some, List, [], ◌∷◌, ◌++◌, if◌then◌else◌,
  ◌==◌, Text, Bytes, text, length,
}
use magick_sentinel.Update.{hex_lower}

abbrev pub key_bytes : ℕ
key_bytes = 32

pub data SpoolKeyError : Type 0 where
  not_found io unwrap_failed wrap_failed malformed plaintext_not_permitted : SpoolKeyError

pub data KeyResult {ℓ} (A : Type ℓ) : Type ℓ where
  ok : A → KeyResult A
  err : SpoolKeyError → KeyResult A

pub record KeyWrapper : Type 0 where
  pub wrap : Bytes → KeyResult Bytes
  pub unwrap_blob : Bytes → KeyResult Bytes

-- The part of `generate_and_store` once the material is wrapped; a failed write keeps the old file.
abbrev pub store_blob :
    Bool → Option Bytes → Bytes → KeyResult Bytes → Option Bytes × KeyResult Text
store_blob writable file material (err e) = (file, err e)
store_blob writable file material (ok blob) =
    if writable then (some blob, ok (hex_lower material)) else (file, err io)

unfoldable pub generate_and_store :
    KeyWrapper → Bool → Bytes → Option Bytes → Option Bytes × KeyResult Text
unfolding hex_lower
generate_and_store w writable material file = store_blob writable file material (w.wrap material)

abbrev pub check_material : KeyResult Bytes → KeyResult Text
check_material (err e) = err e
check_material (ok material) =
    if not (length material == key_bytes) then err malformed else ok (hex_lower material)

unfoldable pub resolve : KeyWrapper → Option Bytes → KeyResult Text
unfolding hex_lower
resolve w none = err not_found
resolve w (some blob) = check_material (w.unwrap_blob blob)

-- The header of an unwrapped development key.
abbrev pub magic : Bytes
magic = text "SENTINEL-DEV-UNWRAPPED-SPOOL-KEY" ++ (0 ∷ [])

unfoldable pub strip_prefix : Bytes → Bytes → Option Bytes
strip_prefix [] s = some s
strip_prefix (p ∷ ps) [] = none
strip_prefix (p ∷ ps) (c ∷ cs) = let rest = strip_prefix ps cs in if p == c then rest else none

abbrev pub stripped : Option Bytes → KeyResult Bytes
stripped none = err unwrap_failed
stripped (some body) = ok body

-- The wrapper off Windows, by whether the build permits it.
unfoldable pub plaintext_wrapper : Bool → KeyWrapper
unfolding strip_prefix
plaintext_wrapper permitted = record {
  wrap = λ plaintext. if permitted then ok (magic ++ plaintext) else err plaintext_not_permitted;
  unwrap_blob =
      λ blob. if permitted then stripped (strip_prefix magic blob) else err plaintext_not_permitted;
}
