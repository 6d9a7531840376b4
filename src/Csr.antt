-- ===== src/Csr.antt =====
-- The certificate signing request: client/sentinel-service/src/csr.rs.
pub mod Signed
use magick_sentinel.Prelude.{List, [], ◌∷◌, ℕ, Text, text, Bytes}
use magick_sentinel.Der.{
  sequence, set, utf8_string, bit_string, small_integer, tlv, tag_context_0_constructed, to_pem,
}
use magick_sentinel.DeviceKey.{DeviceKey, KeyAnswer, done, then_use, known_oid, spki_p256}

abbrev pub ecdsa_with_sha256 : List ℕ
ecdsa_with_sha256 = 1 ∷ 2 ∷ 840 ∷ 10045 ∷ 4 ∷ 3 ∷ 2 ∷ []

abbrev pub common_name_arcs : List ℕ
common_name_arcs = 2 ∷ 5 ∷ 4 ∷ 3 ∷ []

abbrev pub organization_arcs : List ℕ
organization_arcs = 2 ∷ 5 ∷ 4 ∷ 10 ∷ []

abbrev pub organization_name : Text
organization_name = text "MagickVoice Sentinel"

unfoldable pub rdn : List ℕ → Text → Bytes
unfolding set sequence utf8_string
rdn oid_arcs value = set (sequence (known_oid oid_arcs ∷ utf8_string value ∷ []) ∷ [])

unfoldable pub name_rdn_sequence : Text → Bytes
unfolding sequence rdn
name_rdn_sequence common_name =
    sequence (rdn common_name_arcs common_name ∷ rdn organization_arcs organization_name ∷ [])

unfoldable pub certification_request_info : Bytes → Text → Bytes
unfolding sequence small_integer name_rdn_sequence tlv
certification_request_info spki common_name =
    sequence (
      small_integer 0
      ∷ name_rdn_sequence common_name
      ∷ spki
      ∷ tlv tag_context_0_constructed []
      ∷ [])

-- What the request holds once the key has signed.
unfoldable pub signed_request : Bytes → Bytes → Bytes
unfolding sequence bit_string
signed_request info signature =
    sequence (info ∷ sequence (known_oid ecdsa_with_sha256 ∷ []) ∷ bit_string signature ∷ [])

unfoldable pub build_csr_der : DeviceKey → Text → KeyAnswer Bytes
unfolding certification_request_info signed_request spki_p256
build_csr_der key common_name = then_use key.public_point λ point.
    let info = certification_request_info (spki_p256 point) common_name in
    then_use (key.sign info) λ signature. done (signed_request info signature)

unfoldable pub build_csr_pem : (Bytes → Text) → DeviceKey → Text → KeyAnswer Text
unfolding build_csr_der to_pem
build_csr_pem encode key common_name =
    then_use (build_csr_der key common_name)
      λ der. done (to_pem encode (text "CERTIFICATE REQUEST") der)
