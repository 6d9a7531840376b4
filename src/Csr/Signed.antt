-- ===== src/Csr/Signed.antt =====
-- What a reader of DER finds in the certificate signing request of
-- client/sentinel-service/src/csr.rs.
use magick_sentinel.Prelude.{
  ℕ, ◌<◌, ◌≡◌, refl, sym, ap, ◌∙◌, append-nil, some, List, [], ◌∷◌, length, Text, Bytes, u64_mod,
}
use magick_sentinel.Der.{
  tlv, sequence, set, bit_string, utf8_string, small_integer, oid, arcs_body, tag_sequence,
  tag_bit_string, tag_integer, tag_set, tag_oid, tag_utf8_string, tag_context_0_constructed,
}
use magick_sentinel.Der.Lengths.{written, elements, elements-written, written-shorter}
use magick_sentinel.DeviceKey.{DeviceKey, KeyAnswer, done, failed, then_use, spki_p256}
use magick_sentinel.Csr.{
  rdn, name_rdn_sequence, certification_request_info, signed_request, build_csr_der,
  organization_name,
}

read_written :
    (ms : List (ℕ × Bytes))
    → length (written ms) < u64_mod
    → elements (length ms) (written ms) ≡ some ms
read_written ms h = elements-written ms (written-shorter ms u64_mod h)

shorter : (a b : Bytes) → a ≡ b → length a < u64_mod → length b < u64_mod
shorter a b e h = rw (← e) h

module _ (common_name : Text) (point signature : Bytes) where
  -- The members, as tags and bodies, from the inside out.
  abbrev cn_members : List (ℕ × Bytes)
  cn_members = (tag_oid, 85 ∷ arcs_body (4 ∷ 3 ∷ [])) ∷ (tag_utf8_string, common_name) ∷ []

  abbrev org_members : List (ℕ × Bytes)
  org_members = (tag_oid, 85 ∷ arcs_body (4 ∷ 10 ∷ [])) ∷ (tag_utf8_string, organization_name) ∷ []

  abbrev name_members : List (ℕ × Bytes)
  name_members =
      (tag_set, written ((tag_sequence, written cn_members) ∷ []))
      ∷ (tag_set, written ((tag_sequence, written org_members) ∷ []))
      ∷ []

  abbrev curve_members : List (ℕ × Bytes)
  curve_members =
      (tag_oid, 42 ∷ arcs_body (840 ∷ 10045 ∷ 2 ∷ 1 ∷ []))
      ∷ (tag_oid, 42 ∷ arcs_body (840 ∷ 10045 ∷ 3 ∷ 1 ∷ 7 ∷ []))
      ∷ []

  abbrev key_members : List (ℕ × Bytes)
  key_members = (tag_sequence, written curve_members) ∷ (tag_bit_string, 0 ∷ point) ∷ []

  abbrev info_members : List (ℕ × Bytes)
  info_members =
      (tag_integer, 0 ∷ [])
      ∷ (tag_sequence, written name_members)
      ∷ (tag_sequence, written key_members)
      ∷ (tag_context_0_constructed, [])
      ∷ []

  abbrev algorithm_members : List (ℕ × Bytes)
  algorithm_members = (tag_oid, 42 ∷ arcs_body (840 ∷ 10045 ∷ 4 ∷ 3 ∷ 2 ∷ [])) ∷ []

  abbrev request_members : List (ℕ × Bytes)
  request_members =
      (tag_sequence, written info_members)
      ∷ (tag_sequence, written algorithm_members)
      ∷ (tag_bit_string, 0 ∷ signature)
      ∷ []

  -- What a reader finds in a request: the request information, the algorithm and the signature; in
  -- the information the version, the subject, the public key and no attributes; and the common name
  -- and the point in these.
  abbrev pub IsRequest : Bytes → Bytes → Type 0
  IsRequest info der =
      (request body subject algorithm spki curve cn_set cn org : Bytes) × (info
        ≡ tlv tag_sequence body)
      × (elements 1 der ≡ some ((tag_sequence, request) ∷ []))
      × (elements 3 request
          ≡ some (
              (tag_sequence, body)
              ∷ (tag_sequence, algorithm)
              ∷ (tag_bit_string, 0 ∷ signature)
              ∷ []))
      × (elements 4 body
          ≡ some (
              (tag_integer, 0 ∷ [])
              ∷ (tag_sequence, subject)
              ∷ (tag_sequence, spki)
              ∷ (tag_context_0_constructed, [])
              ∷ []))
      × (elements 2 spki ≡ some ((tag_sequence, curve) ∷ (tag_bit_string, 0 ∷ point) ∷ []))
      × (elements 2 subject ≡ some ((tag_set, cn_set) ∷ (tag_set, org) ∷ []))
      × (elements 1 cn_set ≡ some ((tag_sequence, cn) ∷ []))
      × (elements 2 cn
          ≡ some ((tag_oid, 85 ∷ arcs_body (4 ∷ 3 ∷ [])) ∷ (tag_utf8_string, common_name) ∷ []))

  written-IsRequest :
      (info der : Bytes)
      → info ≡ tlv tag_sequence (written info_members)
      → der ≡ written ((tag_sequence, written request_members) ∷ [])
      → length der < u64_mod
      → IsRequest info der
  written-IsRequest info der ei ed short =
      let h = shorter der (written ((tag_sequence, written request_members) ∷ [])) ed short in
      let (in_request, _) =
        written-shorter ((tag_sequence, written request_members) ∷ []) u64_mod h in
      let (in_info, _) = written-shorter request_members u64_mod in_request in
      let (_, (in_name, (in_key, _))) = written-shorter info_members u64_mod in_info in
      let (in_set, _) = written-shorter name_members u64_mod in_name in
      let (in_cn, _) = written-shorter ((tag_sequence, written cn_members) ∷ []) u64_mod in_set in
      (
        written request_members,
        written info_members,
        written name_members,
        written algorithm_members,
        written key_members,
        written curve_members,
        written ((tag_sequence, written cn_members) ∷ []),
        written cn_members,
        written ((tag_sequence, written org_members) ∷ []),
        ei,
        ap (elements 1) ed ∙ read_written ((tag_sequence, written request_members) ∷ []) h,
        read_written request_members in_request,
        read_written info_members in_info,
        read_written key_members in_key,
        read_written name_members in_name,
        read_written ((tag_sequence, written cn_members) ∷ []) in_set,
        read_written cn_members in_cn,
      )

  info_bytes :
      certification_request_info (spki_p256 point) common_name
      ≡ tlv tag_sequence (written info_members)
  unfolding certification_request_info spki_p256 name_rdn_sequence rdn sequence set bit_string
      utf8_string small_integer oid
  info_bytes = refl

  request_bytes :
      signed_request (certification_request_info (spki_p256 point) common_name) signature
      ≡ written ((tag_sequence, written request_members) ∷ [])
  unfolding signed_request certification_request_info spki_p256 name_rdn_sequence rdn sequence set
      bit_string utf8_string small_integer oid
  request_bytes = sym (append-nil (tlv tag_sequence (written request_members)))

then_use-done :
    {A B : Type 0} (x : KeyAnswer A) (f : A → KeyAnswer B) {b : B}
    → then_use x f ≡ done b
    → (a : A) × (x ≡ done a) × (f a ≡ done b)
then_use-done (done a) f e = (a, refl, e)
then_use-done (failed k) f e = absurd (cc e)

done_injective : {a b : Bytes} → done a ≡ done b → a ≡ b
done_injective e = cc e

-- A request that is built and has fewer than 2 ^ 64 bytes is DER of which a reader finds every
-- part: the version 0, the subject with the common name, the public point of the key, no attributes,
-- and the signature that the key gives for exactly the bytes of the request information as they
-- stand in the request.
pub build_csr_der-IsRequest :
    (key : DeviceKey) (common_name : Text) (der : Bytes)
    → build_csr_der key common_name ≡ done der
    → length der < u64_mod
    → (info point signature : Bytes) × (key.public_point ≡ done point)
      × (key.sign info ≡ done signature)
      × IsRequest common_name point signature info der
unfolding build_csr_der
build_csr_der-IsRequest key common_name der built short =
    let rest = λ (p : Bytes).
      let info = certification_request_info (spki_p256 p) common_name in
      then_use (key.sign info) λ signature. done (signed_request info signature) in
    let (point, pointed, more) = then_use-done key.public_point rest built in
    let info : Bytes = certification_request_info (spki_p256 point) common_name in
    let (signature, signed, made) =
      then_use-done (key.sign info) (λ signature. done (signed_request info signature)) more in
    let same = done_injective (sym made) ∙ request_bytes common_name point signature in
    (
      info,
      point,
      signature,
      pointed,
      signed,
      written-IsRequest common_name point signature info der
          (info_bytes common_name point signature) same short,
    )
