-- ===== src/Enrolment/Exchange.antt =====
-- What one enrolment writes to the directory, by how it ends: `persist` and the end of `enroll` of client/sentinel-service/src/enroll.rs.
use magick_sentinel.Prelude.{◌≡◌, refl, Bool, true, false, ◌&&◌, ◌⊎◌, some, ap, Text, Bytes, arith}
use magick_sentinel.SpoolKey as SpoolKey
use magick_sentinel.SpoolKey.{KeyWrapper, KeyResult, store_blob, generate_and_store}
use magick_sentinel.Update.{hex_lower}
use magick_sentinel.Enrolment.{
  DeviceIdentity, MachineFacts, EnrollResponse, no_token, unsupported_tier, unreachable,
  token_unusable, no_certificate_authority, rejected, decode, bad_certificate, key_error,
  spool_key_error, io_error, Result, ok, err, Enrolled, CredentialDir, Machine, Surroundings,
  looks_like_certificate_pem, save_identity, issued, persist, from_spool_key, generate_key, Action,
  pure, continue_with, ◌>>=◌,
}

-- What has been written when an enrolment ends: the certificate is written before the chain, the
-- chain before the identity, and the identity before the spool key.
abbrev pub with_cert : EnrollResponse → CredentialDir → CredentialDir
with_cert response d = record d { cert = some response.certificate_pem }

abbrev pub with_chain : EnrollResponse → CredentialDir → CredentialDir
with_chain response d = record (with_cert response d) { chain = some response.ca_chain_pem }

abbrev pub with_identity :
    Surroundings → MachineFacts → EnrollResponse → CredentialDir → CredentialDir
with_identity s facts response d = record (with_chain response d) {
  identity = some (s.to_json (issued facts response));
}

module _ (s : Surroundings) (facts : MachineFacts) (response : EnrollResponse) where
  abbrev pub Persisted : CredentialDir → Result DeviceIdentity → CredentialDir → Type 0
  Persisted d (ok a) d' =
      (a ≡ issued facts response)
      × (looks_like_certificate_pem response.certificate_pem ≡ true)
      × (d' ≡ with_identity s facts response d)
  Persisted d (err bad_certificate) d' =
      (looks_like_certificate_pem response.certificate_pem ≡ false) × (d' ≡ d)
  Persisted d (err e) d' =
      (looks_like_certificate_pem response.certificate_pem ≡ true)
      × (e ≡ io_error)
      × ((d' ≡ d) ⊎ (d' ≡ with_cert response d) ⊎ (d' ≡ with_chain response d))

  pub persist-Persisted :
      (m : Machine)
      → let (r, m') = persist s facts response m in Persisted m.dir r m'.dir × (m'.posts ≡ m.posts)
  unfolding persist save_identity
  persist-Persisted m = ground arith

  abbrev pub with_key : Bytes → CredentialDir → CredentialDir
  with_key blob d = record (with_identity s facts response d) { spool_key = some blob }

-- How an enrolment that began with the directory `d` and was given an answer has ended.
abbrev pub Ended :
    Surroundings
    → MachineFacts
    → Result EnrollResponse
    → CredentialDir
    → Result Enrolled
    → CredentialDir
    → Type 0
Ended s facts answer d (ok e) d' =
    (response : EnrollResponse) × (blob : Bytes) × (answer ≡ ok response)
    × (looks_like_certificate_pem response.certificate_pem ≡ true)
    × (s.key_wrapper.wrap s.material ≡ SpoolKey.ok blob)
    × (e.identity ≡ issued facts response)
    × (e.spool_key ≡ hex_lower s.material)
    × (d' ≡ with_key s facts response blob d)
Ended s facts answer d (err (spool_key_error k)) d' =
    (response : EnrollResponse) × (answer ≡ ok response)
    × (looks_like_certificate_pem response.certificate_pem ≡ true)
    × (d' ≡ with_identity s facts response d)
Ended s facts answer d (err io_error) d' =
    (response : EnrollResponse) × (answer ≡ ok response)
    × (looks_like_certificate_pem response.certificate_pem ≡ true)
    × ((d' ≡ d) ⊎ (d' ≡ with_cert response d) ⊎ (d' ≡ with_chain response d))
Ended s facts answer d (err bad_certificate) d' =
    (response : EnrollResponse) × (answer ≡ ok response)
    × (looks_like_certificate_pem response.certificate_pem ≡ false)
    × (d' ≡ d)
Ended s facts answer d (err e) d' = (answer ≡ err e) × (d' ≡ d)

module _ (s : Surroundings) (facts : MachineFacts) (response : EnrollResponse) where
  abbrev pub enrolled_as : DeviceIdentity → Text → Enrolled
  enrolled_as identity key = record { identity = identity; key_kind = s.key.kind; spool_key = key }

  abbrev pub finish : DeviceIdentity → Action Enrolled
  finish identity = do spool_key ← generate_key s; pure (enrolled_as identity spool_key)

module _ (s : Surroundings) (facts : MachineFacts) (response : EnrollResponse)
    (answer : Result EnrollResponse) (got : answer ≡ ok response) where
  keyed-Ended :
      (writable : Bool) (identity : DeviceIdentity) (d : CredentialDir) (m : Machine)
      (w : KeyResult Bytes)
      → s.key_wrapper.wrap s.material ≡ w
      → identity ≡ issued facts response
      → looks_like_certificate_pem response.certificate_pem ≡ true
      → m.dir ≡ with_identity s facts response d
      → let (file, stored) = store_blob writable m.dir.spool_key s.material w in
        let (r, m') =
          continue_with
            (from_spool_key stored, record m { dir = record m.dir { spool_key = file } })
            (λ key. pure (enrolled_as s facts response identity key)) in
        Ended s facts answer d r m'.dir × (m'.posts ≡ m.posts)
  keyed-Ended writable identity d m (SpoolKey.err e) wrapped named looks same =
      ((response, got, looks, same), refl)
  keyed-Ended false identity d m (SpoolKey.ok blob) wrapped named looks same =
      ((response, got, looks, same), refl)
  keyed-Ended true identity d m (SpoolKey.ok blob) wrapped named looks same = (
    (
      response,
      blob,
      got,
      looks,
      wrapped,
      named,
      refl,
      ap (λ (x : CredentialDir). record x { spool_key = some blob }) same,
    ),
    refl,
  )

  pub Persisted-Ended :
      (d : CredentialDir) (r : Result DeviceIdentity) (m : Machine)
      → Persisted s facts response d r m.dir
      → let (r', m') = continue_with (r, m) (finish s facts response) in
        Ended s facts answer d r' m'.dir × (m'.posts ≡ m.posts)
  unfolding generate_key generate_and_store
  Persisted-Ended d (ok identity) m (named, looks, same) =
      keyed-Ended (s.makes_dir && s.writes_key) identity d m (s.key_wrapper.wrap s.material) refl
        named looks same
  Persisted-Ended d (err bad_certificate) m (looks, same) = ((response, got, looks, same), refl)
  Persisted-Ended d (err io_error) m (looks, e, written) = ((response, got, looks, written), refl)
  Persisted-Ended d (err no_token) m (looks, e, h) = cc
  Persisted-Ended d (err (unsupported_tier t)) m (looks, e, h) = cc
  Persisted-Ended d (err (unreachable t)) m (looks, e, h) = cc
  Persisted-Ended d (err token_unusable) m (looks, e, h) = cc
  Persisted-Ended d (err no_certificate_authority) m (looks, e, h) = cc
  Persisted-Ended d (err (rejected n t)) m (looks, e, h) = cc
  Persisted-Ended d (err (decode t)) m (looks, e, h) = cc
  Persisted-Ended d (err (key_error k)) m (looks, e, h) = cc
  Persisted-Ended d (err (spool_key_error k)) m (looks, e, h) = cc
