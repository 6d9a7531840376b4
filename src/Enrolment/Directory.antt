-- ===== src/Enrolment/Directory.antt =====
-- What the directory of the credential holds after any runs of the service:
-- client/sentinel-service/src/enroll.rs and main.rs.
use magick_sentinel.Prelude.{
  ℕ, ◌≡◌, refl, true, inl, inr, Option, none, some, List, [], ◌∷◌, Text, Bytes, All, arith,
}
use magick_sentinel.DeviceKey as DeviceKey
use magick_sentinel.DeviceKey.{DeviceKey, KeyAnswer}
use magick_sentinel.Enrolment.{
  DeviceIdentity, MachineFacts, EnrollResponse, no_token, unsupported_tier, unreachable,
  token_unusable, no_certificate_authority, rejected, decode, bad_certificate, key_error,
  spool_key_error, io_error, Result, ok, err, Enrolled, CredentialDir, Machine, Surroundings,
  cert_file, chain_file, looks_like_certificate_pem, issued, enroll,
}
use magick_sentinel.Enrolment.Exchange.{Ended}
use magick_sentinel.Enrolment.Effect.{enroll-Effect}
use magick_sentinel.Enrolment.Decision.{Decided, ensure_enrolled-Decided}
use magick_sentinel.Enrolment.Service.{
  usable, EnsureOutcome, already_enrolled, enrolled, not_enrolled_no_token,
  renewal_blocked_no_token, failed, stored_identity, expiry_of, ensure_enrolled, Host, conclude,
  clear_renewal_token, read_renewal_token, or_token, ensure_device_credential,
}

module _ (from_json : Bytes → Option DeviceIdentity) where
  -- An identity record names the two files, and both are there.
  abbrev pub Accounted : Option Bytes → Option Bytes → Option Bytes → Type 0
  Accounted none cert chain = Unit {0}
  Accounted (some json) cert chain =
      (id : DeviceIdentity) × (c : Bytes) × (h : Bytes) × (from_json json ≡ some id)
      × (id.cert_path ≡ cert_file)
      × (id.ca_chain_path ≡ chain_file)
      × (cert ≡ some c)
      × (looks_like_certificate_pem c ≡ true)
      × (chain ≡ some h)

  abbrev pub IsWhole : CredentialDir → Type 0
  IsWhole d = Accounted d.identity d.cert d.chain

  module _ (s : Surroundings) (facts : MachineFacts) where
    Accounted-with_cert :
        (response : EnrollResponse) (identity cert chain : Option Bytes)
        → looks_like_certificate_pem response.certificate_pem ≡ true
        → Accounted identity cert chain
        → Accounted identity (some response.certificate_pem) chain
    Accounted-with_cert response none cert chain looks h = tt
    Accounted-with_cert response (some j) cert chain looks (id, c, h, read, p, q, _, _, there) =
        (id, response.certificate_pem, h, read, p, q, refl, looks, there)

    Accounted-with_chain :
        (response : EnrollResponse) (identity cert chain : Option Bytes)
        → Accounted identity cert chain
        → Accounted identity cert (some response.ca_chain_pem)
    Accounted-with_chain response none cert chain h = tt
    Accounted-with_chain response (some j) cert chain (id, c, h, read, p, q, there, looks, _) =
        (id, c, response.ca_chain_pem, read, p, q, there, looks, refl)

    issued-Accounted :
        (response : EnrollResponse)
        → ((id : DeviceIdentity) → from_json (s.to_json id) ≡ some id)
        → looks_like_certificate_pem response.certificate_pem ≡ true
        → Accounted
            (some (s.to_json (issued facts response)))
            (some response.certificate_pem)
            (some response.ca_chain_pem)
    issued-Accounted response law looks = (
      issued facts response,
      response.certificate_pem,
      response.ca_chain_pem,
      law (issued facts response),
      refl,
      refl,
      refl,
      looks,
      refl,
    )

    Ended-IsWhole :
        (answer : Result EnrollResponse) (d : CredentialDir) (r : Result Enrolled)
        (d' : CredentialDir)
        → ((id : DeviceIdentity) → from_json (s.to_json id) ≡ some id)
        → Ended s facts answer d r d'
        → IsWhole d
        → IsWhole d'
    Ended-IsWhole answer d (ok e) d' law (response, blob, got, looks, wrapped, named, keyed, same)
          h =
        rw same (issued-Accounted response law looks)
    Ended-IsWhole answer d (err (spool_key_error k)) d' law (response, got, looks, same) h =
        rw same (issued-Accounted response law looks)
    Ended-IsWhole answer d (err io_error) d' law (response, got, looks, inl same) h = rw same h
    Ended-IsWhole answer d (err io_error) d' law (response, got, looks, inr (inl same)) h =
        rw same (Accounted-with_cert response d.identity d.cert d.chain looks h)
    Ended-IsWhole answer d (err io_error) d' law (response, got, looks, inr (inr same)) h =
        let newer = Accounted-with_cert response d.identity d.cert d.chain looks h in
        rw same
          (Accounted-with_chain response d.identity (some response.certificate_pem) d.chain newer)
    Ended-IsWhole answer d (err no_token) d' law (got, same) h = rw same h
    Ended-IsWhole answer d (err (unsupported_tier t)) d' law (got, same) h = rw same h
    Ended-IsWhole answer d (err (unreachable t)) d' law (got, same) h = rw same h
    Ended-IsWhole answer d (err token_unusable) d' law (got, same) h = rw same h
    Ended-IsWhole answer d (err no_certificate_authority) d' law (got, same) h = rw same h
    Ended-IsWhole answer d (err (rejected n t)) d' law (got, same) h = rw same h
    Ended-IsWhole answer d (err (decode t)) d' law (got, same) h = rw same h
    Ended-IsWhole answer d (err bad_certificate) d' law (response, got, looks, same) h = rw same h
    Ended-IsWhole answer d (err (key_error k)) d' law (got, same) h = rw same h

    enroll-IsWhole :
        (api_base token : Text) (m m' : Machine) (r : Result Enrolled)
        → ((id : DeviceIdentity) → from_json (s.to_json id) ≡ some id)
        → enroll s api_base token facts m ≡ (r, m')
        → IsWhole m.dir
        → IsWhole m'.dir
    enroll-IsWhole api_base token m m' r law ran h =
        elim (rw ran at (enroll-Effect s api_base token facts m)) [
          | inl (why, same) ↦ rw same h
          | inr (tier, csr, t, c, a, b, posts, ended) ↦ Ended-IsWhole _ m.dir r m'.dir law ended h
        ]

    Decided-IsWhole :
        (api_base : Text) (now_ms : ℕ) (m : Machine) (stored : Option DeviceIdentity)
        (expiry : Option ℕ) (token : Option Text) (o : Option EnsureOutcome) (m' : Machine)
        → ((id : DeviceIdentity) → from_json (s.to_json id) ≡ some id)
        → Decided s api_base facts now_ms m stored expiry token (o, m')
        → IsWhole m.dir
        → IsWhole m'.dir
    Decided-IsWhole api_base now_ms m stored expiry token none m' law h whole = absurd h
    Decided-IsWhole api_base now_ms m stored expiry token (some (already_enrolled d n)) m' law h
          whole =
        rw h.0 whole
    Decided-IsWhole api_base now_ms m stored expiry token (some not_enrolled_no_token) m' law h
          whole =
        rw h.0 whole
    Decided-IsWhole api_base now_ms m stored expiry token (some (renewal_blocked_no_token n)) m' law
          h whole =
        rw h.0 whole
    Decided-IsWhole api_base now_ms m stored expiry token (some (enrolled d n renewed kind)) m' law
          (t, e, given, ran, p, q, k, wanted) whole =
        enroll-IsWhole api_base t m m' (ok e) law ran whole
    Decided-IsWhole api_base now_ms m stored expiry token (some (failed x)) m' law
          (t, given, ran, renewed, wanted) whole =
        enroll-IsWhole api_base t m m' (err x) law ran whole

  conclude-IsWhole :
      (s : Surroundings) (renewal installer : Option Text) (o : Option EnsureOutcome) (m : Machine)
      → IsWhole m.dir
      → IsWhole (conclude s renewal installer (o, m)).machine.dir
  unfolding clear_renewal_token
  conclude-IsWhole s renewal installer o m h = ground (arith, h)

-- One run of the service.
pub record Turn : Type 0 where
  pub surroundings : Surroundings
  pub opened : KeyAnswer DeviceKey
  pub api_base : Text
  pub facts : MachineFacts
  pub now_ms : ℕ

abbrev pub turn : Turn → Host → Host
turn t h = ensure_device_credential t.surroundings t.opened t.api_base t.facts t.now_ms h

abbrev pub turns : List Turn → Host → Host
turns [] h = h
turns (t ∷ ts) h = turns ts (turn t h)

-- What a run writes as JSON, the reader reads back.
abbrev pub ReadsBack : (Bytes → Option DeviceIdentity) → Turn → Type 0
ReadsBack from_json t = (id : DeviceIdentity) → from_json (t.surroundings.to_json id) ≡ some id

module _ (from_json : Bytes → Option DeviceIdentity) where
  opened-IsWhole :
      (t : Turn) (opened : KeyAnswer DeviceKey) (h : Host)
      → ReadsBack from_json t
      → IsWhole from_json h.machine.dir
      → IsWhole from_json
          (ensure_device_credential t.surroundings opened t.api_base t.facts t.now_ms h).machine.dir
  unfolding ensure_device_credential
  opened-IsWhole t (DeviceKey.failed e) h law whole = whole
  opened-IsWhole t (DeviceKey.done k) h law whole =
      let s : Surroundings = record t.surroundings { key = k } in
      let renewal = read_renewal_token t.surroundings h.machine.dir in
      let token = or_token renewal h.installer_token in
      let (o, m') = ensure_enrolled s t.api_base t.facts t.now_ms token h.machine in
      let stored = stored_identity s h.machine.dir in
      conclude-IsWhole from_json t.surroundings renewal h.installer_token o m' (
        Decided-IsWhole from_json s t.facts t.api_base t.now_ms h.machine stored
          (expiry_of s stored) (usable token) o m' law
          (ensure_enrolled-Decided s t.api_base t.facts t.now_ms h.machine token) whole)

  -- Over any runs of the service, whatever the answers and failures from outside, a directory in
  -- which an identity record names its two files, both of which are there, stays such a one, if
  -- what is written as JSON is read back; a directory without an identity record is one.
  pub turns-IsWhole :
      (ts : List Turn) (h : Host)
      → All (ReadsBack from_json) ts
      → IsWhole from_json h.machine.dir
      → IsWhole from_json (turns ts h).machine.dir
  turns-IsWhole [] h laws whole = whole
  turns-IsWhole (t ∷ ts) h (law, laws) whole =
      turns-IsWhole ts (turn t h) laws (opened-IsWhole t t.opened h law whole)
