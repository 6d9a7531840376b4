-- ===== src/Credential/Loading.antt =====
-- The agent loads the credential that the service has enrolled for:
-- client/sentinel-agent/src/device.rs.
use magick_sentinel.Prelude.{
  ℕ, ◌≡◌, ◌≢◌, ◌↔◌, arith, All, refl, Bool, true, inl, inr, Option, none, some, List, ◌∷◌, ◌++◌,
  Text, Bytes,
}
use magick_sentinel.DeviceKey as DeviceKey
use magick_sentinel.DeviceKey.{DeviceKey, KeyKind, spki_p256}
use magick_sentinel.Enrolment.{
  DeviceIdentity, MachineFacts, ok, Enrolled, EnrollResponse, CredentialDir, Machine, Surroundings,
  cert_file, chain_file, issued, enroll,
}
use magick_sentinel.Enrolment.Effect.{enroll-Effect}
use magick_sentinel.Enrolment.Decision.{ensure_enrolled-Decided}
use magick_sentinel.Enrolment.Service.{Host, enrolled, ensure_enrolled, read_file, load_identity}
use magick_sentinel.Enrolment.Directory.{Accounted, Turn, turns, ReadsBack, turns-IsWhole}
use magick_sentinel.Credential as Credential
use magick_sentinel.Credential.{
  Files, Loaded, DeviceCredential, read_chain, signing_key_of, load_with,
}

-- The files of a directory, all of which can be read.
abbrev pub LiesIn : Files → CredentialDir → Type 0
LiesIn f d =
    (f.identity ≡ read_file true d.identity)
    × (f.file cert_file ≡ read_file true d.cert)
    × (f.file chain_file ≡ read_file true d.chain)

issued_loads :
    (f : Files) (s : Surroundings) (facts : MachineFacts) (response : EnrollResponse)
    (d : CredentialDir) (leaf : Bytes) (rest : List Bytes) (key : DeviceKey) (point : Bytes)
    → LiesIn f d
    → ((id : DeviceIdentity) → f.from_json (s.to_json id) ≡ some id)
    → d.identity ≡ some (s.to_json (issued facts response))
    → d.cert ≡ some response.certificate_pem
    → d.chain ≡ some response.ca_chain_pem
    → f.certs (response.certificate_pem ++ (0x0a ∷ response.ca_chain_pem)) ≡ some (leaf ∷ rest)
    → f.open_key ≡ DeviceKey.done key
    → key.public_point ≡ DeviceKey.done point
    → load_with f
      ≡ Credential.ok (record {
        chain = leaf ∷ rest;
        signing_key = record { key = key; spki = spki_p256 point };
        device_id = response.device_id;
        not_after = response.not_after;
        key_kind = key.kind;
      })
unfolding load_with load_identity read_chain signing_key_of
issued_loads f s facts response d leaf rest key point (i, c, h) law ei ec eh parsed opened pointed =
    rw (i, ei)
      (rw (law (issued facts response)) (rw (c, h, ec, eh) (rw (parsed, opened) (rw pointed refl))))

enroll-loads :
    (f : Files) (s : Surroundings) (api_base token : Text) (facts : MachineFacts) (m m' : Machine)
    (e : Enrolled) (leaf : Bytes) (rest : List Bytes) (key : DeviceKey) (point : Bytes)
    → enroll s api_base token facts m ≡ (ok e, m')
    → LiesIn f m'.dir
    → ((id : DeviceIdentity) → f.from_json (s.to_json id) ≡ some id)
    → ((cert chain : Bytes)
        → m'.dir.cert ≡ some cert
        → m'.dir.chain ≡ some chain
        → f.certs (cert ++ (0x0a ∷ chain)) ≡ some (leaf ∷ rest))
    → f.open_key ≡ DeviceKey.done key
    → key.public_point ≡ DeviceKey.done point
    → load_with f
      ≡ Credential.ok (record {
        chain = leaf ∷ rest;
        signing_key = record { key = key; spki = spki_p256 point };
        device_id = e.identity.device_id;
        not_after = e.identity.not_after;
        key_kind = key.kind;
      })
enroll-loads f s api_base token facts m m' e leaf rest key point ran there law parsed opened
      pointed =
    elim (rw ran at (enroll-Effect s api_base token facts m)) [
      | inl (why, same) ↦ absurd why
      | inr
            (
              tier,
              csr,
              t,
              c,
              a,
              b,
              posts,
              (response, blob, got, looks, wrapped, named, keyed, same),
            ) ↦
          let cert : m'.dir.cert ≡ some response.certificate_pem = rw same refl in
          let chain : m'.dir.chain ≡ some response.ca_chain_pem = rw same refl in
          rw named (
            issued_loads f s facts response m'.dir leaf rest key point there law (rw same refl) cert
              chain (parsed response.certificate_pem response.ca_chain_pem cert chain) opened
              pointed)
    ]

-- When the service reports that the machine is enrolled, as new or as a renewal, the agent that can
-- read its files, parses the stored certificate followed by the stored chain as at least one
-- certificate, and opens a key with a public point, loads the credential: all these certificates,
-- the key behind its public point, and the device and expiry that the service has reported.
pub ensure_enrolled-loads :
    (f : Files) (s : Surroundings) (api_base : Text) (facts : MachineFacts) (now_ms : ℕ)
    (token : Option Text) (m m' : Machine) (d n : Text) (renewed : Bool) (kind : KeyKind)
    (leaf : Bytes) (rest : List Bytes) (key : DeviceKey) (point : Bytes)
    → ensure_enrolled s api_base facts now_ms token m ≡ (some (enrolled d n renewed kind), m')
    → LiesIn f m'.dir
    → ((id : DeviceIdentity) → f.from_json (s.to_json id) ≡ some id)
    → ((cert chain : Bytes)
        → m'.dir.cert ≡ some cert
        → m'.dir.chain ≡ some chain
        → f.certs (cert ++ (0x0a ∷ chain)) ≡ some (leaf ∷ rest))
    → f.open_key ≡ DeviceKey.done key
    → key.public_point ≡ DeviceKey.done point
    → load_with f
      ≡ Credential.ok (record {
        chain = leaf ∷ rest;
        signing_key = record { key = key; spki = spki_p256 point };
        device_id = d;
        not_after = n;
        key_kind = key.kind;
      })
ensure_enrolled-loads f s api_base facts now_ms token m m' d n renewed kind leaf rest key point ran
      there law parsed opened pointed =
    let (t, e, given, exchanged, p, q, k, wanted) =
      rw ran at (ensure_enrolled-Decided s api_base facts now_ms m token) in
    rw (← p, ← q)
      (enroll-loads f s api_base t facts m m' e leaf rest key point exchanged there law parsed
        opened pointed)

read_whole :
    (f : Files) (json : Bytes) (d : CredentialDir)
    → LiesIn f d
    → d.identity ≡ some json
    → Accounted f.from_json (some json) d.cert d.chain
    → (load_with f ≢ Credential.err Credential.io)
      × (load_with f ≢ Credential.err Credential.not_enrolled)
unfolding load_with load_identity read_chain signing_key_of
read_whole f json d (i, c, h) there (id, cert, chain, read, p, q, has_cert, looks, has_chain) =
    rw (i, there)
      (rw read
        (rw (p, q) (rw (c, h, has_cert, has_chain) ((λ e. ground arith), (λ e. ground arith)))))

stored_loads :
    (f : Files) (d : CredentialDir) (identity : Option Bytes)
    → d.identity ≡ identity
    → LiesIn f d
    → Accounted f.from_json identity d.cert d.chain
    → (load_with f ≢ Credential.err Credential.io)
      × ((load_with f ≡ Credential.err Credential.not_enrolled) ↔ (d.identity ≡ none))
unfolding load_with load_identity
stored_loads f d none e (i, c, h) whole =
    (rw (i, e) (λ x. cc x), rw (i, e) ((λ x. refl), (λ x. refl)))
stored_loads f d (some json) e there whole =
    let (no_io, enrolled_there) = read_whole f json d there e whole in
    (no_io, ((λ x. absurd (enrolled_there x)), (λ x. cc (e, x))))

-- After any runs of the service on a machine without an identity record, whatever the answers and
-- failures from outside, the agent that can read the files and reads back the JSON that the service
-- has written never fails for a file that is missing, and reports that the machine is not enrolled
-- exactly when there is no identity record.
pub turns-load_with :
    (f : Files) (ts : List Turn) (h : Host)
    → All (ReadsBack f.from_json) ts
    → h.machine.dir.identity ≡ none
    → LiesIn f (turns ts h).machine.dir
    → (load_with f ≢ Credential.err Credential.io)
      × ((load_with f ≡ Credential.err Credential.not_enrolled)
          ↔ ((turns ts h).machine.dir.identity ≡ none))
turns-load_with f ts h laws fresh there =
    let d = (turns ts h).machine.dir in
    stored_loads f d d.identity refl there
      (turns-IsWhole f.from_json ts h laws (starts h.machine.dir.identity fresh))
  where
    starts :
        (identity : Option Bytes)
        → identity ≡ none
        → Accounted f.from_json identity h.machine.dir.cert h.machine.dir.chain
    starts none e = tt
    starts (some j) e = absurd (cc e)
