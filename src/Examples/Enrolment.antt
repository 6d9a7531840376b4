-- ===== src/Examples/Enrolment.antt =====
-- Enrolment, the credential and the request on concrete values.
use magick_sentinel.Prelude.{
  ℕ, ◌≡◌, ◌≢◌, ◌<◌, ◌↔◌, refl, false, true, Option, none, some, [], ◌∷◌, ◌++◌, Text, Bytes, text_eq,
  if◌then◌else◌, text, length, get_or, ap, ◌∙◌, ◌*◌, take, drop, take-append, drop-append, arith,
  u64_mod,
}
use magick_sentinel.Update.{hex_lower}
use magick_sentinel.SpoolKey as SpoolKey
use magick_sentinel.SpoolKey.{plaintext_wrapper, resolve}
use magick_sentinel.SpoolKey.RoundTrip.{plaintext_unwraps}
use magick_sentinel.DeviceKey.{KeyAnswer, failed, DeviceKey, done, cng, spki_p256}
use magick_sentinel.Csr.{build_csr_der}
use magick_sentinel.Csr.Signed.{IsRequest, build_csr_der-IsRequest}
use magick_sentinel.Enrolment.{
  DeviceIdentity, EnrollResponse, body, MachineFacts, CredentialDir, Machine, Surroundings,
  spool_key_error, err, enroll, cert_file, chain_file,
}
use magick_sentinel.Enrolment.Effect.{EnrollEffect, enroll-Effect}
use magick_sentinel.Enrolment.Decision.{Decided, ensure_enrolled-Decided}
use magick_sentinel.Enrolment.Directory.{Turn, turns}
use magick_sentinel.Enrolment.Flaws.{renewal_replaces_key, key_failure_strands}
use magick_sentinel.Enrolment.Service.{
  usable, stored_identity, expiry_of, ensure_enrolled, enrolled, already_enrolled, read_file, Host,
  load_identity, not_after_ms, FileRead, missing,
}
use magick_sentinel.Credential as Credential
use magick_sentinel.Credential.{Files, load_with}
use magick_sentinel.Credential.Loading.{LiesIn, turns-load_with, ensure_enrolled-loads}

-- A stand-in for JSON: each text behind its length.
abbrev field : Text → Bytes → Bytes
field t rest = length t ∷ (t ++ rest)

abbrev read_field : Bytes → Text × Bytes
read_field [] = ([], [])
read_field (n ∷ bs) = (take n bs, drop n bs)

read_field-field : (t : Text) (rest : Bytes) → read_field (field t rest) ≡ (t, rest)
read_field-field t rest i =
    (take-append t rest (length t) refl i, drop-append t rest (length t) refl i)

abbrev to_bytes : DeviceIdentity → Bytes
to_bytes id = field id.device_id (
    field id.machine_guid (
      field id.hw_fingerprint
        (field id.not_after (field id.cert_path (field id.ca_chain_path [])))))

abbrev sixth : Text → Text → Text → Text → Text → Text × Bytes → Option DeviceIdentity
sixth a b c d e (f, rest) = some (record {
  device_id = a;
  machine_guid = b;
  hw_fingerprint = c;
  not_after = d;
  cert_path = e;
  ca_chain_path = f;
})

abbrev fifth : Text → Text → Text → Text → Text × Bytes → Option DeviceIdentity
fifth a b c d (e, rest) = sixth a b c d e (read_field rest)

abbrev fourth : Text → Text → Text → Text × Bytes → Option DeviceIdentity
fourth a b c (d, rest) = fifth a b c d (read_field rest)

abbrev third : Text → Text → Text × Bytes → Option DeviceIdentity
third a b (c, rest) = fourth a b c (read_field rest)

abbrev second : Text → Text × Bytes → Option DeviceIdentity
second a (b, rest) = third a b (read_field rest)

abbrev first : Text × Bytes → Option DeviceIdentity
first (a, rest) = second a (read_field rest)

abbrev from_bytes : Bytes → Option DeviceIdentity
from_bytes bs = first (read_field bs)

reads_back : (id : DeviceIdentity) → from_bytes (to_bytes id) ≡ some id
reads_back id =
    let r5 : Bytes = field id.ca_chain_path [] in
    let r4 : Bytes = field id.cert_path r5 in
    let r3 : Bytes = field id.not_after r4 in
    let r2 : Bytes = field id.hw_fingerprint r3 in
    let r1 : Bytes = field id.machine_guid r2 in
    let (a, b, c, d, e) =
      let t : Text × Text × Text × Text × Text =
        (id.device_id, id.machine_guid, id.hw_fingerprint, id.not_after, id.cert_path) in
      t in
    ap first (read_field-field a r1)
    ∙ ap (second a) (read_field-field b r2)
    ∙ ap (third a b) (read_field-field c r3)
    ∙ ap (fourth a b c) (read_field-field d r4)
    ∙ ap (fifth a b c d) (read_field-field e r5)
    ∙ ap (sixth a b c d e) (read_field-field id.ca_chain_path [])

abbrev key : DeviceKey
key = record {
  public_point = done (4 ∷ 7 ∷ 9 ∷ []);
  sign = λ message. done (length message ∷ 5 ∷ []);
  kind = cng;
}

abbrev cert : Text
cert = text "-----BEGIN CERTIFICATE-----\nAA==\n-----END CERTIFICATE-----\n"

abbrev response : EnrollResponse
response = record {
  device_id = text "d-1";
  certificate_pem = cert;
  ca_chain_pem = text "chain";
  not_after = text "9";
}

abbrev thirty_two : ℕ → Bytes
thirty_two b =
    b ∷ b ∷ b ∷ b ∷ b ∷ b ∷ b ∷ b ∷ b ∷ b ∷ b ∷ b ∷ b ∷ b ∷ b ∷ b ∷ b ∷ b ∷ b ∷ b ∷ b ∷ b ∷ b ∷ b
    ∷ b ∷ b ∷ b ∷ b ∷ b ∷ b ∷ b ∷ b ∷ []

-- The one expiry that is used lies 40 days after the start.
abbrev ns_of : Text → Option ℕ
ns_of t = some (40 * 24 * 3600 * 1_000_000_000)

abbrev around : ℕ → Surroundings
around b = record {
  key = key;
  exchange = λ url request. body response;
  key_wrapper = plaintext_wrapper true;
  material = thirty_two b;
  base64 = λ bytes. text "QUJD";
  to_json = to_bytes;
  from_json = from_bytes;
  rfc3339_ns = ns_of;
  reads_identity = true;
  reads_token = true;
  removes_token = true;
  makes_dir = true;
  writes_cert = true;
  writes_chain = true;
  writes_identity = true;
  writes_key = true;
}

abbrev facts : MachineFacts
facts = record {
  machine_guid = text "G";
  hw_fingerprint = text "F";
  os_build = text "10.0.22631";
  capture_tier = some (text "A");
  agent_version = text "1";
}

abbrev empty : Machine
empty = record {
  dir = record {
    cert = none;
    chain = none;
    identity = none;
    spool_key = none;
    renewal_token = none;
  };
  posts = [];
}

abbrev base : Text
base = text "https://gw/"

abbrev day : ℕ
day = 24 * 3600 * 1000

enroll-Effect_example :
    EnrollEffect
      (around 1)
      base
      (text " t ")
      facts
      empty
      (enroll (around 1) base (text " t ") facts empty)
enroll-Effect_example = enroll-Effect (around 1) base (text " t ") facts empty

ensure_enrolled-Decided_example :
    let stored = stored_identity (around 1) empty.dir in
    Decided
      (around 1)
      base
      facts
      day
      empty
      stored
      (expiry_of (around 1) stored)
      (usable (some (text " t ")))
      (ensure_enrolled (around 1) base facts day (some (text " t ")) empty)
ensure_enrolled-Decided_example =
    ensure_enrolled-Decided (around 1) base facts day empty (some (text " t "))

-- The machine after its first enrolment.
abbrev once : Machine
once = (ensure_enrolled (around 1) base facts day (some (text " t ")) empty).1

first_enrolment :
    ensure_enrolled (around 1) base facts day (some (text " t ")) empty
    ≡ (some (enrolled (text "d-1") (text "9") false cng), once)
unfolding ensure_enrolled enroll text_eq plaintext_wrapper
first_enrolment = refl

-- The machine after its renewal, twenty days later.
abbrev twice : Machine
twice = (ensure_enrolled (around 2) base facts (20 * day) (some (text "u")) once).1

renewal :
    ensure_enrolled (around 2) base facts (20 * day) (some (text "u")) once
    ≡ (some (enrolled (text "d-1") (text "9") true cng), twice)
unfolding ensure_enrolled enroll text_eq plaintext_wrapper
renewal = refl

old_key :
    resolve (plaintext_wrapper true) once.dir.spool_key ≡ SpoolKey.ok (hex_lower (thirty_two 1))
unfolding ensure_enrolled enroll text_eq plaintext_wrapper resolve
old_key = refl

other_key : hex_lower (thirty_two 2) ≢ hex_lower (thirty_two 1)
unfolding hex_lower
other_key e =
    let digit : ◌≡◌ {A = ℕ} 50 49 = ap (λ (t : Text). get_or t 1 0) e in omega (arith, digit)

renewal_replaces_key_example :
    (resolve (plaintext_wrapper true) twice.dir.spool_key ≡ SpoolKey.ok (hex_lower (thirty_two 2)))
    × (resolve (plaintext_wrapper true) twice.dir.spool_key
        ≢ resolve (plaintext_wrapper true) once.dir.spool_key)
renewal_replaces_key_example =
    renewal_replaces_key (around 2) base facts (20 * day) (some (text "u")) once twice (text "d-1")
      (text "9") (hex_lower (thirty_two 1)) cng renewal (plaintext_unwraps true (thirty_two 2)) refl
      old_key other_key

abbrev without_wrapper : Surroundings
without_wrapper = record (around 1) { key_wrapper = plaintext_wrapper false }

abbrev half : Machine
half = (enroll without_wrapper base (text "t") facts empty).1

half_enrolled :
    enroll without_wrapper base (text "t") facts empty
    ≡ (err (spool_key_error SpoolKey.plaintext_not_permitted), half)
unfolding enroll text_eq plaintext_wrapper
half_enrolled = refl

half_expiry : expiry_of (around 1) (stored_identity (around 1) half.dir) ≡ some (40 * day)
unfolding enroll text_eq plaintext_wrapper load_identity not_after_ms
half_expiry = refl

key_failure_strands_example :
    (id : DeviceIdentity) × (ensure_enrolled (around 1) base facts day none half
      ≡ (some (already_enrolled id.device_id id.not_after), half))
    × (resolve (plaintext_wrapper true) half.dir.spool_key ≡ SpoolKey.err SpoolKey.not_found)
key_failure_strands_example =
    key_failure_strands without_wrapper (around 1) base base (text "t") facts facts empty half
      SpoolKey.plaintext_not_permitted day (40 * day) none half_enrolled refl refl reads_back
      half_expiry (omega arith)

abbrev file_in : CredentialDir → Text → FileRead
file_in d path =
    if text_eq path cert_file
    then read_file true d.cert
    else if text_eq path chain_file
    then read_file true d.chain
    else missing

abbrev files_in : CredentialDir → Files
files_in d = record {
  from_json = from_bytes;
  certs = λ pem. some ((0x30 ∷ []) ∷ []);
  identity = read_file true d.identity;
  file = file_in d;
  open_key = done key;
}

files_lie : (d : CredentialDir) → LiesIn (files_in d) d
unfolding text_eq
files_lie d = (refl, refl, refl)

ensure_enrolled-loads_example :
    load_with (files_in once.dir)
    ≡ Credential.ok (record {
      chain = (0x30 ∷ []) ∷ [];
      signing_key = record { key = key; spki = spki_p256 (4 ∷ 7 ∷ 9 ∷ []) };
      device_id = text "d-1";
      not_after = text "9";
      key_kind = cng;
    })
ensure_enrolled-loads_example =
    ensure_enrolled-loads (files_in once.dir) (around 1) base facts day (some (text " t ")) empty
      once (text "d-1") (text "9") false cng (0x30 ∷ []) [] key (4 ∷ 7 ∷ 9 ∷ []) first_enrolment
      (files_lie once.dir) reads_back (λ cert chain e k. refl) refl refl

abbrev first_turn : Turn
first_turn = record {
  surroundings = around 1;
  opened = done key;
  api_base = base;
  facts = facts;
  now_ms = day;
}

abbrev host : Host
host = record { machine = empty; installer_token = some (text "t") }

turns-load_with_example :
    let d = (turns (first_turn ∷ []) host).machine.dir in
    (load_with (files_in d) ≢ Credential.err Credential.io)
    × ((load_with (files_in d) ≡ Credential.err Credential.not_enrolled) ↔ (d.identity ≡ none))
turns-load_with_example =
    let d = (turns (first_turn ∷ []) host).machine.dir in
    turns-load_with (files_in d) (first_turn ∷ []) host (reads_back, tt) refl (files_lie d)

abbrev der_of : KeyAnswer Bytes → Bytes
der_of (done der) = der
der_of (failed e) = []

abbrev request : Bytes
request = der_of (build_csr_der key (text "G"))

request_built : build_csr_der key (text "G") ≡ done request
unfolding build_csr_der
request_built = refl

request_short : length request < u64_mod
unfolding build_csr_der
request_short = omega arith

build_csr_der-IsRequest_example :
    (info point signature : Bytes) × (key.public_point ≡ done point)
    × (key.sign info ≡ done signature)
    × IsRequest (text "G") point signature info request
build_csr_der-IsRequest_example =
    build_csr_der-IsRequest key (text "G") request request_built request_short
