-- ===== src/Enrolment.antt =====
-- Enrolment and the directory of the device credential: client/sentinel-service/src/enroll.rs,
-- http.rs and device.rs. A file is its bytes, if it is there; a write that goes through a temporary file is
-- done whole or not at all, and `Writes` says which of them succeed. Reading and writing JSON, RFC
-- 3339 times, base64, the device key, the wrapper and the exchange itself are parameters. Times are
-- counted from 1970 on.
pub mod Service
pub mod Decision
pub mod Exchange
pub mod Effect
pub mod Directory
pub mod Flaws
use magick_sentinel.Prelude.{
  ℕ, ◌+◌, ◌*◌, Bool, true, false, not, ◌&&◌, ◌||◌, Option, none, some, List, [], ◌∷◌, ◌++◌, leb,
  ◌==◌, if◌then◌else◌, is_some, Text, text, text_eq, Bytes,
}
use magick_sentinel.Whitespace.{trim, is_empty}
use magick_sentinel.Config.{starts_with, trim_slashes}
use magick_sentinel.SpoolKey as SpoolKey
use magick_sentinel.SpoolKey.{SpoolKeyError, KeyWrapper, KeyResult, generate_and_store}
use magick_sentinel.DeviceKey as DeviceKey
use magick_sentinel.DeviceKey.{DeviceKey, DeviceKeyError, KeyKind, KeyAnswer}
use magick_sentinel.Csr.{build_csr_pem}

pub record DeviceIdentity : Type 0 where
  pub device_id : Text
  pub machine_guid : Text
  pub hw_fingerprint : Text
  pub not_after : Text
  pub cert_path : Text
  pub ca_chain_path : Text

pub record EnrollRequest : Type 0 where
  pub enrollment_token : Text
  pub csr_pem : Text
  pub machine_guid : Text
  pub hw_fingerprint : Text
  pub os_build : Text
  pub capture_tier : Text
  pub agent_version : Text

pub record EnrollResponse : Type 0 where
  pub device_id : Text
  pub certificate_pem : Text
  pub ca_chain_pem : Text
  pub not_after : Text

pub data EnrollError : Type 0 where
  no_token : EnrollError
  unsupported_tier : Option Text → EnrollError
  unreachable : Text → EnrollError
  token_unusable no_certificate_authority : EnrollError
  rejected : ℕ → Text → EnrollError
  decode : Text → EnrollError
  bad_certificate : EnrollError
  key_error : DeviceKeyError → EnrollError
  spool_key_error : SpoolKeyError → EnrollError
  io_error : EnrollError

pub data Result {ℓ} (A : Type ℓ) : Type ℓ where
  ok : A → Result A
  err : EnrollError → Result A

pub record Enrolled : Type 0 where
  pub identity : DeviceIdentity
  pub key_kind : KeyKind
  pub spool_key : Text

pub record MachineFacts : Type 0 where
  pub machine_guid : Text
  pub hw_fingerprint : Text
  pub os_build : Text
  pub capture_tier : Option Text
  pub agent_version : Text

pub data RenewalDecision : Type 0 where
  not_enrolled current renew_now renew_blocked_no_token : RenewalDecision

abbrev pub cert_file : Text
cert_file = text "device.crt"

abbrev pub chain_file : Text
chain_file = text "ca-chain.crt"

abbrev pub renew_when_remaining_ms : ℕ
renew_when_remaining_ms = 30 * 24 * 3600 * 1000

-- `exp - now_ms <= …`.
unfoldable pub needs_renewal : Option ℕ → ℕ → Bool
needs_renewal none now_ms = true
needs_renewal (some exp) now_ms = leb exp (now_ms + renew_when_remaining_ms)

unfoldable pub renewal_decision : Option DeviceIdentity → Option ℕ → ℕ → Bool → RenewalDecision
unfolding needs_renewal
renewal_decision none not_after_ms now_ms renewal_token_present = not_enrolled
renewal_decision (some id) not_after_ms now_ms renewal_token_present =
    if not (needs_renewal not_after_ms now_ms)
    then current
    else if renewal_token_present
    then renew_now
    else renew_blocked_no_token

unfoldable pub contains : Text → Text → Bool
unfolding starts_with
contains part [] = starts_with part []
contains part (c ∷ s) = let later = contains part s in starts_with part (c ∷ s) || later

unfoldable pub looks_like_certificate_pem : Text → Bool
unfolding contains
looks_like_certificate_pem pem =
    contains (text "-----BEGIN CERTIFICATE-----") pem
    && contains (text "-----END CERTIFICATE-----") pem

-- What `send_json` and `read_json` of the HTTP library make of an exchange.
pub data HttpReply : Type 0 where
  body : EnrollResponse → HttpReply
  undecodable : Text → HttpReply
  status_code : ℕ → HttpReply
  other : Text → HttpReply

-- `HttpEnrollTransport::post` of http.rs.
unfoldable pub post : HttpReply → Result EnrollResponse
post (body response) = ok response
post (undecodable e) = err (decode e)
post (status_code status) =
    if status == 401
    then err token_unusable
    else if status == 503
    then err no_certificate_authority
    else err (rejected status [])
post (other e) = err (unreachable e)

-- The credential directory, the spool key of which is in the same place.
pub record CredentialDir : Type 0 where
  pub cert : Option Bytes
  pub chain : Option Bytes
  pub identity : Option Bytes
  pub spool_key : Option Bytes
  pub renewal_token : Option Bytes

-- The directory, and the requests that have been sent.
pub record Machine : Type 0 where
  pub dir : CredentialDir
  pub posts : List (Text × EnrollRequest)

-- What a run of the service finds around it.
pub record Surroundings : Type 0 where
  pub key : DeviceKey
  pub exchange : Text → EnrollRequest → HttpReply
  pub key_wrapper : KeyWrapper
  pub material : Bytes
  pub base64 : Bytes → Text
  pub to_json : DeviceIdentity → Bytes
  pub from_json : Bytes → Option DeviceIdentity
  pub rfc3339_ns : Text → Option ℕ
  pub reads_identity : Bool
  pub reads_token : Bool
  pub removes_token : Bool
  pub makes_dir : Bool
  pub writes_cert : Bool
  pub writes_chain : Bool
  pub writes_identity : Bool
  pub writes_key : Bool

abbrev pub Action {ℓ} : Type ℓ → Type ℓ
Action A = Machine → Result A × Machine

abbrev pub continue_with {ℓ κ} :
    {A : Type ℓ} {B : Type κ} → Result A × Machine → (A → Action B) → Result B × Machine
continue_with (ok a, m) f = f a m
continue_with (err e, m) f = (err e, m)

infixl 5 ◌>>=◌ ◌>>◌
abbrev pub ◌>>=◌ {ℓ κ} : {A : Type ℓ} {B : Type κ} → Action A → (A → Action B) → Action B
◌>>=◌ act f m = continue_with (act m) f

abbrev pub ◌>>◌ {ℓ} : {B : Type ℓ} → Action (Unit {0}) → Action B → Action B
act >> next = act >>= λ _. next

abbrev pub pure {ℓ} : {A : Type ℓ} → A → Action A
pure a m = (ok a, m)

abbrev pub raise_if : Bool → EnrollError → Action (Unit {0})
raise_if true e m = (err e, m)
raise_if false e m = (ok tt, m)

-- A write of one file: `put` makes the new directory.
abbrev pub write : Bool → (CredentialDir → CredentialDir) → Action (Unit {0})
write true put m = (ok tt, record m { dir = put m.dir })
write false put m = (err io_error, m)

abbrev pub supported_tier : Option Text → Action Text
supported_tier none m = (err (unsupported_tier none), m)
supported_tier (some t) m = (
  if text_eq t (text "A") || text_eq t (text "B") then ok t else err (unsupported_tier (some t)),
  m,
)

abbrev pub from_key {ℓ} : {A : Type ℓ} → KeyAnswer A → Action A
from_key (DeviceKey.done a) m = (ok a, m)
from_key (DeviceKey.failed e) m = (err (key_error e), m)

abbrev pub send : (Text → EnrollRequest → HttpReply) → Text → EnrollRequest → Action EnrollResponse
send exchange url request m =
    (post (exchange url request), record m { posts = m.posts ++ ((url, request) ∷ []) })

unfoldable pub save_identity : Surroundings → DeviceIdentity → Action (Unit {0})
save_identity s id = do
  write s.makes_dir (λ d. d)
  write s.writes_identity (λ d. record d { identity = some (s.to_json id) })

abbrev pub issued : MachineFacts → EnrollResponse → DeviceIdentity
issued facts response = record {
  device_id = response.device_id;
  machine_guid = facts.machine_guid;
  hw_fingerprint = facts.hw_fingerprint;
  not_after = response.not_after;
  cert_path = cert_file;
  ca_chain_path = chain_file;
}

unfoldable pub persist : Surroundings → MachineFacts → EnrollResponse → Action DeviceIdentity
unfolding looks_like_certificate_pem save_identity
persist s facts response = do
  raise_if (not (looks_like_certificate_pem response.certificate_pem)) bad_certificate
  write s.makes_dir (λ d. d)
  write s.writes_cert (λ d. record d { cert = some response.certificate_pem })
  write s.writes_chain (λ d. record d { chain = some response.ca_chain_pem })
  save_identity s (issued facts response)
  pure (issued facts response)

abbrev pub from_spool_key {ℓ} : {A : Type ℓ} → KeyResult A → Result A
from_spool_key (SpoolKey.ok a) = ok a
from_spool_key (SpoolKey.err e) = err (spool_key_error e)

unfoldable pub generate_key : Surroundings → Action Text
unfolding generate_and_store
generate_key s m =
    let (file, answer) =
      generate_and_store s.key_wrapper (s.makes_dir && s.writes_key) s.material m.dir.spool_key in
    (from_spool_key answer, record m { dir = record m.dir { spool_key = file } })

unfoldable pub enroll_url : Text → Text
unfolding trim_slashes
enroll_url api_base = trim_slashes api_base ++ text "/v1/devices/enroll"

abbrev pub request_for : Text → MachineFacts → Text → Text → EnrollRequest
request_for token facts csr_pem tier = record {
  enrollment_token = token;
  csr_pem = csr_pem;
  machine_guid = facts.machine_guid;
  hw_fingerprint = facts.hw_fingerprint;
  os_build = facts.os_build;
  capture_tier = tier;
  agent_version = facts.agent_version;
}

unfoldable pub enroll : Surroundings → Text → Text → MachineFacts → Action Enrolled
unfolding post trim build_csr_pem enroll_url persist generate_key
enroll s api_base token facts = do
  raise_if (is_empty (trim token)) no_token
  tier ← supported_tier facts.capture_tier
  csr_pem ← from_key (build_csr_pem s.base64 s.key facts.machine_guid)
  response ← send s.exchange (enroll_url api_base) (request_for (trim token) facts csr_pem tier)
  identity ← persist s facts response
  spool_key ← generate_key s
  pure (record { identity = identity; key_kind = s.key.kind; spool_key = spool_key })
