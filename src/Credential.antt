-- ===== src/Credential.antt =====
-- The credential that the agent presents: client/sentinel-agent/src/device.rs.
-- The PEM reader is a parameter, as is what the files hold. A certified key is its chain with the
-- signing key; a signature scheme is its number in the TLS registry.
pub mod Loading
use magick_sentinel.Prelude.{
  ℕ, Bool, true, false, ◌||◌, Option, none, some, List, [], ◌∷◌, ◌++◌, ◌==◌, if◌then◌else◌, Text,
  Bytes,
}
use magick_sentinel.DeviceKey.{
  DeviceKeyError, KeyAnswer, done, failed, DeviceKey, KeyKind, spki_p256,
  meets_non_exportable_requirement,
}
use magick_sentinel.Enrolment.{DeviceIdentity}
use magick_sentinel.Enrolment.Service.{
  FileRead, contents, missing, unreadable, IdentityRead, found, no_identity, identity_io,
  load_identity,
}

pub data CredentialError : Type 0 where
  not_enrolled io bad_certificate : CredentialError
  key_failed : DeviceKeyError → CredentialError

pub data Loaded {ℓ} (A : Type ℓ) : Type ℓ where
  ok : A → Loaded A
  err : CredentialError → Loaded A

infixl 5 ◌>>=◌
abbrev pub ◌>>=◌ {ℓ κ} : {A : Type ℓ} {B : Type κ} → Loaded A → (A → Loaded B) → Loaded B
ok a >>= f = f a
err e >>= f = err e

pub record DeviceSigningKey : Type 0 where
  pub key : DeviceKey
  pub spki : Bytes

pub record DeviceCredential : Type 0 where
  pub chain : List Bytes
  pub signing_key : DeviceSigningKey
  pub device_id : Text
  pub not_after : Text
  pub key_kind : KeyKind

-- What the agent finds: its reader of JSON and of PEM, the files by their path below the directory
-- of the credential, and the key.
pub record Files : Type 0 where
  pub from_json : Bytes → Option DeviceIdentity
  pub certs : Bytes → Option (List Bytes)
  pub identity : FileRead
  pub file : Text → FileRead
  pub open_key : KeyAnswer DeviceKey

abbrev pub from_identity : IdentityRead → Loaded DeviceIdentity
from_identity (found id) = ok id
from_identity no_identity = err not_enrolled
from_identity identity_io = err io

abbrev pub from_key {ℓ} : {A : Type ℓ} → KeyAnswer A → Loaded A
from_key (done a) = ok a
from_key (failed e) = err (key_failed e)

abbrev pub leaf_of : FileRead → Loaded Bytes
leaf_of (contents bytes) = ok bytes
leaf_of missing = err io
leaf_of unreadable = err io

abbrev newline : ℕ
newline = 0x0a

abbrev pub with_chain : Bytes → FileRead → Bytes
with_chain pem (contents chain) = pem ++ (newline ∷ chain)
with_chain pem missing = pem
with_chain pem unreadable = pem

abbrev pub from_certs : Option (List Bytes) → Loaded (List Bytes)
from_certs none = err bad_certificate
from_certs (some certs) = ok certs

unfoldable pub read_chain :
    (Bytes → Option (List Bytes)) → FileRead → FileRead → Loaded (List Bytes)
read_chain certs cert chain = do pem ← leaf_of cert; from_certs (certs (with_chain pem chain))

abbrev pub not_empty : List Bytes → Loaded (List Bytes)
not_empty [] = err bad_certificate
not_empty (leaf ∷ rest) = ok (leaf ∷ rest)

abbrev pub with_point : DeviceKey → KeyAnswer Bytes → KeyAnswer DeviceSigningKey
with_point k (failed e) = failed e
with_point k (done point) = done (record { key = k; spki = spki_p256 point })

unfoldable pub signing_key_of : DeviceKey → KeyAnswer DeviceSigningKey
signing_key_of k = with_point k k.public_point

unfoldable pub load_with : Files → Loaded DeviceCredential
unfolding load_identity read_chain signing_key_of
load_with f = do
  identity ← from_identity (load_identity f.from_json f.identity)
  read ← read_chain f.certs (f.file identity.cert_path) (f.file identity.ca_chain_path)
  chain ← not_empty read
  key ← from_key f.open_key
  signing_key ← from_key (signing_key_of key)
  ok (record {
    chain = chain;
    signing_key = signing_key;
    device_id = identity.device_id;
    not_after = identity.not_after;
    key_kind = key.kind;
  })

abbrev pub ecdsa_nistp256_sha256 : ℕ
ecdsa_nistp256_sha256 = 0x0403

unfoldable pub offers : ℕ → List ℕ → Bool
offers scheme [] = false
offers scheme (x ∷ xs) = let rest = offers scheme xs in x == scheme || rest

-- `DeviceSigner` is its key.
unfoldable pub choose_scheme : DeviceSigningKey → List ℕ → Option DeviceKey
unfolding offers
choose_scheme k offered = if offers ecdsa_nistp256_sha256 offered then some k.key else none

-- `AlwaysThisDevice`: the hints and the schemes are ignored.
unfoldable pub resolve : DeviceCredential → List Bytes → List ℕ → Option DeviceCredential
resolve credential root_hint_subjects sigschemes = some credential
