-- ===== src/Enrolment/Service.antt =====
-- What the service does about its credential at start-up and every six hours: `ensure_enrolled` of
-- client/sentinel-service/src/enroll.rs and its caller in main.rs. An `expect` that fails is
-- `none`. The registry holds the token of the installer.
use magick_sentinel.Prelude.{
  ℕ, ◌/◌, Bool, true, false, Option, none, some, if◌then◌else◌, is_some, Text, Bytes,
}
use magick_sentinel.Whitespace.{trim, is_empty}
use magick_sentinel.DeviceKey as DeviceKey
use magick_sentinel.DeviceKey.{DeviceKey, KeyKind, KeyAnswer}
use magick_sentinel.Enrolment.{
  DeviceIdentity, MachineFacts, EnrollError, Result, ok, err, Enrolled, RenewalDecision,
  not_enrolled, current, renew_now, renew_blocked_no_token, renewal_decision, Surroundings,
  CredentialDir, Machine, enroll,
}

pub data FileRead : Type 0 where
  contents : Bytes → FileRead
  missing unreadable : FileRead

abbrev pub read_file : Bool → Option Bytes → FileRead
read_file true (some bytes) = contents bytes
read_file true none = missing
read_file false file = unreadable

-- `Ok(None)` is `no_identity`.
pub data IdentityRead : Type 0 where
  found : DeviceIdentity → IdentityRead
  no_identity identity_io : IdentityRead

abbrev pub parsed : Option DeviceIdentity → IdentityRead
parsed none = no_identity
parsed (some id) = found id

unfoldable pub load_identity : (Bytes → Option DeviceIdentity) → FileRead → IdentityRead
load_identity from_json (contents bytes) = parsed (from_json bytes)
load_identity from_json missing = no_identity
load_identity from_json unreadable = identity_io

abbrev pub flatten : IdentityRead → Option DeviceIdentity
flatten (found id) = some id
flatten no_identity = none
flatten identity_io = none

-- `map(str::trim).filter(|t| !t.is_empty())`.
abbrev pub usable : Option Text → Option Text
usable none = none
usable (some t) = if is_empty (trim t) then none else some (trim t)

abbrev pub token_in : FileRead → Option Text
token_in (contents bytes) = usable (some bytes)
token_in missing = none
token_in unreadable = none

unfoldable pub read_renewal_token : Surroundings → CredentialDir → Option Text
unfolding trim
read_renewal_token s dir = token_in (read_file s.reads_token dir.renewal_token)

unfoldable pub clear_renewal_token : Surroundings → CredentialDir → CredentialDir
clear_renewal_token s dir = if s.removes_token then record dir { renewal_token = none } else dir

abbrev pub in_ms : Option ℕ → Option ℕ
in_ms none = none
in_ms (some ns) = some (ns / 1000000)

unfoldable pub not_after_ms : (Text → Option ℕ) → Text → Option ℕ
unfolding trim
not_after_ms rfc3339_ns not_after = in_ms (rfc3339_ns (trim not_after))

pub data EnsureOutcome : Type 0 where
  already_enrolled : Text → Text → EnsureOutcome
  enrolled : Text → Text → Bool → KeyKind → EnsureOutcome
  not_enrolled_no_token : EnsureOutcome
  renewal_blocked_no_token : Text → EnsureOutcome
  failed : EnrollError → EnsureOutcome

abbrev pub outcome_of : Bool → Result Enrolled × Machine → Option EnsureOutcome × Machine
outcome_of renewing (ok out, m) =
    (some (enrolled out.identity.device_id out.identity.not_after renewing out.key_kind), m)
outcome_of renewing (err e, m) = (some (failed e), m)

unfoldable pub on_decision :
    Surroundings
    → Text
    → MachineFacts
    → Option DeviceIdentity
    → Option Text
    → RenewalDecision
    → Machine
    → Option EnsureOutcome × Machine
unfolding enroll
on_decision s api_base facts (some id) token current m =
    (some (already_enrolled id.device_id id.not_after), m)
on_decision s api_base facts none token current m = (none, m)
on_decision s api_base facts (some id) token renew_blocked_no_token m =
    (some (renewal_blocked_no_token id.not_after), m)
on_decision s api_base facts none token renew_blocked_no_token m = (none, m)
on_decision s api_base facts identity none not_enrolled m = (some not_enrolled_no_token, m)
on_decision s api_base facts identity (some token) not_enrolled m =
    outcome_of false (enroll s api_base token facts m)
on_decision s api_base facts identity none renew_now m = (none, m)
on_decision s api_base facts identity (some token) renew_now m =
    outcome_of true (enroll s api_base token facts m)

abbrev pub stored_identity : Surroundings → CredentialDir → Option DeviceIdentity
stored_identity s dir =
    flatten (load_identity s.from_json (read_file s.reads_identity dir.identity))

abbrev pub expiry_of : Surroundings → Option DeviceIdentity → Option ℕ
expiry_of s none = none
expiry_of s (some id) = not_after_ms s.rfc3339_ns id.not_after

unfoldable pub ensure_enrolled :
    Surroundings → Text → MachineFacts → ℕ → Option Text → Machine → Option EnsureOutcome × Machine
unfolding load_identity not_after_ms trim renewal_decision on_decision
ensure_enrolled s api_base facts now_ms token m =
    let identity = stored_identity s m.dir in
    let expiry = expiry_of s identity in
    let decision = renewal_decision identity expiry now_ms (is_some (usable token)) in
    on_decision s api_base facts identity (usable token) decision m

-- The machine, and the token that the installer left in the registry.
pub record Host : Type 0 where
  pub machine : Machine
  pub installer_token : Option Text

abbrev pub or_token : Option Text → Option Text → Option Text
or_token (some t) other = some t
or_token none other = other

abbrev pub after_enrolled : Surroundings → Option Text → Option Text → Machine → Host
after_enrolled s (some renewal) installer m = record {
  machine = record m { dir = clear_renewal_token s m.dir };
  installer_token = installer;
}
after_enrolled s none installer m = record { machine = m; installer_token = none }

abbrev pub conclude :
    Surroundings → Option Text → Option Text → Option EnsureOutcome × Machine → Host
conclude s renewal installer (some (enrolled id not_after renewed kind), m) =
    after_enrolled s renewal installer m
conclude s renewal installer (_, m) = record { machine = m; installer_token = installer }

-- With the key that `open_or_create` answers; without one nothing is done.
unfoldable pub ensure_device_credential :
    Surroundings → KeyAnswer DeviceKey → Text → MachineFacts → ℕ → Host → Host
unfolding read_renewal_token clear_renewal_token ensure_enrolled
ensure_device_credential s (DeviceKey.failed e) api_base facts now_ms h = h
ensure_device_credential s (DeviceKey.done key) api_base facts now_ms h =
    let renewal = read_renewal_token s h.machine.dir in
    let token = or_token renewal h.installer_token in
    conclude s renewal h.installer_token
      (ensure_enrolled (record s { key = key }) api_base facts now_ms token h.machine)
