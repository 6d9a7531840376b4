-- ===== src/Startup.antt =====
-- What an agent starts with: client/sentinel-agent/src/main.rs. The spool key, the credential, the
-- snapshot of the service and the restored session are given.
use magick_sentinel.Prelude.{
  ◌≡◌, ◌↔◌, Bool, true, Option, none, some, List, [], ◌∷◌, ◌++◌, if◌then◌else◌, or_else, length,
  drop, Text, text, text_eq, arith,
}
use magick_sentinel.Whitespace.{trim, is_empty}
use magick_sentinel.Config.{trim_slashes, starts_with}
use magick_sentinel.Events.{ClientEvent, new, with_detail, capture_error}
use magick_sentinel.SpoolKey as SpoolKey
use magick_sentinel.SpoolKey.{KeyResult}
use magick_sentinel.Credential as Credential
use magick_sentinel.Credential.{Loaded, DeviceCredential}

pub data StartTier : Type 0 where
  tier_a tier_b : StartTier

unfoldable pub tier_of : Option Text → Option StartTier
tier_of none = none
tier_of (some t) =
    if text_eq t (text "A") then some tier_a else if text_eq t (text "B") then some tier_b else none

-- The directory that is configured, or else the default one.
unfoldable pub device_dir : Text → Option Text → Text
unfolding trim
device_dir credential_dir none = credential_dir
device_dir credential_dir (some d) = if is_empty (trim d) then credential_dir else trim d

-- `replacen(from, to, 1)`.
unfoldable pub replace_first : Text → Text → Text → Text
unfolding starts_with
replace_first from to [] = if starts_with from [] then to else []
replace_first from to (c ∷ s) =
    let later = replace_first from to s in
    if starts_with from (c ∷ s) then to ++ drop (length from) (c ∷ s) else c ∷ later

unfoldable pub ingest_url : Text → Text
unfolding trim_slashes replace_first
ingest_url api_base_url =
    let secure = replace_first (text "https://") (text "wss://") (trim_slashes api_base_url) in
    replace_first (text "http://") (text "ws://") secure ++ text "/v1/ingest"

pub data SpoolChoice : Type 0 where
  on_disk : Text → SpoolChoice
  in_memory : SpoolChoice

-- `Spool::open` may fail, which ends the start.
abbrev pub spool_of : (Text → Bool) → KeyResult Text → Option SpoolChoice
spool_of spool_opens (SpoolKey.ok key) = if spool_opens key then some (on_disk key) else none
spool_of spool_opens (SpoolKey.err e) = some in_memory

abbrev pub blockers_of : KeyResult Text → List ClientEvent
blockers_of (SpoolKey.ok key) = []
blockers_of (SpoolKey.err e) = with_detail (new capture_error 0) (text "spool_key_unavailable") ∷ []

abbrev pub credential_of : Loaded DeviceCredential → Option DeviceCredential
credential_of (Credential.ok c) = some c
credential_of (Credential.err e) = none

abbrev pub device_id_of : Option DeviceCredential → Option Text → Text
device_id_of (some c) local = c.device_id
device_id_of none local = or_else local []

abbrev pub missing_credential : Option DeviceCredential → List ClientEvent
missing_credential (some c) = []
missing_credential none = with_detail (new capture_error 0) (text "device_certificate_missing") ∷ []

abbrev pub unless_blocked : List ClientEvent → Option StartTier → Option StartTier
unless_blocked [] tier = tier
unless_blocked (e ∷ es) tier = none

-- `open_capture_source`: whether the platform has a source for a tier, and whether the agent's
-- `open_capture` succeeds on it, which the source outlives. The Boolean says whether capture is open.
abbrev pub open_capture_source :
    (StartTier → Bool)
    → (StartTier → Text → Bool)
    → Option StartTier
    → Option Text
    → Option (StartTier × Text × Bool)
open_capture_source has_source captures (some t) (some uid) =
    if has_source t then some (t, uid, captures t uid) else none
open_capture_source has_source captures (some t) none = none
open_capture_source has_source captures none uid = none

pub record Started : Type 0 where
  pub spool : SpoolChoice
  pub device_id : Text
  pub tier : Option StartTier
  pub events : List ClientEvent
  pub source : Option (StartTier × Text × Bool)

abbrev pub start_with :
    (StartTier → Bool)
    → (StartTier → Text → Bool)
    → List ClientEvent
    → Option DeviceCredential
    → Option Text
    → Option StartTier
    → Option Text
    → Option SpoolChoice
    → Option Started
start_with has_source captures blockers credential local_device_id tier restored_uid none = none
start_with has_source captures blockers credential local_device_id tier restored_uid (some spool) =
    some (record {
      spool = spool;
      device_id = device_id_of credential local_device_id;
      tier = tier;
      events = blockers ++ missing_credential credential;
      source = open_capture_source has_source captures (unless_blocked blockers tier) restored_uid;
    })

unfoldable pub run :
    (Text → Bool)
    → (StartTier → Bool)
    → (StartTier → Text → Bool)
    → KeyResult Text
    → Loaded DeviceCredential
    → Option Text
    → Option Text
    → Option Text
    → Option Started
unfolding tier_of
run spool_opens has_source captures key loaded local_device_id capture_tier restored_uid =
    start_with has_source captures (blockers_of key) (credential_of loaded) local_device_id
      (tier_of capture_tier) restored_uid (spool_of spool_opens key)

-- The spool and the source of an agent that has started with a source.
abbrev pub with_spool :
    SpoolChoice → Option (StartTier × Text × Bool) → Option (SpoolChoice × StartTier × Text × Bool)
with_spool spool none = none
with_spool spool (some (t, uid, open_now)) = some (spool, t, uid, open_now)

abbrev pub sourced : Option Started → Option (SpoolChoice × StartTier × Text × Bool)
sourced none = none
sourced (some s) = with_spool s.spool s.source

with_spool_iff :
    (key : Text) (has_source : StartTier → Bool) (captures : StartTier → Text → Bool)
    (tier : Option StartTier) (restored : Option Text) (spool : SpoolChoice) (t : StartTier)
    (uid : Text) (b : Bool)
    → (with_spool (on_disk key) (open_capture_source has_source captures tier restored)
        ≡ some (spool, t, uid, b))
      ↔ ((on_disk key ≡ spool)
          × (tier ≡ some t)
          × (restored ≡ some uid)
          × (has_source t ≡ true)
          × (b ≡ captures t uid))
with_spool_iff key has_source captures (some t') (some u) spool t uid b =
    ((λ e. grind arith), (λ h. grind arith))
with_spool_iff key has_source captures (some t') none spool t uid b = ((λ e. cc e), (λ h. cc h.2))
with_spool_iff key has_source captures none restored spool t uid b = ((λ e. cc e), (λ h. cc h.1))

-- An agent that starts with a capture source has its spool on disk under the resolved key. It has
-- one exactly when the key was resolved, the spool opened, the tier is the one of the snapshot, the
-- user was restored and the platform has a source for the tier; capture is then open exactly when
-- the agent's `open_capture` succeeded, which the source outlives. Without a key there is no source.
pub run_sources_iff :
    (spool_opens : Text → Bool) (has_source : StartTier → Bool) (captures : StartTier → Text → Bool)
    (key : KeyResult Text) (loaded : Loaded DeviceCredential)
    (local_device_id capture_tier restored_uid : Option Text) (spool : SpoolChoice) (t : StartTier)
    (uid : Text) (b : Bool)
    → (sourced
          (run spool_opens has_source captures key loaded local_device_id capture_tier restored_uid)
        ≡ some (spool, t, uid, b))
      ↔ ((k : Text) × (key ≡ SpoolKey.ok k)
          × (spool ≡ on_disk k)
          × (spool_opens k ≡ true)
          × (tier_of capture_tier ≡ some t)
          × (restored_uid ≡ some uid)
          × (has_source t ≡ true)
          × (b ≡ captures t uid))
unfolding run
run_sources_iff opens has_source captures (SpoolKey.ok k) loaded local capture restored spool t uid
      b =
    let sourced_iff =
      with_spool_iff k has_source captures (tier_of capture) restored spool t uid b in
    (
      (λ r. grind arith),
      (λ (x, ek, es, eo, et, eu, eh, eb).
          let same : k ≡ x = cc ek in
          let opens_it : opens k ≡ true = cc (same, eo) in
          rw opens_it (sourced_iff.1 (cc (same, es), et, eu, eh, eb))),
    )
run_sources_iff opens has_source captures (SpoolKey.err e) loaded local capture restored spool t uid
      b =
    ((λ r. cc r), (λ r. cc r.1))
