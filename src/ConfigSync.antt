-- ===== src/ConfigSync.antt =====
-- The service's configuration cache: client/sentinel-service/src/config_sync.rs.
-- The files are what they hold. A write goes through a temporary file, so that one that fails leaves
-- the file as it was; whether it succeeds is given, as are serde's texts, what the server answers
-- and the installer's values in the registry. `LocalConfig` and `Policy`, into
-- which the cache does not look, are any types, with the test of the policy's PartialEq.
pub mod Cache
use magick_sentinel.Prelude.{Bool, true, false, Option, none, some, if◌then◌else◌, or_else, Text}

pub record Format {ℓ} (A : Type ℓ) : Type ℓ where
  pub print : A → Text
  pub parse : Text → Option A

pub record Files : Type 0 where
  pub config : Option Text  -- config.json
  pub policy : Option Text  -- policy.json

abbrev pub read_as {ℓ} : {A : Type ℓ} → Format A → Option Text → Option A
read_as format none = none
read_as format (some s) = format.parse s

abbrev pub or_else_option {ℓ} : {A : Type ℓ} → Option A → Option A → Option A
or_else_option none other = other
or_else_option (some x) other = some x

pub record ConfigStore (L P : Type 0) : Type 0 where
  pub local : L
  pub policy : Option P

pub data Refreshed : Type 0 where
  refreshed : Bool → Refreshed  -- whether the policy has changed
  failed : Refreshed

-- What the store stands on.
pub record Outside (L P : Type 0) : Type 0 where
  pub local_format : Format L
  pub policy_format : Format P
  pub default_config : L
  pub eq : P → P → Bool

module _ {L P : Type 0} (o : Outside L P) where
  unfoldable pub open_store : Option L → Files → ConfigStore L P
  open_store installed files = record {
    local =
        or_else (or_else_option (read_as o.local_format files.config) installed) o.default_config;
    policy = read_as o.policy_format files.policy;
  }

  unfoldable pub persist_local : Bool → ConfigStore L P → Files → Files × Bool
  persist_local writes c files =
      if writes
      then (record files { config = some (o.local_format.print c.local) }, true)
      else (files, false)

  unfoldable pub persist_policy : Bool → P → Files → Files × Bool
  persist_policy writes p files =
      if writes
      then (record files { policy = some (o.policy_format.print p) }, true)
      else (files, false)

  abbrev pub is_policy : Option P → P → Bool
  is_policy none fresh = false
  is_policy (some p) fresh = o.eq p fresh

  -- The store after `persist_policy`, whose error ends the refresh.
  abbrev pub stored : ConfigStore L P → P → Files × Bool → ConfigStore L P × Files × Refreshed
  stored c fresh (files, true) = (record c { policy = some fresh }, files, refreshed true)
  stored c fresh (files, false) = (c, files, failed)

  -- `refresh` with what the fetch gives; none says that it failed.
  unfoldable pub refresh :
      Bool → Option P → ConfigStore L P → Files → ConfigStore L P × Files × Refreshed
  unfolding persist_policy
  refresh writes none c files = (c, files, failed)
  refresh writes (some fresh) c files =
      if is_policy c.policy fresh
      then (c, files, refreshed false)
      else stored c fresh (persist_policy writes fresh files)
