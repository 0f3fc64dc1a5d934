-- ===== src/ConfigTx.antt =====
-- internal/configtx: drafts of the configuration and how they are applied as a transaction over the
-- configuration file, the secret store and the running service. Here: what configtx.go and errors.go
-- share.
pub mod Refs
pub mod Overlay
pub mod Draft
pub mod Diff
pub mod Keyring
pub mod Apply
pub mod Service
pub mod Session
pub mod Tests
use homepi_mon.Common.{
  ℕ, String, Bool, List, Option, none, some, str_append, Result, ok, err, if◌then◌else◌,
}
use homepi_mon.Common.Table.{Table}
use homepi_mon.Config.{ProviderConfig, Config, Json}
use homepi_mon.Config.Validate.{Platform, ConfigError}
use homepi_mon.ProviderMeta.{Registry}

-- What the package is given: the platform, the types registered by the connectors, the texts of
-- encoding/json, `hex(sha256(text))`, and the absolute path of the configuration.
pub record Env : Type 0 where
  pub net : Platform
  pub known_types : List String
  pub registry : Registry
  pub json : Json
  pub marshal_provider : ProviderConfig → Option String
  pub sha256_hex : String → String
  pub config_path : String

-- The refusals of a draft. All but the last three wrap `ErrInvalidDraft`.
pub data DraftError : Type 0 where
  type_unregistered type_required type_changed region_unsupported drop_exclusive : DraftError
  provider_missing ref_invalid metric_ids_unknown not_tested : DraftError
  config_invalid : ConfigError → DraftError
  secret_oversize not_marshalled : DraftError
  shadowed : String → String → String → DraftError

pub data ApplyStep : Type 0 where
  validating persisting restarting verifying rolling_back finalising completed : ApplyStep

abbrev body_of : Option String → String
body_of none = "<missing>"
body_of (some bytes) = bytes

-- `revisionForDisk` of the bytes that were read; none when the file is missing.
unfoldable pub revision_of : Env → Option String → String
revision_of env file = env.sha256_hex (str_append env.config_path (str_append "\0" (body_of file)))
