-- ===== src/ConfigTx/Service.antt =====
-- internal/configtx/configtx.go: a service over one configuration file, and the drafts that it opens.
use homepi_mon.Common.{String, Bool, Option, none, some, Result, ok, err, if◌then◌else◌}
use homepi_mon.Common.{ℕ, ◌>>◌, str_eq, refuse}
use homepi_mon.Config.{Config, empty_config, apply_defaults}
use homepi_mon.Config.Validate.{Platform, ConfigError}
use homepi_mon.Config.Validate.Providers.{validate}
use homepi_mon.ConfigTx.{Env, revision_of}
use homepi_mon.ConfigTx.Draft.{Draft, new_draft}
use homepi_mon.ConfigTx.Apply.{Service}

pub data DraftOpenError : Type 0 where
  path_required secret_dir_required store_unavailable unreadable not_parsed : DraftOpenError
  not_valid : ConfigError → DraftOpenError

abbrev checked : Platform → Config → Result DraftOpenError Config
unfolding validate
checked net c = elim (validate net c) [ ok u ↦ ok c | err e ↦ err (not_valid e) ]

-- `config.Load` of the bytes of a file: they are parsed, completed and validated.
unfoldable pub load_config : Env → String → Result DraftOpenError Config
unfolding apply_defaults validate
load_config env bytes = elim (env.json.decode bytes) [
  | none ↦ err not_parsed
  | some c ↦ checked env.net (apply_defaults c)
]

-- `loadOrEmpty`.
unfoldable pub load_or_empty : Env → Option String → Result DraftOpenError Config
unfolding load_config apply_defaults
load_or_empty env none = ok (apply_defaults empty_config)
load_or_empty env (some bytes) = load_config env bytes

-- `New`: `opens` tells whether the secret store can be opened, and `reads` whether the file can be read.
unfoldable pub new_service :
    Env → String → Bool → Bool → ℕ → Option String → Result DraftOpenError Service
unfolding revision_of
new_service env secret_dir opens reads address file = do
  refuse (str_eq env.config_path "") path_required
  refuse (str_eq secret_dir "") secret_dir_required
  (if opens then ok tt else err store_unavailable)
  (if reads then ok tt else err unreadable)
  ok (record { address = address; base_revision = revision_of env file; last_apply = none })

abbrev opened : Env → Service → Option String → Config → Service × Result DraftOpenError Draft
unfolding revision_of new_draft
opened env s file base =
    let revision = revision_of env file in
    (record s { base_revision = revision }, ok (new_draft s.address base revision))

-- `OpenDraft`, of a file that can be read.
unfoldable pub open_draft : Env → Service → Option String → Service × Result DraftOpenError Draft
unfolding load_or_empty revision_of new_draft
open_draft env s file = elim (load_or_empty env file) [
  | err e ↦ (s, err e)
  | ok base ↦ opened env s file base
]
