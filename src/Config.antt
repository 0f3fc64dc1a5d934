-- ===== src/Config.antt =====
-- internal/config/config.go: the configuration of the node, its defaults and how it is saved. A nil
-- slice and an empty one are the same list; a nil map of options and an empty one are told apart,
-- since an edit and the defaults tell them apart. The files' JSON text is a parameter (`Json`).
pub mod Validate
pub mod Saving
pub mod Sound
pub mod Tests
use homepi_mon.Common.{
  String, Bool, true, false, List, [], ◌∷◌, Option, none, some, map, str_eq, ◌&&◌, Result, ok, err,
  if◌then◌else◌,
}
use homepi_mon.Common.Int.{ℤ, pos, eqb_ℤ}
use homepi_mon.Common.Table.{Table}
use homepi_mon.Files.{Faults, Disk, Saved, empty_path, mkdir_all, keep, attempt, write_body}

pub record ProviderConfig : Type 0 where
  pub id : String
  pub kind : String  -- Type
  pub account_label : String
  pub region : String
  pub base_url : String
  pub interval : String
  pub stale_after : String
  pub enabled : Option Bool  -- *bool
  pub secret_ref : String
  pub auth_file : String
  pub mock_fixture : String
  pub options : Option (Table String)  -- map[string]string, nil is none

pub record DeviceConfig : Type 0 where
  pub id : String
  pub token_ref : String
  pub subscribed_metrics : List String

pub record SourceNodeConfig : Type 0 where
  pub id : String
  pub label : String

pub record TlsConfig : Type 0 where
  pub cert : String
  pub key : String

pub record ListenConfig : Type 0 where
  pub addr : String
  pub allow_public_bind : Bool
  pub tls : TlsConfig

pub record Config : Type 0 where
  pub schema_version : ℤ  -- int
  pub source_node : SourceNodeConfig
  pub listen : ListenConfig
  pub devices : List DeviceConfig
  pub providers : List ProviderConfig
  pub max_snapshot_bytes : ℤ  -- int

-- `SchemaVersion`.
abbrev pub schema : ℤ
schema = pos 1

abbrev pub empty_config : Config
empty_config = record {
  schema_version = schema;
  source_node = record { id = ""; label = "" };
  listen = record { addr = ""; allow_public_bind = false; tls = record { cert = ""; key = "" } };
  devices = [];
  providers = [];
  max_snapshot_bytes = pos 0;
}

abbrev default_text : String → String → String
default_text text other = if str_eq text "" then other else text

abbrev default_enabled : Option Bool → Option Bool
default_enabled none = some true
default_enabled (some b) = some b

-- `len(Options) == 0` is nil.
abbrev default_options : Option (Table String) → Option (Table String)
default_options none = none
default_options (some []) = none
default_options (some (x ∷ xs)) = some (x ∷ xs)

unfoldable pub default_provider : ProviderConfig → ProviderConfig
default_provider p = record p {
  region = default_text p.region "global";
  interval = default_text p.interval "60s";
  stale_after = default_text p.stale_after "5m";
  enabled = default_enabled p.enabled;
  options = default_options p.options;
}

unfoldable pub default_tls : TlsConfig → TlsConfig
default_tls t =
    if str_eq t.cert "" && str_eq t.key "" then record { cert = "auto"; key = "auto" } else t

unfoldable pub apply_defaults : Config → Config
unfolding default_provider default_tls
apply_defaults c = record c {
  schema_version = if eqb_ℤ c.schema_version (pos 0) then schema else c.schema_version;
  listen = record c.listen {
    addr = default_text c.listen.addr "127.0.0.1:8443";
    tls = default_tls c.listen.tls;
  };
  providers = map default_provider c.providers;
}

-- `IsEnabled`: a missing flag is true.
unfoldable pub is_enabled : ProviderConfig → Bool
is_enabled p = elim p.enabled [ none ↦ true | some b ↦ b ]

-- encoding/json on this type: `MarshalIndent`, and a strict `Decode`.
pub record Json : Type 0 where
  pub encode : Config → Option String
  pub decode : String → Option Config

unfoldable pub with_schema : Config → Config
with_schema c = if eqb_ℤ c.schema_version (pos 0) then record c { schema_version = schema } else c

-- `Save`; the sync of the directory at the end is not looked at.
unfoldable pub save : Json → Faults → String → Config → Disk → Saved
unfolding attempt write_body with_schema
save json fails path c d =
    if str_eq path ""
    then (err empty_path, d)
    else attempt fails mkdir_all keep keep (write_body fails (json.encode (with_schema c))) d
