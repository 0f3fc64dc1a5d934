-- ===== src/ProviderMeta.antt =====
-- internal/providermeta/providermeta.go: what is registered of a provider's type. The registry is a
-- value: its entries are made by the init functions of the connectors. The texts shown in forms
-- (labels, placeholders, descriptions) are left out but for the label that `Register` tests.
use homepi_mon.Common.{
  ◌*◌, String, Bool, true, ◌&&◌, ◌||◌, List, Option, none, some, map, str_eq, str_append, text_mem,
  length, ◌==◌, if◌then◌else◌,
}
use homepi_mon.Common.Int.{ℤ, pos, ltb_ℤ}
use homepi_mon.Common.Table.{Table, lookup, insert}
use homepi_mon.Common.Time.{second}
use homepi_mon.Config.{ProviderConfig}

pub record TypeMeta : Type 0 where
  pub type_id : String
  pub label : String
  pub secret_max_bytes : ℤ  -- int
  pub min_interval : ℤ  -- nanoseconds
  pub min_stale_after : ℤ
  pub supported_regions : List String
  pub default_region : String
  pub metric_id_suffixes : List String
  -- `MetricIDResolver`, with none in place of an error
  pub metric_id_resolver : Option (ProviderConfig → Option (List String))

abbrev pub default_secret_max : ℤ
default_secret_max = pos 4096

unfoldable pub secret_max : TypeMeta → ℤ
secret_max m = if ltb_ℤ (pos 0) m.secret_max_bytes then m.secret_max_bytes else default_secret_max

unfoldable pub has_region : TypeMeta → String → Bool
has_region m region = text_mem region m.supported_regions

unfoldable pub region_supported : TypeMeta → String → Bool
unfolding has_region
region_supported m region =
    if str_eq region "" || has_region m region
    then true
    else length m.supported_regions == 0 && str_eq region m.default_region

abbrev suffixed : ProviderConfig → String → String
suffixed spec suffix = str_append spec.id (str_append "." suffix)

unfoldable pub stable_metric_ids : TypeMeta → ProviderConfig → Option (List String)
stable_metric_ids m spec = elim m.metric_id_resolver [
  | none ↦ some (map (suffixed spec) m.metric_id_suffixes)
  | some resolve ↦ resolve spec
]

abbrev pub Registry : Type 0
Registry = Table TypeMeta

-- `Register`, with none in place of a panic.
unfoldable pub register : TypeMeta → Registry → Option Registry
unfolding lookup insert
register m registry =
    if str_eq m.type_id "" || str_eq m.label "" then none else elim (lookup m.type_id registry) [
      | some old ↦ none
      | none ↦ some (insert m.type_id m registry)
    ]

unfoldable pub effective_min_interval : TypeMeta → ℤ
effective_min_interval m = if ltb_ℤ (pos 0) m.min_interval then m.min_interval else pos (5 * second)

unfoldable pub effective_min_stale_after : TypeMeta → ℤ
effective_min_stale_after m =
    if ltb_ℤ (pos 0) m.min_stale_after then m.min_stale_after else pos (5 * second)
