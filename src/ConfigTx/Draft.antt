-- ===== src/ConfigTx/Draft.antt =====
-- internal/configtx/draft.go: a draft of the configuration, its edits and the tests of its providers.
pub mod Probe
pub mod Editing
pub mod Others
pub mod Tested
pub mod Fingerprint
pub mod Edit
use homepi_mon.Common.{
  ℕ, zero, suc, String, len, Bool, true, false, not, ◌&&◌, ◌||◌, List, [], ◌∷◌, ◌++◌, Option, none,
  some, str_eq, str_append, text_mem, is_some, map, Result, ok, err, ◌>>=◌, ◌>>◌, refuse,
  if◌then◌else◌,
}
use homepi_mon.Common.Int.{ℤ, pos, ltb_ℤ}
use homepi_mon.Common.Table.{Table, lookup, insert, delete}
use homepi_mon.Config.{ProviderConfig, Config, apply_defaults, is_enabled}
use homepi_mon.Config.Validate.Providers.{validate_with_registry}
use homepi_mon.ProviderMeta.{TypeMeta, secret_max, region_supported, stable_metric_ids}
use homepi_mon.ConfigTx.{
  Env, DraftError, type_unregistered, type_required, type_changed, region_unsupported,
  drop_exclusive, provider_missing, ref_invalid, metric_ids_unknown, not_tested, config_invalid,
  secret_oversize, not_marshalled, shadowed,
}
use homepi_mon.ConfigTx.Refs.{valid_ref, next_versioned_ref, first_versioned_ref}
use homepi_mon.ConfigTx.Overlay.{Overlay, has, set, delete_for}
use homepi_mon.ConfigTx.Diff.{index_providers}

pub record Draft : Type 0 where
  pub owner : ℕ  -- svc
  pub base : Config
  pub pending : Config
  pub overlay : Overlay
  pub revision : String
  pub tested : Table String

-- `ProviderEdit`: none is a field that the edit leaves alone.
pub record ProviderEdit : Type 0 where
  pub id : String
  pub new_type : String
  pub account_label : Option String
  pub region : Option String
  pub base_url : Option String
  pub interval : Option String
  pub stale_after : Option String
  pub enabled : Option Bool
  pub secret_ref : Option String
  pub auth_file : Option String
  pub mock_fixture : Option String
  pub options : Option (Table String)
  pub candidate_secret : String
  pub rotate_secret : Bool
  pub drop_secret : Bool

unfoldable pub new_draft : ℕ → Config → String → Draft
unfolding apply_defaults
new_draft owner base revision = record {
  owner = owner;
  base = base;
  pending = apply_defaults base;
  overlay = [];
  revision = revision;
  tested = [];
}

unfoldable pub find_provider : String → List ProviderConfig → Option ProviderConfig
find_provider id [] = none
find_provider id (p ∷ ps) = if str_eq p.id id then some p else find_provider id ps

-- The first provider with an id is replaced.
unfoldable pub put_provider : String → ProviderConfig → List ProviderConfig → List ProviderConfig
put_provider id q [] = []
put_provider id q (p ∷ ps) =
    let rest = put_provider id q ps in if str_eq p.id id then q ∷ ps else p ∷ rest

-- The first provider with an id is taken out.
unfoldable pub remove_provider : String → List ProviderConfig → List ProviderConfig
remove_provider id [] = []
remove_provider id (p ∷ ps) =
    let rest = remove_provider id ps in if str_eq p.id id then ps else p ∷ rest

abbrev pub with_providers : List ProviderConfig → Config → Config
with_providers ps c = record c { providers = ps }

-- The metric ids that a provider emits are added to those of the providers before it.
abbrev see_ids : String → List String → Table String → Result DraftError (Table String)
unfolding lookup insert
see_ids id [] seen = ok seen
see_ids id (stable ∷ ids) seen = elim (lookup stable seen) [
  | some other ↦ err (shadowed other id stable)
  | none ↦ see_ids id ids (insert stable id seen)
]

abbrev see_type : ProviderConfig → Option TypeMeta → Table String → Result DraftError (Table String)
unfolding stable_metric_ids lookup insert
see_type p none seen = ok seen
see_type p (some meta) seen = elim (stable_metric_ids meta p) [
  | none ↦ err metric_ids_unknown
  | some ids ↦ see_ids p.id ids seen
]

abbrev see_all : Env → List ProviderConfig → Table String → Result DraftError (Unit {0})
unfolding stable_metric_ids lookup insert is_enabled
see_all env [] seen = ok tt
see_all env (p ∷ ps) seen = do
  next ← (if is_enabled p then see_type p (lookup p.kind env.registry) seen else ok seen)
  see_all env ps next

-- `checkShadows`.
unfoldable pub check_shadows : Env → Config → Result DraftError (Unit {0})
unfolding stable_metric_ids lookup insert is_enabled
check_shadows env c = see_all env c.providers []

unfoldable pub check_config : Env → Config → Result DraftError (Unit {0})
unfolding validate_with_registry
check_config env c = elim (validate_with_registry env.net env.known_types c) [
  | ok u ↦ ok tt
  | err e ↦ err (config_invalid e)
]
