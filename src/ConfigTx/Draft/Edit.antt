-- ===== src/ConfigTx/Draft/Edit.antt =====
-- internal/configtx/draft.go: `EditProvider` and `DeleteProvider`.
use homepi_mon.Common.{
  String, len, Bool, false, not, ◌&&◌, ◌||◌, List, [], ◌∷◌, ◌++◌, Option, none, some, str_eq,
  str_append, is_some, Result, ok, err, ◌>>=◌, ◌>>◌, refuse, if◌then◌else◌,
}
use homepi_mon.Common.Int.{pos, ltb_ℤ}
use homepi_mon.Common.Table.{lookup, delete}
use homepi_mon.Config.{ProviderConfig, apply_defaults}
use homepi_mon.ProviderMeta.{TypeMeta, secret_max, region_supported}
use homepi_mon.ConfigTx.{
  Env, DraftError, type_unregistered, type_required, type_changed, region_unsupported,
  drop_exclusive, provider_missing, ref_invalid, secret_oversize,
}
use homepi_mon.ConfigTx.Refs.{valid_ref, next_versioned_ref, first_versioned_ref}
use homepi_mon.ConfigTx.Overlay.{Overlay, has, set, delete_for}
use homepi_mon.ConfigTx.Draft.{
  Draft, ProviderEdit, find_provider, put_provider, remove_provider, with_providers, check_shadows,
  check_config,
}

abbrev given {ℓ} : {A : Type ℓ} → Option A → A → A
given none old = old
given (some new) old = new

abbrev given_some {ℓ} : {A : Type ℓ} → Option A → Option A → Option A
given_some none old = old
given_some (some new) old = some new

abbrev check_region : Option TypeMeta → Option String → Result DraftError (Unit {0})
unfolding region_supported
check_region (some meta) (some region) =
    refuse (not (region_supported meta region)) region_unsupported
check_region _ _ = ok tt

-- The fields of an edit but for the secret. A new type of a provider is its own.
unfoldable pub edit_fields :
    Option TypeMeta → ProviderEdit → ProviderConfig → Result DraftError ProviderConfig
unfolding region_supported
edit_fields meta e p = do
  refuse (not (str_eq e.new_type "") && not (str_eq p.kind "") && not (str_eq p.kind e.new_type))
      type_changed
  check_region meta e.region
  ok (record p {
    kind = if str_eq e.new_type "" then p.kind else e.new_type;
    account_label = given e.account_label p.account_label;
    region = given e.region p.region;
    base_url = given e.base_url p.base_url;
    interval = given e.interval p.interval;
    stale_after = given e.stale_after p.stale_after;
    enabled = given_some e.enabled p.enabled;
    auth_file = given e.auth_file p.auth_file;
    mock_fixture = given e.mock_fixture p.mock_fixture;
    options = given_some e.options p.options;
    secret_ref = given e.secret_ref p.secret_ref;
  })

unfoldable pub drop_secret_of :
    ProviderEdit → ProviderConfig × Overlay → Result DraftError (ProviderConfig × Overlay)
unfolding delete_for
drop_secret_of e (p, o) =
    if e.drop_secret
    then (do
      refuse (e.rotate_secret || not (str_eq e.candidate_secret "")) drop_exclusive
      ok (record p { secret_ref = "" }, delete_for p.id o))
    else ok (p, o)

abbrev pub default_ref : ProviderConfig → String
default_ref p =
    if str_eq p.secret_ref "" then str_append "keyring:provider-key:" p.id else p.secret_ref

-- The reference under which a candidate is staged: `based` is the provider on disk, `is_new` tells
-- that the edit adds the provider.
unfoldable pub staged_ref : Option ProviderConfig → Bool → Bool → Overlay → String → String
unfolding next_versioned_ref first_versioned_ref has
staged_ref (some on_disk) is_new rotate o ref =
    if str_eq ref on_disk.secret_ref || not (has o ref) then next_versioned_ref ref else ref
staged_ref none is_new rotate o ref =
    if is_new then first_versioned_ref ref else if rotate then next_versioned_ref ref else ref

abbrev pub too_long : Option TypeMeta → String → Bool
unfolding secret_max
too_long none secret = false
too_long (some meta) secret = ltb_ℤ (secret_max meta) (pos (len secret))

abbrev pub staged :
    ProviderConfig → String → Option Overlay → Result DraftError (ProviderConfig × Overlay)
staged p ref none = err ref_invalid
staged p ref (some o) = ok (record p { secret_ref = ref }, o)

-- A candidate is staged under a reference.
unfoldable pub stage_as :
    Option TypeMeta
    → String
    → String
    → ProviderConfig × Overlay
    → Result DraftError (ProviderConfig × Overlay)
unfolding secret_max valid_ref set
stage_as meta secret ref (p, o) = do
  refuse (too_long meta secret) secret_oversize
  refuse (not (valid_ref ref)) ref_invalid
  staged p ref (set o ref secret)

unfoldable pub stage_candidate :
    Option TypeMeta
    → Option ProviderConfig
    → Bool
    → ProviderEdit
    → ProviderConfig × Overlay
    → Result DraftError (ProviderConfig × Overlay)
unfolding staged_ref stage_as
stage_candidate meta on_disk is_new e (p, o) =
    if str_eq e.candidate_secret ""
    then ok (p, o)
    else stage_as meta e.candidate_secret
        (staged_ref on_disk is_new e.rotate_secret o (default_ref p)) (p, o)

-- The provider that an edit changes: the one staged, or a new one at the end.
abbrev pub new_provider : String → String → ProviderConfig
new_provider id kind = record {
  id = id;
  kind = kind;
  account_label = "";
  region = "";
  base_url = "";
  interval = "";
  stale_after = "";
  enabled = none;
  secret_ref = "";
  auth_file = "";
  mock_fixture = "";
  options = none;
}

abbrev pub target :
    ProviderEdit
    → List ProviderConfig
    → Option ProviderConfig
    → Result DraftError (ProviderConfig × List ProviderConfig)
target e ps (some p) = ok (p, ps)
target e ps none = do
  refuse (str_eq e.new_type "") type_required
  ok (new_provider e.id e.new_type, ps ++ new_provider e.id e.new_type ∷ [])

abbrev pub meta_for : Env → ProviderEdit → ProviderConfig → Option TypeMeta
unfolding lookup
meta_for env e p = lookup (if str_eq e.new_type "" then p.kind else e.new_type) env.registry

-- The end of `EditProvider`: the whole configuration is checked with the provider in it.
unfoldable pub finish_edit :
    Env
    → ProviderEdit
    → Draft
    → List ProviderConfig
    → ProviderConfig × Overlay
    → Result DraftError Draft
unfolding delete put_provider apply_defaults check_config check_shadows
finish_edit env e d ps (q, o) = do
  let next = apply_defaults (with_providers (put_provider e.id q ps) d.pending)
  check_config env next
  check_shadows env next
  ok (record d { pending = next; overlay = o; tested = delete e.id d.tested })

-- The changes of `EditProvider` to the provider and to the overlay.
unfoldable pub change_provider :
    Env
    → ProviderEdit
    → Draft
    → Bool
    → ProviderConfig
    → Result DraftError (ProviderConfig × Overlay)
unfolding lookup find_provider edit_fields drop_secret_of stage_candidate
change_provider env e d is_new p = do
  fielded ← edit_fields (meta_for env e p) e p
  kept ← drop_secret_of e (fielded, d.overlay)
  stage_candidate (meta_for env e p) (find_provider e.id d.base.providers) is_new e kept

-- The steps of `EditProvider`, each of which can refuse.
unfoldable pub edit_steps : Env → ProviderEdit → Draft → Result DraftError Draft
unfolding lookup find_provider change_provider finish_edit
edit_steps env e d = do
  refuse (not (is_some (lookup e.new_type env.registry)) && not (str_eq e.new_type ""))
      type_unregistered
  let found = find_provider e.id d.pending.providers
  chosen ← target e d.pending.providers found
  changed ← change_provider env e d (not (is_some found)) chosen.0
  finish_edit env e d chosen.1 changed

-- `EditProvider`: a refusal puts back the configuration, the overlay and the tests.
unfoldable pub edit_provider : Env → ProviderEdit → Draft → Draft × Result DraftError (Unit {0})
unfolding edit_steps
edit_provider env e d = elim (edit_steps env e d) [ ok d' ↦ (d', ok tt) | err x ↦ (d, err x) ]

unfoldable pub without_provider : String → Draft → Draft
unfolding remove_provider delete_for delete
without_provider id d = record d {
  pending = with_providers (remove_provider id d.pending.providers) d.pending;
  overlay = delete_for id d.overlay;
  tested = delete id d.tested;
}

abbrev delete_found :
    Env → String → Option ProviderConfig → Draft → Draft × String × Result DraftError (Unit {0})
unfolding without_provider check_config
delete_found env id none d = (d, "", err provider_missing)
delete_found env id (some p) d =
    let d' = without_provider id d in (d', p.secret_ref, check_config env d'.pending)

-- `DeleteProvider`: the draft, the reference of the provider, and the error. A configuration that is
-- refused stays staged.
unfoldable pub delete_provider :
    Env → String → Draft → Draft × String × Result DraftError (Unit {0})
unfolding find_provider without_provider check_config
delete_provider env id d = delete_found env id (find_provider id d.pending.providers) d
