-- ===== src/Config/Validate/Providers.antt =====
-- internal/config/validate.go: the checks of the providers, and of the whole configuration.
use homepi_mon.Common.{
  ℕ, suc, String, len, Bool, not, ◌&&◌, ◌||◌, List, [], ◌∷◌, Option, none, some, ltb, ◌*◌, str_eq,
  text_mem, length, codes, Result, ok, err, ◌>>=◌, ◌>>◌, refuse, if◌then◌else◌,
}
use homepi_mon.Common.Int.{ℤ, pos, ltb_ℤ, leb_ℤ, eqb_ℤ}
use homepi_mon.Common.Table.{Table}
use homepi_mon.Common.Time.{second}
use homepi_mon.Config.{ProviderConfig, Config, schema}
use homepi_mon.Config.Validate.{
  Url, Platform, ConfigError, Check, safe_id, after_prefix, has_prefix, has_none,
  validate_optional_token_ref, validate_source_node, reject_ssrf, is_loopback_host, validate_listen,
  within, validate_devices, bad_schema_version, at_provider, bad_id, duplicate_id, bad_type,
  account_label_required, bad_duration, not_positive, interval_too_short, stale_below_interval,
  base_url_not_allowed, base_url_required, base_url_unparsed, bad_scheme, missing_host,
  http_not_loopback, bad_region, auth_file_not_allowed, secret_not_allowed, auth_file_not_absolute,
  secret_required, too_many_options, bad_option_key, option_too_long, option_control,
  not_registered,
}

abbrev validate_url : Platform → Bool → Option Url → Check
unfolding reject_ssrf is_loopback_host
validate_url net allow_private none = err base_url_unparsed
validate_url net allow_private (some u) = do
  refuse (not (str_eq u.scheme "https") && not (str_eq u.scheme "http")) bad_scheme
  refuse (str_eq u.host "") missing_host
  reject_ssrf net u.hostname allow_private
  refuse (str_eq u.scheme "http" && not (is_loopback_host net u.hostname)) http_not_loopback

abbrev pub allows_private : String → Bool
allows_private kind = str_eq kind "prometheus" || str_eq kind "grafana" || str_eq kind "portainer"

unfoldable pub validate_region : Platform → ProviderConfig → Check
unfolding reject_ssrf is_loopback_host
validate_region net p =
    if str_eq p.region "global" || str_eq p.region "cn"
    then refuse (not (str_eq p.base_url "")) base_url_not_allowed
    else if str_eq p.region "custom"
    then (do
      refuse (str_eq p.base_url "") base_url_required
      validate_url net (allows_private p.kind) (net.parse_url p.base_url))
    else err bad_region

-- `parseDuration`.
unfoldable pub positive_duration : Platform → String → Result ConfigError ℤ
positive_duration net value = elim (net.parse_duration value) [
  | none ↦ err bad_duration
  | some d ↦ if leb_ℤ d (pos 0) then err not_positive else ok d
]

unfoldable pub validate_intervals : Platform → ℕ → ProviderConfig → Check
unfolding positive_duration
validate_intervals net i p = do
  interval ← positive_duration net p.interval
  stale ← positive_duration net p.stale_after
  refuse (ltb_ℤ interval (pos (5 * second))) (at_provider i interval_too_short)
  refuse (ltb_ℤ stale interval) (at_provider i stale_below_interval)

unfoldable pub validate_credential : Platform → ProviderConfig → Check
unfolding after_prefix
validate_credential net p =
    if str_eq p.kind "mock"
    then refuse (not (str_eq p.auth_file "")) auth_file_not_allowed
    else if str_eq p.kind "codex_usage" || str_eq p.kind "grok_usage"
    then (do
      refuse (not (str_eq p.secret_ref "")) secret_not_allowed
      refuse
          (not (
            str_eq p.auth_file ""
            || net.is_abs p.auth_file
            || has_prefix "~/" p.auth_file
            || has_prefix "~\\" p.auth_file))
          auth_file_not_absolute)
    else if str_eq p.kind "prometheus"
    then refuse (not (str_eq p.auth_file "")) auth_file_not_allowed
    else (do
      refuse (str_eq p.secret_ref "") secret_required
      refuse (not (str_eq p.auth_file "")) auth_file_not_allowed)

abbrev validate_entries : Table String → Check
unfolding safe_id
validate_entries [] = ok tt
validate_entries ((key, value) ∷ rest) = do
  refuse (not (safe_id key)) bad_option_key
  refuse (ltb 4096 (len value)) option_too_long
  refuse (not (has_none (0 ∷ 13 ∷ 10 ∷ []) (codes value))) option_control
  validate_entries rest

-- The options in the order of the table: the order decides only which refusal is reported.
unfoldable pub validate_options : Option (Table String) → Check
unfolding safe_id
validate_options none = ok tt
validate_options (some options) = do
  refuse (ltb 32 (length options)) too_many_options
  validate_entries options

unfoldable pub validate_provider : Platform → ℕ → ProviderConfig → Check
unfolding safe_id validate_region validate_intervals validate_optional_token_ref validate_credential
    validate_options
validate_provider net i p = do
  refuse (not (safe_id p.kind)) (at_provider i bad_type)
  refuse (str_eq p.account_label "") (at_provider i account_label_required)
  within (at_provider i) (validate_region net p)
  validate_intervals net i p
  within (at_provider i) (validate_optional_token_ref p.secret_ref)
  within (at_provider i) (validate_credential net p)
  within (at_provider i) (validate_options p.options)

unfoldable pub validate_providers : Platform → ℕ → List String → List ProviderConfig → Check
unfolding safe_id validate_provider
validate_providers net i seen [] = ok tt
validate_providers net i seen (p ∷ ps) = do
  refuse (not (safe_id p.id)) (at_provider i bad_id)
  refuse (text_mem p.id seen) (at_provider i duplicate_id)
  validate_provider net i p
  validate_providers net (suc i) (p.id ∷ seen) ps

unfoldable pub validate : Platform → Config → Check
unfolding validate_source_node validate_listen validate_devices validate_providers
validate net c = do
  refuse (not (eqb_ℤ c.schema_version schema)) bad_schema_version
  validate_source_node c.source_node
  validate_listen net c.listen
  validate_devices 0 [] c.devices
  validate_providers net 0 [] c.providers

unfoldable pub check_types : List String → ℕ → List ProviderConfig → Check
check_types known i [] = ok tt
check_types known i (p ∷ ps) = do
  refuse (not (text_mem p.kind known)) (at_provider i not_registered)
  check_types known (suc i) ps

unfoldable pub validate_with_registry : Platform → List String → Config → Check
unfolding validate check_types
validate_with_registry net known c = do validate net c; check_types known 0 c.providers
