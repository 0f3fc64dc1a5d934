-- ===== src/Config/Validate.antt =====
-- internal/config/validate.go: the checks of a configuration. The loops return the first refusal, with
-- the index of the device or the provider. What the code calls of net, net/url, time and path/filepath
-- is a parameter (`Platform`).
pub mod Providers
use homepi_mon.Common.{
  ℕ, suc, String, len, Bool, true, false, not, ◌&&◌, ◌||◌, List, [], ◌∷◌, Option, none, some, ltb,
  ◌==◌, ◌*◌, str_eq, text_mem, length, all, codes, Result, ok, err, ◌>>=◌, ◌>>◌, refuse,
  if◌then◌else◌,
}
use homepi_mon.Common.Int.{ℤ, pos, ltb_ℤ, leb_ℤ, eqb_ℤ}
use homepi_mon.Common.Table.{Table}
use homepi_mon.Common.Time.{second}
use homepi_mon.Protocol.Ids.{in_range}
use homepi_mon.Config.{
  ProviderConfig, DeviceConfig, SourceNodeConfig, ListenConfig, TlsConfig, Config, schema,
}

-- A parsed IP address: the tests of net.IP on it, and whether it is 169.254.169.254.
pub record IpAddress : Type 0 where
  pub is_loopback : Bool
  pub is_link_local : Bool  -- unicast
  pub is_link_local_multicast : Bool
  pub is_private : Bool
  pub is_metadata : Bool

pub record Url : Type 0 where
  pub scheme : String
  pub host : String
  pub hostname : String

pub record Platform : Type 0 where
  pub parse_ip : String → Option IpAddress  -- net.ParseIP
  pub parse_url : String → Option Url  -- url.Parse
  pub split_host_port : String → Option (String × String)  -- net.SplitHostPort
  pub parse_duration : String → Option ℤ  -- time.ParseDuration, in nanoseconds
  pub is_abs : String → Bool  -- filepath.IsAbs

pub data ConfigError : Type 0 where
  bad_schema_version bad_source_node_id source_node_label_too_long : ConfigError
  bad_listen_addr public_bind missing_port half_tls half_auto_tls bad_cert_path bad_key_path :
      ConfigError
  at_device at_provider : ℕ → ConfigError → ConfigError
  bad_id duplicate_id bad_type account_label_required : ConfigError
  ref_required ref_prefix ref_empty_name ref_whitespace : ConfigError
  bad_duration not_positive interval_too_short stale_below_interval : ConfigError
  base_url_not_allowed base_url_required base_url_unparsed bad_scheme missing_host : ConfigError
  link_local_host private_host metadata_host http_not_loopback bad_region : ConfigError
  auth_file_not_allowed secret_not_allowed auth_file_not_absolute secret_required : ConfigError
  too_many_options bad_option_key option_too_long option_control : ConfigError
  not_registered : ConfigError

abbrev pub Check : Type 0
Check = Result ConfigError (Unit {0})

unfoldable pub safe_id_char : ℕ → Bool
safe_id_char c =
    in_range b'a' b'z' c
    || in_range b'A' b'Z' c
    || in_range b'0' b'9' c
    || c == b'-'
    || c == b'_'
    || c == b'.'

unfoldable pub safe_id : String → Bool
unfolding safe_id_char
safe_id s = not (str_eq s "" || ltb 64 (len s)) && all safe_id_char (codes s)

-- `strings.HasPrefix` and `strings.TrimPrefix` on code points: what stands after the prefix.
unfoldable pub after_prefix : List ℕ → List ℕ → Option (List ℕ)
after_prefix [] text = some text
after_prefix (p ∷ ps) [] = none
after_prefix (p ∷ ps) (c ∷ cs) = let rest = after_prefix ps cs in if p == c then rest else none

abbrev pub has_prefix : String → String → Bool
unfolding after_prefix
has_prefix prefix text = elim (after_prefix (codes prefix) (codes text)) [
  | none ↦ false
  | some rest ↦ true
]

-- Not `strings.ContainsAny` for the given characters.
abbrev pub has_none : List ℕ → List ℕ → Bool
has_none chars = all (λ c. all (λ d. not (c == d)) chars)

abbrev validate_name : Option (List ℕ) → Check
validate_name none = err ref_prefix
validate_name (some []) = err ref_empty_name
validate_name (some (c ∷ cs)) =
    refuse (not (has_none (32 ∷ 9 ∷ 10 ∷ 13 ∷ []) (c ∷ cs))) ref_whitespace

unfoldable pub validate_token_ref : String → Check
unfolding after_prefix
validate_token_ref ref = do
  refuse (str_eq ref "") ref_required
  validate_name (after_prefix (codes "keyring:") (codes ref))

unfoldable pub validate_optional_token_ref : String → Check
unfolding validate_token_ref
validate_optional_token_ref ref = if str_eq ref "" then ok tt else validate_token_ref ref

unfoldable pub validate_source_node : SourceNodeConfig → Check
unfolding safe_id
validate_source_node n = do
  refuse (not (safe_id n.id)) bad_source_node_id
  refuse (not (str_eq n.label "") && ltb 64 (len n.label)) source_node_label_too_long

abbrev bool_eq : Bool → Bool → Bool
bool_eq true b = b
bool_eq false b = not b

abbrev explicit_path : String → Bool
explicit_path path =
    str_eq path "" || str_eq path "auto" || has_prefix "/" path || has_prefix "./" path

unfoldable pub validate_tls : TlsConfig → Check
validate_tls t = do
  refuse (not (bool_eq (str_eq t.cert "") (str_eq t.key ""))) half_tls
  refuse (not (bool_eq (str_eq t.cert "auto") (str_eq t.key "auto"))) half_auto_tls
  refuse (not (explicit_path t.cert)) bad_cert_path
  refuse (not (explicit_path t.key)) bad_key_path

-- What `rejectSSRF` says of an address.
unfoldable pub reject_ip : Bool → IpAddress → Check
reject_ip allow_private ip = if ip.is_loopback then ok tt else (do
  refuse (ip.is_link_local || ip.is_link_local_multicast) link_local_host
  refuse (ip.is_private && not allow_private) private_host
  refuse ip.is_metadata metadata_host)

unfoldable pub reject_ssrf : Platform → String → Bool → Check
unfolding reject_ip
reject_ssrf net host allow_private = elim (net.parse_ip host) [
  | none ↦ ok tt
  | some ip ↦ reject_ip allow_private ip
]

unfoldable pub is_loopback_host : Platform → String → Bool
is_loopback_host net host =
    str_eq host "localhost" || elim (net.parse_ip host) [ none ↦ false | some ip ↦ ip.is_loopback ]

unfoldable pub is_public_host : Platform → String → Bool
unfolding is_loopback_host
is_public_host net host =
    not (str_eq host "" || is_loopback_host net host)
    && elim (net.parse_ip host) [ none ↦ true | some ip ↦ not (ip.is_private || ip.is_link_local) ]

unfoldable pub has_colon : String → Bool
has_colon addr = not (has_none (b':' ∷ []) (codes addr))

-- `splitHostPort`.
unfoldable pub split_addr : Platform → String → Option (String × String)
unfolding has_colon
split_addr net addr = if has_colon addr then net.split_host_port addr else none

abbrev validate_addr : Platform → Bool → Option (String × String) → Check
unfolding is_public_host
validate_addr net public none = err bad_listen_addr
validate_addr net public (some (host, port)) = do
  refuse (not public && is_public_host net host) public_bind
  refuse (str_eq port "") missing_port

unfoldable pub validate_listen : Platform → ListenConfig → Check
unfolding split_addr validate_tls is_public_host
validate_listen net l = do
  validate_addr net l.allow_public_bind (split_addr net l.addr)
  validate_tls l.tls

-- A refusal with the index of a device or of a provider before it.
abbrev pub within : (ConfigError → ConfigError) → Check → Check
within place (ok u) = ok u
within place (err e) = err (place e)

unfoldable pub validate_devices : ℕ → List String → List DeviceConfig → Check
unfolding safe_id validate_token_ref
validate_devices i seen [] = ok tt
validate_devices i seen (d ∷ ds) = do
  refuse (not (safe_id d.id)) (at_device i bad_id)
  refuse (text_mem d.id seen) (at_device i duplicate_id)
  within (at_device i) (validate_token_ref d.token_ref)
  validate_devices (suc i) (d.id ∷ seen) ds
