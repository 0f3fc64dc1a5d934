-- ===== src/DisplayConfig.antt =====
-- internal/displayconfig/environment.go, without Parse: the environment of the display, how it is
-- checked and how it is written. ParseFingerprint is that of internal/tlsconfig/tlsconfig.go and
-- ParseStyle that of internal/ui/style.go. url.Parse is a parameter.
use homepi_mon.Common.{
  ℕ, ◌+◌, ◌-◌, ◌*◌, String, Bool, false, not, ◌&&◌, ◌||◌, List, [], ◌∷◌, Option, none, some, ltb,
  leb, ◌==◌, str_eq, str_append, length, drop, all, codes, is_some, Result, ok, err, ◌>>◌, refuse,
  if◌then◌else◌, map,
}
use homepi_mon.Common.Strconv.{trim_space, codes_eq, is_digit}
use homepi_mon.Decimal.Text.{byte_length, take}
use homepi_mon.Protocol.Ids.{in_range}
use homepi_mon.Ui.Pages.{parse_rotation_config}

abbrev pub default_data_dir : String
default_data_dir = "/var/lib/homepi-display"

abbrev pub default_page_order : String
default_page_order = "CODING,API,HOMELAB,SERVICES,SYSTEM"

abbrev pub default_page_dwell : String
default_page_dwell = "CODING:15,API:15,HOMELAB:15,SERVICES:15,SYSTEM:15"

abbrev is_alphanumeric : ℕ → Bool
is_alphanumeric c = in_range b'a' b'z' c || in_range b'A' b'Z' c || in_range b'0' b'9' c

abbrev is_name_char : ℕ → Bool
is_name_char c = is_alphanumeric c || c == b'.' || c == b'_' || c == b'-'

abbrev safe_name : ℕ → List ℕ → Bool
safe_name bound [] = false
safe_name bound (c ∷ cs) = is_alphanumeric c && all is_name_char cs && leb (length cs) bound

-- `^[A-Za-z0-9][A-Za-z0-9._-]{0,127}$`
unfoldable pub safe_id : String → Bool
safe_id s = safe_name 127 (codes s)

-- `^[A-Za-z0-9][A-Za-z0-9._-]{0,252}$`, of internal/displaydeploy/deployer.go.
unfoldable pub safe_host : String → Bool
safe_host s = safe_name 252 (codes s)

pub record Environment : Type 0 where
  pub node_url : String
  pub device_id : String
  pub source_node : String
  pub cert_pin : String
  pub device_token : String
  pub data_dir : String
  pub style : String
  pub page_order : String
  pub page_dwell_seconds : String

pub record UrlParts : Type 0 where
  pub scheme : String
  pub host : String
  pub has_user : Bool
  pub raw_query : String
  pub fragment : String
  pub path : String

pub data EnvironmentError : Type 0 where
  required too_long forbidden_character whitespace : String → EnvironmentError
  bad_device_id bad_source_node not_https_origin url_with_path : EnvironmentError
  bad_pin bad_data_dir bad_style bad_rotation : EnvironmentError

abbrev pub Check : Type 0
Check = Result EnvironmentError (Unit {0})

unfoldable pub default_text : String → String → String
default_text text other = if str_eq text "" then other else text

unfoldable pub with_defaults : Environment → Environment
unfolding default_text
with_defaults e = record e {
  page_order = default_text e.page_order default_page_order;
  page_dwell_seconds = default_text e.page_dwell_seconds default_page_dwell;
}

-- `values` in the order of `orderedKeys`.
unfoldable pub values : Environment → List (String × String)
values e =
    ("HOMEPI_NODE_URL", e.node_url)
    ∷ ("HOMEPI_DEVICE_ID", e.device_id)
    ∷ ("HOMEPI_SOURCE_NODE_ID", e.source_node)
    ∷ ("HOMEPI_NODE_CERT_PIN", e.cert_pin)
    ∷ ("HOMEPI_DEVICE_TOKEN", e.device_token)
    ∷ ("HOMEPI_DISPLAY_DATA_DIR", e.data_dir)
    ∷ ("HOMEPI_DISPLAY_STYLE", e.style)
    ∷ ("HOMEPI_PAGE_ORDER", e.page_order)
    ∷ ("HOMEPI_PAGE_DWELL_SECONDS", e.page_dwell_seconds)
    ∷ []

-- NUL, CR, LF, the back quote and the dollar sign.
abbrev is_forbidden : ℕ → Bool
is_forbidden c = c == 0 || c == 13 || c == 10 || c == 96 || c == b'$'

abbrev is_blank : ℕ → Bool
is_blank c = c == 9 || c == 32

unfoldable pub validate_value : String → String → Check
unfolding byte_length trim_space codes_eq
validate_value key value = do
  refuse (ltb 4096 (byte_length (codes value))) (too_long key)
  refuse (not (all (λ c. not (is_forbidden c)) (codes value))) (forbidden_character key)
  refuse
      (not (codes_eq (trim_space (codes value)) (codes value))
        || not (all (λ c. not (is_blank c)) (codes value)))
      (whitespace key)

unfoldable pub validate_values : List (String × String) → Check
unfolding validate_value
validate_values [] = ok tt
validate_values ((key, value) ∷ rest) =
    let others = validate_values rest in
    do refuse (str_eq value "") (required key); validate_value key value; others

-- `equalFold` on ASCII, in lower case.
abbrev lower_char : ℕ → ℕ
lower_char c = if in_range b'A' b'Z' c then c + 32 else c

unfoldable pub strip_pin_prefix : List ℕ → List ℕ
unfolding codes_eq
strip_pin_prefix s = if codes_eq (map lower_char (take 7 s)) (codes "sha256:") then drop 7 s else s

unfoldable pub remove_colons : List ℕ → List ℕ
remove_colons [] = []
remove_colons (c ∷ cs) = let rest = remove_colons cs in if c == b':' then rest else c ∷ rest

abbrev hex_digit : ℕ → Option ℕ
hex_digit c =
    if is_digit c
    then some (c - b'0')
    else if in_range b'a' b'f' c
    then some (c - b'a' + 10)
    else if in_range b'A' b'F' c
    then some (c - b'A' + 10)
    else none

abbrev hex_byte : Option ℕ → Option ℕ → Option (List ℕ) → Option (List ℕ)
hex_byte (some high) (some low) (some rest) = some ((high * 16 + low) ∷ rest)
hex_byte _ _ _ = none

-- `hex.DecodeString`.
unfoldable pub decode_hex : List ℕ → Option (List ℕ)
decode_hex [] = some []
decode_hex (c ∷ []) = none
decode_hex (c ∷ d ∷ cs) = hex_byte (hex_digit c) (hex_digit d) (decode_hex cs)

abbrev of_32 : List ℕ → Option (List ℕ)
of_32 bytes = if length bytes == 32 then some bytes else none

-- `tlsconfig.ParseFingerprint`: 64 hexadecimal digits and 31 colons.
unfoldable pub parse_fingerprint : String → Option (List ℕ)
unfolding strip_pin_prefix remove_colons decode_hex byte_length
parse_fingerprint s =
    let pin = strip_pin_prefix (codes s) in
    if byte_length pin == 95
    then elim (decode_hex (remove_colons pin)) [ none ↦ none | some bytes ↦ of_32 bytes ]
    else none

-- `unicode.ToLower` where its result is ASCII: the capitals, the dotted I and the Kelvin sign.
abbrev to_lower_char : ℕ → ℕ
to_lower_char c = if c == 0x130 then b'i' else if c == 0x212a then b'k' else lower_char c

pub data Style : Type 0 where
  style_rich style_ascii : Style

unfoldable pub parse_style : String → Option Style
unfolding trim_space codes_eq
parse_style value =
    let name = map to_lower_char (trim_space (codes value)) in
    if codes_eq name [] || codes_eq name (codes "rich")
    then some style_rich
    else if codes_eq name (codes "ascii")
    then some style_ascii
    else none

abbrev is_origin : UrlParts → Bool
is_origin u =
    str_eq u.scheme "https"
    && not (str_eq u.host "")
    && not u.has_user
    && str_eq u.raw_query ""
    && str_eq u.fragment ""

abbrev check_url : Option UrlParts → Check
check_url none = err not_https_origin
check_url (some u) = do
  refuse (not (is_origin u)) not_https_origin
  refuse (not (str_eq u.path "" || str_eq u.path "/")) url_with_path

-- `Validate`
unfoldable pub validate : (String → Option UrlParts) → Environment → Check
unfolding with_defaults validate_values values safe_id parse_fingerprint parse_style
    parse_rotation_config
validate parse_url environment = do
  let e = with_defaults environment
  validate_values (values e)
  refuse (not (safe_id e.device_id)) bad_device_id
  refuse (not (safe_id e.source_node)) bad_source_node
  check_url (parse_url e.node_url)
  refuse (not (is_some (parse_fingerprint e.cert_pin))) bad_pin
  refuse (not (str_eq e.data_dir default_data_dir)) bad_data_dir
  refuse (not (is_some (parse_style e.style))) bad_style
  refuse (not (is_some (parse_rotation_config (codes e.page_order) (codes e.page_dwell_seconds))))
      bad_rotation

abbrev line : String → String → String
line key value = str_append key (str_append "=" (str_append value "\n"))

unfoldable pub lines : List (String × String) → String
lines [] = ""
lines ((key, value) ∷ rest) = str_append (line key value) (lines rest)

-- `Render`
unfoldable pub render : (String → Option UrlParts) → Environment → Result EnvironmentError String
unfolding with_defaults validate values lines
render parse_url e = do validate parse_url (with_defaults e); ok (lines (values (with_defaults e)))
