-- ===== src/Protocol/Params.antt =====
-- The parameters of the display commands (internal/protocol/remote.go), and `strictJSON` into their
-- structs. A raw JSON message is seen as encoding/json's decoder sees it: the fields of one object,
-- each under the tag that its name matches, or something else.
use homepi_mon.Common.{
  String, Bool, false, List, [], ◌∷◌, Option, none, some, str_eq, if◌then◌else◌,
}
use homepi_mon.Common.Int.{ℤ, pos}

-- `num` is an integer of int64; `other_value` is any other value: a fraction, an object, a list of
-- mixed values.
pub data JsonValue : Type 0 where
  null other_value : JsonValue
  str : String → JsonValue
  num : ℤ → JsonValue
  bool : Bool → JsonValue
  strs : List String → JsonValue

-- `empty` has no bytes. `other_raw` is text that is no single JSON object.
pub data RawMessage : Type 0 where
  empty other_raw : RawMessage
  object : List (String × JsonValue) → RawMessage

pub record PageCommandParams : Type 0 where
  pub page_id : String
  pub duration_seconds : ℤ

pub record StepPageCommandParams : Type 0 where
  pub duration_seconds : ℤ

pub record RotationCommandParams : Type 0 where
  pub enabled : Bool
  pub interval_seconds : ℤ
  pub duration_seconds : ℤ

pub record RefreshCommandParams : Type 0 where
  pub connector_ids : List String

pub record MessageCommandParams : Type 0 where
  pub text : String
  pub severity : String
  pub duration_seconds : ℤ

pub record BrightnessCommandParams : Type 0 where
  pub level : ℤ

-- A field of the struct takes the value, or refuses its type; `null` changes nothing.
abbrev take_str {ℓ} : {P : Type ℓ} → JsonValue → P → (String → P) → Option P
take_str (str s) p set = some (set s)
take_str null p set = some p
take_str _ p set = none

abbrev take_num {ℓ} : {P : Type ℓ} → JsonValue → P → (ℤ → P) → Option P
take_num (num n) p set = some (set n)
take_num null p set = some p
take_num _ p set = none

abbrev take_bool {ℓ} : {P : Type ℓ} → JsonValue → P → (Bool → P) → Option P
take_bool (bool b) p set = some (set b)
take_bool null p set = some p
take_bool _ p set = none

-- `null` empties a slice.
abbrev take_strs {ℓ} : {P : Type ℓ} → JsonValue → P → (List String → P) → Option P
take_strs (strs l) p set = some (set l)
take_strs null p set = some (set [])
take_strs _ p set = none

abbrev then_fields {ℓ} : {P : Type ℓ} → (P → Option P) → Option P → Option P
then_fields rest none = none
then_fields rest (some p) = rest p

-- The decoder's loop over the fields, in their order: a later field overwrites.
unfoldable pub decode_fields {ℓ} :
    {P : Type ℓ} → (String → JsonValue → P → Option P) → List (String × JsonValue) → P → Option P
decode_fields take [] p = some p
decode_fields take ((name, v) ∷ fs) p = then_fields (λ q. decode_fields take fs q) (take name v p)

-- `DecodeCommandParams`: unknown fields are refused, and an absent message too. The text `null`, which
-- the decoder takes for the zero struct, is no object, and validation has refused it before.
unfoldable pub decode_params {ℓ} :
    {P : Type ℓ} → (String → JsonValue → P → Option P) → P → RawMessage → Option P
unfolding decode_fields
decode_params take zero_value empty = none
decode_params take zero_value other_raw = none
decode_params take zero_value (object fields) = decode_fields take fields zero_value

abbrev pub page_field : String → JsonValue → PageCommandParams → Option PageCommandParams
page_field name v p =
    if str_eq name "page_id"
    then take_str v p (λ s. record p { page_id = s })
    else if str_eq name "duration_seconds"
    then take_num v p (λ n. record p { duration_seconds = n })
    else none

unfoldable pub decode_page : RawMessage → Option PageCommandParams
unfolding decode_params
decode_page = decode_params page_field (record { page_id = ""; duration_seconds = pos 0 })

abbrev pub step_field : String → JsonValue → StepPageCommandParams → Option StepPageCommandParams
step_field name v p =
    if str_eq name "duration_seconds"
    then take_num v p (λ n. record p { duration_seconds = n })
    else none

unfoldable pub decode_step : RawMessage → Option StepPageCommandParams
unfolding decode_params
decode_step = decode_params step_field (record { duration_seconds = pos 0 })

abbrev pub rotation_field :
    String → JsonValue → RotationCommandParams → Option RotationCommandParams
rotation_field name v p =
    if str_eq name "enabled"
    then take_bool v p (λ b. record p { enabled = b })
    else if str_eq name "interval_seconds"
    then take_num v p (λ n. record p { interval_seconds = n })
    else if str_eq name "duration_seconds"
    then take_num v p (λ n. record p { duration_seconds = n })
    else none

unfoldable pub decode_rotation : RawMessage → Option RotationCommandParams
unfolding decode_params
decode_rotation =
    decode_params rotation_field
      (record { enabled = false; interval_seconds = pos 0; duration_seconds = pos 0 })

abbrev pub refresh_field : String → JsonValue → RefreshCommandParams → Option RefreshCommandParams
refresh_field name v p =
    if str_eq name "connector_ids"
    then take_strs v p (λ l. record p { connector_ids = l })
    else none

unfoldable pub decode_refresh : RawMessage → Option RefreshCommandParams
unfolding decode_params
decode_refresh = decode_params refresh_field (record { connector_ids = [] })

abbrev pub message_field : String → JsonValue → MessageCommandParams → Option MessageCommandParams
message_field name v p =
    if str_eq name "text"
    then take_str v p (λ s. record p { text = s })
    else if str_eq name "severity"
    then take_str v p (λ s. record p { severity = s })
    else if str_eq name "duration_seconds"
    then take_num v p (λ n. record p { duration_seconds = n })
    else none

unfoldable pub decode_message : RawMessage → Option MessageCommandParams
unfolding decode_params
decode_message =
    decode_params message_field (record { text = ""; severity = ""; duration_seconds = pos 0 })

abbrev pub brightness_field :
    String → JsonValue → BrightnessCommandParams → Option BrightnessCommandParams
brightness_field name v p =
    if str_eq name "level" then take_num v p (λ n. record p { level = n }) else none

unfoldable pub decode_brightness : RawMessage → Option BrightnessCommandParams
unfolding decode_params
decode_brightness = decode_params brightness_field (record { level = pos 0 })
