-- ===== src/Config/Tests.antt =====
-- A platform and a configuration for the tests and the witnesses, and a text format of configurations
-- that tells apart those that they use.
use homepi_mon.Common.{
  ◌*◌, String, ◌≡◌, refl, true, false, List, [], ◌∷◌, Option, none, some, str_eq, str_append, ok,
  err, if◌then◌else◌,
}
use homepi_mon.Common.Int.{ℤ, pos}
use homepi_mon.Common.Time.{second}
use homepi_mon.Config.{ProviderConfig, Config, Json, empty_config}
use homepi_mon.Config.Sound.{IsSound, validate-IsSound}
use homepi_mon.Config.Validate.{IpAddress, Platform, at_provider, duplicate_id}
use homepi_mon.Config.Validate.Providers.{validate}

abbrev pub loopback : IpAddress
loopback = record {
  is_loopback = true;
  is_link_local = false;
  is_link_local_multicast = false;
  is_private = false;
  is_metadata = false;
}

abbrev duration : String → Option ℤ
duration text =
    if str_eq text "60s"
    then some (pos (60 * second))
    else if str_eq text "5m"
    then some (pos (300 * second))
    else if str_eq text "1s"
    then some (pos second)
    else none

abbrev pub platform : Platform
platform = record {
  parse_ip = λ host. if str_eq host "127.0.0.1" then some loopback else none;
  parse_url = λ text. some (record { scheme = "https"; host = text; hostname = text });
  split_host_port =
      λ addr. if str_eq addr "127.0.0.1:8443" then some ("127.0.0.1", "8443") else none;
  parse_duration = duration;
  is_abs = λ path. true;
}

abbrev pub kimi : ProviderConfig
kimi = record {
  id = "kimi";
  kind = "kimi_api";
  account_label = "home";
  region = "global";
  base_url = "";
  interval = "60s";
  stale_after = "5m";
  enabled = some true;
  secret_ref = "keyring:provider-key:kimi";
  auth_file = "";
  mock_fixture = "";
  options = none;
}

abbrev pub node_config : List ProviderConfig → Config
node_config ps = record empty_config {
  source_node = record { id = "node-1"; label = "" };
  listen = record {
    addr = "127.0.0.1:8443";
    allow_public_bind = false;
    tls = record { cert = "auto"; key = "auto" };
  };
  providers = ps;
}

-- The ids of the providers and their references.
abbrev provider_texts : List ProviderConfig → String
provider_texts [] = ""
provider_texts (p ∷ ps) =
    str_append p.id (str_append "=" (str_append p.secret_ref (str_append ";" (provider_texts ps))))

abbrev pub json : Json
json = record {
  encode = λ c. some (str_append "providers:" (provider_texts c.providers));
  decode = λ text. some (node_config (kimi ∷ []));
}

valid_config : validate platform (node_config (kimi ∷ [])) ≡ ok tt
unfolding validate
valid_config = refl

twice_config : validate platform (node_config (kimi ∷ kimi ∷ [])) ≡ err (at_provider 1 duplicate_id)
unfolding validate
twice_config = refl

validate-IsSound_example : IsSound platform (kimi ∷ [])
validate-IsSound_example = validate-IsSound platform (node_config (kimi ∷ [])) valid_config
