-- ===== src/ConfigTx/Tests.antt =====
-- Tests of the drafts and of `Apply`, and the witnesses of their theorems.
use homepi_mon.Common.{
  String, len, ◌≡◌, ◌≢◌, refl, ap, Bool, true, false, [], ◌∷◌, Option, none, some, str_eq,
  str_append, Result, ok, err, arith,
}
use text.Mathlib.TextPositions.{len-append}
use homepi_mon.Common.Int.{pos}
use homepi_mon.Files.{Faults}
use homepi_mon.Config.Tests.{platform, json, kimi, node_config}
use homepi_mon.ProviderMeta.{TypeMeta}
use homepi_mon.ConfigTx.{Env, revision_of, verifying}
use homepi_mon.ConfigTx.Draft.{Draft, ProviderEdit, new_draft}
use homepi_mon.ConfigTx.Draft.Edit.{edit_provider}
use homepi_mon.ConfigTx.Draft.Tested.{NeedsTest}
use homepi_mon.ConfigTx.Service.{DraftOpenError, open_draft}
use homepi_mon.ConfigTx.Session.{edit, draft_steps}
use homepi_mon.ConfigTx.Keyring.{stored, restarted}
use homepi_mon.ConfigTx.Apply.{
  World, Outcomes, ApplyOptions, Service, apply_error, not_healthy, revision_conflict,
}
use homepi_mon.ConfigTx.Apply.Run.{apply}
use homepi_mon.ConfigTx.Apply.Rollback.{IsRestored, apply-IsRestored}
use homepi_mon.ConfigTx.Apply.Commit.{IsCommitted, apply-IsCommitted, IsPruned, apply-IsPruned}
use homepi_mon.ConfigTx.Apply.Refusal.{IsRefused, edit_provider-IsRefused, open_draft-conflict}

abbrev kimi_meta : TypeMeta
kimi_meta = record {
  type_id = "kimi_api";
  label = "Kimi";
  secret_max_bytes = pos 64;
  min_interval = pos 0;
  min_stale_after = pos 0;
  supported_regions = "global" ∷ [];
  default_region = "global";
  metric_id_suffixes = "balance" ∷ [];
  metric_id_resolver = none;
}

abbrev env : Env
env = record {
  net = platform;
  known_types = "kimi_api" ∷ [];
  registry = ("kimi_api", kimi_meta) ∷ [];
  json = json;
  marshal_provider = λ p. some (str_append p.id p.secret_ref);
  sha256_hex = λ text. str_append "#" text;
  config_path = "/etc/config.json";
}

digest_not_empty : (text : String) → str_append "#" text ≢ ""
digest_not_empty text h = omega (arith, ap len h, len-append "#" text)

abbrev old_file : Option String
old_file = some "providers:kimi=keyring:provider-key:kimi;"

abbrev start : Draft
unfolding new_draft revision_of
start = new_draft 1 (node_config (kimi ∷ [])) (revision_of env old_file)

-- A new key for the provider.
abbrev new_key : ProviderEdit
new_key = record {
  id = "kimi";
  new_type = "";
  account_label = none;
  region = none;
  base_url = none;
  interval = none;
  stale_after = none;
  enabled = none;
  secret_ref = none;
  auth_file = none;
  mock_fixture = none;
  options = none;
  candidate_secret = "sk-2";
  rotate_secret = true;
  drop_secret = false;
}

abbrev edited : Draft
unfolding edit_provider
edited = (edit_provider env new_key start).0

abbrev no_faults : Faults
no_faults _ = false

abbrev outcomes : Bool → Outcomes
outcomes unhealthy = record {
  unreadable = false;
  unreadable_before = false;
  unreadable_after = false;
  closed = false;
  store = record { get_fails = λ _. false; set_outcome = λ _. stored; delete_fails = λ _. false };
  saving = no_faults;
  restart = restarted;
  unhealthy = unhealthy;
  restoring = no_faults;
  remove_fails = false;
  restart_again = restarted;
}

abbrev options : Bool → ApplyOptions
options tests = record {
  restarts = true;
  checks_health = true;
  keep_secret_refs = [];
  require_provider_tests = tests;
}

abbrev service : Service
service = record { address = 1; base_revision = ""; last_apply = none }

abbrev world : World
world = record {
  disk = record { file = old_file; temp = none };
  secrets = ("keyring:provider-key:kimi", "sk-1") ∷ [];
  running = some old_file;
}

edited_ref : edited.overlay ≡ ("keyring:provider-key:kimi@2", "sk-2") ∷ []
unfolding edited start
edited_ref = refl

applied_secrets :
    (apply env (outcomes false) (options false) 7 edited service world).world.secrets
    ≡ ("keyring:provider-key:kimi@2", "sk-2") ∷ []
unfolding apply edited start
applied_secrets = refl

-- Candidates, restart and health check succeed.
commits_error : (apply env (outcomes false) (options false) 7 edited service world).error ≡ none
unfolding apply edited start
commits_error = refl

apply-IsCommitted_example :
    IsCommitted env
      (options false)
      edited
      world
      (apply env (outcomes false) (options false) 7 edited service world).world
apply-IsCommitted_example =
    apply-IsCommitted env (outcomes false) (options false) 7 edited service world commits_error

apply-IsPruned_example :
    IsPruned
      (options false)
      edited
      world
      (apply env (outcomes false) (options false) 7 edited service world).world
apply-IsPruned_example =
    apply-IsPruned env (outcomes false) (options false) 7 edited service world (λ ref. refl)
      commits_error

-- The health check fails after the restart.
unhealthy_error :
    (apply env (outcomes true) (options false) 7 edited service world).error
    ≡ some (apply_error verifying not_healthy)
unfolding apply edited start
unhealthy_error = refl

apply-IsRestored_example :
    IsRestored world (apply env (outcomes true) (options false) 7 edited service world).world
apply-IsRestored_example =
    apply-IsRestored env (outcomes true) (options false) 7 edited service world verifying
      not_healthy unhealthy_error (λ h. ground (arith, h))

edited_ok : edit_provider env new_key start ≡ (edited, ok tt)
unfolding edited start edit_provider
edited_ok = refl

edited-NeedsTest : NeedsTest "kimi" edited
unfolding NeedsTest edited start
edited-NeedsTest = (_, (refl, refl, refl))

edit_provider-IsRefused_example :
    IsRefused service world (apply env (outcomes false) (options true) 7 edited service world)
edit_provider-IsRefused_example =
    edit_provider-IsRefused env (outcomes false) (options true) 7 new_key start edited service world
      digest_not_empty refl edited_ok edited-NeedsTest

-- Another process has written the file since the draft was opened.
abbrev other_file : Option String
other_file = some "providers:;"

abbrev opened : Service × Result DraftOpenError Draft
unfolding open_draft
opened = open_draft env service old_file

abbrev opened_draft : Draft
unfolding opened
opened_draft = elim opened.1 [ ok d ↦ d | err e ↦ start ]

opened_ok : open_draft env service old_file ≡ (opened.0, ok opened_draft)
unfolding open_draft opened opened_draft
opened_ok = refl

files_differ : revision_of env other_file ≢ revision_of env old_file
unfolding revision_of
files_differ h = ground (arith, ap (λ text. str_eq text (revision_of env old_file)) h)

abbrev moved : World
moved = record world { disk = record { file = other_file; temp = none } }

open_draft-conflict_example :
    let a =
      apply env
        (outcomes false)
        (options false)
        7
        (draft_steps env (edit new_key ∷ []) opened_draft)
        opened.0
        moved in
    (a.error ≡ some revision_conflict) × (a.world ≡ moved) × (a.service ≡ opened.0)
open_draft-conflict_example =
    open_draft-conflict env (outcomes false) (options false) 7 old_file (edit new_key ∷ [])
      opened_draft service opened.0 moved opened_ok refl files_differ
