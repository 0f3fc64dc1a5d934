-- ===== src/ConfigTx/Draft/Fingerprint.antt =====
-- internal/configtx/draft.go: the fingerprint of a tested provider, and the tests that `Apply` requires.
use homepi_mon.Common.{
  String, Bool, true, not, ◌&&◌, List, [], ◌∷◌, Option, none, some, str_eq, str_append, Result, ok,
  err, ◌>>=◌, ◌>>◌, refuse, if◌then◌else◌,
}
use homepi_mon.Common.Table.{Table, lookup}
use homepi_mon.Config.{ProviderConfig, is_enabled}
use homepi_mon.ConfigTx.{Env, DraftError, provider_missing, not_tested, not_marshalled}
use homepi_mon.ConfigTx.Overlay.{Overlay}
use homepi_mon.ConfigTx.Diff.{index_providers}
use homepi_mon.ConfigTx.Draft.{Draft, find_provider}

abbrev pub with_value : String → Option String → String
with_value body none = body
with_value body (some value) = str_append body (str_append "\0" value)

unfoldable pub digest_of : Env → Overlay → ProviderConfig → Option String → Result DraftError String
unfolding lookup
digest_of env o p none = err not_marshalled
digest_of env o p (some body) = ok (env.sha256_hex (with_value body (lookup p.secret_ref o)))

unfoldable pub fingerprint_of : Env → Overlay → Option ProviderConfig → Result DraftError String
unfolding digest_of
fingerprint_of env o none = err provider_missing
fingerprint_of env o (some p) = digest_of env o p (env.marshal_provider p)

-- `providerFingerprint`.
unfoldable pub provider_fingerprint : Env → String → Draft → Result DraftError String
unfolding find_provider fingerprint_of
provider_fingerprint env id d = fingerprint_of env d.overlay (find_provider id d.pending.providers)

-- `needsTest`, of the provider on disk and the one staged.
unfoldable pub needs_test : Option ProviderConfig → ProviderConfig → Bool
needs_test none p = true
needs_test (some old) p = not (str_eq old.secret_ref p.secret_ref)

-- The text at a key of a map, empty if there is none.
abbrev pub tested_text : Option String → String
tested_text none = ""
tested_text (some text) = text

-- The fingerprint of the test that passed is that of what is staged.
unfoldable pub check_fingerprint : Env → ProviderConfig → Draft → Result DraftError (Unit {0})
unfolding provider_fingerprint lookup
check_fingerprint env p d = do
  fingerprint ← provider_fingerprint env p.id d
  refuse (not (str_eq (tested_text (lookup p.id d.tested)) fingerprint)) not_tested

unfoldable pub check_test :
    Env → Table ProviderConfig → ProviderConfig → Draft → Result DraftError (Unit {0})
unfolding is_enabled needs_test check_fingerprint lookup
check_test env base p d =
    if is_enabled p && needs_test (lookup p.id base) p then check_fingerprint env p d else ok tt

unfoldable pub check_tests :
    Env → Table ProviderConfig → List ProviderConfig → Draft → Result DraftError (Unit {0})
unfolding check_test
check_tests env base [] d = ok tt
check_tests env base (p ∷ ps) d = do check_test env base p d; check_tests env base ps d

-- `validateRequiredTests`.
unfoldable pub validate_required_tests : Env → Draft → Result DraftError (Unit {0})
unfolding index_providers check_tests
validate_required_tests env d =
    check_tests env (index_providers d.base.providers) d.pending.providers d
