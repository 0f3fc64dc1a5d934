-- ===== src/ConfigTx/Draft/Tested.antt =====
-- A provider whose secret is new is not applied without a test after its last edit.
use homepi_mon.Common.{
  String, ◌≡◌, ◌≢◌, sym, ap, subst, ◌∙◌, true, not, ◌&&◌, List, [], ◌∷◌, Option, none, some, str_eq,
  Result, ok, err, ◌>>◌, refuse, OnOk, OnOk-bind, OnOk-ok, if◌then◌else◌, inl, inr, Bool-cases,
  arith, eq_iff,
}
use homepi_mon.Common.Table.{Table, lookup}
use homepi_mon.Config.{ProviderConfig, is_enabled}
use homepi_mon.ConfigTx.{Env, DraftError, not_tested}
use homepi_mon.ConfigTx.Overlay.{Overlay}
use homepi_mon.ConfigTx.Diff.{index_providers}
use homepi_mon.ConfigTx.Draft.{Draft, find_provider}
use homepi_mon.ConfigTx.Draft.Fingerprint.{
  provider_fingerprint, fingerprint_of, digest_of, with_value, needs_test, tested_text, check_tests,
  check_test, check_fingerprint, validate_required_tests,
}
use homepi_mon.ConfigTx.Draft.Editing.{find_provider-id}

-- The result is an error.
abbrev pub Fails : {A : Type 0} → Result DraftError A → Type 0
Fails r = OnOk (λ a. ⊥) r

-- A fingerprint is a digest, which is not empty.
fingerprint_of-digest :
    (env : Env) (o : Overlay) (found : Option ProviderConfig)
    → ((text : String) → env.sha256_hex text ≢ "")
    → OnOk (λ fingerprint. fingerprint ≢ "") (fingerprint_of env o found)
unfolding OnOk fingerprint_of digest_of
fingerprint_of-digest env o none h = tt
fingerprint_of-digest env o (some p) h =
    elim (env.marshal_provider p)
      as (λ r. OnOk (λ fingerprint. fingerprint ≢ "") (digest_of env o p r)) [
        | none ↦ tt
        | some body ↦ h (with_value body (lookup p.secret_ref o))
      ]

refused_text :
    (fingerprint : String)
    → fingerprint ≢ ""
    → Fails (refuse (not (str_eq "" fingerprint)) not_tested)
unfolding OnOk
refused_text fingerprint h = ground (arith, h, eq_iff "" fingerprint)

check_fingerprint-Fails :
    (env : Env) (p : ProviderConfig) (d : Draft)
    → ((text : String) → env.sha256_hex text ≢ "")
    → lookup p.id d.tested ≡ none
    → Fails (check_fingerprint env p d)
unfolding check_fingerprint provider_fingerprint
check_fingerprint-Fails env p d h gone =
    let found = find_provider p.id d.pending.providers in
    OnOk-bind (λ a. ⊥) (fingerprint_of env d.overlay found) _
      (λ fingerprint a.
        subst (λ t. Fails (refuse (not (str_eq (tested_text t) fingerprint)) not_tested)) (sym gone)
          (refused_text fingerprint (
            OnOk-ok (λ text. text ≢ "") (fingerprint_of env d.overlay found) fingerprint a
              (fingerprint_of-digest env d.overlay found h))))

Fails-first : (m n : Result DraftError (Unit {0})) → Fails m → Fails (do m; n)
unfolding OnOk
Fails-first (ok u) n h = absurd h
Fails-first (err e) n h = tt

Fails-second : (m n : Result DraftError (Unit {0})) → Fails n → Fails (do m; n)
unfolding OnOk
Fails-second (ok u) n h = h
Fails-second (err e) n h = tt

check_test-Fails :
    (env : Env) (base : Table ProviderConfig) (d : Draft) (p : ProviderConfig)
    → ((text : String) → env.sha256_hex text ≢ "")
    → is_enabled p ≡ true
    → needs_test (lookup p.id base) p ≡ true
    → lookup p.id d.tested ≡ none
    → Fails (check_test env base p d)
unfolding check_test
check_test-Fails env base d p h on needs gone =
    let both : (is_enabled p && needs_test (lookup p.id base) p) ≡ true =
      ground (arith, on, needs) in
    subst (λ b. Fails (if b then check_fingerprint env p d else ok tt)) (sym both)
      (check_fingerprint-Fails env p d h gone)

check_tests-Fails :
    (env : Env) (base : Table ProviderConfig) (ps : List ProviderConfig) (d : Draft)
    (p : ProviderConfig)
    → ((text : String) → env.sha256_hex text ≢ "")
    → find_provider p.id ps ≡ some p
    → is_enabled p ≡ true
    → needs_test (lookup p.id base) p ≡ true
    → lookup p.id d.tested ≡ none
    → Fails (check_tests env base ps d)
unfolding check_tests find_provider
check_tests-Fails env base [] d p h found on needs gone = absurd (ground (arith, found))
check_tests-Fails env base (q ∷ qs) d p h found on needs gone =
    elim (Bool-cases (str_eq q.id p.id)) [
      | inl same ↦
          let q_p : p ≡ q = ground (arith, found, same) in
          Fails-first _ (check_tests env base qs d) (
            subst (λ r. Fails (check_test env base r d)) q_p
              (check_test-Fails env base d p h on needs gone))
      | inr other ↦
          Fails-second _ (check_tests env base qs d)
            (check_tests-Fails env base qs d p h (ground (arith, found, other)) on needs gone)
    ]

-- The provider is staged, enabled, and new or under another reference than on disk.
unfoldable pub NeedsTest : String → Draft → Type 0
unfolding find_provider is_enabled needs_test lookup index_providers
NeedsTest id d =
    (p : ProviderConfig) × ((find_provider id d.pending.providers ≡ some p)
      × (is_enabled p ≡ true)
      × (needs_test (lookup id (index_providers d.base.providers)) p ≡ true))

pub validate_required_tests-Fails :
    (env : Env) (id : String) (d : Draft)
    → ((text : String) → env.sha256_hex text ≢ "")
    → NeedsTest id d
    → lookup id d.tested ≡ none
    → Fails (validate_required_tests env d)
unfolding validate_required_tests NeedsTest
validate_required_tests-Fails env id d h (p, (found, on, needs)) gone =
    let same = find_provider-id id d.pending.providers p found in
    check_tests-Fails env (index_providers d.base.providers) d.pending.providers d p h
      (ap (λ i. find_provider i d.pending.providers) same ∙ found) on
      (ap (λ i. needs_test (lookup i (index_providers d.base.providers)) p) same ∙ needs)
      (ap (λ i. lookup i d.tested) same ∙ gone)
