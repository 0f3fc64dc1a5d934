-- ===== src/ConfigTx/Apply/Refusal.antt =====
-- When `Apply` refuses a draft before it has changed anything.
use homepi_mon.Common.{
  ℕ, String, ◌≡◌, ◌≢◌, refl, sym, subst, ◌∙◌, true, false, List, Option, some, is_some, Result, ok,
  err, OnOk, OnOk-bind, arith, eq_iff, if◌then◌else◌,
}
use homepi_mon.ConfigTx.{Env, DraftError, revision_of}
use homepi_mon.ConfigTx.Draft.{Draft, ProviderEdit, check_config, check_shadows, new_draft}
use homepi_mon.ConfigTx.Draft.Edit.{edit_provider}
use homepi_mon.ConfigTx.Draft.Fingerprint.{validate_required_tests}
use homepi_mon.ConfigTx.Draft.Editing.{IsEdited}
use homepi_mon.ConfigTx.Draft.Others.{Edits, edit_provider-Edits}
use homepi_mon.ConfigTx.Draft.Tested.{Fails, NeedsTest, validate_required_tests-Fails}
use homepi_mon.ConfigTx.Service.{open_draft}
use homepi_mon.ConfigTx.Session.{DraftCall, draft_steps, draft_steps-IsSameBase}
use homepi_mon.ConfigTx.Apply.{World, Outcomes, ApplyOptions, Service, Applied, revision_conflict}
use homepi_mon.ConfigTx.Apply.Run.{apply, apply_if, check_draft}

-- Nothing has changed.
abbrev pub IsRefused : Service → World → Applied → Type 0
IsRefused s w a = (a.world ≡ w) × (a.service ≡ s) × (is_some a.error ≡ true)

apply_if-IsRefused :
    (env : Env) (o : Outcomes) (opts : ApplyOptions) (now : ℕ) (d : Draft) (s : Service) (w : World)
    (r : Result DraftError (Unit {0}))
    → Fails r
    → IsRefused s w (apply_if env o opts now d s w r)
unfolding apply_if OnOk
apply_if-IsRefused env o opts now d s w (ok u) h = absurd h
apply_if-IsRefused env o opts now d s w (err x) h = (refl, refl, refl)

apply-IsRefused :
    (env : Env) (o : Outcomes) (opts : ApplyOptions) (now : ℕ) (d : Draft) (s : Service) (w : World)
    → Fails (check_draft env opts d)
    → IsRefused s w (apply env o opts now d s w)
unfolding apply
apply-IsRefused env o opts now d s w h =
    ground (arith, apply_if-IsRefused env o opts now d s w (check_draft env opts d) h)

check_draft-Fails :
    (env : Env) (opts : ApplyOptions) (d : Draft)
    → opts.require_provider_tests ≡ true
    → Fails (validate_required_tests env d)
    → Fails (check_draft env opts d)
unfolding check_draft
check_draft-Fails env opts d needed h =
    OnOk-bind (λ a. ⊥) (check_config env d.pending) _
      (λ u a.
        OnOk-bind (λ a. ⊥) (check_shadows env d.pending) _
          (λ v b.
            subst (λ t. Fails (if t then validate_required_tests env d else ok tt)) (sym needed) h))

-- If `Apply` requires tests, a draft whose last call was an edit of a provider that is enabled, and
-- that is new or has another secret reference than on disk, is refused, and nothing changes. No
-- digest is the empty text.
pub edit_provider-IsRefused :
    (env : Env) (o : Outcomes) (opts : ApplyOptions) (now : ℕ) (e : ProviderEdit) (d d' : Draft)
    (s : Service) (w : World)
    → ((text : String) → env.sha256_hex text ≢ "")
    → opts.require_provider_tests ≡ true
    → edit_provider env e d ≡ (d', ok tt)
    → NeedsTest e.id d'
    → IsRefused s w (apply env o opts now d' s w)
unfolding IsEdited
edit_provider-IsRefused env o opts now e d d' s w digest needed edited needs =
    let h = subst (Edits env e d) edited (edit_provider-Edits env e d) in
    apply-IsRefused env o opts now d' s w (
      check_draft-Fails env opts d' needed
        (validate_required_tests-Fails env e.id d' digest needs h.0.2))

open_draft-revision :
    (env : Env) (file : Option String) (s s' : Service) (d : Draft)
    → open_draft env s file ≡ (s', ok d)
    → (d.owner ≡ s'.address) × (d.revision ≡ revision_of env file)
unfolding open_draft new_draft
open_draft-revision env file s s' d opened = ground (arith, opened)

apply-conflict :
    (env : Env) (o : Outcomes) (opts : ApplyOptions) (now : ℕ) (d : Draft) (s : Service) (w : World)
    → d.owner ≡ s.address
    → o.unreadable ≡ false
    → revision_of env w.disk.file ≢ d.revision
    → let a = apply env o opts now d s w in
      (a.error ≡ some revision_conflict) × (a.world ≡ w) × (a.service ≡ s)
unfolding apply
apply-conflict env o opts now d s w owner readable changed =
    ground (arith, owner, readable, changed, eq_iff d.revision (revision_of env w.disk.file))

-- A draft that a service has opened, whatever calls it has had since, is refused as a conflict when
-- the revision of the file has changed, and nothing changes.
pub open_draft-conflict :
    (env : Env) (o : Outcomes) (opts : ApplyOptions) (now : ℕ) (file : Option String)
    (cs : List DraftCall) (d : Draft) (s s' : Service) (w : World)
    → open_draft env s file ≡ (s', ok d)
    → o.unreadable ≡ false
    → revision_of env w.disk.file ≢ revision_of env file
    → let a = apply env o opts now (draft_steps env cs d) s' w in
      (a.error ≡ some revision_conflict) × (a.world ≡ w) × (a.service ≡ s')
open_draft-conflict env o opts now file cs d s s' w opened readable changed =
    let (base, owner, revision) = draft_steps-IsSameBase env cs d in
    let (address, of_file) = open_draft-revision env file s s' d opened in
    apply-conflict env o opts now (draft_steps env cs d) s' w (owner ∙ address) readable
      (λ same. changed (same ∙ revision ∙ of_file))
