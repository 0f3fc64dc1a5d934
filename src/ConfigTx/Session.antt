-- ===== src/ConfigTx/Session.antt =====
-- The work on a draft between its opening and its application: any calls of `EditProvider`,
-- `DeleteProvider` and `TestProvider` of internal/configtx/draft.go.
use homepi_mon.Common.{String, ◌≡◌, refl, ◌∙◌, List, [], ◌∷◌, Option, Result, ok, err, arith}
use homepi_mon.ConfigTx.{Env, DraftError}
use homepi_mon.ConfigTx.Draft.{Draft, ProviderEdit}
use homepi_mon.ConfigTx.Draft.Edit.{edit_provider, delete_provider, without_provider}
use homepi_mon.ConfigTx.Draft.Editing.{IsEdited}
use homepi_mon.ConfigTx.Draft.Others.{Edits, edit_provider-Edits}
use homepi_mon.ConfigTx.Draft.Probe.{Connectors, test_provider, test_failed, test_passed}

pub data DraftCall : Type 0 where
  edit : ProviderEdit → DraftCall
  remove : String → DraftCall
  probe : Option Connectors → String → DraftCall

unfoldable pub draft_step : Env → DraftCall → Draft → Draft
unfolding edit_provider delete_provider test_provider
draft_step env (edit e) d = (edit_provider env e d).0
draft_step env (remove id) d = (delete_provider env id d).0
draft_step env (probe connectors id) d = (test_provider env connectors id d).draft

unfoldable pub draft_steps : Env → List DraftCall → Draft → Draft
unfolding draft_step
draft_steps env [] d = d
draft_steps env (c ∷ cs) d = draft_steps env cs (draft_step env c d)

-- A draft stays with its service, with what was on disk and with the revision of that.
abbrev pub IsSameBase : Draft → Draft → Type 0
IsSameBase d d' = (d'.base ≡ d.base) × (d'.owner ≡ d.owner) × (d'.revision ≡ d.revision)

edited-IsSameBase :
    (env : Env) (e : ProviderEdit) (d : Draft) (r : Draft × Result DraftError (Unit {0}))
    → Edits env e d r
    → IsSameBase d r.0
unfolding IsEdited
edited-IsSameBase env e d (d', ok u) h = (h.0.3, h.0.4, h.0.5)
edited-IsSameBase env e d (d', err x) h = ground (arith, h)

deleted-IsSameBase :
    (env : Env) (id : String) (d : Draft) → IsSameBase d (delete_provider env id d).0
unfolding delete_provider without_provider
deleted-IsSameBase env id d = ground arith

tested-IsSameBase :
    (env : Env) (connectors : Option Connectors) (id : String) (d : Draft)
    → IsSameBase d (test_provider env connectors id d).draft
unfolding test_provider test_failed test_passed
tested-IsSameBase env connectors id d = ground arith

draft_step-IsSameBase : (env : Env) (c : DraftCall) (d : Draft) → IsSameBase d (draft_step env c d)
unfolding draft_step
draft_step-IsSameBase env (edit e) d = edited-IsSameBase env e d _ (edit_provider-Edits env e d)
draft_step-IsSameBase env (remove id) d = deleted-IsSameBase env id d
draft_step-IsSameBase env (probe connectors id) d = tested-IsSameBase env connectors id d

pub draft_steps-IsSameBase :
    (env : Env) (cs : List DraftCall) (d : Draft) → IsSameBase d (draft_steps env cs d)
unfolding draft_steps
draft_steps-IsSameBase env [] d = (refl, refl, refl)
draft_steps-IsSameBase env (c ∷ cs) d =
    let (a, b, e) = draft_step-IsSameBase env c d in
    let (f, g, h) = draft_steps-IsSameBase env cs (draft_step env c d) in (f ∙ a, g ∙ b, h ∙ e)
