-- ===== src/ConfigTx/Draft/Others.antt =====
-- An edit of a provider leaves the others alone.
use homepi_mon.Common.{
  String, ◌≡◌, ◌≢◌, refl, ap, ◌∙◌, true, false, not, ◌&&◌, List, [], ◌∷◌, ◌++◌, Option, none, some,
  is_some, map, str_eq, Result, ok, err, ◌>>=◌, ◌>>◌, refuse, OnOk, OnOk-bind, OnOk-checked,
  OnOk-refuse, OnOk-ok, arith, eq_iff,
}
use mathlib.Core.Option
use homepi_mon.Common.Table.{lookup, delete}
use homepi_mon.Config.{ProviderConfig, apply_defaults, default_provider}
use homepi_mon.ConfigTx.{Env, DraftError, type_unregistered, type_required}
use homepi_mon.ConfigTx.Overlay.{Overlay}
use homepi_mon.ConfigTx.Draft.{
  Draft, ProviderEdit, check_config, check_shadows, find_provider, put_provider, with_providers,
}
use homepi_mon.ConfigTx.Draft.Edit.{
  edit_steps, edit_provider, finish_edit, change_provider, new_provider, target,
}
use homepi_mon.ConfigTx.Draft.Editing.{
  IsEdited, edit_steps-IsEdited, HasId, change_provider-id, find_provider-id,
}

find_provider-put :
    (id other : String) (q : ProviderConfig) (ps : List ProviderConfig)
    → q.id ≡ id
    → id ≢ other
    → find_provider other (put_provider id q ps) ≡ find_provider other ps
unfolding find_provider put_provider
find_provider-put id other q [] h n = refl
find_provider-put id other q (p ∷ ps) h n =
    let below = find_provider-put id other q ps h n in
    ground (arith, below, n, h, eq_iff p.id id, eq_iff p.id other, eq_iff q.id other)

find_provider-append :
    (other : String) (q : ProviderConfig) (ps : List ProviderConfig)
    → q.id ≢ other
    → find_provider other (ps ++ q ∷ []) ≡ find_provider other ps
unfolding find_provider
find_provider-append other q [] n = ground (arith, n, eq_iff q.id other)
find_provider-append other q (p ∷ ps) n = ground (arith, find_provider-append other q ps n)

pub find_provider-map :
    (id : String) (ps : List ProviderConfig)
    → find_provider id (map default_provider ps) ≡ Option.map default_provider (find_provider id ps)
unfolding find_provider default_provider
find_provider-map id [] = refl
find_provider-map id (p ∷ ps) = ground (arith, find_provider-map id ps)

-- The other providers are as they were, with the defaults filled in.
abbrev pub KeepsOthers : String → Draft → Draft → Type 0
unfolding find_provider default_provider
KeepsOthers id d d' =
    (other : String)
    → id ≢ other
    → find_provider other d'.pending.providers
      ≡ Option.map default_provider (find_provider other d.pending.providers)

-- The provider that an edit works on, in a list with the other providers.
abbrev IsTarget : ProviderEdit → List ProviderConfig → ProviderConfig × List ProviderConfig → Type 0
unfolding find_provider
IsTarget e ps chosen =
    (chosen.0.id ≡ e.id)
    × ((other : String) → e.id ≢ other → find_provider other chosen.1 ≡ find_provider other ps)

new-IsTarget :
    (e : ProviderEdit) (ps : List ProviderConfig)
    → IsTarget e ps (new_provider e.id e.new_type, ps ++ new_provider e.id e.new_type ∷ [])
unfolding IsTarget
new-IsTarget e ps =
    (refl, λ other n. find_provider-append other (new_provider e.id e.new_type) ps n)

target-IsTarget :
    (e : ProviderEdit) (ps : List ProviderConfig) (found : Option ProviderConfig)
    → ((p : ProviderConfig) → found ≡ some p → p.id ≡ e.id)
    → OnOk (IsTarget e ps) (target e ps found)
unfolding OnOk IsTarget
target-IsTarget e ps (some p) h = (h p refl, λ other n. refl)
target-IsTarget e ps none h =
    elim (str_eq e.new_type "")
      as (λ b. OnOk (IsTarget e ps) (do
        refuse b type_required
        ok (new_provider e.id e.new_type, ps ++ new_provider e.id e.new_type ∷ []))) [
          | true ↦ tt
          | false ↦ new-IsTarget e ps
        ]

finish_edit-KeepsOthers :
    (env : Env) (e : ProviderEdit) (d : Draft) (chosen : ProviderConfig × List ProviderConfig)
    (changed : ProviderConfig × Overlay)
    → IsTarget e d.pending.providers chosen
    → changed.0.id ≡ e.id
    → OnOk (KeepsOthers e.id d) (finish_edit env e d chosen.1 changed)
unfolding finish_edit KeepsOthers IsTarget apply_defaults
finish_edit-KeepsOthers env e d chosen (q, o) (h, same) q_id =
    let next = apply_defaults (with_providers (put_provider e.id q chosen.1) d.pending) in
    OnOk-checked (KeepsOthers e.id d) (check_config env next) (check_shadows env next)
      (record d { pending = next; overlay = o; tested = delete e.id d.tested })
      (λ a b other n.
        find_provider-map other (put_provider e.id q chosen.1)
        ∙ ap (Option.map default_provider)
            (find_provider-put e.id other q chosen.1 q_id n ∙ same other n))

pub edit_steps-KeepsOthers :
    (env : Env) (e : ProviderEdit) (d : Draft) → OnOk (KeepsOthers e.id d) (edit_steps env e d)
unfolding edit_steps IsTarget
edit_steps-KeepsOthers env e d =
    let found = find_provider e.id d.pending.providers in
    let is_new = not (is_some found) in
    OnOk-refuse (KeepsOthers e.id d)
      (not (is_some (lookup e.new_type env.registry)) && not (str_eq e.new_type ""))
      type_unregistered _
      (OnOk-bind (KeepsOthers e.id d) (target e d.pending.providers found)
        (λ chosen. change_provider env e d is_new chosen.0 >>= finish_edit env e d chosen.1)
        (λ chosen a.
          let at =
            OnOk-ok (IsTarget e d.pending.providers) (target e d.pending.providers found) chosen a (
              target-IsTarget e d.pending.providers found
                (find_provider-id e.id d.pending.providers)) in
          OnOk-bind (KeepsOthers e.id d) (change_provider env e d is_new chosen.0)
            (finish_edit env e d chosen.1)
            (λ changed b. finish_edit-KeepsOthers env e d chosen changed at (
              OnOk-ok (HasId chosen.0.id) (change_provider env e d is_new chosen.0) changed b
                (change_provider-id env e d is_new chosen.0)
              ∙ at.0))))

-- An edit that is refused changes nothing.
abbrev pub Edits : Env → ProviderEdit → Draft → Draft × Result DraftError (Unit {0}) → Type 0
Edits env e d (d', ok u) = IsEdited env e.id d d' × KeepsOthers e.id d d'
Edits env e d (d', err x) = d' ≡ d

edited-Edits :
    (env : Env) (e : ProviderEdit) (d : Draft) (r : Result DraftError Draft)
    → OnOk (IsEdited env e.id d) r
    → OnOk (KeepsOthers e.id d) r
    → Edits env e d (elim r [ ok d' ↦ (d', ok tt) | err x ↦ (d, err x) ])
unfolding OnOk
edited-Edits env e d (ok d') h k = (h, k)
edited-Edits env e d (err x) h k = refl

pub edit_provider-Edits :
    (env : Env) (e : ProviderEdit) (d : Draft) → Edits env e d (edit_provider env e d)
unfolding edit_provider
edit_provider-Edits env e d =
    edited-Edits env e d (edit_steps env e d) (edit_steps-IsEdited env e d)
      (edit_steps-KeepsOthers env e d)
