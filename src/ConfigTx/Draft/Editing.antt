-- ===== src/ConfigTx/Draft/Editing.antt =====
-- What an edit of a draft checks and keeps.
use homepi_mon.Common.{
  String, ◌≡◌, refl, ◌∙◌, subst, Bool, not, ◌&&◌, List, [], ◌∷◌, Option, none, some, is_some,
  str_eq, ok, ◌>>=◌, refuse, OnOk, OnOk-bind, OnOk-checked, OnOk-refuse, OnOk-if, OnOk-ok, arith,
  eq_iff,
}
use homepi_mon.Common.Table.{lookup, delete, lookup-delete}
use homepi_mon.Config.{ProviderConfig, apply_defaults}
use homepi_mon.ConfigTx.{Env, DraftError, type_unregistered, secret_oversize, ref_invalid}
use homepi_mon.ProviderMeta.{TypeMeta}
use homepi_mon.ConfigTx.Overlay.{Overlay, set}
use homepi_mon.ConfigTx.Refs.{valid_ref}
use homepi_mon.ConfigTx.Draft.{
  Draft, ProviderEdit, check_config, check_shadows, find_provider, put_provider, with_providers,
}
use homepi_mon.ConfigTx.Draft.Edit.{
  edit_steps, finish_edit, change_provider, edit_fields, drop_secret_of, stage_candidate, stage_as,
  staged, staged_ref, too_long, default_ref, meta_for, target,
}

-- The draft passes the checks of the configuration, no longer counts the provider as tested, and is
-- of the same configuration on disk.
unfoldable pub IsEdited : Env → String → Draft → Draft → Type 0
unfolding check_config check_shadows lookup
IsEdited env id d d' =
    (check_config env d'.pending ≡ ok tt)
    × (check_shadows env d'.pending ≡ ok tt)
    × (lookup id d'.tested ≡ none)
    × (d'.base ≡ d.base)
    × (d'.owner ≡ d.owner)
    × (d'.revision ≡ d.revision)

finish_edit-IsEdited :
    (env : Env) (e : ProviderEdit) (d : Draft) (ps : List ProviderConfig)
    (changed : ProviderConfig × Overlay)
    → OnOk (IsEdited env e.id d) (finish_edit env e d ps changed)
unfolding finish_edit IsEdited
finish_edit-IsEdited env e d ps (q, o) =
    let next = apply_defaults (with_providers (put_provider e.id q ps) d.pending) in
    let gone = lookup-delete e.id e.id d.tested in
    OnOk-checked (IsEdited env e.id d) (check_config env next) (check_shadows env next)
      (record d { pending = next; overlay = o; tested = delete e.id d.tested })
      (λ a b. (a, b, ground (arith, gone, eq_iff e.id e.id), refl, refl, refl))

pub edit_steps-IsEdited :
    (env : Env) (e : ProviderEdit) (d : Draft) → OnOk (IsEdited env e.id d) (edit_steps env e d)
unfolding edit_steps
edit_steps-IsEdited env e d =
    OnOk-bind (IsEdited env e.id d)
      (refuse (not (is_some (lookup e.new_type env.registry)) && not (str_eq e.new_type ""))
        type_unregistered)
      (λ u. target e d.pending.providers (find_provider e.id d.pending.providers) >>= λ chosen.
        change_provider env e d (not (is_some (find_provider e.id d.pending.providers))) chosen.0
        >>= finish_edit env e d chosen.1)
      (λ u a.
        OnOk-bind (IsEdited env e.id d)
          (target e d.pending.providers (find_provider e.id d.pending.providers)) _
          (λ chosen b.
            OnOk-bind (IsEdited env e.id d)
              (change_provider env e d (not (is_some (find_provider e.id d.pending.providers)))
                chosen.0)
              (finish_edit env e d chosen.1)
              (λ changed c. finish_edit-IsEdited env e d chosen.1 changed)))

-- The provider that an edit works on has the id of the edit.
abbrev pub HasId : String → ProviderConfig × Overlay → Type 0
HasId id changed = changed.0.id ≡ id

pub find_provider-id :
    (id : String) (ps : List ProviderConfig) (p : ProviderConfig)
    → find_provider id ps ≡ some p
    → p.id ≡ id
unfolding find_provider
find_provider-id id [] p h = absurd (ground (arith, h))
find_provider-id id (q ∷ ps) p h = ground (arith, find_provider-id id ps p, h, eq_iff q.id id)

abbrev SameId : ProviderConfig → ProviderConfig → Type 0
SameId p q = q.id ≡ p.id

edit_fields-id :
    (meta : Option TypeMeta) (e : ProviderEdit) (p : ProviderConfig)
    → OnOk (SameId p) (edit_fields meta e p)
unfolding edit_fields OnOk
edit_fields-id meta e p = ground arith

drop_secret_of-id :
    (e : ProviderEdit) (p : ProviderConfig) (o : Overlay)
    → OnOk (HasId p.id) (drop_secret_of e (p, o))
unfolding drop_secret_of OnOk
drop_secret_of-id e p o = ground arith

staged-id :
    (p : ProviderConfig) (ref : String) (o : Option Overlay) → OnOk (HasId p.id) (staged p ref o)
unfolding OnOk
staged-id p ref none = tt
staged-id p ref (some o) = refl

stage_as-id :
    (meta : Option TypeMeta) (secret ref : String) (p : ProviderConfig) (o : Overlay)
    → OnOk (HasId p.id) (stage_as meta secret ref (p, o))
unfolding stage_as
stage_as-id meta secret ref p o =
    OnOk-refuse (HasId p.id) (too_long meta secret) secret_oversize _ (
      OnOk-refuse (HasId p.id) (not (valid_ref ref)) ref_invalid _
        (staged-id p ref (set o ref secret)))

same : (p : ProviderConfig) (o : Overlay) → OnOk {E = DraftError} (HasId p.id) (ok (p, o))
unfolding OnOk
same p o = refl

stage_candidate-id :
    (meta : Option TypeMeta) (on_disk : Option ProviderConfig) (is_new : Bool) (e : ProviderEdit)
    (p : ProviderConfig) (o : Overlay)
    → OnOk (HasId p.id) (stage_candidate meta on_disk is_new e (p, o))
unfolding stage_candidate
stage_candidate-id meta on_disk is_new e p o =
    OnOk-if (HasId p.id) (str_eq e.candidate_secret "") (ok (p, o)) _ (same p o) (
      stage_as-id meta e.candidate_secret
        (staged_ref on_disk is_new e.rotate_secret o (default_ref p)) p o)

pub change_provider-id :
    (env : Env) (e : ProviderEdit) (d : Draft) (is_new : Bool) (p : ProviderConfig)
    → OnOk (HasId p.id) (change_provider env e d is_new p)
unfolding change_provider
change_provider-id env e d is_new p =
    let meta = meta_for env e p in
    let on_disk = find_provider e.id d.base.providers in
    let P = HasId p.id in
    OnOk-bind P (edit_fields meta e p)
      (λ q. drop_secret_of e (q, d.overlay) >>= stage_candidate meta on_disk is_new e)
      (λ q a.
        OnOk-bind P (drop_secret_of e (q, d.overlay)) (stage_candidate meta on_disk is_new e)
          (λ kept b.
            let q_id = OnOk-ok (SameId p) (edit_fields meta e p) q a (edit_fields-id meta e p) in
            let kept_id =
              OnOk-ok (HasId q.id) (drop_secret_of e (q, d.overlay)) kept b
                (drop_secret_of-id e q d.overlay) in
            subst (λ i. OnOk (HasId i) (stage_candidate meta on_disk is_new e kept))
              (kept_id ∙ q_id) (stage_candidate-id meta on_disk is_new e kept.0 kept.1)))
