-- ===== src/ConfigTx/Keyring.antt =====
-- The secret store as internal/configtx/apply.go uses it: `Get`, `Set` and `Delete` of
-- internal/secretstore/secretstore.go over the entries of a backend, whose failures are an argument.
pub mod Candidates
pub mod Pruning
use homepi_mon.Common.{
  ℕ, zero, suc, String, Bool, true, false, not, ◌&&◌, ◌||◌, List, [], ◌∷◌, ◌++◌, Option, none, some,
  str_eq, text_mem, is_some, if◌then◌else◌,
}
use homepi_mon.Common.Table.{Table, lookup, insert, delete}
use homepi_mon.Config.{ProviderConfig, DeviceConfig, Config}

-- A `Set` stores the value, fails without it, or fails after it was stored.
pub data SetOutcome : Type 0 where
  stored refused torn : SetOutcome

-- A `Restart` loads the configuration, or fails and leaves the service running or stopped.
pub data RestartOutcome : Type 0 where
  restarted kept stopped : RestartOutcome

pub record StoreFaults : Type 0 where
  pub get_fails : String → Bool  -- with an error that is not `ErrNotFound`
  pub set_outcome : String → SetOutcome
  pub delete_fails : String → Bool  -- likewise

-- The errors of the loop that commits the candidates.
pub data CommitError : Type 0 where
  candidate_exists candidate_unchecked candidate_not_stored : CommitError

-- The entries, the references committed so far, and the error that stopped the loop.
pub record Committed : Type 0 where
  pub secrets : Table String
  pub refs : List String
  pub error : Option CommitError

-- The loop of `Apply` over the candidates, in any order of the overlay.
unfoldable pub commit_secrets : StoreFaults → Table String → Table String → List String → Committed
unfolding lookup insert
commit_secrets f [] secrets refs = record { secrets = secrets; refs = refs; error = none }
commit_secrets f ((ref, value) ∷ rest) secrets refs =
    let next = commit_secrets f rest (insert ref value secrets) (refs ++ ref ∷ []) in
    let all = refs ++ ref ∷ [] in
    if f.get_fails ref
    then record { secrets = secrets; refs = refs; error = some candidate_unchecked }
    else if is_some (lookup ref secrets)
    then record { secrets = secrets; refs = refs; error = some candidate_exists }
    else elim (f.set_outcome ref) [
      | stored ↦ next
      | refused ↦ record { secrets = secrets; refs = all; error = some candidate_not_stored }
      | torn ↦ record {
        secrets = insert ref value secrets;
        refs = all;
        error = some candidate_not_stored;
      }
    ]

-- The deletions of a rollback: the entries, and the number of errors.
unfoldable pub delete_refs : StoreFaults → List String → Table String → Table String × ℕ
unfolding delete
delete_refs f [] secrets = (secrets, 0)
delete_refs f (ref ∷ refs) secrets =
    let (after, errors) =
      delete_refs f refs (if f.delete_fails ref then secrets else delete ref secrets) in
    (after, if f.delete_fails ref then suc errors else errors)

unfoldable pub add_ref : String → List String → List String
add_ref ref refs = if str_eq ref "" || text_mem ref refs then refs else refs ++ ref ∷ []

abbrev provider_refs : List ProviderConfig → List String → List String
unfolding add_ref
provider_refs [] refs = refs
provider_refs (p ∷ ps) refs = provider_refs ps (add_ref p.secret_ref refs)

abbrev device_refs : List DeviceConfig → List String → List String
unfolding add_ref
device_refs [] refs = refs
device_refs (d ∷ ds) refs = device_refs ds (add_ref d.token_ref refs)

-- `collectRefs`: the set of the references of a configuration.
unfoldable pub collect_refs : Config → List String
unfolding add_ref
collect_refs c = device_refs c.devices (provider_refs c.providers [])

-- The entries, the references pruned, and whether no deletion failed.
pub record Pruned : Type 0 where
  pub secrets : Table String
  pub refs : List String
  pub complete : Bool

-- The loop of `pruneOrphanSecrets` over the references of the old configuration; `used` are those of
-- the new one and of the overlay and those to keep. A failure stops it.
unfoldable pub prune_secrets :
    StoreFaults → List String → List String → Table String → List String → Pruned
unfolding lookup delete
prune_secrets f used [] secrets pruned = record {
  secrets = secrets;
  refs = pruned;
  complete = true;
}
prune_secrets f used (ref ∷ refs) secrets pruned =
    let deletes = not (text_mem ref used) && is_some (lookup ref secrets) in
    let rest =
      prune_secrets f used refs (if deletes then delete ref secrets else secrets)
        (if deletes then pruned ++ ref ∷ [] else pruned) in
    if not (text_mem ref used) && f.delete_fails ref
    then record { secrets = secrets; refs = pruned; complete = false }
    else rest
