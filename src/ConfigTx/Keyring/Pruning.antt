-- ===== src/ConfigTx/Keyring/Pruning.antt =====
-- The entries of the secret store after all candidates are committed and after a pruning.
use homepi_mon.Common.{
  String, ◌≡◌, refl, true, false, not, ◌&&◌, ◌||◌, List, [], ◌∷◌, ◌++◌, Option, none, some,
  text_mem, is_some, inl, inr, Bool-cases, arith, eq_iff, if◌then◌else◌,
}
use homepi_mon.Common.Table.{Table, lookup, insert, delete, lookup-insert, lookup-delete}
use homepi_mon.ConfigTx.Keyring.{StoreFaults, commit_secrets, prune_secrets}
use homepi_mon.ConfigTx.Keyring.Candidates.{SetOutcome-cases}

-- The candidate, or else what was there.
abbrev pub staged_or : Option String → Option String → Option String
staged_or (some v) old = some v
staged_or none old = old

-- When all candidates are committed, each is in the store, where nothing had its reference before, and
-- the other entries are as they were.
unfoldable pub Commits : Table String → Table String → Table String → String → Type 0
unfolding lookup
Commits overlay secrets after k =
    (lookup k after ≡ staged_or (lookup k overlay) (lookup k secrets))
    × (is_some (lookup k overlay) ≡ true → lookup k secrets ≡ none)

pub commit_secrets-Commits :
    (f : StoreFaults) (overlay secrets : Table String) (refs : List String) (k : String)
    → (commit_secrets f overlay secrets refs).error ≡ none
    → Commits overlay secrets (commit_secrets f overlay secrets refs).secrets k
unfolding commit_secrets lookup Commits
commit_secrets-Commits f [] secrets refs k e = (refl, λ a. absurd (ground arith))
commit_secrets-Commits f ((ref, value) ∷ rest) secrets refs k e =
    let below = commit_secrets-Commits f rest (insert ref value secrets) (refs ++ ref ∷ []) k in
    let inserted = lookup-insert ref k value secrets in
    elim (Bool-cases (f.get_fails ref || is_some (lookup ref secrets))) [
      | inl a ↦ ground (arith, e)
      | inr a ↦ elim (SetOutcome-cases (f.set_outcome ref)) [
        | inl b ↦ ground (arith, below, inserted, eq_iff ref k, e, a, b)
        | inr (inl b) ↦ absurd (ground (arith, e, a, b))
        | inr (inr b) ↦ absurd (ground (arith, e, a, b))
      ]
    ]

-- A pruning leaves the references in use alone.
pub prune_secrets-used :
    (f : StoreFaults) (used refs : List String) (secrets : Table String) (pruned : List String)
    (k : String)
    → text_mem k used ≡ true
    → lookup k (prune_secrets f used refs secrets pruned).secrets ≡ lookup k secrets
unfolding prune_secrets
prune_secrets-used f used [] secrets pruned k h = refl
prune_secrets-used f used (ref ∷ refs) secrets pruned k h =
    let kept = prune_secrets-used f used refs secrets pruned k h in
    let deleted = prune_secrets-used f used refs (delete ref secrets) (pruned ++ ref ∷ []) k h in
    ground (arith, kept, deleted, lookup-delete ref k secrets, eq_iff ref k)

-- A pruning in which no deletion fails takes out the other references, and nothing else.
pub lookup-prune_secrets :
    (f : StoreFaults) (used refs : List String) (secrets : Table String) (pruned : List String)
    (k : String)
    → ((ref : String) → f.delete_fails ref ≡ false)
    → lookup k (prune_secrets f used refs secrets pruned).secrets
      ≡ (if text_mem k refs && not (text_mem k used) then none else lookup k secrets)
unfolding prune_secrets
lookup-prune_secrets f used [] secrets pruned k h = refl
lookup-prune_secrets f used (ref ∷ refs) secrets pruned k h =
    let kept = lookup-prune_secrets f used refs secrets pruned k h in
    let deleted = lookup-prune_secrets f used refs (delete ref secrets) (pruned ++ ref ∷ []) k h in
    ground (arith, kept, deleted, lookup-delete ref k secrets, eq_iff ref k, h ref)
