-- ===== src/ConfigTx/Keyring/Candidates.antt =====
-- The candidates that are committed to the secret store, and their deletion by a rollback.
use homepi_mon.Common.{
  String, ◌≡◌, refl, ◌⊎◌, ◌||◌, List, [], ◌∷◌, ◌++◌, none, text_mem, text_mem-append, is_some, inl,
  inr, Bool-cases, arith, eq_iff, if◌then◌else◌,
}
use homepi_mon.Common.Table.{Table, lookup, insert, delete, lookup-insert, lookup-delete}
use homepi_mon.ConfigTx.Keyring.{
  StoreFaults, SetOutcome, stored, refused, torn, commit_secrets, delete_refs,
}

-- The entries without those of the references, as they were in `base`.
unfoldable pub Hides : Table String → Table String → List String → Type 0
unfolding lookup
Hides base secrets refs =
    (k : String) → lookup k base ≡ (if text_mem k refs then none else lookup k secrets)

Hides-insert :
    (base secrets : Table String) (refs : List String) (ref value : String)
    → lookup ref secrets ≡ none
    → Hides base secrets refs
    → Hides base (insert ref value secrets) (refs ++ ref ∷ [])
unfolding Hides
Hides-insert base secrets refs ref value fresh h k =
    ground (arith, h k, text_mem-append k ref refs, lookup-insert ref k value secrets, eq_iff ref k)

Hides-append :
    (base secrets : Table String) (refs : List String) (ref : String)
    → lookup ref secrets ≡ none
    → Hides base secrets refs
    → Hides base secrets (refs ++ ref ∷ [])
unfolding Hides
Hides-append base secrets refs ref fresh h k =
    ground (arith, h k, text_mem-append k ref refs, eq_iff ref k)

pub SetOutcome-cases : (o : SetOutcome) → (o ≡ stored) ⊎ ((o ≡ refused) ⊎ (o ≡ torn))
SetOutcome-cases stored = inl refl
SetOutcome-cases refused = inr (inl refl)
SetOutcome-cases torn = inr (inr refl)

pub commit_secrets-Hides :
    (f : StoreFaults) (overlay base secrets : Table String) (refs : List String)
    → Hides base secrets refs
    → let c = commit_secrets f overlay secrets refs in Hides base c.secrets c.refs
unfolding commit_secrets Hides
commit_secrets-Hides f [] base secrets refs h = h
commit_secrets-Hides f ((ref, value) ∷ rest) base secrets refs h = λ k.
    elim (Bool-cases (f.get_fails ref || is_some (lookup ref secrets))) [
      | inl e ↦ ground (arith, h k)
      | inr e ↦ elim (SetOutcome-cases (f.set_outcome ref)) [
        | inl o ↦
            let next = Hides-insert base secrets refs ref value (ground arith) h in
            let below =
              commit_secrets-Hides f rest base (insert ref value secrets) (refs ++ ref ∷ []) next
                k in
            ground (arith, below)
        | inr (inl o) ↦
            let next = Hides-append base secrets refs ref (ground arith) h k in ground (arith, next)
        | inr (inr o) ↦
            let next = Hides-insert base secrets refs ref value (ground arith) h k in
            ground (arith, next)
      ]
    ]

pub lookup-delete_refs :
    (f : StoreFaults) (refs : List String) (secrets : Table String) (k : String)
    → (delete_refs f refs secrets).1 ≡ 0
    → lookup k (delete_refs f refs secrets).0 ≡ (if text_mem k refs then none else lookup k secrets)
unfolding delete_refs
lookup-delete_refs f [] secrets k h = refl
lookup-delete_refs f (ref ∷ refs) secrets k h = elim (Bool-cases (f.delete_fails ref)) [
  | inl e ↦ ground arith
  | inr e ↦
      let below = lookup-delete_refs f refs (delete ref secrets) k in
      ground (arith, below, lookup-delete ref k secrets, eq_iff ref k)
]
