-- ===== src/ConfigTx/Diff/Entries.antt =====
-- Which providers the difference of two configurations lists.
use homepi_mon.Common.{
  String, ◌≡◌, Bool, true, false, not, ◌||◌, List, [], ◌∷◌, Option, none, some, str_eq,
}
use homepi_mon.Common.Table.{Table, has_key}
use homepi_mon.Config.{ProviderConfig}
use homepi_mon.ConfigTx.Diff.{DiffEntry, diff_provider}

-- Whether an entry has the id.
unfoldable pub lists_id : String → List DiffEntry → Bool
lists_id id [] = false
lists_id id (e ∷ es) = str_eq e.id id || lists_id id es

-- An index: every key once, over a provider of that id.
abbrev IsIndex : Table ProviderConfig → Type 0
IsIndex [] = Unit
IsIndex ((id, p) ∷ rest) = (p.id ≡ id) × (has_key id rest ≡ false) × IsIndex rest

-- No entry is made for a provider that has not changed.
abbrev pub unchanged : Option ProviderConfig → Option ProviderConfig → Bool
unfolding diff_provider
unchanged none none = true
unchanged (some p) (some q) = elim (diff_provider p q) [ [] ↦ true | _ ∷ _ ↦ false ]
unchanged _ _ = false

abbrev changed_after : Option ProviderConfig → Option ProviderConfig → Bool
unfolding unchanged
changed_after pre none = false
changed_after pre (some post) = not (unchanged pre (some post))
