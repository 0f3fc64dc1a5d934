-- ===== src/ConfigTx/Diff.antt =====
-- The comparison of configurations in internal/configtx/draft.go: equality, the changed fields of a
-- provider, and the difference between the base of a draft and what is staged.
pub mod Fields
pub mod Entries
use homepi_mon.Common.{
  ℕ, String, Bool, true, false, not, ◌&&◌, List, [], ◌∷◌, ◌++◌, Option, none, some, str_eq, is_some,
  length, ◌==◌, map, Option-cases, if◌then◌else◌,
}
use Prim.Native.String.{compare}
use Prim.Native.Nat.{Ordering}
use homepi_mon.Common.Table.{Table, lookup, insert}
use homepi_mon.Config.{ProviderConfig, DeviceConfig, Config}

abbrev pub bool_ptr_eq : Option Bool → Option Bool → Bool
bool_ptr_eq none none = true
bool_ptr_eq (some true) (some b) = b
bool_ptr_eq (some false) (some b) = not b
bool_ptr_eq _ _ = false

-- `b[key]`, which is the empty text for a key that is not there.
abbrev value_at : String → Table String → String
unfolding lookup
value_at key t = elim (lookup key t) [ none ↦ "" | some v ↦ v ]

abbrev all_equal : Table String → Table String → Bool
unfolding lookup
all_equal [] t = true
all_equal ((key, value) ∷ rest) t = str_eq (value_at key t) value && all_equal rest t

abbrev table_of : Option (Table String) → Table String
table_of none = []
table_of (some t) = t

-- `stringMapEqual`; a nil map and an empty one are equal.
unfoldable pub string_map_equal : Option (Table String) → Option (Table String) → Bool
unfolding lookup
string_map_equal a b =
    length (table_of a) == length (table_of b) && all_equal (table_of a) (table_of b)

unfoldable pub provider_equal : ProviderConfig → ProviderConfig → Bool
unfolding string_map_equal
provider_equal a b =
    str_eq a.id b.id
    && str_eq a.kind b.kind
    && str_eq a.account_label b.account_label
    && str_eq a.region b.region
    && str_eq a.base_url b.base_url
    && str_eq a.interval b.interval
    && str_eq a.stale_after b.stale_after
    && bool_ptr_eq a.enabled b.enabled
    && str_eq a.secret_ref b.secret_ref
    && str_eq a.auth_file b.auth_file
    && str_eq a.mock_fixture b.mock_fixture
    && string_map_equal a.options b.options

-- Two lists of the same length whose elements are equal in pairs.
abbrev pub pairwise {ℓ} : {A : Type ℓ} → (A → A → Bool) → List A → List A → Bool
pairwise same [] [] = true
pairwise same (x ∷ xs) (y ∷ ys) = same x y && pairwise same xs ys
pairwise same _ _ = false

unfoldable pub device_equal : DeviceConfig → DeviceConfig → Bool
device_equal a b =
    str_eq a.id b.id
    && str_eq a.token_ref b.token_ref
    && pairwise str_eq a.subscribed_metrics b.subscribed_metrics

-- `configEqual`: providers and devices alone.
unfoldable pub config_equal : Config → Config → Bool
unfolding provider_equal device_equal
config_equal a b =
    pairwise provider_equal a.providers b.providers && pairwise device_equal a.devices b.devices

-- `if a.F != b.F { fields = append(fields, name) }`.
abbrev pub field : Bool → String → List String → List String
field same name rest = if same then rest else name ∷ rest

unfoldable pub diff_provider : ProviderConfig → ProviderConfig → List String
unfolding string_map_equal
diff_provider a b = field (str_eq a.kind b.kind) "type" (
    field (str_eq a.account_label b.account_label) "account_label" (
      field (str_eq a.region b.region) "region" (
        field (str_eq a.base_url b.base_url) "base_url" (
          field (str_eq a.interval b.interval) "interval" (
            field (str_eq a.stale_after b.stale_after) "stale_after" (
              field (str_eq a.secret_ref b.secret_ref) "secret_ref" (
                field (str_eq a.auth_file b.auth_file) "auth_file" (
                  field (str_eq a.mock_fixture b.mock_fixture) "mock_fixture" (
                    field (string_map_equal a.options b.options) "options"
                      (field (bool_ptr_eq a.enabled b.enabled) "enabled" []))))))))))

unfoldable pub index_from : Table ProviderConfig → List ProviderConfig → Table ProviderConfig
unfolding insert
index_from t [] = t
index_from t (p ∷ ps) = index_from (insert p.id p t) ps

-- `indexProviders`: of two providers with one id, the later.
unfoldable pub index_providers : List ProviderConfig → Table ProviderConfig
unfolding index_from
index_providers ps = index_from [] ps

pub data DiffOp : Type 0 where
  added removed modified : DiffOp

pub record DiffEntry : Type 0 where
  pub op : DiffOp
  pub id : String
  pub kind : String
  pub fields : List String

abbrev pub modified_entry : ProviderConfig → List String → List DiffEntry
modified_entry post [] = []
modified_entry post (f ∷ fs) =
    record { op = modified; id = post.id; kind = post.kind; fields = f ∷ fs } ∷ []

-- The entries of one provider that is staged, given the one of that id on disk.
unfoldable pub entry_after : Option ProviderConfig → ProviderConfig → List DiffEntry
unfolding diff_provider
entry_after none post = record { op = added; id = post.id; kind = post.kind; fields = [] } ∷ []
entry_after (some pre) post = modified_entry post (diff_provider pre post)

unfoldable pub changes_of : Table ProviderConfig → Table ProviderConfig → List DiffEntry
unfolding entry_after lookup
changes_of before [] = []
changes_of before ((id, post) ∷ rest) =
    entry_after (lookup id before) post ++ changes_of before rest

unfoldable pub removals_of : Table ProviderConfig → Table ProviderConfig → List DiffEntry
unfolding lookup
removals_of after [] = []
removals_of after ((id, pre) ∷ rest) =
    let others = removals_of after rest in
    if is_some (lookup id after)
    then others
    else record { op = removed; id = pre.id; kind = pre.kind; fields = [] } ∷ others

abbrev before_id : DiffEntry → DiffEntry → Bool
before_id a b = elim (compare a.id b.id) [ Ordering.gt ↦ false | _ ↦ true ]

unfoldable pub insert_entry : DiffEntry → List DiffEntry → List DiffEntry
insert_entry e [] = e ∷ []
insert_entry e (x ∷ xs) =
    let rest = insert_entry e xs in if before_id e x then e ∷ x ∷ xs else x ∷ rest

-- `sort.Slice` by id. The ids are distinct, so that no order of the maps is seen in the result.
unfoldable pub sort_entries : List DiffEntry → List DiffEntry
unfolding insert_entry
sort_entries [] = []
sort_entries (e ∷ es) = insert_entry e (sort_entries es)

-- `diffLocked`, of the providers on disk and of those staged.
unfoldable pub diff : List ProviderConfig → List ProviderConfig → List DiffEntry
unfolding index_providers changes_of removals_of sort_entries
diff base pending =
    let before = index_providers base in
    let after = index_providers pending in
    sort_entries (changes_of before after ++ removals_of after before)

unfoldable pub has_op : DiffOp → DiffEntry → Bool
has_op added e = elim e.op [ added ↦ true | _ ↦ false ]
has_op removed e = elim e.op [ removed ↦ true | _ ↦ false ]
has_op modified e = elim e.op [ modified ↦ true | _ ↦ false ]
