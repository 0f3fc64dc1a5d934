-- ===== src/ConfigTx/Overlay.antt =====
-- internal/configtx/overlay.go: the candidate secrets of a draft, by reference.
use homepi_mon.Common.{
  String, len, Bool, false, [], ◌∷◌, Option, none, some, leb, str_eq, codes, drop, is_some,
  if◌then◌else◌,
}
use homepi_mon.Common.Table.{Table, lookup, insert, delete}
use homepi_mon.Common.Strconv.{codes_eq}
use homepi_mon.ConfigTx.Refs.{valid_ref, before_at}

abbrev pub Overlay : Type 0
Overlay = Table String

-- `has`.
unfoldable pub has : Overlay → String → Bool
unfolding lookup
has o ref = is_some (lookup ref o)

-- `Get`, with what the store behind the overlay answers.
unfoldable pub get_secret : Overlay → String → Option String → Option String
unfolding lookup
get_secret o ref behind = elim (lookup ref o) [ some v ↦ some v | none ↦ behind ]

-- `Set`, with none in place of the error of an invalid reference.
unfoldable pub set : Overlay → String → String → Option Overlay
unfolding valid_ref insert
set o ref value = if valid_ref ref then some (insert ref value o) else none

-- `Delete`, with none in place of `ErrNotFound`.
unfoldable pub remove : Overlay → String → Option Overlay
unfolding has delete
remove o ref = if has o ref then some (delete ref o) else none

-- `containsProviderID`: the first 21 bytes, as many as `keyring:provider-key:` has, are not looked
-- at.
unfoldable pub contains_provider_id : String → String → Bool
unfolding codes_eq
contains_provider_id ref provider =
    if leb (len ref) 21 then false else codes_eq (before_at (drop 21 (codes ref))) (codes provider)

abbrev drop_for : String → Overlay → Overlay
unfolding contains_provider_id
drop_for provider [] = []
drop_for provider ((ref, value) ∷ rest) =
    let others = drop_for provider rest in
    if contains_provider_id ref provider then others else (ref, value) ∷ others

-- `deleteFor`.
unfoldable pub delete_for : String → Overlay → Overlay
unfolding contains_provider_id
delete_for provider o = if str_eq provider "" then o else drop_for provider o
