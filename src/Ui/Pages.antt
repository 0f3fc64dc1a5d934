-- ===== src/Ui/Pages.antt =====
-- The pages of internal/ui/pages.go, their names, and the rotation's configuration with its text.
pub mod Parsing
mod Tests
use homepi_mon.Common.{
  ℕ, ◌*◌, Bool, true, false, ◌&&◌, ◌||◌, List, [], ◌∷◌, Option, none, some, ◌==◌, codes, length,
  if◌then◌else◌,
}
use homepi_mon.Common.Int.{ℤ, pos, pos_part, leb_ℤ}
use homepi_mon.Common.Time.{second}
use homepi_mon.Common.Strconv.{cut, split, atoi, trim_space, to_upper, codes_eq}

pub data Page : Type 0 where
  coding api homelab services system : Page

abbrev pub all_pages : List Page
all_pages = coding ∷ api ∷ homelab ∷ services ∷ system ∷ []

abbrev pub page_eq : Page → Page → Bool
page_eq coding coding = true
page_eq api api = true
page_eq homelab homelab = true
page_eq services services = true
page_eq system system = true
page_eq _ _ = false

-- The page as a string.
abbrev pub page_name : Page → List ℕ
page_name coding = codes "CODING"
page_name api = codes "API"
page_name homelab = codes "HOMELAB"
page_name services = codes "SERVICES"
page_name system = codes "SYSTEM"

unfoldable pub find_name : List ℕ → List Page → Option Page
unfolding codes_eq
find_name v [] = none
find_name v (p ∷ ps) = if codes_eq v (page_name p) then some p else find_name v ps

unfoldable pub parse_page : List ℕ → Option Page
unfolding find_name trim_space to_upper
parse_page value = find_name (to_upper (trim_space value)) all_pages

abbrev pub page_mem : Page → List Page → Bool
page_mem p [] = false
page_mem p (q ∷ qs) = page_eq q p || page_mem p qs

-- `Dwell` is a map from pages to durations; a missing page has the zero duration.
pub record RotationConfig : Type 0 where
  pub order : List Page
  pub dwell : List (Page × ℕ)

unfoldable pub dwell_of : List (Page × ℕ) → Page → ℕ
dwell_of [] p = 0
dwell_of ((q, d) ∷ ds) p = if page_eq q p then d else dwell_of ds p

abbrev pub has_dwell : Page → List (Page × ℕ) → Bool
has_dwell p [] = false
has_dwell p ((q, d) ∷ ds) = page_eq q p || has_dwell p ds

abbrev pub add_page : List Page → Option Page → (Page → Option (List Page)) → Option (List Page)
add_page seen none rest = none
add_page seen (some p) rest = if page_mem p seen then none else rest p

-- The loop over the parts of the order: every part is a page, and none comes twice.
unfoldable pub parse_order : List Page → List (List ℕ) → Option (List Page)
parse_order seen [] = some []
parse_order seen (raw ∷ raws) =
    add_page seen (parse_page raw)
      (λ p. elim (parse_order (p ∷ seen) raws) [ none ↦ none | some ps ↦ some (p ∷ ps) ])

-- A dwell of 5 to 300 seconds.
abbrev pub dwell_seconds : Option ℤ → Option ℕ
dwell_seconds none = none
dwell_seconds (some s) = if leb_ℤ (pos 5) s && leb_ℤ s (pos 300) then some (pos_part s) else none

abbrev pub add_dwell :
    Option Page
    → Option ℕ
    → List (Page × ℕ)
    → (Page × ℕ → Option (List (Page × ℕ)))
    → Option (List (Page × ℕ))
add_dwell none seconds seen rest = none
add_dwell (some p) none seen rest = none
add_dwell (some p) (some s) seen rest = if has_dwell p seen then none else rest (p, s * second)

-- The loop over the parts of the dwell text. Without a colon the seconds are an empty text, which
-- is refused as well.
unfoldable pub parse_dwell : List (Page × ℕ) → List (List ℕ) → Option (List (Page × ℕ))
parse_dwell seen [] = some []
parse_dwell seen (raw ∷ raws) =
    let (name, seconds, found) = cut b':' raw in
    add_dwell (parse_page name) (dwell_seconds (atoi (trim_space seconds))) seen
      (λ d. elim (parse_dwell (d ∷ seen) raws) [ none ↦ none | some ds ↦ some (d ∷ ds) ])

abbrev pub config_of : Option (List Page) → Option (List (Page × ℕ)) → Option RotationConfig
config_of none ds = none
config_of (some ps) none = none
config_of (some ps) (some ds) = some (record { order = ps; dwell = ds })

-- Five distinct pages, and for each of five parts a page with its dwell.
unfoldable pub parse_rotation_config : List ℕ → List ℕ → Option RotationConfig
unfolding parse_order parse_dwell
parse_rotation_config order_text dwell_text =
    let orders = split b',' order_text in
    let dwells = split b',' dwell_text in
    if length orders == 5 && length dwells == 5
    then config_of (parse_order [] orders) (parse_dwell [] dwells)
    else none
