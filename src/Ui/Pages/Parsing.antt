-- ===== src/Ui/Pages/Parsing.antt =====
-- What `ParseRotationConfig` of internal/ui/pages.go lets pass.
use homepi_mon.Common.{
  ℕ, suc, ◌+◌, ◌*◌, ◌≤◌, ◌≡◌, ◌≢◌, refl, ◌∙◌, ap, sym, Bool, true, false, inl, inr, ◌||◌, List, [],
  ◌∷◌, map, Option, none, some, arith, length, Bool-cases, Option-cases, if◌then◌else◌,
}
use homepi_mon.Common.Int.{ℤ}
use homepi_mon.Common.Time.{second}
use homepi_mon.Common.Strconv.{split, cut, atoi, trim_space}
use homepi_mon.Ui.Pages.{
  Page, coding, api, homelab, services, system, page_eq, page_mem, RotationConfig, dwell_of,
  has_dwell, parse_page, parse_order, dwell_seconds, parse_dwell, parse_rotation_config,
}

-- The pages come one after the other, none seen before.
abbrev Fresh : List Page → List Page → Type 0
Fresh seen [] = Unit
Fresh seen (p ∷ ps) = (page_mem p seen ≡ false) × Fresh (p ∷ seen) ps

abbrev one_if : Bool → ℕ
one_if true = 1
one_if false = 0

-- How many of the five pages have not been seen.
abbrev absent : List Page → ℕ
absent seen =
    (one_if (not_seen coding)
      + one_if (not_seen api)
      + one_if (not_seen homelab)
      + one_if (not_seen services)
      + one_if (not_seen system))
  where
    not_seen : Page → Bool
    not_seen p = if page_mem p seen then false else true

absent-pos : (p : Page) (seen : List Page) → page_mem p seen ≡ false → 1 ≤ absent seen
absent-pos coding seen h = ground arith
absent-pos api seen h = ground arith
absent-pos homelab seen h = ground arith
absent-pos services seen h = ground arith
absent-pos system seen h = ground arith

absent-seen :
    (p : Page) (seen : List Page) → page_mem p seen ≡ false → absent (p ∷ seen) + 1 ≡ absent seen
absent-seen coding seen h = ground arith
absent-seen api seen h = ground arith
absent-seen homelab seen h = ground arith
absent-seen services seen h = ground arith
absent-seen system seen h = ground arith

-- Distinct pages that leave one out are fewer than those that have not been seen.
fewer :
    (q : Page) (seen ps : List Page)
    → Fresh seen ps
    → page_mem q seen ≡ false
    → page_mem q ps ≡ false
    → length ps + 1 ≤ absent seen
fewer q seen [] f h k = absent-pos q seen h
fewer q seen (p ∷ ps) f h k =
    omega (arith, absent-seen p seen f.0, fewer q (p ∷ seen) ps f.1 (ground arith) (ground arith))

-- So five distinct pages are all the pages.
all_there : (q : Page) (ps : List Page) → Fresh [] ps → length ps ≡ 5 → page_mem q ps ≡ true
all_there q ps f l = elim (Bool-cases (page_mem q ps)) [
  | inl there ↦ there
  | inr missing ↦ absurd (omega (arith, fewer q [] ps f refl missing))
]

parse_order-step :
    (seen : List Page) (raw : List ℕ) (raws : List (List ℕ)) (p : Page) (ps : List Page)
    → parse_order seen (raw ∷ raws) ≡ some (p ∷ ps)
    → (page_mem p seen ≡ false) × (parse_order (p ∷ seen) raws ≡ some ps)
unfolding parse_order
parse_order-step seen raw raws p ps h = elim (Option-cases (parse_page raw)) [
  | inl e ↦ ground arith
  | inr (q, e) ↦ elim (Option-cases (parse_order (q ∷ seen) raws)) [
    | inl f ↦ ground arith
    | inr (qs, f) ↦ ground arith
  ]
]

parse_order-nonempty :
    (seen : List Page) (raw : List ℕ) (raws : List (List ℕ))
    → parse_order seen (raw ∷ raws) ≢ some []
unfolding parse_order
parse_order-nonempty seen raw raws h = elim (Option-cases (parse_page raw)) [
  | inl e ↦ ground arith
  | inr (q, e) ↦ elim (Option-cases (parse_order (q ∷ seen) raws)) [
    | inl f ↦ ground arith
    | inr (qs, f) ↦ ground arith
  ]
]

parse_order-end :
    (seen : List Page) (p : Page) (ps : List Page) → parse_order seen [] ≢ some (p ∷ ps)
unfolding parse_order
parse_order-end seen p ps h = cc

parse_order-Fresh :
    (seen : List Page) (raws : List (List ℕ)) (ps : List Page)
    → parse_order seen raws ≡ some ps
    → Fresh seen ps × (length ps ≡ length raws)
parse_order-Fresh seen [] [] h = (tt, refl)
parse_order-Fresh seen [] (p ∷ ps) h = absurd (parse_order-end seen p ps h)
parse_order-Fresh seen (raw ∷ raws) [] h = absurd (parse_order-nonempty seen raw raws h)
parse_order-Fresh seen (raw ∷ raws) (p ∷ ps) h =
    let (new, rest) = parse_order-step seen raw raws p ps h in
    let (fresh, same) = parse_order-Fresh (p ∷ seen) raws ps rest in ((new, fresh), ap suc same)

abbrev pages_of : List (Page × ℕ) → List Page
pages_of = map (λ d. d.0)

-- Every dwell is within its limits.
abbrev Within : List (Page × ℕ) → Type 0
Within [] = Unit
Within ((p, d) ∷ ds) = (5 * second ≤ d) × (d ≤ 300 * second) × Within ds

has_dwell-pages_of : (p : Page) (ds : List (Page × ℕ)) → has_dwell p ds ≡ page_mem p (pages_of ds)
has_dwell-pages_of p [] = refl
has_dwell-pages_of p ((q, d) ∷ ds) = ap (λ b. page_eq q p || b) (has_dwell-pages_of p ds)

dwell_of-Within :
    (p : Page) (ds : List (Page × ℕ))
    → Within ds
    → page_mem p (pages_of ds) ≡ true
    → (5 * second ≤ dwell_of ds p) × (dwell_of ds p ≤ 300 * second)
unfolding dwell_of
dwell_of-Within p [] w h = cc
dwell_of-Within p ((q, d) ∷ ds) w h = elim (Bool-cases (page_eq q p)) [
  | inl same ↦ rw same (w.0, w.1)
  | inr other ↦ rw other (dwell_of-Within p ds w.2 (ground arith))
]

dwell_seconds-within : (n : Option ℤ) (s : ℕ) → dwell_seconds n ≡ some s → (5 ≤ s) × (s ≤ 300)
dwell_seconds-within none s h = cc
dwell_seconds-within (some n) s h = ground arith

parse_dwell-step :
    (seen : List (Page × ℕ)) (raw : List ℕ) (raws : List (List ℕ)) (p : Page) (d : ℕ)
    (ds : List (Page × ℕ))
    → parse_dwell seen (raw ∷ raws) ≡ some ((p, d) ∷ ds)
    → (has_dwell p seen ≡ false)
      × (5 * second ≤ d)
      × (d ≤ 300 * second)
      × (parse_dwell ((p, d) ∷ seen) raws ≡ some ds)
unfolding parse_dwell
parse_dwell-step seen raw raws p d ds h =
    let n = atoi (trim_space (cut b':' raw).1) in
    elim (Option-cases (parse_page (cut b':' raw).0)) [
      | inl e ↦ ground arith
      | inr (q, e) ↦ elim (Option-cases (dwell_seconds n)) [
        | inl f ↦ ground arith
        | inr (s, f) ↦ elim (Option-cases (parse_dwell ((q, s * second) ∷ seen) raws)) [
          | inl g ↦ ground arith
          | inr (es, g) ↦ ground (arith, dwell_seconds-within n s f)
        ]
      ]
    ]

parse_dwell-nonempty :
    (seen : List (Page × ℕ)) (raw : List ℕ) (raws : List (List ℕ))
    → parse_dwell seen (raw ∷ raws) ≢ some []
unfolding parse_dwell
parse_dwell-nonempty seen raw raws h =
    let n = atoi (trim_space (cut b':' raw).1) in
    elim (Option-cases (parse_page (cut b':' raw).0)) [
      | inl e ↦ ground arith
      | inr (q, e) ↦ elim (Option-cases (dwell_seconds n)) [
        | inl f ↦ ground arith
        | inr (s, f) ↦ elim (Option-cases (parse_dwell ((q, s * second) ∷ seen) raws)) [
          | inl g ↦ ground arith
          | inr (es, g) ↦ ground arith
        ]
      ]
    ]

parse_dwell-end :
    (seen : List (Page × ℕ)) (d : Page × ℕ) (ds : List (Page × ℕ))
    → parse_dwell seen [] ≢ some (d ∷ ds)
unfolding parse_dwell
parse_dwell-end seen d ds h = cc

parse_dwell-Fresh :
    (seen : List (Page × ℕ)) (raws : List (List ℕ)) (ds : List (Page × ℕ))
    → parse_dwell seen raws ≡ some ds
    → Fresh (pages_of seen) (pages_of ds) × Within ds × (length (pages_of ds) ≡ length raws)
parse_dwell-Fresh seen [] [] h = (tt, tt, refl)
parse_dwell-Fresh seen [] (d ∷ ds) h = absurd (parse_dwell-end seen d ds h)
parse_dwell-Fresh seen (raw ∷ raws) [] h = absurd (parse_dwell-nonempty seen raw raws h)
parse_dwell-Fresh seen (raw ∷ raws) ((p, d) ∷ ds) h =
    let (new, low, high, rest) = parse_dwell-step seen raw raws p d ds h in
    let (fresh, within, same) = parse_dwell-Fresh ((p, d) ∷ seen) raws ds rest in
    ((sym (has_dwell-pages_of p seen) ∙ new, fresh), (low, high, within), ap suc same)

-- A configuration that parses.
record Parsed (order_text dwell_text : List ℕ) (c : RotationConfig) : Type 0 where
  five_pages : length (split b',' order_text) ≡ 5
  five_dwells : length (split b',' dwell_text) ≡ 5
  order : parse_order [] (split b',' order_text) ≡ some c.order
  dwell : parse_dwell [] (split b',' dwell_text) ≡ some c.dwell

config-Parsed :
    (order_text dwell_text : List ℕ) (c : RotationConfig)
    → parse_rotation_config order_text dwell_text ≡ some c
    → Parsed order_text dwell_text c
unfolding parse_rotation_config
config-Parsed order_text dwell_text c h =
    elim (Option-cases (parse_order [] (split b',' order_text))) [
      | inl e ↦ ground arith
      | inr (ps, e) ↦ elim (Option-cases (parse_dwell [] (split b',' dwell_text))) [
        | inl f ↦ ground arith
        | inr (ds, f) ↦ record {
          five_pages = ground arith;
          five_dwells = ground arith;
          order = ground arith;
          dwell = ground arith;
        }
      ]
    ]

-- A configuration of the rotation that parses has five pages in its order, and every page is among
-- them and has a dwell of 5 to 300 seconds.
pub parse_rotation_config_lem :
    (order_text dwell_text : List ℕ) (c : RotationConfig) (p : Page)
    → parse_rotation_config order_text dwell_text ≡ some c
    → (length c.order ≡ 5)
      × (page_mem p c.order ≡ true)
      × (5 * second ≤ dwell_of c.dwell p)
      × (dwell_of c.dwell p ≤ 300 * second)
parse_rotation_config_lem order_text dwell_text c p h =
    let parsed = config-Parsed order_text dwell_text c h in
    let (pages, same) = parse_order-Fresh [] (split b',' order_text) c.order parsed.order in
    let (dwells, within, many) =
      parse_dwell-Fresh [] (split b',' dwell_text) c.dwell parsed.dwell in
    let five = same ∙ parsed.five_pages in
    let (low, high) =
      dwell_of-Within p c.dwell within
        (all_there p (pages_of c.dwell) dwells (many ∙ parsed.five_dwells)) in
    (five, all_there p c.order pages five, low, high)
