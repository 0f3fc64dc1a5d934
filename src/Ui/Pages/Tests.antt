-- ===== src/Ui/Pages/Tests.antt =====
-- The configuration that internal/ui/pages.go starts with, `DefaultRotationConfig`.
use homepi_mon.Common.{ℕ, ◌≡◌, ◌≤◌, ◌*◌, refl, true, List, [], ◌∷◌, some, codes, length}
use homepi_mon.Common.Time.{second}
use homepi_mon.Common.Strconv.{split, cut, atoi}
use homepi_mon.Ui.Pages.Parsing.{parse_rotation_config_lem}
use homepi_mon.Ui.Pages.{
  RotationConfig, coding, api, homelab, services, system, page_mem, dwell_of, parse_page,
  parse_rotation_config,
}

abbrev order_text : List ℕ
order_text = codes "CODING,API,HOMELAB,SERVICES,SYSTEM"

abbrev dwell_text : List ℕ
dwell_text = codes "CODING:15,API:15,HOMELAB:15,SERVICES:15,SYSTEM:15"

abbrev default_config : RotationConfig
default_config = record {
  order = coding ∷ api ∷ homelab ∷ services ∷ system ∷ [];
  dwell =
      (coding, 15 * second)
      ∷ (api, 15 * second)
      ∷ (homelab, 15 * second)
      ∷ (services, 15 * second)
      ∷ (system, 15 * second)
      ∷ [];
}

parses : parse_rotation_config order_text dwell_text ≡ some default_config
unfolding parse_rotation_config split parse_page cut atoi
parses = refl

parse_rotation_config_lem_example :
    (length default_config.order ≡ 5)
    × (page_mem api default_config.order ≡ true)
    × (5 * second ≤ dwell_of default_config.dwell api)
    × (dwell_of default_config.dwell api ≤ 300 * second)
parse_rotation_config_lem_example =
    parse_rotation_config_lem order_text dwell_text default_config api parses
