-- ===== src/Ui/Router/Tests.antt =====
-- Runs of the Router of internal/ui/pages.go.
use homepi_mon.Common.{
  ◌≡◌, ◌*◌, ◌+◌, ◌<◌, refl, Bool, true, false, ◌∷◌, [], none, some, arith, ltb, if◌then◌else◌,
}
use homepi_mon.Common.Int.{pos}
use homepi_mon.Common.Time.{second}
use homepi_mon.Ui.Pages.{
  Page, RotationConfig, coding, api, homelab, services, system, dwell_of, page_eq,
}
use homepi_mon.Ui.Router.{
  Router, new_router, advance, update, show_page, catch_up, first_critical, choose, expire_override,
  expire_remote, tick, advance_loop, turn_page,
}
use homepi_mon.Ui.Router.Rotation.{IsReady, advance-add}
use homepi_mon.Ui.Router.Invariant.{call, steps, call-IsReady, new_router-IsReady}
use homepi_mon.Ui.Router.Preemption.{cut_to_dwell, update-show_page}

abbrev config : RotationConfig
config = record {
  order = coding ∷ api ∷ homelab ∷ services ∷ system ∷ [];
  dwell =
      (coding, 10 * second)
      ∷ (api, 20 * second)
      ∷ (homelab, 5 * second)
      ∷ (services, 7 * second)
      ∷ (system, 9 * second)
      ∷ [];
}

abbrev router : Router
router = new_router config (100 * second)

-- A router whose rotation stands still.
abbrev stopped : Router
stopped = record router { paused = true }

abbrev homelab_critical : Page → Bool
homelab_critical p = page_eq homelab p

abbrev none_critical : Page → Bool
none_critical p = false

positive_dwells : (p : Page) → 0 < dwell_of config.dwell p
unfolding dwell_of
positive_dwells coding = omega arith
positive_dwells api = omega arith
positive_dwells homelab = omega arith
positive_dwells services = omega arith
positive_dwells system = omega arith

router-IsReady : IsReady router
router-IsReady = new_router-IsReady config (100 * second) refl positive_dwells

advance-add_example :
    advance (33 * second + 4 * second) router ≡ advance (4 * second) (advance (33 * second) router)
advance-add_example = advance-add (33 * second) (4 * second) router router-IsReady

call-IsReady_example : IsReady (call (135 * second) router (steps (pos 1) (30 * second)))
call-IsReady_example =
    call-IsReady (135 * second) router (steps (pos 1) (30 * second)) router-IsReady

critical_homelab : first_critical homelab_critical config.order ≡ some homelab
unfolding first_critical
critical_homelab = refl

critical_none : first_critical none_critical config.order ≡ none
unfolding first_critical
critical_none = refl

no_override : (update (135 * second) homelab_critical router).rotation_override ≡ false
unfolding update choose first_critical expire_override expire_remote tick new_router advance
    advance_loop dwell_of turn_page
no_override = refl

update-show_page_example :
    let f = catch_up (103 * second) router in
    let s =
      update
        (110 * second)
        none_critical
        (show_page (some services) (30 * second) (103 * second) router) in
    (s.displayed ≡ (if ltb (110 * second) (103 * second + 30 * second) then services else f.page))
    × (s.remaining ≡ cut_to_dwell (110 * second) f)
unfolding new_router
update-show_page_example =
    update-show_page (103 * second) (110 * second) (30 * second) services none_critical router
      critical_none (omega arith)
