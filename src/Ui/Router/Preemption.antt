-- ===== src/Ui/Router/Preemption.antt =====
-- The page that `Update` of internal/ui/pages.go shows, and the time of the rotation meanwhile.
use homepi_mon.Common.{
  ℕ, zero, suc, ◌-◌, ◌||◌, is_some, ◌+◌, ◌<◌, ◌≡◌, Bool, true, false, Option, none, some, arith,
  leb, ltb, ◌==◌, if◌then◌else◌, min, not, ◌&&◌,
}
use homepi_mon.Ui.Pages.{Page, dwell_of}
use homepi_mon.Ui.Router.{
  Router, since, advance_loop, turn_page, advance, first_critical, tick, expire_remote,
  expire_override, choose, update, catch_up, freeze, show_page,
}

-- The remote page that has not expired.
abbrev pub live_remote : ℕ → Router → Option Page
live_remote now r =
    if not (r.remote_until == 0) && leb r.remote_until now then none else r.remote_page

abbrev pub or_remote : Option Page → Option Page → Page → Page
or_remote (some p) remote base = p
or_remote none (some p) base = p
or_remote none none base = base

-- What the rotation leaves alone.
pub record Keeps (r s : Router) : Type 0 where
  pub config : s.config ≡ r.config
  pub paused : s.paused ≡ r.paused
  pub remote_page : s.remote_page ≡ r.remote_page
  pub remote_until : s.remote_until ≡ r.remote_until
  pub rotation_override : s.rotation_override ≡ r.rotation_override
  pub rotation_enabled : s.rotation_enabled ≡ r.rotation_enabled
  pub rotation_until : s.rotation_until ≡ r.rotation_until

advance_loop-Keeps : (f e : ℕ) (r : Router) → Keeps r (advance_loop f e r)
unfolding advance_loop turn_page
advance_loop-Keeps zero e r = ground arith
advance_loop-Keeps (suc f) e r =
    ground (arith, advance_loop-Keeps f (e - r.remaining) (turn_page r))

advance-Keeps : (e : ℕ) (r : Router) → Keeps r (advance e r)
unfolding advance
advance-Keeps e r = ground (arith, advance_loop-Keeps (suc e) e r)

tick-Keeps : (now : ℕ) (r : Router) → Keeps r (tick now r)
unfolding tick
tick-Keeps now r =
    ground (arith, advance-Keeps (since now (if ltb now r.last then now else r.last)) r)

pub catch_up-Keeps : (now : ℕ) (r : Router) → Keeps r (catch_up now r)
unfolding catch_up
catch_up-Keeps now r = ground (arith, advance-Keeps (since now r.last) r)

pub update-displayed :
    (now : ℕ) (critical : Page → Bool) (r : Router)
    → let s = update now critical r in
      let crit = first_critical critical r.config.order in
      (s.displayed ≡ or_remote crit (live_remote now r) s.page)
      × (s.critical_active ≡ is_some crit)
      × (s.paused ≡ (
          is_some crit
          || is_some (live_remote now r)
          || (s.rotation_override && not s.rotation_enabled)))
unfolding update choose expire_override expire_remote
update-displayed now critical r = ground (arith, tick-Keeps now r)

-- The remaining time after `Update` while the rotation stands still: an override of the rotation
-- that expires cuts it to the page's own dwell.
abbrev pub cut_to_dwell : ℕ → Router → ℕ
cut_to_dwell now r =
    if r.rotation_override && leb r.rotation_until now
    then min r.remaining (dwell_of r.config.dwell r.page)
    else r.remaining

-- While the router is paused, `Update` moves neither the rotation's page nor its remaining time,
-- whatever time has passed, except that an override that expires cuts it to the page's dwell.
pub update_paused :
    (now : ℕ) (critical : Page → Bool) (r : Router)
    → r.paused ≡ true
    → let s = update now critical r in
      (s.page ≡ r.page) × (s.index ≡ r.index) × (s.remaining ≡ cut_to_dwell now r)
unfolding update choose expire_override expire_remote tick
update_paused now critical r h = ground arith

-- A critical page stops the rotation where it is: `Update` shows it, and the next `Update`, however
-- late, finds the rotation at the same page with the same remaining time, if the first one leaves no
-- override of the rotation.
pub critical-resumes :
    (now later : ℕ) (critical next : Page → Bool) (r : Router) {p : Page}
    → first_critical critical r.config.order ≡ some p
    → (update now critical r).rotation_override ≡ false
    → let s = update now critical r in
      let t = update later next s in
      (s.displayed ≡ p) × (t.page ≡ s.page) × (t.index ≡ s.index) × (t.remaining ≡ s.remaining)
critical-resumes now later critical next r h o =
    ground
      (arith, update-displayed now critical r, update_paused later next (update now critical r))

-- Without a critical page, a page that a command shows at an instant after the zero time is displayed
-- until its time is over; then the rotation's page is back. The rotation keeps the time that it had
-- left, cut to the dwell of its page when an override has expired.
pub update-show_page :
    (now later duration : ℕ) (p : Page) (critical : Page → Bool) (r : Router)
    → first_critical critical r.config.order ≡ none
    → 0 < now
    → let f = catch_up now r in
      let s = update later critical (show_page (some p) duration now r) in
      (s.displayed ≡ (if ltb later (now + duration) then p else f.page))
      × (s.remaining ≡ cut_to_dwell later f)
unfolding show_page freeze
update-show_page now later duration p critical r h t =
    let shown = show_page (some p) duration now r in
    ground (
      arith,
      catch_up-Keeps now r,
      update-displayed later critical shown,
      update_paused later critical shown,
    )
