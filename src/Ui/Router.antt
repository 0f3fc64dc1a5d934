-- ===== src/Ui/Router.antt =====
-- The Router of internal/ui/pages.go. Every method runs under the mutex and takes the instant from
-- its caller; the durations that callers pass are not negative.
pub mod Rotation
pub mod Invariant
pub mod Preemption
pub mod Stepping
mod Tests
use homepi_mon.Common.{
  ℕ, zero, suc, ◌+◌, ◌-◌, ◌%◌, Bool, true, false, not, ◌&&◌, ◌||◌, List, [], ◌∷◌, Option, none,
  some, leb, ltb, ◌==◌, length, min, if◌then◌else◌, is_some,
}
use homepi_mon.Common.Int.{ℤ, pos, negsuc, pos_part, neg_part}
use homepi_mon.Common.Time.{max_int64}
use homepi_mon.Ui.Pages.{Page, coding, page_eq, RotationConfig, dwell_of}

-- `remote_page` is `none` for the empty page, and `remote_until` 0 for the zero time.
pub record Router : Type 0 where
  pub config : RotationConfig
  pub page : Page
  pub index : ℕ
  pub remaining : ℕ
  pub last : ℕ
  pub paused : Bool
  pub remote_page : Option Page
  pub remote_until : ℕ
  pub rotation_override : Bool
  pub rotation_enabled : Bool
  pub rotation_interval : ℕ
  pub rotation_until : ℕ
  pub displayed : Page
  pub critical_active : Bool

-- The first place of a page in the order, counted from `i`, and `n` if it has none.
abbrev pub index_at : ℕ → ℕ → Page → List Page → ℕ
index_at i n p [] = n
index_at i n p (q ∷ qs) = if page_eq q p then i else index_at (suc i) n p qs

-- `order[i]`; no code asks for a place outside the order.
unfoldable pub page_at : List Page → ℕ → Page
page_at [] i = coding
page_at (p ∷ ps) zero = p
page_at (p ∷ ps) (suc i) = page_at ps i

unfoldable pub new_router : RotationConfig → ℕ → Router
new_router config now = record {
  config = config;
  page = coding;
  index = index_at 0 0 coding config.order;
  remaining = dwell_of config.dwell coding;
  last = now;
  paused = false;
  remote_page = none;
  remote_until = 0;
  rotation_override = false;
  rotation_enabled = true;
  rotation_interval = 0;
  rotation_until = 0;
  displayed = coding;
  critical_active = false;
}

-- `now.Sub(last)` for an instant that is not before `last`.
abbrev pub since : ℕ → ℕ → ℕ
since now last = min (now - last) max_int64

unfoldable pub dwell_locked : Router → Page → ℕ
dwell_locked r p =
    if r.rotation_override && r.rotation_enabled && ltb 0 r.rotation_interval
    then r.rotation_interval
    else dwell_of r.config.dwell p

-- One round of the loop of `advanceLocked`: the next page in the order, with its full dwell.
unfoldable pub turn_page : Router → Router
unfolding page_at dwell_locked
turn_page r =
    let i = (r.index + 1) % length r.config.order in
    let p = page_at r.config.order i in
    record r { index = i; page = p; remaining = dwell_locked r p }

-- The loop, with fuel for its rounds.
unfoldable pub advance_loop : ℕ → ℕ → Router → Router
advance_loop zero elapsed r = r
advance_loop (suc fuel) elapsed r =
    let turned = advance_loop fuel (elapsed - r.remaining) (turn_page r) in
    if leb r.remaining elapsed then turned else record r { remaining = r.remaining - elapsed }

-- Every round takes at least one nanosecond while dwells are positive (Router/Rotation.antt).
unfoldable pub advance : ℕ → Router → Router
advance elapsed r = if elapsed == 0 then r else advance_loop (suc elapsed) elapsed r

unfoldable pub first_critical : (Page → Bool) → List Page → Option Page
first_critical critical [] = none
first_critical critical (p ∷ ps) = if critical p then some p else first_critical critical ps

-- The clock of `Update`: a step back of the clock counts as no time.
unfoldable pub tick : ℕ → Router → Router
tick now r =
    let last = if ltb now r.last then now else r.last in
    let r' = if r.paused then r else advance (since now last) r in record r' { last = now }

-- An expired remote page goes.
unfoldable pub expire_remote : ℕ → Router → Router
expire_remote now r =
    if not (r.remote_until == 0) && leb r.remote_until now
    then record r { remote_page = none; remote_until = 0 }
    else r

-- An expired override of the rotation goes, and the page keeps at most its configured dwell.
unfoldable pub expire_override : ℕ → Router → Router
expire_override now r =
    if r.rotation_override && leb r.rotation_until now
    then record r {
      rotation_override = false;
      rotation_enabled = true;
      rotation_interval = 0;
      remaining = min r.remaining (dwell_of r.config.dwell r.page);
    }
    else r

abbrev pub show_base : Router → Router
show_base r = record r {
  critical_active = false;
  paused = r.rotation_override && not r.rotation_enabled;
  displayed = r.page;
}

abbrev pub show_remote : Option Page → Router → Router
show_remote none r = show_base r
show_remote (some p) r = record r { critical_active = false; paused = true; displayed = p }

abbrev pub show_critical : Option Page → Router → Router
show_critical none r = show_remote r.remote_page r
show_critical (some p) r = record r { critical_active = true; paused = true; displayed = p }

-- A critical page comes before a remote page, and that before the rotation.
unfoldable pub choose : (Page → Bool) → Router → Router
choose critical r = show_critical (first_critical critical r.config.order) r

-- `Update`; the page that it returns is `displayed`.
unfoldable pub update : ℕ → (Page → Bool) → Router → Router
update now critical r = choose critical (expire_override now (expire_remote now (tick now r)))

unfoldable pub position : Router → ℕ × ℕ
position r = (index_at 1 1 r.displayed r.config.order, length r.config.order)

unfoldable pub rotation_on : Router → Bool
rotation_on r = not r.rotation_override || r.rotation_enabled

-- The rotation up to now, if it runs; `last` is now.
unfoldable pub catch_up : ℕ → Router → Router
catch_up now r =
    let r' = if ltb r.last now && not r.paused then advance (since now r.last) r else r in
    record r' { last = now }

unfoldable pub freeze : ℕ → Router → Router
freeze now r = record (catch_up now r) { paused = true }

-- `none` is the empty page, as after a failed `ParsePage`.
unfoldable pub show_page : Option Page → ℕ → ℕ → Router → Router
show_page p duration now r = record (freeze now r) {
  remote_page = p;
  remote_until = now + duration;
}

abbrev pub base_index : Option Page → Router → ℕ
base_index none r = r.index
base_index (some p) r = index_at 0 r.index p r.config.order

-- `showStepLocked`: one page on from the remote page, or from the rotation's.
unfoldable pub show_step : ℤ → ℕ → ℕ → Router → Router
show_step step duration now r =
    let f = freeze now r in
    let n = length f.config.order in
    let i = (base_index f.remote_page f + n + pos_part step - neg_part step) % n in
    record f { remote_page = some (page_at f.config.order i); remote_until = now + duration }

unfoldable pub next_page : ℕ → ℕ → Router → Router
next_page = show_step (pos 1)

unfoldable pub previous_page : ℕ → ℕ → Router → Router
previous_page = show_step (negsuc 0)

unfoldable pub set_rotation : Bool → ℕ → ℕ → ℕ → Router → Router
set_rotation enabled interval duration now r =
    let c = catch_up now r in
    record c {
      rotation_override = true;
      rotation_enabled = enabled;
      rotation_interval = interval;
      rotation_until = now + duration;
      remaining = if enabled && ltb 0 interval then interval else c.remaining;
      paused = is_some c.remote_page || not enabled;
    }
