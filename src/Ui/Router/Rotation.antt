-- ===== src/Ui/Router/Rotation.antt =====
-- The automatic rotation of internal/ui/pages.go: the loop of `advanceLocked` and its fuel.
use homepi_mon.Common.{
  ℕ, zero, suc, ◌+◌, ◌-◌, ◌≤◌, ◌<◌, ◌≡◌, refl, sym, ◌∙◌, ap, inl, inr, arith, leb, length,
  Bool-cases, leb→le, subst,
}
use native.Mathlib.Nat.{mod-lt}
use homepi_mon.Ui.Pages.{Page, dwell_of}
use homepi_mon.Ui.Router.{Router, page_at, dwell_locked, turn_page, advance_loop, advance}

-- The dwells are positive and there is a page, which holds of every configuration that is parsed;
-- the page is the one at the index, and it has time left.
pub record IsReady (r : Router) : Type 0 where
  pub some_page : 0 < length r.config.order
  pub dwells : (p : Page) → 0 < dwell_of r.config.dwell p
  pub in_range : r.index < length r.config.order
  pub at_index : r.page ≡ page_at r.config.order r.index
  pub time_left : 0 < r.remaining

dwell_locked_pos :
    (r : Router) (p : Page) → ((q : Page) → 0 < dwell_of r.config.dwell q) → 0 < dwell_locked r p
unfolding dwell_locked
dwell_locked_pos r p h = ground (arith, h p)

pub turn_page-IsReady : (r : Router) → IsReady r → IsReady (turn_page r)
unfolding turn_page
turn_page-IsReady r v = record {
  some_page = v.some_page;
  dwells = v.dwells;
  in_range = mod-lt (r.index + 1) v.some_page;
  at_index = refl;
  time_left = dwell_locked_pos r _ v.dwells;
}

after_wait-IsReady :
    (r : Router) (e : ℕ)
    → e < r.remaining
    → IsReady r
    → IsReady (record r { remaining = r.remaining - e })
after_wait-IsReady r e h v = record {
  some_page = v.some_page;
  dwells = v.dwells;
  in_range = v.in_range;
  at_index = v.at_index;
  time_left = omega arith;
}

-- Enough fuel is enough: the result does not depend on it.
loop_fuel :
    (f g e : ℕ) (r : Router) → e < f → e < g → IsReady r → advance_loop f e r ≡ advance_loop g e r
unfolding advance_loop
loop_fuel zero g e r h k v = elim h [ ]
loop_fuel (suc f) zero e r h k v = elim k [ ]
loop_fuel (suc f) (suc g) e r h k v = elim (Bool-cases (leb r.remaining e)) [
  | inl turns ↦ simp turns (
      loop_fuel f g (e - r.remaining) (turn_page r)
        (omega (arith, v.time_left, leb→le r.remaining e turns))
        (omega (arith, v.time_left, leb→le r.remaining e turns)) (turn_page-IsReady r v))
  | inr stays ↦ simp stays
]

remaining_zero : (r : Router) → record r { remaining = r.remaining - 0 } ≡ r
remaining_zero r = ap (λ n. record r { remaining = n }) (omega arith)

loop_zero : (r : Router) → IsReady r → advance_loop 1 0 r ≡ r
unfolding advance_loop
loop_zero r v = ground (arith, v.time_left, remaining_zero r)

-- The test for no time at all changes nothing.
advance_as_loop : (e : ℕ) (r : Router) → IsReady r → advance e r ≡ advance_loop (suc e) e r
unfolding advance
advance_as_loop zero r v = sym (loop_zero r v)
advance_as_loop (suc e) r v = ground arith

pub advance-stays :
    (e : ℕ) (r : Router)
    → IsReady r
    → e < r.remaining
    → advance e r ≡ record r { remaining = r.remaining - e }
unfolding advance_loop
advance-stays e r v h = advance_as_loop e r v ∙ ground arith

pub advance-turns :
    (e : ℕ) (r : Router)
    → IsReady r
    → r.remaining ≤ e
    → advance e r ≡ advance (e - r.remaining) (turn_page r)
unfolding advance_loop
advance-turns e r v h =
    advance_as_loop e r v
    ∙ ground (
      arith,
      loop_fuel e (suc (e - r.remaining)) (e - r.remaining) (turn_page r)
          (omega (arith, v.time_left)) (omega arith) (turn_page-IsReady r v),
    )
    ∙ sym (advance_as_loop (e - r.remaining) (turn_page r) (turn_page-IsReady r v))

advance_loop-IsReady : (f e : ℕ) (r : Router) → e < f → IsReady r → IsReady (advance_loop f e r)
unfolding advance_loop
advance_loop-IsReady zero e r h v = elim h [ ]
advance_loop-IsReady (suc f) e r h v = elim (Bool-cases (leb r.remaining e)) [
  | inl turns ↦ simp turns (
      advance_loop-IsReady f (e - r.remaining) (turn_page r)
        (omega (arith, v.time_left, leb→le r.remaining e turns)) (turn_page-IsReady r v))
  | inr stays ↦ simp stays (after_wait-IsReady r e (ground arith) v)
]

pub advance-IsReady : (e : ℕ) (r : Router) → IsReady r → IsReady (advance e r)
advance-IsReady e r v =
    subst IsReady (sym (advance_as_loop e r v)) (advance_loop-IsReady (suc e) e r (omega arith) v)

turn_waited : (r : Router) (n : ℕ) → turn_page (record r { remaining = n }) ≡ turn_page r
unfolding turn_page dwell_locked
turn_waited r n = refl

add_waits :
    (a b : ℕ) (r : Router)
    → IsReady r
    → a < r.remaining
    → advance (a + b) r ≡ advance b (record r { remaining = r.remaining - a })
add_waits a b r v h = elim (Bool-cases (leb r.remaining (a + b))) [
  | inl turns ↦
      advance-turns (a + b) r v (leb→le r.remaining (a + b) turns)
      ∙ ap (λ n. advance n (turn_page r)) (omega (arith, leb→le r.remaining (a + b) turns))
      ∙ ap (advance (b - (r.remaining - a))) (sym (turn_waited r (r.remaining - a)))
      ∙ sym (
          advance-turns b (record r { remaining = r.remaining - a }) (after_wait-IsReady r a h v)
            (omega (arith, leb→le r.remaining (a + b) turns)))
  | inr stays ↦
      advance-stays (a + b) r v (ground arith)
      ∙ ap (λ n. record r { remaining = n }) (omega arith)
      ∙ sym (
          advance-stays b (record r { remaining = r.remaining - a }) (after_wait-IsReady r a h v)
            (ground arith))
]

add_below :
    (k a b : ℕ) (r : Router) → a < k → IsReady r → advance (a + b) r ≡ advance b (advance a r)
add_below zero a b r h v = elim h [ ]
add_below (suc k) a b r h v = elim (Bool-cases (leb r.remaining a)) [
  | inl turns ↦
      let le = leb→le r.remaining a turns in
      advance-turns (a + b) r v (omega (arith, le))
      ∙ ap (λ n. advance n (turn_page r)) (omega (arith, le))
      ∙ add_below k (a - r.remaining) b (turn_page r) (omega (arith, le, v.time_left))
          (turn_page-IsReady r v)
      ∙ ap (advance b) (sym (advance-turns a r v le))
  | inr stays ↦
      add_waits a b r v (ground arith) ∙ ap (advance b) (sym (advance-stays a r v (ground arith)))
]

-- On a well-formed router, advancing by one time and then by another gives the same router as
-- advancing by their sum.
pub advance-add : (a b : ℕ) (r : Router) → IsReady r → advance (a + b) r ≡ advance b (advance a r)
advance-add a b r v = add_below (suc a) a b r (omega arith) v
