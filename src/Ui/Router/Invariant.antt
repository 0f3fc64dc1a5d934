-- ===== src/Ui/Router/Invariant.antt =====
-- The methods of the Router of internal/ui/pages.go and its well-formedness.
use homepi_mon.Common.{
  ℕ, suc, ◌+◌, ◌<◌, ◌≡◌, refl, sym, Bool, true, false, inl, inr, List, [], ◌∷◌, Option, some, arith,
  ltb, length, Bool-cases, subst, not, ◌&&◌, ◌⊎◌, ap, ◌∙◌,
}
use homepi_mon.Common.Int.{ℤ}
use homepi_mon.Ui.Pages.Parsing.{parse_rotation_config_lem}
use homepi_mon.Ui.Pages.{
  Page, coding, RotationConfig, dwell_of, parse_rotation_config, page_eq, page_mem,
}
use homepi_mon.Ui.Router.Rotation.{IsReady, advance-IsReady}
use homepi_mon.Ui.Router.{
  Router, index_at, page_at, new_router, advance, tick, expire_remote, expire_override, choose,
  update, catch_up, freeze, show_page, show_step, set_rotation,
}

-- Every call on the router.
pub data Call : Type 0 where
  updates : (Page → Bool) → Call
  shows : Option Page → ℕ → Call
  steps : ℤ → ℕ → Call
  rotates : Bool → ℕ → ℕ → Call

pub call : ℕ → Router → Call → Router
call now r (updates critical) = update now critical r
call now r (shows p d) = show_page p d now r
call now r (steps s d) = show_step s d now r
call now r (rotates on interval d) = set_rotation on interval d now r

-- What `IsReady` looks at.
pub page_eq_sound : (p q : Page) → page_eq p q ≡ true → p ≡ q
page_eq_sound p q h = ground arith

pub IsReady-of :
    (r s : Router)
    → s.config ≡ r.config
    → s.index ≡ r.index
    → s.page ≡ r.page
    → 0 < s.remaining
    → IsReady r
    → IsReady s
IsReady-of r s c i p t v = record {
  some_page = ground (arith, v.some_page);
  dwells = subst (λ (k : RotationConfig). (q : Page) → 0 < dwell_of k.dwell q) (sym c) v.dwells;
  in_range = ground (arith, v.in_range);
  at_index = ground (arith, v.at_index);
  time_left = t;
}

-- A router that differs in other fields alone.
Same-IsReady :
    (r s : Router)
    → s.config ≡ r.config
    → s.index ≡ r.index
    → s.page ≡ r.page
    → s.remaining ≡ r.remaining
    → IsReady r
    → IsReady s
Same-IsReady r s c i p t v = IsReady-of r s c i p (ground (arith, v.time_left)) v

tick-IsReady : (now : ℕ) (r : Router) → IsReady r → IsReady (tick now r)
unfolding tick
tick-IsReady now r v = elim (Bool-cases r.paused) [
  | inl stopped ↦ simp stopped (Same-IsReady r _ refl refl refl refl v)
  | inr runs ↦ simp runs (Same-IsReady (advance _ r) _ refl refl refl refl (advance-IsReady _ r v))
]

expire_remote-IsReady : (now : ℕ) (r : Router) → IsReady r → IsReady (expire_remote now r)
unfolding expire_remote
expire_remote-IsReady now r v =
    Same-IsReady r _ (ground arith) (ground arith) (ground arith) (ground arith) v

expire_override-IsReady : (now : ℕ) (r : Router) → IsReady r → IsReady (expire_override now r)
unfolding expire_override
expire_override-IsReady now r v =
    IsReady-of r _ (ground arith) (ground arith) (ground arith)
      (ground (arith, v.time_left, v.dwells r.page)) v

choose-IsReady : (critical : Page → Bool) (r : Router) → IsReady r → IsReady (choose critical r)
unfolding choose
choose-IsReady critical r v =
    Same-IsReady r _ (ground arith) (ground arith) (ground arith) (ground arith) v

pub catch_up-IsReady : (now : ℕ) (r : Router) → IsReady r → IsReady (catch_up now r)
unfolding catch_up
catch_up-IsReady now r v = elim (Bool-cases (ltb r.last now && not r.paused)) [
  | inl runs ↦ simp runs (Same-IsReady (advance _ r) _ refl refl refl refl (advance-IsReady _ r v))
  | inr stopped ↦ simp stopped (Same-IsReady r _ refl refl refl refl v)
]

set_rotation-IsReady :
    (on : Bool) (interval duration now : ℕ) (r : Router)
    → IsReady r
    → IsReady (set_rotation on interval duration now r)
unfolding set_rotation
set_rotation-IsReady on interval duration now r v =
    let c = catch_up-IsReady now r v in
    IsReady-of (catch_up now r) _ refl refl refl (ground (arith, c.time_left)) c

-- Every method keeps the router well formed: a page of the order is at the index, and it has time
-- left before the next.
pub call-IsReady : (now : ℕ) (r : Router) (c : Call) → IsReady r → IsReady (call now r c)
unfolding call update show_page show_step freeze
call-IsReady now r (updates critical) v =
    choose-IsReady critical _
      (expire_override-IsReady now _ (expire_remote-IsReady now _ (tick-IsReady now r v)))
call-IsReady now r (shows p d) v =
    Same-IsReady (catch_up now r) _ refl refl refl refl (catch_up-IsReady now r v)
call-IsReady now r (steps s d) v =
    Same-IsReady (catch_up now r) _ refl refl refl refl (catch_up-IsReady now r v)
call-IsReady now r (rotates on interval d) v = set_rotation-IsReady on interval d now r v

index_at-page :
    (p : Page) (i n : ℕ) (ps : List Page)
    → ((j : ℕ) × (index_at i n p ps ≡ i + j) × (page_at ps j ≡ p) × (j < length ps))
      ⊎ ((index_at i n p ps ≡ n) × (page_mem p ps ≡ false))
unfolding page_at
index_at-page p i n [] = inr (refl, refl)
index_at-page p i n (q ∷ qs) = elim (index_at-page p (suc i) n qs) [
  | inl (j, e, h, l) ↦ elim (Bool-cases (page_eq q p)) [
    | inl same ↦ inl (0, rw (same, index_at) (omega arith), page_eq_sound q p same, omega arith)
    | inr other ↦ inl (suc j, rw (other, index_at) (omega (arith, e)), h, omega arith)
  ]
  | inr (e, h) ↦ elim (Bool-cases (page_eq q p)) [
    | inl same ↦ inl (0, rw (same, index_at) (omega arith), page_eq_sound q p same, omega arith)
    | inr other ↦ inr (rw (other, index_at) e, rw (other, page_mem) h)
  ]
]

-- A new router is well formed, on the page CODING, if the order has that page and the dwells are
-- positive.
pub new_router-IsReady :
    (config : RotationConfig) (now : ℕ)
    → page_mem coding config.order ≡ true
    → ((p : Page) → 0 < dwell_of config.dwell p)
    → IsReady (new_router config now)
unfolding new_router
new_router-IsReady config now m d = elim (index_at-page coding 0 0 config.order) [
  | inl (j, e, h, l) ↦ record {
    some_page = omega arith;
    dwells = d;
    in_range = omega arith;
    at_index = sym h ∙ ap (page_at config.order) (omega arith);
    time_left = d coding;
  }
  | inr (e, h) ↦ absurd (ground arith)
]

-- A router that starts from a configuration that parses is well formed.
pub parse_rotation_config-IsReady :
    (order_text dwell_text : List ℕ) (config : RotationConfig) (now : ℕ)
    → parse_rotation_config order_text dwell_text ≡ some config
    → IsReady (new_router config now)
parse_rotation_config-IsReady order_text dwell_text config now h =
    let lem = λ (p : Page). parse_rotation_config_lem order_text dwell_text config p h in
    new_router-IsReady config now (lem coding).1 (λ p. omega (arith, (lem p).2))
