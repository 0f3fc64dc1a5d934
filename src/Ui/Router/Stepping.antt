-- ===== src/Ui/Router/Stepping.antt =====
-- `NextPage` and `PreviousPage` of internal/ui/pages.go, one after the other.
use homepi_mon.Common.{
  ℕ, zero, suc, ◌+◌, ◌-◌, ◌%◌, ◌<◌, ◌≡◌, refl, sym, ◌∙◌, ap, subst, true, false, not, ◌&&◌, inl,
  inr, List, [], ◌∷◌, none, some, arith, Bool-cases, length, ltb,
}
use native.Mathlib.Nat.{mod-lt, add-mod_right, mod-eq_of_lt, mod_self}
use homepi_mon.Ui.Pages.{RotationConfig, Page, page_eq, page_mem}
use homepi_mon.Ui.Router.Rotation.{IsReady}
use homepi_mon.Ui.Router.Invariant.{page_eq_sound, catch_up-IsReady}
use homepi_mon.Ui.Router.Preemption.{catch_up-Keeps}
use homepi_mon.Ui.Router.{
  Router, index_at, page_at, catch_up, freeze, base_index, show_step, next_page, previous_page,
}

abbrev pub IsDistinct : List Page → Type 0
IsDistinct [] = Unit
IsDistinct (p ∷ ps) = (page_mem p ps ≡ false) × IsDistinct ps

page_mem-page_at : (ps : List Page) (i : ℕ) → i < length ps → page_mem (page_at ps i) ps ≡ true
unfolding page_at
page_mem-page_at [] i h = absurd (omega arith)
page_mem-page_at (p ∷ ps) zero h = ground arith
page_mem-page_at (p ∷ ps) (suc i) h = ground (arith, page_mem-page_at ps i (omega arith))

index_at-page_at :
    (k n : ℕ) (ps : List Page) (i : ℕ)
    → IsDistinct ps
    → i < length ps
    → index_at k n (page_at ps i) ps ≡ k + i
unfolding page_at
index_at-page_at k n [] i d h = absurd (omega arith)
index_at-page_at k n (p ∷ ps) zero d h = ground arith
index_at-page_at k n (p ∷ ps) (suc i) d h = elim (Bool-cases (page_eq p (page_at ps i))) [
  | inl same ↦ absurd (
      ground (arith, page_eq_sound p (page_at ps i) same, d.0, page_mem-page_at ps i (omega arith)))
  | inr other ↦ rw other (index_at-page_at (suc k) n ps i d.1 (omega arith) ∙ omega arith)
]

-- One step on and one step back, around the order.
there_and_back : (i n : ℕ) → i < n → ((i + n + 1 - 0) % n + n + 0 - 1) % n ≡ i
there_and_back i n h = elim (Bool-cases (ltb (i + 1) n)) [
  | inl inside ↦
      let on : (i + n + 1 - 0) % n ≡ i + 1 =
        ap (λ k. k % n) (omega arith) ∙ add-mod_right (i + 1) n ∙ mod-eq_of_lt (ground arith) in
      rw on (ap (λ k. k % n) (omega arith) ∙ add-mod_right i n ∙ mod-eq_of_lt h)
  | inr last ↦
      let on : (i + n + 1 - 0) % n ≡ 0 =
        ap (λ k. k % n) (ground arith) ∙ add-mod_right n n ∙ mod_self n in
      rw on (ap (λ k. k % n) (ground arith) ∙ mod-eq_of_lt h)
]

catch_up_stopped :
    (now : ℕ) (s : Router) → s.paused ≡ true → catch_up now s ≡ record s { last = now }
unfolding catch_up
catch_up_stopped now s h = elim (Bool-cases (ltb s.last now && not s.paused)) [
  | inl runs ↦ absurd (ground arith)
  | inr stops ↦ simp stops refl
]

-- A step back of a router that is stopped.
previous_page_stopped :
    (duration now : ℕ) (s : Router)
    → s.paused ≡ true
    → let o = s.config.order in
      let f = record s { last = now; paused = true } in
      (previous_page duration now s).remote_page
      ≡ some (page_at o ((base_index s.remote_page f + length o + 0 - 1) % length o))
unfolding previous_page show_step freeze
previous_page_stopped duration now s h = rw (catch_up_stopped now s h) refl

-- A step on of a router that shows no remote page.
record Stepped (c s : Router) : Type 0 where
  stopped : s.paused ≡ true
  same_config : s.config ≡ c.config
  same_index : s.index ≡ c.index
  shown :
      s.remote_page
      ≡ some (
          page_at c.config.order
            ((c.index + length c.config.order + 1 - 0) % length c.config.order))

next_page-Stepped :
    (duration now : ℕ) (r : Router)
    → (catch_up now r).remote_page ≡ none
    → Stepped (catch_up now r) (next_page duration now r)
unfolding next_page show_step freeze
next_page-Stepped duration now r h = record {
  stopped = refl;
  same_config = refl;
  same_index = refl;
  shown = rw h refl;
}

Stepped-back :
    (later : ℕ) (c s : Router)
    → IsReady c
    → IsDistinct c.config.order
    → Stepped c s
    → let n = length s.config.order in
      (base_index s.remote_page (record s { last = later; paused = true }) + n + 0 - 1) % n
      ≡ c.index
Stepped-back later c s v d t =
    let o = c.config.order in
    let n = length o in
    let m = (c.index + n + 1 - 0) % n in
    let found : index_at 0 c.index (page_at o m) o ≡ m =
      index_at-page_at 0 c.index o m d (mod-lt (c.index + n + 1 - 0) v.some_page) ∙ omega arith in
    rw (t.shown, base_index)
      (rw (t.same_config, t.same_index) (rw found (there_and_back c.index n v.in_range)))

-- A step back after a step on shows the page of the rotation, at which the first step had stopped it,
-- if no remote page was shown before and no page comes twice in the order.
pub previous_page-next_page :
    (first second now later : ℕ) (r : Router)
    → IsReady r
    → IsDistinct r.config.order
    → r.remote_page ≡ none
    → (previous_page second later (next_page first now r)).remote_page ≡ some (catch_up now r).page
previous_page-next_page first second now later r v d h =
    let c = catch_up now r in
    let s = next_page first now r in
    let keeps = catch_up-Keeps now r in
    let ready = catch_up-IsReady now r v in
    let stepped = next_page-Stepped first now r (keeps.remote_page ∙ h) in
    let back =
      Stepped-back later c s ready
        (subst (λ (k : RotationConfig). IsDistinct k.order) (sym keeps.config) d) stepped in
    previous_page_stopped second later s stepped.stopped
    ∙ ap some (ap (page_at s.config.order) back ∙ rw stepped.same_config (sym ready.at_index))
