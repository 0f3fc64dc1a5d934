-- ===== src/Config/Sound.antt =====
-- What a configuration that validates promises of its providers.
use homepi_mon.Common.{
  ℕ, suc, ◌*◌, String, ◌≡◌, refl, Bool, true, false, not, List, [], ◌∷◌, some, map, str_eq,
  text_mem, ok, refuse, OnOk, OnOk-bind, OnOk-ok, OnOk-refuse, OnOk-from, inl, inr, Option-cases,
  arith, eq_iff, eq_refl,
}
use homepi_mon.Common.Int.{ℤ, pos, ltb_ℤ, eqb_ℤ, ◌≤ℤ◌}
use homepi_mon.Common.Time.{second}
use homepi_mon.Config.{ProviderConfig, Config, schema}
use homepi_mon.Config.Validate.{
  Platform, ConfigError, bad_schema_version, at_provider, bad_id, duplicate_id, bad_type,
  account_label_required, interval_too_short, stale_below_interval, safe_id, within,
  validate_source_node, validate_listen, validate_devices,
}
use homepi_mon.Config.Validate.Providers.{validate}
use homepi_mon.Config.Validate.Providers.{
  validate_region, positive_duration, validate_intervals, validate_provider, validate_providers,
}

-- The interval is of five seconds at least, and a reading goes stale after one interval or later.
abbrev pub IsScheduled : Platform → ProviderConfig → Type 0
IsScheduled net p =
    (interval : ℤ) × ((stale : ℤ) × ((net.parse_duration p.interval ≡ some interval)
        × (net.parse_duration p.stale_after ≡ some stale)
        × (pos (5 * second) ≤ℤ interval)
        × (interval ≤ℤ stale)))

abbrev pub ids_of : List ProviderConfig → List String
ids_of = map (λ p. p.id)

-- Every provider is scheduled, and no id comes twice.
abbrev pub IsSound : Platform → List ProviderConfig → Type 0
IsSound net [] = Unit
IsSound net (p ∷ ps) = (text_mem p.id (ids_of ps) ≡ false) × IsScheduled net p × IsSound net ps

positive_duration-parsed :
    (net : Platform) (value : String) (d : ℤ)
    → positive_duration net value ≡ ok d
    → net.parse_duration value ≡ some d
unfolding positive_duration
positive_duration-parsed net value d e = elim (Option-cases (net.parse_duration value)) [
  | inl h ↦ absurd (ground (arith, h, e))
  | inr (x, h) ↦ ground (arith, h, e)
]

refuse-ok : (b : Bool) (e : ConfigError) (u : Unit {0}) → refuse b e ≡ ok u → b ≡ false
refuse-ok true e u h = absurd (ground (arith, h))
refuse-ok false e u h = refl

validate_intervals-IsScheduled :
    (net : Platform) (i : ℕ) (p : ProviderConfig)
    → OnOk (λ u. IsScheduled net p) (validate_intervals net i p)
unfolding validate_intervals
validate_intervals-IsScheduled net i p =
    OnOk-bind (λ u. IsScheduled net p) (positive_duration net p.interval) _
      (λ interval a.
        OnOk-bind (λ u. IsScheduled net p) (positive_duration net p.stale_after) _
          (λ stale b.
            let short = ltb_ℤ interval (pos (5 * second)) in
            let below = ltb_ℤ stale interval in
            OnOk-bind (λ u. IsScheduled net p) (refuse short (at_provider i interval_too_short)) _
              (λ u x.
                OnOk-from (λ u. IsScheduled net p)
                  (refuse below (at_provider i stale_below_interval))
                  (λ v y.
                    let long = refuse-ok short (at_provider i interval_too_short) u x in
                    let above = refuse-ok below (at_provider i stale_below_interval) v y in
                    (
                      interval,
                      (
                        stale,
                        (
                          positive_duration-parsed net p.interval interval a,
                          positive_duration-parsed net p.stale_after stale b,
                          ground (arith, long),
                          ground (arith, above),
                        ),
                      ),
                    )))))

validate_provider-IsScheduled :
    (net : Platform) (i : ℕ) (p : ProviderConfig)
    → OnOk (λ u. IsScheduled net p) (validate_provider net i p)
unfolding validate_provider
validate_provider-IsScheduled net i p =
    let Q = λ (u : Unit {0}). IsScheduled net p in
    OnOk-refuse Q (not (safe_id p.kind)) (at_provider i bad_type) _ (
      OnOk-refuse Q (str_eq p.account_label "") (at_provider i account_label_required) _ (
        OnOk-bind Q (within (at_provider i) (validate_region net p)) _ (λ u a.
          OnOk-bind Q (validate_intervals net i p) _ (λ v b.
            let h =
              OnOk-ok Q (validate_intervals net i p) v b (validate_intervals-IsScheduled net i p) in
            OnOk-from Q _ (λ w c. h)))))

-- The ids of the providers are not among those seen before them.
abbrev IsFresh : List String → List ProviderConfig → Type 0
IsFresh seen ps = (k : String) → text_mem k seen ≡ true → text_mem k (ids_of ps) ≡ false

abbrev IsSoundAfter : Platform → List String → List ProviderConfig → Unit {0} → Type 0
IsSoundAfter net seen ps u = IsSound net ps × IsFresh seen ps

IsSoundAfter-cons :
    (net : Platform) (seen : List String) (p : ProviderConfig) (ps : List ProviderConfig)
    → text_mem p.id seen ≡ false
    → IsScheduled net p
    → IsSoundAfter net (p.id ∷ seen) ps tt
    → IsSoundAfter net seen (p ∷ ps) tt
IsSoundAfter-cons net seen p ps new scheduled (sound, fresh) = (
  (fresh p.id (ground (arith, eq_refl p.id)), scheduled, sound),
  λ k h. ground (arith, h, new, fresh k, eq_iff p.id k),
)

pub validate_providers-IsSound :
    (net : Platform) (i : ℕ) (seen : List String) (ps : List ProviderConfig)
    → OnOk (IsSoundAfter net seen ps) (validate_providers net i seen ps)
unfolding validate_providers
validate_providers-IsSound net i seen [] =
    OnOk-from (IsSoundAfter net seen []) (ok tt) (λ u h. (tt, λ k m. refl))
validate_providers-IsSound net i seen (p ∷ ps) =
    let Q = IsSoundAfter net seen (p ∷ ps) in
    let known = text_mem p.id seen in
    let rest = validate_providers net (suc i) (p.id ∷ seen) ps in
    OnOk-refuse Q (not (safe_id p.id)) (at_provider i bad_id) _ (
      OnOk-bind Q (refuse known (at_provider i duplicate_id)) _ (λ u a.
        OnOk-bind Q (validate_provider net i p) _ (λ v b. OnOk-from Q rest (λ w c.
          IsSoundAfter-cons net seen p ps (refuse-ok known (at_provider i duplicate_id) u a)
            (OnOk-ok (λ x. IsScheduled net p) (validate_provider net i p) v b
              (validate_provider-IsScheduled net i p))
            (OnOk-ok (IsSoundAfter net (p.id ∷ seen) ps) rest w c
              (validate_providers-IsSound net (suc i) (p.id ∷ seen) ps))))))

-- In a configuration that validates no two providers have one id, and every provider has intervals
-- that parse: one of at least five seconds between collections, and one not below it after which a
-- reading is stale.
pub validate-IsSound :
    (net : Platform) (c : Config) → validate net c ≡ ok tt → IsSound net c.providers
unfolding validate
validate-IsSound net c h =
    let Q = λ (u : Unit {0}). IsSound net c.providers in
    OnOk-ok Q (validate net c) tt h (
      OnOk-refuse Q (not (eqb_ℤ c.schema_version schema)) bad_schema_version _ (
        OnOk-bind Q (validate_source_node c.source_node) _ (λ u a.
          OnOk-bind Q (validate_listen net c.listen) _ (λ v b.
            OnOk-bind Q (validate_devices 0 [] c.devices) _ (λ w d.
              OnOk-from Q (validate_providers net 0 [] c.providers) (λ x e.
                (OnOk-ok (IsSoundAfter net [] c.providers) (validate_providers net 0 [] c.providers)
                  x e (validate_providers-IsSound net 0 [] c.providers)).0))))))
