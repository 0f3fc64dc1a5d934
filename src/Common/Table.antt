-- ===== src/Common/Table.antt =====
-- A Go map with string keys, as an association list whose keys are in the order of insertion.
use Prim.Native.Nat.{◌≤◌}
use Prim.Native.String.{String}
use mathlib.Core.Path.{◌≡◌, refl}
use mathlib.Core.Option.{Option, none, some}
use mathlib.Core.List.{List, [], ◌∷◌}
use mathlib.Core.Bool.{Bool, false, ◌||◌}
use native.Mathlib.Omega.{arith}
use text.Mathlib.TextEquality.{eq_iff}
use homepi_mon.Common.Tests.{str_eq, if◌then◌else◌}
use homepi_mon.Common.Lists.{length}

abbrev pub Table {ℓ} : Type ℓ → Type ℓ
Table V = List (String × V)

module _ {ℓ} {V : Type ℓ} where
  unfoldable pub lookup : String → Table V → Option V
  lookup key [] = none
  lookup key ((head, value) ∷ rest) = if str_eq head key then some value else lookup key rest

  abbrev pub has_key : String → Table V → Bool
  has_key key [] = false
  has_key key ((head, value) ∷ rest) = str_eq head key || has_key key rest

  unfoldable pub insert : String → V → Table V → Table V
  insert key value [] = (key, value) ∷ []
  insert key value ((head, old) ∷ rest) =
      if str_eq head key then (key, value) ∷ rest else (head, old) ∷ insert key value rest

  unfoldable pub delete : String → Table V → Table V
  delete key [] = []
  delete key ((head, value) ∷ rest) =
      let others = delete key rest in if str_eq head key then others else (head, value) ∷ others

  pub lookup-insert :
      (key other : String) (value : V) (t : Table V)
      → lookup other (insert key value t)
        ≡ (if str_eq key other then some value else lookup other t)
  unfolding insert lookup
  lookup-insert key other value [] = refl
  lookup-insert key other value ((head, old) ∷ rest) =
      let below = lookup-insert key other value rest in
      ground (arith, below, eq_iff head other, eq_iff head key, eq_iff key other)

  pub lookup-delete :
      (key other : String) (t : Table V)
      → lookup other (delete key t) ≡ (if str_eq key other then none else lookup other t)
  unfolding delete lookup
  lookup-delete key other [] = ground arith
  lookup-delete key other ((head, value) ∷ rest) =
      let below = lookup-delete key other rest in
      ground (arith, below, eq_iff head other, eq_iff head key, eq_iff key other)

  pub length-delete : (key : String) (t : Table V) → length (delete key t) ≤ length t
  unfolding delete
  length-delete key [] = omega arith
  length-delete key ((head, value) ∷ rest) = ground (arith, length-delete key rest)

  -- No key comes twice.
  abbrev pub IsKeyed : Table V → Type 0
  IsKeyed [] = Unit
  IsKeyed ((key, value) ∷ rest) = (has_key key rest ≡ false) × IsKeyed rest
