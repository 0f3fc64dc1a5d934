-- ===== src/Decimal/Text/Reading.antt =====
-- What Parse of internal/decimal/decimal.go reads of digits, with a point and without.
use homepi_mon.Common.{
  ℕ, ◌≤◌, ◌≡◌, refl, sym, ◌∙◌, subst, Bool, true, false, not, ◌&&◌, some, List, [], ◌∷◌, ◌++◌, ok,
  ltb, length, all, arith,
}
use mathlib.Core.List.{append-nil}
use homepi_mon.Common.Time.{max_int64}
use homepi_mon.Common.Strconv.{is_digit, digits_value, parse_digits}
use homepi_mon.Decimal.Text.{max_scale, is_empty, parse_int, signed, parse_parts, parse_unsigned}
use homepi_mon.Decimal.Text.Digits.{all-both, byte_length-digits, cut-digits, cut-digits_alone}

-- Digits alone, at least one, that are worth n.
abbrev pub IsDigits : ℕ → List ℕ → Type 0
IsDigits n ds = (all is_digit ds ≡ true) × (1 ≤ length ds) × (digits_value 0 ds ≡ n)

parse_digits-IsDigits :
    (n : ℕ) (ds : List ℕ) → n ≤ max_int64 → IsDigits n ds → parse_digits max_int64 ds ≡ some n
unfolding parse_digits
parse_digits-IsDigits n [] h k = absurd (omega (arith, k.1))
parse_digits-IsDigits n (d ∷ ds) h k = ground (arith, h, k.0, k.2)

nonempty : (cs : List ℕ) → 1 ≤ length cs → is_empty cs ≡ false
nonempty [] h = absurd (omega (arith, h))
nonempty (c ∷ cs) h = refl

parse_int-IsDigits : (n : ℕ) (ds : List ℕ) → n ≤ max_int64 → IsDigits n ds → parse_int ds ≡ ok n
unfolding parse_int
parse_int-IsDigits n ds h k = rw (parse_int, parse_digits-IsDigits n ds h k) refl

-- The digits on both sides of the point are worth n together.
parse_parts-IsDigits :
    (neg : Bool) (n : ℕ) (whole part : List ℕ) (has : Bool)
    → n ≤ max_int64
    → IsDigits n (whole ++ part)
    → length part ≤ max_scale
    → (has && is_empty part) ≡ false
    → (is_empty whole && not has) ≡ false
    → all is_digit part ≡ true
    → parse_parts neg whole part has ≡ ok (record { unscaled = signed neg n; scale = length part })
unfolding parse_parts
parse_parts-IsDigits neg n whole part has h k s a b p =
    let read = parse_int-IsDigits n (whole ++ part) h k in
    let bytes = byte_length-digits part p in
    let empty : is_empty (whole ++ part) ≡ false = nonempty (whole ++ part) k.1 in
    let short : ltb max_scale (length part) ≡ false = ground (arith, s) in
    rw (bytes, a, b, short, empty, k.0, read) refl

-- What Parse reads of a text without a point, and of one with a point before its last digits.
pub parse_unsigned-whole :
    (neg : Bool) (n : ℕ) (ds : List ℕ)
    → n ≤ max_int64
    → IsDigits n ds
    → parse_unsigned neg ds ≡ ok (record { unscaled = signed neg n; scale = 0 })
unfolding parse_unsigned
parse_unsigned-whole neg n ds h k =
    let whole = append-nil ds in
    let parts =
      parse_parts-IsDigits neg n ds [] false h (subst (IsDigits n) (sym whole) k) (omega arith) refl
        (rw (nonempty ds k.1) refl) refl in
    rw (nonempty ds k.1, cut-digits_alone ds k.0) parts

is_empty-point : (whole part : List ℕ) → is_empty (whole ++ b'.' ∷ part) ≡ false
is_empty-point [] part = refl
is_empty-point (c ∷ cs) part = refl

pub parse_unsigned-point :
    (neg : Bool) (n : ℕ) (whole part : List ℕ)
    → n ≤ max_int64
    → IsDigits n (whole ++ part)
    → 1 ≤ length part
    → length part ≤ max_scale
    → parse_unsigned neg (whole ++ b'.' ∷ part)
      ≡ ok (record { unscaled = signed neg n; scale = length part })
unfolding parse_unsigned
parse_unsigned-point neg n whole part h k some_part s =
    let both : (all is_digit whole && all is_digit part) ≡ true =
      sym (all-both is_digit whole part) ∙ k.0 in
    let left : all is_digit whole ≡ true = ground (arith, both) in
    let right : all is_digit part ≡ true = ground (arith, both) in
    let parts =
      parse_parts-IsDigits neg n whole part true h k s (nonempty part some_part) (ground arith)
        right in
    rw (is_empty-point whole part, cut-digits whole part left) parts
