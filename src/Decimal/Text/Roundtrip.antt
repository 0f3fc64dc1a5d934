-- ===== src/Decimal/Text/Roundtrip.antt =====
-- Parse after String of internal/decimal/decimal.go.
use homepi_mon.Common.{
  ℕ, zero, suc, ◌+◌, ◌-◌, ◌≤◌, ◌<◌, ◌≡◌, refl, sym, ap, ◌∙◌, subst, Bool, true, false, not, ◌&&◌,
  List, [], ◌∷◌, ◌++◌, ok, ◌==◌, if◌then◌else◌, length, length-drop, drop, all, arith,
}
use homepi_mon.Common.Int.{ℤ, pos, negsuc, pos_part, neg_part}
use homepi_mon.Common.Time.{max_int64}
use homepi_mon.Common.Strconv.{is_digit, is_space, digits_value, format_digits, format_int}
use homepi_mon.Decimal.Text.{
  max_scale, signed, parse_unsigned, parse_signed, parse, is_negative, pad_zeros, take, with_point,
  to_string,
}
use homepi_mon.Decimal.Text.Digits.{
  digits_value-format_digits, all-format_digits, some-format_digits, digits_value-pad_zeros,
  all-pad_zeros, length-pad_zeros, take-append-drop, all-both, no_space, no_space-digits,
  trim_space-no_space,
}
use homepi_mon.Decimal.Text.Reading.{IsDigits, parse_unsigned-whole, parse_unsigned-point}

-- A number without its sign, the sign, and what a text starts with.
abbrev body : ℕ → ℕ → List ℕ
body n zero = format_digits 20 n []
body n (suc scale) =
    let digits = pad_zeros (suc scale) (suc scale) (format_digits 20 n []) in
    with_point (length digits - suc scale) digits

abbrev minus : Bool → List ℕ → List ℕ
minus neg cs = if neg then b'-' ∷ cs else cs

abbrev starts : List ℕ → Bool
starts [] = false
starts (c ∷ cs) = is_digit c

starts-IsDigits : (n : ℕ) (ds : List ℕ) → IsDigits n ds → starts ds ≡ true
starts-IsDigits n [] h = absurd (omega (arith, h.1))
starts-IsDigits n (d ∷ ds) h = ground (arith, h.0)

starts-take :
    (n : ℕ) (ds after : List ℕ) → 1 ≤ n → starts ds ≡ true → starts (take n ds ++ after) ≡ true
starts-take zero ds after h k = absurd (omega (arith, h))
starts-take (suc n) [] after h k = absurd (ground (arith, k))
starts-take (suc n) (d ∷ ds) after h k = k

parse-minus :
    (neg : Bool) (cs : List ℕ)
    → starts cs ≡ true
    → no_space cs ≡ true
    → parse (minus neg cs) ≡ parse_unsigned neg cs
unfolding parse parse_signed parse_unsigned
parse-minus neg [] h k = absurd (ground (arith, h))
parse-minus true (c ∷ cs) h k = rw (trim_space-no_space (b'-' ∷ c ∷ cs) k) refl
parse-minus false (c ∷ cs) h k =
    let plus : (c == b'+') ≡ false = ground (arith, h) in
    let dash : (c == b'-') ≡ false = ground (arith, h) in
    rw (trim_space-no_space (c ∷ cs) k, plus, dash) refl

formatted-IsDigits : (n : ℕ) → n ≤ max_int64 → IsDigits n (format_digits 20 n [])
unfolding digits_value
formatted-IsDigits n h = (
  all-format_digits 20 n [] refl,
  some-format_digits 19 n [],
  digits_value-format_digits 20 n [] (omega (arith, h)),
)

padded-IsDigits :
    (n scale : ℕ)
    → n ≤ max_int64
    → IsDigits n (pad_zeros scale scale (format_digits 20 n []))
      × (scale < length (pad_zeros scale scale (format_digits 20 n [])))
padded-IsDigits n scale h =
    let (digits, one, worth) = formatted-IsDigits n h in
    let long = length-pad_zeros scale scale (format_digits 20 n []) (omega (arith, one)) in
    let value = digits_value-pad_zeros scale scale (format_digits 20 n []) in
    (
      (
        all-pad_zeros scale scale (format_digits 20 n []) digits,
        omega (arith, long),
        value ∙ worth,
      ),
      long,
    )

no_space-with_point : (n : ℕ) (ds : List ℕ) → no_space ds ≡ true → no_space (with_point n ds) ≡ true
no_space-with_point n ds h =
    let free : ℕ → Bool = λ c. not (is_space c) in
    let parts : (all free (take n ds) && all free (drop n ds)) ≡ true =
      sym (all-both free (take n ds) (drop n ds)) ∙ ap no_space (take-append-drop n ds) ∙ h in
    all-both free (take n ds) (b'.' ∷ drop n ds) ∙ parts

-- What Parse needs of the digits with their point.
body-IsText :
    (n scale : ℕ)
    → n ≤ max_int64
    → (starts (body n scale) ≡ true) × (no_space (body n scale) ≡ true)
body-IsText n zero h =
    let digits = formatted-IsDigits n h in
    (
      starts-IsDigits n (format_digits 20 n []) digits,
      no_space-digits (format_digits 20 n []) digits.0,
    )
body-IsText n (suc scale) h =
    let padded = pad_zeros (suc scale) (suc scale) (format_digits 20 n []) in
    let (digits, long) = padded-IsDigits n (suc scale) h in
    let point = length padded - suc scale in
    (
      starts-take point padded (b'.' ∷ drop point padded) (omega (arith, long))
          (starts-IsDigits n padded digits),
      no_space-with_point point padded (no_space-digits padded digits.0),
    )

parse_unsigned-body :
    (neg : Bool) (n scale : ℕ)
    → n ≤ max_int64
    → scale ≤ max_scale
    → parse_unsigned neg (body n scale) ≡ ok (record { unscaled = signed neg n; scale = scale })
parse_unsigned-body neg n zero h k =
    parse_unsigned-whole neg n (format_digits 20 n []) h (formatted-IsDigits n h)
parse_unsigned-body neg n (suc scale) h k =
    let padded = pad_zeros (suc scale) (suc scale) (format_digits 20 n []) in
    let (digits, long) = padded-IsDigits n (suc scale) h in
    let point = length padded - suc scale in
    let joined = subst (IsDigits n) (sym (take-append-drop point padded)) digits in
    let size : length (drop point padded) ≡ suc scale =
      omega (arith, length-drop point padded, long) in
    parse_unsigned-point neg n (take point padded) (drop point padded) h joined
      (omega (arith, size)) (omega (arith, size, k))
    ∙ ap (λ m. ok (record { unscaled = signed neg n; scale = m })) size

-- String, by its sign and magnitude.
to_string-body :
    (u : ℤ) (scale : ℕ)
    → pos_part u + neg_part u ≤ max_int64
    → to_string (record { unscaled = u; scale = scale })
      ≡ minus (is_negative u) (body (pos_part u + neg_part u) scale)
unfolding to_string format_int
to_string-body (pos n) zero h =
    let same : n ≡ n + 0 = omega arith in ap (λ m. format_digits 20 m []) same
to_string-body (pos n) (suc scale) h =
    let some_scale : (suc scale == 0) ≡ false = ground arith in
    let same : n ≡ n + 0 = omega arith in rw some_scale (ap (λ m. body m (suc scale)) same)
to_string-body (negsuc n) zero h =
    let same : n + 1 ≡ 0 + suc n = omega arith in ap (λ m. b'-' ∷ format_digits 20 m []) same
to_string-body (negsuc n) (suc scale) h =
    let some_scale : (suc scale == 0) ≡ false = ground arith in
    let least : (n == max_int64) ≡ false = ground (arith, h) in
    let same : n + 1 ≡ 0 + suc n = omega arith in
    rw (some_scale, least) (ap (λ m. b'-' ∷ body m (suc scale)) same)

signed-parts : (u : ℤ) → signed (is_negative u) (pos_part u + neg_part u) ≡ u
signed-parts (pos n) = ap pos (omega arith)
signed-parts (negsuc n) = ground arith

-- Parse reads what String writes back as the same value with the same scale, for every unscaled
-- value of an int64 but the least and every scale of at most 9.
pub parse-to_string :
    (u : ℤ) (scale : ℕ)
    → pos_part u + neg_part u ≤ max_int64
    → scale ≤ max_scale
    → parse (to_string (record { unscaled = u; scale = scale }))
      ≡ ok (record { unscaled = u; scale = scale })
parse-to_string u scale h k =
    let n = pos_part u + neg_part u in
    let (first, free) = body-IsText n scale h in
    ap parse (to_string-body u scale h)
    ∙ parse-minus (is_negative u) (body n scale) first free
    ∙ parse_unsigned-body (is_negative u) n scale h k
    ∙ ap (λ w. ok (record { unscaled = w; scale = scale })) (signed-parts u)
