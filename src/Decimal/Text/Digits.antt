-- ===== src/Decimal/Text/Digits.antt =====
-- Decimal digits as the text forms of numbers write and read them: what they are worth, and that
-- trimming, cutting and padding leave their value alone.
use homepi_mon.Common.{
  ℕ, zero, suc, ◌+◌, ◌-◌, ◌*◌, ◌/◌, ◌%◌, ◌^◌, ◌≤◌, ◌<◌, ◌≡◌, refl, ap, ◌∙◌, Bool, true, false, not,
  ◌&&◌, List, [], ◌∷◌, ◌++◌, length, drop, all, arith,
}
use mathlib.Core.List.{reverse, reverse_aux, reverse-reverse}
use homepi_mon.Common.Strconv.{
  cut, is_digit, is_space, digits_value, trim_left, trim_space, format_digits,
}
use homepi_mon.Decimal.Text.{byte_length, code_length, pad_zeros, take}

pub digits_value-format_digits :
    (fuel n : ℕ) (after : List ℕ)
    → n < 10 ^ fuel
    → digits_value 0 (format_digits fuel n after) ≡ digits_value n after
unfolding digits_value format_digits
digits_value-format_digits zero n after h = ap (λ m. digits_value m after) (omega (arith, h))
digits_value-format_digits (suc fuel) n after h =
    let ih =
      digits_value-format_digits fuel (n / 10) ((b'0' + n % 10) ∷ after) (omega (arith, h)) in
    let shifted : b'0' + n - b'0' ≡ n = omega arith in
    let joined : n / 10 * 10 + (b'0' + n % 10 - b'0') ≡ n = omega arith in
    let one = ap (λ m. digits_value m after) shifted in
    let more = ap (λ m. digits_value m after) joined in ground (arith, ih, one, more)

pub all-format_digits :
    (fuel n : ℕ) (after : List ℕ)
    → all is_digit after ≡ true
    → all is_digit (format_digits fuel n after) ≡ true
unfolding format_digits
all-format_digits zero n after h = h
all-format_digits (suc fuel) n after h =
    let ih = all-format_digits fuel (n / 10) ((b'0' + n % 10) ∷ after) (ground (arith, h)) in
    ground (arith, ih, h)

pub length-format_digits :
    (fuel n : ℕ) (after : List ℕ) → length after ≤ length (format_digits fuel n after)
unfolding format_digits
length-format_digits zero n after = omega arith
length-format_digits (suc fuel) n after =
    ground (arith, length-format_digits fuel (n / 10) ((b'0' + n % 10) ∷ after))

pub some-format_digits :
    (fuel n : ℕ) (after : List ℕ) → 1 ≤ length (format_digits (suc fuel) n after)
unfolding format_digits
some-format_digits fuel n after =
    ground (arith, length-format_digits fuel (n / 10) ((b'0' + n % 10) ∷ after))

pub digits_value-pad_zeros :
    (fuel scale : ℕ) (ds : List ℕ) → digits_value 0 (pad_zeros fuel scale ds) ≡ digits_value 0 ds
unfolding digits_value pad_zeros
digits_value-pad_zeros zero scale ds = refl
digits_value-pad_zeros (suc fuel) scale ds =
    ground (arith, digits_value-pad_zeros fuel scale (b'0' ∷ ds))

pub all-pad_zeros :
    (fuel scale : ℕ) (ds : List ℕ)
    → all is_digit ds ≡ true
    → all is_digit (pad_zeros fuel scale ds) ≡ true
unfolding pad_zeros
all-pad_zeros zero scale ds h = h
all-pad_zeros (suc fuel) scale ds h = ground (arith, all-pad_zeros fuel scale (b'0' ∷ ds) h, h)

-- The fuel is enough: in the end there are more digits than the scale asks for.
pub length-pad_zeros :
    (fuel scale : ℕ) (ds : List ℕ)
    → scale < length ds + fuel
    → scale < length (pad_zeros fuel scale ds)
unfolding pad_zeros
length-pad_zeros zero scale ds h = omega (arith, h)
length-pad_zeros (suc fuel) scale ds h =
    ground (arith, length-pad_zeros fuel scale (b'0' ∷ ds) (omega (arith, h)), h)

pub take-append-drop : (n : ℕ) (cs : List ℕ) → take n cs ++ drop n cs ≡ cs
take-append-drop zero cs = refl
take-append-drop (suc n) [] = refl
take-append-drop (suc n) (c ∷ cs) = ap (λ ds. c ∷ ds) (take-append-drop n cs)

pub all-both : (p : ℕ → Bool) (xs ys : List ℕ) → all p (xs ++ ys) ≡ (all p xs && all p ys)
all-both p [] ys = refl
all-both p (x ∷ xs) ys = ground (arith, all-both p xs ys)

pub byte_length-digits : (ds : List ℕ) → all is_digit ds ≡ true → byte_length ds ≡ length ds
unfolding byte_length
byte_length-digits [] h = refl
byte_length-digits (d ∷ ds) h =
    let ih = byte_length-digits ds (ground (arith, h)) in
    let one : code_length d ≡ 1 = ground (arith, h) in omega (arith, ih, one)

pub cut-digits :
    (ds after : List ℕ) → all is_digit ds ≡ true → cut b'.' (ds ++ b'.' ∷ after) ≡ (ds, after, true)
unfolding cut
cut-digits [] after h = refl
cut-digits (d ∷ ds) after h =
    let ih = cut-digits ds after (ground (arith, h)) in ground (arith, ih, h)

pub cut-digits_alone : (ds : List ℕ) → all is_digit ds ≡ true → cut b'.' ds ≡ (ds, [], false)
unfolding cut
cut-digits_alone [] h = refl
cut-digits_alone (d ∷ ds) h =
    let ih = cut-digits_alone ds (ground (arith, h)) in ground (arith, ih, h)

-- No code point is white space.
abbrev pub no_space : List ℕ → Bool
no_space = all (λ c. not (is_space c))

pub no_space-digits : (ds : List ℕ) → all is_digit ds ≡ true → no_space ds ≡ true
no_space-digits [] h = refl
no_space-digits (d ∷ ds) h =
    let ih = no_space-digits ds (ground (arith, h)) in ground (arith, ih, h)

trim_left-no_space : (cs : List ℕ) → no_space cs ≡ true → trim_left cs ≡ cs
unfolding trim_left
trim_left-no_space [] h = refl
trim_left-no_space (c ∷ cs) h = ground (arith, h)

all-reverse_aux :
    (p : ℕ → Bool) (xs ys : List ℕ)
    → all p xs ≡ true
    → all p ys ≡ true
    → all p (reverse_aux xs ys) ≡ true
all-reverse_aux p [] ys h k = k
all-reverse_aux p (x ∷ xs) ys h k =
    all-reverse_aux p xs (x ∷ ys) (ground (arith, h)) (ground (arith, h, k))

pub trim_space-no_space : (cs : List ℕ) → no_space cs ≡ true → trim_space cs ≡ cs
unfolding trim_space
trim_space-no_space cs h =
    let first = ap (λ ds. reverse (trim_left (reverse ds))) (trim_left-no_space cs h) in
    let last =
      ap reverse
        (trim_left-no_space (reverse cs) (all-reverse_aux (λ c. not (is_space c)) cs [] h refl)) in
    first ∙ last ∙ reverse-reverse cs
