-- ===== src/Common/Strconv.antt =====
-- What the code uses of Go's strings and strconv packages, on texts as lists of code points.
use homepi_mon.Common.{
  ℕ, zero, suc, ◌+◌, ◌-◌, ◌*◌, ◌/◌, ◌%◌, ltb, Bool, true, false, ◌&&◌, ◌||◌, Option, none, some,
  List, [], ◌∷◌, leb, ◌==◌, if◌then◌else◌, all, map,
}
use mathlib.Core.List.{reverse}
use homepi_mon.Common.Int.{ℤ, pos, negsuc, sub_ℕ}
use homepi_mon.Common.Time.{max_int64}

-- `strings.Cut(s, sep)` for a separator of one byte: what stands before it, after it, and whether
-- it was found.
unfoldable pub cut : ℕ → List ℕ → List ℕ × List ℕ × Bool
cut sep [] = ([], [], false)
cut sep (c ∷ cs) =
    let (before, after, found) = cut sep cs in
    if c == sep then ([], cs, true) else (c ∷ before, after, found)

-- `strings.Split(s, sep)`, which is never empty.
abbrev pub split_step : ℕ → ℕ → List (List ℕ) → List (List ℕ)
split_step sep c [] = []
split_step sep c (part ∷ parts) = if c == sep then [] ∷ part ∷ parts else (c ∷ part) ∷ parts

unfoldable pub split : ℕ → List ℕ → List (List ℕ)
split sep [] = [] ∷ []
split sep (c ∷ cs) = split_step sep c (split sep cs)

abbrev pub is_digit : ℕ → Bool
is_digit c = leb b'0' c && leb c b'9'

-- The value of decimal digits, after the value `acc` of those before.
unfoldable pub digits_value : ℕ → List ℕ → ℕ
digits_value acc [] = acc
digits_value acc (c ∷ cs) = digits_value (acc * 10 + (c - b'0')) cs

-- Digits alone, at least one, with a magnitude of at most `bound`.
unfoldable pub parse_digits : ℕ → List ℕ → Option ℕ
unfolding digits_value
parse_digits bound [] = none
parse_digits bound (c ∷ cs) =
    let n = digits_value 0 (c ∷ cs) in if all is_digit (c ∷ cs) && leb n bound then some n else none

-- `strconv.Atoi` on a 64-bit machine.
unfoldable pub atoi : List ℕ → Option ℤ
unfolding parse_digits
atoi [] = none
atoi (c ∷ cs) =
    if c == b'-'
    then elim (parse_digits (max_int64 + 1) cs) [ none ↦ none | some n ↦ some (sub_ℕ 0 n) ]
    else elim (parse_digits max_int64 (if c == b'+' then cs else c ∷ cs)) [
      | none ↦ none
      | some n ↦ some (pos n)
    ]

-- `unicode.IsSpace`.
abbrev pub is_space : ℕ → Bool
is_space c =
    (leb 9 c && leb c 13)
    || c == 32
    || c == 0x85
    || c == 0xa0
    || c == 0x1680
    || (leb 0x2000 c && leb c 0x200a)
    || c == 0x2028
    || c == 0x2029
    || c == 0x202f
    || c == 0x205f
    || c == 0x3000

unfoldable pub trim_left : List ℕ → List ℕ
trim_left [] = []
trim_left (c ∷ cs) = let rest = trim_left cs in if is_space c then rest else c ∷ cs

unfoldable pub trim_space : List ℕ → List ℕ
unfolding trim_left
trim_space s = reverse (trim_left (reverse (trim_left s)))

-- `unicode.ToUpper`, where its result is ASCII: the small letters, the dotless i and the long s. The
-- other code points stay as they are; their capitals are not ASCII either, and the code compares
-- the result with ASCII names alone.
abbrev pub upper_char : ℕ → ℕ
upper_char c =
    if leb b'a' c && leb c b'z'
    then c - 32
    else if c == 0x131
    then b'I'
    else if c == 0x17f
    then b'S'
    else c

unfoldable pub to_upper : List ℕ → List ℕ
to_upper = map upper_char

-- `==` on texts as lists of code points.
unfoldable pub codes_eq : List ℕ → List ℕ → Bool
codes_eq [] [] = true
codes_eq (c ∷ cs) (d ∷ ds) = c == d && codes_eq cs ds
codes_eq _ _ = false

-- The decimal digits of a number below 10 ^ fuel, before the digits `after`.
unfoldable pub format_digits : ℕ → ℕ → List ℕ → List ℕ
format_digits zero n after = after
format_digits (suc fuel) n after =
    let rest = format_digits fuel (n / 10) ((b'0' + n % 10) ∷ after) in
    if ltb n 10 then (b'0' + n) ∷ after else rest

-- `strconv.FormatInt(n, 10)` of an int64, which has at most 19 digits.
unfoldable pub format_int : ℤ → List ℕ
unfolding format_digits
format_int (pos n) = format_digits 20 n []
format_int (negsuc n) = b'-' ∷ format_digits 20 (n + 1) []
