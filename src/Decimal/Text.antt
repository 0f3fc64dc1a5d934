-- ===== src/Decimal/Text.antt =====
-- internal/decimal/decimal.go, Parse and String: the text form of an exact value. A text is the list
-- of its code points.
pub mod Digits
pub mod Reading
pub mod Roundtrip
use homepi_mon.Common.{
  ℕ, zero, suc, ◌+◌, ◌-◌, Bool, true, false, not, ◌&&◌, ◌||◌, Option, none, some, List, [], ◌∷◌,
  ◌++◌, Result, ok, err, ◌>>=◌, ◌>>◌, refuse, ltb, leb, ◌==◌, if◌then◌else◌, length, drop, all,
}
use homepi_mon.Common.Int.{ℤ, pos, negsuc, sub_ℕ}
use homepi_mon.Common.Time.{max_int64}
use homepi_mon.Common.Strconv.{cut, is_digit, parse_digits, trim_space, format_int}
use homepi_mon.Decimal.{Decimal}

abbrev pub max_scale : ℕ
max_scale = 9

pub data DecimalError : Type 0 where
  bad_syntax scale_exceeded out_of_range : DecimalError

abbrev pub is_empty : List ℕ → Bool
is_empty [] = true
is_empty (c ∷ cs) = false

-- `len(s)`, the bytes of the UTF-8 encoding.
abbrev pub code_length : ℕ → ℕ
code_length c = if ltb c 0x80 then 1 else if ltb c 0x800 then 2 else if ltb c 0x10000 then 3 else 4

unfoldable pub byte_length : List ℕ → ℕ
byte_length [] = 0
byte_length (c ∷ cs) = code_length c + byte_length cs

-- `strconv.ParseInt` of digits alone.
unfoldable pub parse_int : List ℕ → Result DecimalError ℕ
unfolding parse_digits
parse_int digits = elim (parse_digits max_int64 digits) [ none ↦ err out_of_range | some n ↦ ok n ]

abbrev pub signed : Bool → ℕ → ℤ
signed neg n = if neg then sub_ℕ 0 n else pos n

-- `Parse` after the sign, on the two sides of the point.
unfoldable pub parse_parts : Bool → List ℕ → List ℕ → Bool → Result DecimalError Decimal
unfolding byte_length
parse_parts neg int_part frac_part has_frac = do
  refuse (has_frac && is_empty frac_part) bad_syntax
  refuse (is_empty int_part && not has_frac) bad_syntax
  refuse (ltb max_scale (byte_length frac_part)) scale_exceeded
  refuse (is_empty (int_part ++ frac_part)) bad_syntax
  refuse (not (all is_digit (int_part ++ frac_part))) bad_syntax
  n ← parse_int (int_part ++ frac_part)
  ok (record { unscaled = signed neg n; scale = byte_length frac_part })

unfoldable pub parse_unsigned : Bool → List ℕ → Result DecimalError Decimal
unfolding cut parse_parts
parse_unsigned neg s = do
  refuse (is_empty s) bad_syntax
  let (int_part, frac_part, has_frac) = cut b'.' s
  parse_parts neg int_part frac_part has_frac

unfoldable pub parse_signed : List ℕ → Result DecimalError Decimal
unfolding parse_unsigned
parse_signed [] = err bad_syntax
parse_signed (c ∷ cs) =
    if c == b'+'
    then parse_unsigned false cs
    else parse_unsigned (c == b'-') (if c == b'-' then cs else c ∷ cs)

unfoldable pub parse : List ℕ → Result DecimalError Decimal
unfolding trim_space parse_signed
parse s = parse_signed (trim_space s)

-- `-u` on int64, where the least number is its own opposite.
abbrev pub neg_int64 : ℤ → ℤ
neg_int64 (pos n) = sub_ℕ 0 n
neg_int64 (negsuc n) = if n == max_int64 then negsuc n else pos (n + 1)

abbrev pub is_negative : ℤ → Bool
is_negative (pos n) = false
is_negative (negsuc n) = true

-- The loop that puts zeros before the digits, which has at least one digit to start with, so that
-- the scale is fuel enough.
unfoldable pub pad_zeros : ℕ → ℕ → List ℕ → List ℕ
pad_zeros zero scale digits = digits
pad_zeros (suc fuel) scale digits =
    let padded = pad_zeros fuel scale (b'0' ∷ digits) in
    if leb (length digits) scale then padded else digits

-- `digits[:n]`
abbrev pub take : ℕ → List ℕ → List ℕ
take zero cs = []
take (suc n) [] = []
take (suc n) (c ∷ cs) = c ∷ take n cs

abbrev pub with_point : ℕ → List ℕ → List ℕ
with_point n digits = take n digits ++ b'.' ∷ drop n digits

unfoldable pub to_string : Decimal → List ℕ
unfolding format_int pad_zeros
to_string d =
    let neg = is_negative d.unscaled in
    let u = if neg then neg_int64 d.unscaled else d.unscaled in
    let digits = pad_zeros d.scale d.scale (format_int u) in
    let out = with_point (length digits - d.scale) digits in
    if d.scale == 0 then format_int d.unscaled else if neg then b'-' ∷ out else out
