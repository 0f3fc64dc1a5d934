-- ===== src/ConfigTx/Refs.antt =====
-- The references of secrets: `ValidateRef` of internal/secretstore/secretstore.go, and the versions at
-- the end of internal/configtx/draft.go.
use homepi_mon.Common.{
  ℕ, zero, suc, ◌+◌, String, len, Bool, not, ◌&&◌, ◌||◌, List, [], ◌∷◌, Option, none, some, ltb,
  ◌==◌, str_eq, str_append, codes, all, get_elem?, if◌then◌else◌,
}
use Prim.Native.Nat.{◌-◌}
use Prim.Native.Char.{code}
use homepi_mon.Common.Int.{ℤ, pos, negsuc}
use homepi_mon.Common.Time.{max_int64}
use homepi_mon.Common.Strconv.{is_digit, is_space, atoi, format_int}
use homepi_mon.Config.Validate.{has_prefix, after_prefix, has_none}
use homepi_mon.Protocol.Ids.{id_char}

unfoldable pub ref_char : ℕ → Bool
unfolding id_char
ref_char c = c == b':' || c == b'/' || c == b'\\' || id_char c || c == b'@'

-- `secretstore.ValidateRef`.
unfoldable pub valid_ref : String → Bool
unfolding ref_char
valid_ref ref = not (str_eq ref "" || ltb 256 (len ref)) && all ref_char (codes ref)

-- A text of digits and a sign, from its code points.
abbrev digit_texts : List String
digit_texts = "0" ∷ "1" ∷ "2" ∷ "3" ∷ "4" ∷ "5" ∷ "6" ∷ "7" ∷ "8" ∷ "9" ∷ []

abbrev digit_text : ℕ → String
digit_text c =
    if c == b'-'
    then "-"
    else elim (get_elem? digit_texts (c - b'0')) [ none ↦ "" | some text ↦ text ]

abbrev number_text : List ℕ → String
number_text [] = ""
number_text (c ∷ cs) = str_append (digit_text c) (number_text cs)

abbrev take_digits : List ℕ → List ℕ
take_digits [] = []
take_digits (c ∷ cs) = let rest = take_digits cs in if is_digit c then c ∷ rest else []

abbrev skip_space : List ℕ → List ℕ
skip_space [] = []
skip_space (c ∷ cs) =
    let rest = skip_space cs in if is_space c && not (c == 10) then rest else c ∷ cs

-- `fmt.Sscanf(s, "%d", &n)`: spaces but no newline, a sign, and digits that fit; the rest is ignored.
abbrev scan_number : List ℕ → Option ℤ
unfolding atoi
scan_number [] = none
scan_number (c ∷ cs) =
    if c == b'-' || c == b'+' then atoi (c ∷ take_digits cs) else atoi (take_digits (c ∷ cs))

-- `n + 1` on int64.
abbrev increment : ℤ → ℤ
increment (pos n) = if n == max_int64 then negsuc max_int64 else pos (n + 1)
increment (negsuc zero) = pos 0
increment (negsuc (suc n)) = negsuc n

unfoldable pub next_version : String → String
unfolding atoi format_int
next_version s = elim (scan_number (skip_space (codes s))) [
  | none ↦ "2"
  | some n ↦ number_text (format_int (increment n))
]

-- The text before the last `@` and the text behind it.
unfoldable pub cut_last_at : String → Option (String × String)
cut_last_at (String.◌∷◌ c s) = elim (cut_last_at s) [
  | some (before, after) ↦ some (String.◌∷◌ c before, after)
  | none ↦ if code c == b'@' then some ("", s) else none
]
cut_last_at String.[] = none

unfoldable pub next_versioned_ref : String → String
unfolding after_prefix cut_last_at next_version
next_versioned_ref ref =
    if has_prefix "keyring:" ref
    then elim (cut_last_at ref) [
      | some (before, after) ↦ str_append before (str_append "@" (next_version after))
      | none ↦ str_append ref "@2"
    ]
    else ref

unfoldable pub first_versioned_ref : String → String
unfolding after_prefix
first_versioned_ref ref =
    if not (has_prefix "keyring:" ref) || not (has_none (b'@' ∷ []) (codes ref))
    then ref
    else str_append ref "@1"

-- The text before the first `@`, or all of it.
abbrev pub before_at : List ℕ → List ℕ
before_at [] = []
before_at (c ∷ cs) = let rest = before_at cs in if c == b'@' then [] else c ∷ rest
