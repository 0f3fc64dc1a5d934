-- ===== src/Protocol/Ids.antt =====
-- The character sets of identifiers and of text that can reach a terminal: internal/protocol/
-- validate.go and the checks at the end of remote.go. A loop over the runes of a text is a test of
-- all its code points; `len` is Go's, in bytes.
use homepi_mon.Common.{
  ℕ, String, len, Bool, true, false, not, ◌&&◌, ◌||◌, List, none, some, leb, ltb, ◌==◌, str_eq, all,
  codes, length, get_elem?, Result, ◌>>◌, refuse,
}

abbrev pub in_range : ℕ → ℕ → ℕ → Bool
in_range lo hi c = leb lo c && leb c hi

-- a-z, A-Z, 0-9, `-`, `_` and `.`.
unfoldable pub id_char : ℕ → Bool
id_char c =
    in_range b'a' b'z' c
    || in_range b'A' b'Z' c
    || in_range b'0' b'9' c
    || c == b'-'
    || c == b'_'
    || c == b'.'

-- A refusal names the field.
unfoldable pub valid_id : String → String → Result String (Unit {0})
unfolding id_char
valid_id field v = do
  refuse (str_eq v "") field
  refuse (ltb 64 (len v)) field
  refuse (not (all id_char (codes v))) field

unfoldable pub text_char : ℕ → Bool
text_char c = not (ltb c 0x20 || c == 0x7f)

unfoldable pub safe_text : String → String → ℕ → Result String (Unit {0})
unfolding text_char
safe_text field v max_len = do
  refuse (ltb max_len (len v)) field
  refuse (not (all text_char (codes v))) field

unfoldable pub safe_command_id : String → Bool
unfolding id_char
safe_command_id v = not (str_eq v "" || ltb 64 (len v)) && all id_char (codes v)

-- Printable ASCII, 1 to 116 bytes.
unfoldable pub valid_message : String → Bool
valid_message v = not (str_eq v "" || ltb 116 (len v)) && all (in_range 0x20 0x7e) (codes v)

abbrev pub hex_digit : ℕ → Bool
hex_digit c = in_range b'0' b'9' c || in_range b'a' b'f' c

-- The bytes at the four dashes.
abbrev pub is_dash_at : ℕ → Bool
is_dash_at i = i == 8 || i == 13 || i == 18 || i == 23

abbrev pub at : List ℕ → ℕ → (ℕ → Bool) → Bool
at bytes i p = elim (get_elem? bytes i) [ none ↦ false | some c ↦ p c ]

-- The loop of `validUUID`, from position i.
unfoldable pub uuid_digits : ℕ → List ℕ → Bool
uuid_digits i List.[] = true
uuid_digits i (List.◌∷◌ c cs) = (is_dash_at i || hex_digit c) && uuid_digits (ℕ.suc i) cs

-- A canonical version-4 UUID. A text that is not ASCII fails at the first byte that is not, as it
-- does at the first code point here.
unfoldable pub valid_uuid : String → Bool
unfolding uuid_digits
valid_uuid v =
    let b = codes v in
    (length b == 36)
    && at b 8 (λ c. c == b'-')
    && at b 13 (λ c. c == b'-')
    && at b 18 (λ c. c == b'-')
    && at b 23 (λ c. c == b'-')
    && uuid_digits 0 b
    && at b 14 (λ c. c == b'4')
    && at b 19 (λ c. c == b'8' || c == b'9' || c == b'a' || c == b'b')
