-- ===== src/HdlcDlms/Obis.antt =====
-- `parse_obis` of dlms.py, on ASCII text as a list of code points.
use rise_sun.Common.{
  ℕ, zero, suc, ◌+◌, ◌-◌, ◌*◌, List, [], ◌∷◌, Bool, true, false, Option, none, some,
}
use rise_sun.Common.{leb, ◌==◌, ◌&&◌, ◌||◌, if◌then◌else◌, length, ℤ, pos, negsuc}
use rise_sun.Errors.{Result, ok, ◌>>=◌, ◌>>◌, guard, fail, plain, gateway_error}
use rise_sun.Addressing.{lstrip, rstrip, is_digit}

-- `text.split(".")`: the part before the first dot, and those behind it.
abbrev add_to_first : ℕ → List (List ℕ) → List (List ℕ)
add_to_first c [] = (c ∷ []) ∷ []
add_to_first c (part ∷ parts) = (c ∷ part) ∷ parts

pub split_dots : List ℕ → List (List ℕ)
split_dots [] = [] ∷ []
split_dots (c ∷ cs) =
    let parts = split_dots cs in if c == b'.' then [] ∷ parts else add_to_first c parts

-- A hexadecimal digit in either case.
abbrev hex_digit : ℕ → Option ℕ
hex_digit c =
    if is_digit c
    then some (c - b'0')
    else if leb b'a' c && leb c b'f'
    then some (c - b'a' + 10)
    else if leb b'A' c && leb c b'F'
    then some (c - b'A' + 10)
    else none

-- The digits of `int(text, 16)`; the flag tells whether an underscore may stand here.
abbrev hex_step : Option ℕ → (ℕ → Option ℕ) → Option ℕ → Option ℕ
hex_step (some d) with_digit other = with_digit d
hex_step none with_digit other = other

pub hex_digits : List ℕ → Bool → ℕ → Option ℕ
hex_digits [] true acc = some acc
hex_digits [] false acc = none
hex_digits (c ∷ cs) after acc =
    let underscore = hex_digits cs false acc in
    hex_step (hex_digit c) (λ d. hex_digits cs true (acc * 16 + d))
      (if c == b'_' && after then underscore else none)

-- An optional prefix `0x`, behind which an underscore may stand.
pub hex_prefixed : List ℕ → Option ℕ
unfolding hex_digits
hex_prefixed (a ∷ b ∷ cs) =
    if a == b'0' && (b == b'x' || b == b'X') then hex_after cs else hex_digits (a ∷ b ∷ cs) false 0
  where
    hex_after : List ℕ → Option ℕ
    hex_after [] = none
    hex_after (c ∷ cs) = if c == b'_' then hex_digits cs false 0 else hex_digits (c ∷ cs) false 0
hex_prefixed cs = hex_digits cs false 0

abbrev negated : Option ℕ → Option ℤ
negated none = none
negated (some zero) = some (pos 0)
negated (some (suc n)) = some (negsuc n)

abbrev unsigned : Option ℕ → Option ℤ
unsigned none = none
unsigned (some n) = some (pos n)

abbrev hex_signed : List ℕ → Option ℤ
unfolding hex_prefixed
hex_signed [] = none
hex_signed (c ∷ cs) =
    if c == b'-'
    then negated (hex_prefixed cs)
    else if c == b'+'
    then unsigned (hex_prefixed cs)
    else unsigned (hex_prefixed (c ∷ cs))

-- `int(part, 16)` for a part, with the test of its range.
unfoldable pub obis_field : List ℕ → Option ℕ
unfolding hex_signed
obis_field part = in_range (hex_signed (rstrip (lstrip part)))
  where
    in_range : Option ℤ → Option ℕ
    in_range (some (pos n)) = if leb n 0xFF then some n else none
    in_range _ = none

abbrev pub all_some : List (Option ℕ) → Result (List ℕ)
all_some [] = ok []
all_some (none ∷ fields) = fail gateway_error
all_some (some n ∷ fields) = all_some fields >>= λ ns. ok (n ∷ ns)

abbrev obis_fields : List (List ℕ) → List (Option ℕ)
unfolding obis_field
obis_fields [] = []
obis_fields (part ∷ parts) = obis_field part ∷ obis_fields parts

-- All three refusals are a `GatewayError`.
unfoldable pub parse_obis : List ℕ → Result (List ℕ)
unfolding split_dots obis_fields
parse_obis text = do
  let parts = split_dots text
  guard (length parts == 6) (plain gateway_error)
  all_some (obis_fields parts)
