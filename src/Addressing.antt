-- ===== src/Addressing.antt =====
-- gateway/src/mmws_gateway/addressing.py: the physical address of a meter from its serial number.
-- A text is the list of its code points, and a serial number is ASCII text.
use Prim.Native.Char.{code}
use Prim.Native.String.{String}
use rise_sun.Common.{
  ℕ, zero, suc, ◌+◌, ◌-◌, ◌*◌, ◌/◌, ◌%◌, List, [], ◌∷◌, Bool, true, false, Option, none, some,
}
use rise_sun.Common.{leb, ◌==◌, ◌&&◌, ◌||◌, if◌then◌else◌, length, drop, ℤ, pos, negsuc}
use rise_sun.Errors.{Result, ok, err, ◌>>=◌, fail, value_error, addressing_error}
use rise_sun.Hdlc.Address.{join_address}

abbrev pub codes : String → List ℕ
codes String.[] = []
codes (String.◌∷◌ c s) = code c ∷ codes s

-- `unknown` is any text that is not in `PROFILES`.
pub data Profile : Type 0 where
  mode_c mode_e hdlc_dlms unknown : Profile

abbrev pub factory_batch_low : ℕ
factory_batch_low = 201901230001

abbrev pub factory_batch_high : ℕ
factory_batch_high = 201901230186

abbrev pub factory_batch_offset : ℕ
factory_batch_offset = 199

abbrev pub is_digit : ℕ → Bool
is_digit c = leb b'0' c && leb c b'9'

pub all_digits : List ℕ → Bool
all_digits [] = true
all_digits (c ∷ cs) = is_digit c && all_digits cs

-- `text.isdigit()`.
unfoldable pub isdigit : List ℕ → Bool
unfolding all_digits
isdigit [] = false
isdigit (c ∷ cs) = all_digits (c ∷ cs)

-- `int(text)` on a text of digits.
pub digits_value : ℕ → List ℕ → ℕ
digits_value acc [] = acc
digits_value acc (c ∷ cs) = digits_value (acc * 10 + (c - b'0')) cs

-- `text[-n:]`.
abbrev pub last_chars : ℕ → List ℕ → List ℕ
last_chars n text = drop (length text - n) text

-- `f"{n:05d}"`, for a number of five digits at most.
unfoldable pub five_digits : ℕ → List ℕ
five_digits n =
    (b'0' + n / 10000 % 10)
    ∷ (b'0' + n / 1000 % 10)
    ∷ (b'0' + n / 100 % 10)
    ∷ (b'0' + n / 10 % 10)
    ∷ (b'0' + n % 10)
    ∷ []

-- The part for the profiles that address over HDLC.
unfoldable pub hdlc_address_text : List ℕ → List ℕ
unfolding isdigit digits_value
hdlc_address_text serial =
    if isdigit serial
      && (leb factory_batch_low (digits_value 0 serial)
          && leb (digits_value 0 serial) factory_batch_high)
    then five_digits (digits_value 0 (last_chars 4 serial) + factory_batch_offset)
    else last_chars 5 serial

unfoldable pub physical_address : List ℕ → Profile → Result (List ℕ)
physical_address serial unknown = err value_error
physical_address [] mode_c = err value_error
physical_address [] mode_e = err value_error
physical_address [] hdlc_dlms = err value_error
physical_address (c ∷ cs) mode_c = ok (c ∷ cs)
physical_address (c ∷ cs) mode_e = ok (hdlc_address_text (c ∷ cs))
physical_address (c ∷ cs) hdlc_dlms = ok (hdlc_address_text (c ∷ cs))

-- `int(text)` on ASCII text: white space around, a sign, and single underscores between digits.
abbrev pub is_space : ℕ → Bool
is_space c = leb 9 c && leb c 13 || leb 28 c && leb c 32

pub lstrip : List ℕ → List ℕ
lstrip [] = []
lstrip (c ∷ cs) = if is_space c then lstrip cs else c ∷ cs

abbrev drop_space : ℕ → List ℕ → List ℕ
drop_space c [] = if is_space c then [] else c ∷ []
drop_space c (d ∷ cs) = c ∷ d ∷ cs

pub rstrip : List ℕ → List ℕ
rstrip [] = []
rstrip (c ∷ cs) = drop_space c (rstrip cs)

-- The flag tells whether a digit stands just before.
pub parse_digits : List ℕ → Bool → ℕ → Option ℕ
parse_digits [] true acc = some acc
parse_digits [] false acc = none
parse_digits (c ∷ cs) after acc =
    let digit = parse_digits cs true (acc * 10 + (c - b'0')) in
    let underscore = parse_digits cs false acc in
    if is_digit c then digit else if c == b'_' && after then underscore else none

abbrev negated : Option ℕ → Option ℤ
negated none = none
negated (some zero) = some (pos 0)
negated (some (suc n)) = some (negsuc n)

abbrev unsigned : Option ℕ → Option ℤ
unsigned none = none
unsigned (some n) = some (pos n)

pub parse_signed : List ℕ → Option ℤ
unfolding parse_digits
parse_signed [] = none
parse_signed (c ∷ cs) =
    if c == b'+'
    then unsigned (parse_digits cs false 0)
    else if c == b'-'
    then negated (parse_digits cs false 0)
    else unsigned (parse_digits (c ∷ cs) false 0)

unfoldable pub parse_int : List ℕ → Option ℤ
unfolding lstrip rstrip parse_signed
parse_int text = parse_signed (rstrip (lstrip text))

abbrev address_of : Option ℤ → ℕ → Result ℕ
address_of none logical_device = fail addressing_error
address_of (some (negsuc n)) logical_device = fail addressing_error
address_of (some (pos lower)) logical_device = join_address logical_device lower

-- `server_hdlc_address(physical_address, logical_device=…)` of hdlc.py.
unfoldable pub server_hdlc_address : List ℕ → ℕ → Result ℕ
unfolding parse_int
server_hdlc_address text logical_device = address_of (parse_int text) logical_device

-- `server_hdlc_address(physical_address(serial, HDLC_DLMS))`, as every caller composes them.
unfoldable pub meter_address : List ℕ → Result ℕ
meter_address serial = do text ← physical_address serial hdlc_dlms; server_hdlc_address text 1
