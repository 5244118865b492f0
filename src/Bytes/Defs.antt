-- ===== src/Bytes/Defs.antt =====
-- The operations on `bytes`.
use rise_sun.Common.{ℕ, zero, suc, ◌+◌, ◌-◌, ◌*◌, ◌/◌, ◌%◌, ◌^◌, ◌<◌, Option, none, some}
use rise_sun.Common.{List, [], ◌∷◌, ltb, if◌then◌else◌, length, get_elem?, take, drop, All}
use rise_sun.Common.{ℤ, pos, negsuc}
use rise_sun.Errors.{Result, ok, err, value_error, overflow_error, index_error}

abbrev pub IsByte : ℕ → Type 0
IsByte b = b < 256

abbrev pub IsBytes : List ℕ → Type 0
IsBytes = All IsByte

-- `data[a:b]`, for 0 ≤ a.
abbrev pub slice : ℕ → ℕ → List ℕ → List ℕ
slice a b xs = take (b - a) (drop a xs)

abbrev or_index_error : Option ℕ → Result ℕ
or_index_error none = err index_error
or_index_error (some b) = ok b

-- `data[i]`.
abbrev pub byte_at : List ℕ → ℕ → Result ℕ
byte_at xs i = or_index_error (get_elem? xs i)

-- `bytes([x])`.
abbrev pub byte : ℕ → Result (List ℕ)
byte x = if ltb x 256 then ok (x ∷ []) else err value_error

-- The bytes of a number, highest and lowest first.
abbrev pub big_endian : ℕ → ℕ → List ℕ
big_endian zero v = []
big_endian (suc n) v = (v / 256 ^ n) ∷ big_endian n (v % 256 ^ n)

abbrev pub little_endian : ℕ → ℕ → List ℕ
little_endian zero v = []
little_endian (suc n) v = (v % 256) ∷ little_endian n (v / 256)

-- `v.to_bytes(n, "big")` and `v.to_bytes(n, "little")`.
abbrev pub to_bytes_big : ℕ → ℕ → Result (List ℕ)
to_bytes_big n v = if ltb v (256 ^ n) then ok (big_endian n v) else err overflow_error

abbrev pub to_bytes_little : ℕ → ℕ → Result (List ℕ)
to_bytes_little n v = if ltb v (256 ^ n) then ok (little_endian n v) else err overflow_error

abbrev pub from_big_acc : ℕ → List ℕ → ℕ
from_big_acc acc [] = acc
from_big_acc acc (b ∷ bs) = from_big_acc (acc * 256 + b) bs

-- `int.from_bytes(data, "big")` and `int.from_bytes(data, "little")`.
abbrev pub from_bytes_big : List ℕ → ℕ
from_bytes_big = from_big_acc 0

abbrev pub from_bytes_little : List ℕ → ℕ
from_bytes_little [] = 0
from_bytes_little (b ∷ bs) = b + 256 * from_bytes_little bs

-- Two's complement in `n` bytes: `v.to_bytes(n, "big", signed=True)` and its inverse.
abbrev pub magnitude : ℤ → ℕ
magnitude (pos k) = k
magnitude (negsuc k) = k

abbrev pub complement : ℕ → ℤ → ℕ
complement n (pos k) = k
complement n (negsuc k) = 256 ^ n - 1 - k

abbrev pub to_bytes_signed : ℕ → ℤ → Result (List ℕ)
to_bytes_signed n v =
    if ltb (magnitude v) (256 ^ n / 2)
    then ok (big_endian n (complement n v))
    else err overflow_error

abbrev pub signed_of : ℕ → ℕ → ℤ
signed_of n w = if ltb w (256 ^ n / 2) then pos w else negsuc (256 ^ n - 1 - w)

abbrev pub from_bytes_signed : List ℕ → ℤ
from_bytes_signed bs = signed_of (length bs) (from_bytes_big bs)
