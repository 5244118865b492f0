-- ===== src/Bytes/Laws.antt =====
-- Slices and indices inside an append, and reading back the bytes of a number.
use rise_sun.Common.{ℕ, zero, suc, ◌+◌, ◌-◌, ◌*◌, ◌/◌, ◌%◌, ◌^◌, ◌<◌, ◌≡◌, refl, ap}
use rise_sun.Common.{
  List, [], ◌∷◌, ◌++◌, arith, length, get_elem?, none, some, ◌≤◌, drop, drop-append, length-append,
  ◌∙◌,
}
use rise_sun.Common.{take-append, pos, negsuc, ℤ}
use rise_sun.Bytes.Defs.{
  IsBytes, slice, byte_at, big_endian, little_endian, from_big_acc, from_bytes_big,
  from_bytes_little, from_bytes_signed, complement, magnitude, signed_of,
}
use rise_sun.Errors.{ok}
use native.Mathlib.Nat.{pow-suc, one-le-pow, div-add-mod, mod-lt}

pub length-append_bytes : (xs ys : List ℕ) → length (xs ++ ys) ≡ length xs + length ys
length-append_bytes = length-append

-- For `omega`, on texts of bytes.
pub ruleset lengths = (arith, length-append_bytes)

pub drop_at : (pre rest : List ℕ) (n : ℕ) → n ≡ length pre → drop n (pre ++ rest) ≡ rest
drop_at pre rest n p = rw p (drop-append pre rest)

pub slice_middle :
    (xs ys zs : List ℕ) (a b : ℕ)
    → a ≡ length xs
    → b ≡ length xs + length ys
    → slice a b (xs ++ (ys ++ zs)) ≡ ys
slice_middle xs ys zs a b p q = rw (p, q, drop-append xs (ys ++ zs), cut) (take-append ys zs)
  where
    cut : length xs + length ys - length xs ≡ length ys
    cut = omega arith

-- The same for a list that is such an append.
pub slice_of :
    (all xs ys zs : List ℕ) (a b : ℕ)
    → all ≡ xs ++ (ys ++ zs)
    → a ≡ length xs
    → b ≡ length xs + length ys
    → slice a b all ≡ ys
slice_of all xs ys zs a b e p q = ap (slice a b) e ∙ slice_middle xs ys zs a b p q

pub get_elem?_middle :
    (xs : List ℕ) (y : ℕ) (zs : List ℕ) (a : ℕ)
    → a ≡ length xs
    → get_elem? (xs ++ (y ∷ zs)) a ≡ some y
get_elem?_middle [] y zs a p = rw p
get_elem?_middle (x ∷ xs) y zs a p = rw p (get_elem?_middle xs y zs (length xs) refl)

pub get_elem?_end : (xs : List ℕ) (a : ℕ) → length xs ≤ a → get_elem? xs a ≡ none
get_elem?_end [] a h = refl
get_elem?_end (x ∷ xs) zero h = absurd (omega arith)
get_elem?_end (x ∷ xs) (suc a) h = get_elem?_end xs a (omega arith)

pub byte_at_middle :
    (xs : List ℕ) (y : ℕ) (zs : List ℕ) (a : ℕ) → a ≡ length xs → byte_at (xs ++ (y ∷ zs)) a ≡ ok y
byte_at_middle [] y zs a p = rw p
byte_at_middle (x ∷ xs) y zs a p = rw p (byte_at_middle xs y zs (length xs) refl)

pub byte_at_of :
    (all xs : List ℕ) (y : ℕ) (zs : List ℕ) (a : ℕ)
    → all ≡ xs ++ (y ∷ zs)
    → a ≡ length xs
    → byte_at all a ≡ ok y
byte_at_of all xs y zs a e p = ap (λ (l : List ℕ). byte_at l a) e ∙ byte_at_middle xs y zs a p

pub length-big_endian : (n v : ℕ) → length (big_endian n v) ≡ n
length-big_endian zero v = refl
length-big_endian (suc n) v = ap suc (length-big_endian n (v % 256 ^ n))

pub big_endian-IsBytes : (n v : ℕ) → v < 256 ^ n → IsBytes (big_endian n v)
big_endian-IsBytes zero v h = tt
big_endian-IsBytes (suc n) v h =
    (div_bound, big_endian-IsBytes n (v % 256 ^ n) (mod-lt v (one-le-pow n 256 (omega arith))))
  where
    div_bound : v / 256 ^ n < 256
    div_bound = grind (arith, pow-suc 256 n)

from_big_acc-big_endian :
    (n acc v : ℕ) → v < 256 ^ n → from_big_acc acc (big_endian n v) ≡ acc * 256 ^ n + v
from_big_acc-big_endian zero acc v h = omega arith
from_big_acc-big_endian (suc n) acc v h = omega (
  arith,
  from_big_acc-big_endian n (acc * 256 + v / 256 ^ n) (v % 256 ^ n)
      (mod-lt v (one-le-pow n 256 (omega arith))),
  div-add-mod v (256 ^ n),
  pow-suc 256 n,
  ap (λ (t : ℕ). acc * t) (pow-suc 256 n),
)

pub from_bytes_big-big_endian : (n v : ℕ) → v < 256 ^ n → from_bytes_big (big_endian n v) ≡ v
from_bytes_big-big_endian n v h = omega (arith, from_big_acc-big_endian n 0 v h)

pow_even : (n : ℕ) → 256 ^ suc n / 2 + 256 ^ suc n / 2 ≡ 256 ^ suc n
pow_even n = omega (arith, pow-suc 256 n)

signed_of-pos : (n k : ℕ) → k < 256 ^ n / 2 → signed_of n k ≡ pos k
signed_of-pos n k h = ground arith

signed_of-negsuc :
    (n k : ℕ) → k < 256 ^ suc n / 2 → signed_of (suc n) (256 ^ suc n - 1 - k) ≡ negsuc k
signed_of-negsuc n k h = ground (arith, pow_even n, one-le-pow (suc n) 256)

-- A signed number that fits `n + 1` bytes is read back from them.
pub complement-lt : (n : ℕ) (v : ℤ) → magnitude v < 256 ^ n / 2 → complement n v < 256 ^ n
complement-lt n (pos k) h = omega arith
complement-lt n (negsuc k) h = omega arith

signed_of-complement :
    (n : ℕ) (v : ℤ) → magnitude v < 256 ^ suc n / 2 → signed_of (suc n) (complement (suc n) v) ≡ v
signed_of-complement n (pos k) h = signed_of-pos (suc n) k h
signed_of-complement n (negsuc k) h = signed_of-negsuc n k h

pub from_bytes_signed-complement :
    (n : ℕ) (v : ℤ)
    → magnitude v < 256 ^ suc n / 2
    → from_bytes_signed (big_endian (suc n) (complement (suc n) v)) ≡ v
from_bytes_signed-complement n v h =
    rw
      (
        length-big_endian (suc n) (complement (suc n) v),
        from_bytes_big-big_endian (suc n) (complement (suc n) v) (complement-lt (suc n) v h),
      )
      (signed_of-complement n v h)

pub length-little_endian : (n v : ℕ) → length (little_endian n v) ≡ n
length-little_endian zero v = refl
length-little_endian (suc n) v = ap suc (length-little_endian n (v / 256))

pub little_endian-IsBytes : (n v : ℕ) → IsBytes (little_endian n v)
little_endian-IsBytes zero v = tt
little_endian-IsBytes (suc n) v = (omega arith, little_endian-IsBytes n (v / 256))

pub from_bytes_little-little_endian :
    (n v : ℕ) → v < 256 ^ n → from_bytes_little (little_endian n v) ≡ v
from_bytes_little-little_endian zero v h = omega arith
from_bytes_little-little_endian (suc n) v h = omega (
  arith,
  pow-suc 256 n,
  from_bytes_little-little_endian n (v / 256) (omega (arith, pow-suc 256 n)),
)
