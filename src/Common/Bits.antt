-- ===== src/Common/Bits.antt =====
-- `&`, `|` and `^` on numbers at variables: the recursion of each on the lowest digit, masks of
-- low bits, the join of disjoint fields, and the exclusive or as an involution that keeps a width.
use Prim.Native.Nat.{ℕ, zero, suc, ◌+◌, ◌-◌, ◌*◌, ◌/◌, ◌%◌, ◌^◌, ◌≤◌, ◌<◌, min, max}
use Prim.Native.Nat.{bit_and, bit_or, bit_xor, digits, differ}
use Prim.Native.Nat.{bit_and-bitwise, bit_or-bitwise, bit_xor-bitwise}
use mathlib.Core.Path.{◌≡◌, refl, ap}
use native.Mathlib.Nat.{pow-suc, one-le-pow}
use native.Mathlib.Omega.{arith}

-- The count of digits to go does not matter once it covers the number.
module _ (other : ℕ → ℕ) (op : ℕ → ℕ → ℕ) where
  digits_enough : (i j x y : ℕ) → x ≤ i → x ≤ j → digits other op i x y ≡ digits other op j x y
  digits_enough zero j (suc x) y hi hj = absurd (omega arith)
  digits_enough (suc i) zero (suc x) y hi hj = absurd (omega arith)
  digits_enough zero zero zero y hi hj = refl
  digits_enough zero (suc j) zero y hi hj = refl
  digits_enough (suc i) zero zero y hi hj = refl
  digits_enough (suc i) (suc j) zero y hi hj = refl
  digits_enough (suc i) (suc j) (suc x) y hi hj =
      ap (λ (above : ℕ). above * 2 + op (suc x % 2) (y % 2))
        (digits_enough i j (suc x / 2) (y / 2) (omega arith) (omega arith))

bit_and_low : (x w : ℕ) → bit_and x w ≡ bit_and (x / 2) (w / 2) * 2 + min (x % 2) (w % 2)
bit_and_low zero w = omega (arith, bit_and-bitwise 0 w, bit_and-bitwise 0 (w / 2))
bit_and_low (suc x) w = omega (
  arith,
  bit_and-bitwise (suc x) w,
  bit_and-bitwise (suc x / 2) (w / 2),
  digits_enough (λ y. 0) min x (suc x / 2) (suc x / 2) (w / 2) (omega arith) (omega arith),
)

bit_or_low : (a b : ℕ) → bit_or a b ≡ bit_or (a / 2) (b / 2) * 2 + max (a % 2) (b % 2)
bit_or_low zero b = omega (arith, bit_or-bitwise 0 b, bit_or-bitwise 0 (b / 2))
bit_or_low (suc a) b = omega (
  arith,
  bit_or-bitwise (suc a) b,
  bit_or-bitwise (suc a / 2) (b / 2),
  digits_enough (λ y. y) max a (suc a / 2) (suc a / 2) (b / 2) (omega arith) (omega arith),
)

differ_digits : (x y : ℕ) → x < 2 → y < 2 → differ x y ≡ (x + y) % 2
differ_digits zero y hx hy = omega arith
differ_digits (suc zero) zero hx hy = refl
differ_digits (suc zero) (suc zero) hx hy = refl
differ_digits (suc zero) (suc (suc y)) hx hy = absurd (omega arith)
differ_digits (suc (suc x)) y hx hy = absurd (omega arith)

pub bit_xor_low : (a b : ℕ) → bit_xor a b ≡ bit_xor (a / 2) (b / 2) * 2 + (a + b) % 2
bit_xor_low zero b = omega (arith, bit_xor-bitwise 0 b, bit_xor-bitwise 0 (b / 2))
bit_xor_low (suc a) b = omega (
  arith,
  bit_xor-bitwise (suc a) b,
  bit_xor-bitwise (suc a / 2) (b / 2),
  differ_digits (suc a % 2) (b % 2) (omega arith) (omega arith),
  digits_enough (λ y. y) differ a (suc a / 2) (suc a / 2) (b / 2) (omega arith) (omega arith),
)

-- Every number is 0 or comes after its half, so induction on a bound reaches it.
bit_and_zero : (bound a : ℕ) → a ≤ bound → bit_and a 0 ≡ 0
bit_and_zero zero a hx =
    omega (arith, bit_and-bitwise 0 0, ap (λ (t : ℕ). bit_and t 0) (zero_of_le a hx))
  where
    zero_of_le : (x : ℕ) → x ≤ 0 → x ≡ 0
    zero_of_le x hx = omega arith
bit_and_zero (suc bound) zero hx = bit_and-bitwise 0 0
bit_and_zero (suc bound) (suc a) hx =
    omega (arith, bit_and_low (suc a) 0, bit_and_zero bound (suc a / 2) (omega arith))

bit_or_zero : (bound x : ℕ) → x ≤ bound → bit_or x 0 ≡ x
bit_or_zero bound zero hx = bit_or-bitwise 0 0
bit_or_zero zero (suc x) hx = absurd (omega arith)
bit_or_zero (suc bound) (suc x) hx =
    omega (arith, bit_or_low (suc x) 0, bit_or_zero bound (suc x / 2) (omega arith))

bit_xor_zero : (n a : ℕ) → a ≤ n → bit_xor a 0 ≡ a
bit_xor_zero n zero h = bit_xor-bitwise 0 0
bit_xor_zero zero (suc a) h = absurd (omega arith)
bit_xor_zero (suc n) (suc a) h =
    omega (arith, bit_xor_low (suc a) 0, bit_xor_zero n (suc a / 2) (omega arith))

-- A mask of `k` ones keeps the field of `k` bits, which is the remainder by `2 ^ k`.
bit_and_field : (k high low : ℕ) → low < 2 ^ k → bit_and (high * 2 ^ k + low) (2 ^ k - 1) ≡ low
bit_and_field zero high low fits = ground (arith, bit_and_zero (high + low) (high + low))
bit_and_field (suc k) high low fits = ground (
  arith,
  pow-suc 2 k,
  one-le-pow k 2,
  ap (λ (t : ℕ). high * t) (pow-suc 2 k),
  bit_and_low (high * 2 ^ suc k + low) (2 ^ suc k - 1),
  bit_and_field k high (low / 2) (omega (arith, pow-suc 2 k)),
)

pub bit_and_mask : (k a : ℕ) → bit_and a (2 ^ k - 1) ≡ a % 2 ^ k
bit_and_mask k a = ground (arith, one-le-pow k 2, bit_and_field k (a / 2 ^ k) (a % 2 ^ k))

-- A field of `k` bits under a number shifted by `k` is joined to it by addition.
pub bit_or_field : (k hi lo : ℕ) → lo < 2 ^ k → bit_or (hi * 2 ^ k) lo ≡ hi * 2 ^ k + lo
bit_or_field zero hi lo h = ground (arith, bit_or_zero hi hi)
bit_or_field (suc k) hi lo h = ground (
  arith,
  pow-suc 2 k,
  ap (λ (t : ℕ). hi * t) (pow-suc 2 k),
  bit_or_low (hi * 2 ^ suc k) lo,
  bit_or_field k hi (lo / 2) (omega arith),
)

-- The exclusive or keeps a width, and undoes itself.
pub bit_xor-lt : (k a b : ℕ) → a < 2 ^ k → b < 2 ^ k → bit_xor a b < 2 ^ k
bit_xor-lt zero zero b ha hb = omega (arith, bit_xor-bitwise 0 b)
bit_xor-lt zero (suc a) b ha hb = absurd (omega arith)
bit_xor-lt (suc k) a b ha hb = omega (
  arith,
  pow-suc 2 k,
  bit_xor_low a b,
  bit_xor-lt k (a / 2) (b / 2) (omega (arith, pow-suc 2 k)) (omega (arith, pow-suc 2 k)),
)

pub bit_xor_half : (a b : ℕ) → bit_xor a b / 2 ≡ bit_xor (a / 2) (b / 2)
bit_xor_half a b = omega (arith, bit_xor_low a b)

cancel_low :
    (a b : ℕ) → bit_xor (bit_xor (a / 2) (b / 2)) (b / 2) ≡ a / 2 → bit_xor (bit_xor a b) b ≡ a
cancel_low a b h = omega (
  arith,
  bit_xor_low a b,
  bit_xor_low (bit_xor a b) b,
  ap (λ (t : ℕ). bit_xor t (b / 2)) (bit_xor_half a b),
)

bit_xor_cancel_below : (n a b : ℕ) → a ≤ n → b ≤ n → bit_xor (bit_xor a b) b ≡ a
bit_xor_cancel_below n zero zero p q = refl
bit_xor_cancel_below zero zero (suc b) p q = absurd (omega arith)
bit_xor_cancel_below zero (suc a) b p q = absurd (omega arith)
bit_xor_cancel_below (suc n) a b p q =
    cancel_low a b (bit_xor_cancel_below n (a / 2) (b / 2) (omega arith) (omega arith))

pub bit_xor_cancel : (a b : ℕ) → bit_xor (bit_xor a b) b ≡ a
bit_xor_cancel a b = bit_xor_cancel_below (a + b) a b (omega arith) (omega arith)

-- With a top bit on one side only, the exclusive or has it.
pub bit_xor_top : (k a b : ℕ) → a < 2 ^ k → 2 ^ k ≤ b → 2 ^ k ≤ bit_xor a b
bit_xor_top zero zero b p q = omega (arith, bit_xor-bitwise 0 b)
bit_xor_top zero (suc a) b p q = absurd (omega arith)
bit_xor_top (suc k) a b p q = omega (
  arith,
  pow-suc 2 k,
  bit_xor_low a b,
  bit_xor_top k (a / 2) (b / 2) (omega (arith, pow-suc 2 k)) (omega (arith, pow-suc 2 k)),
)

-- The lowest bit, as the code tests it.
pub bit_and_one : (a : ℕ) → bit_and a 1 ≡ a % 2
bit_and_one a = bit_and_mask 1 a

bit_xor_comm_below : (n a b : ℕ) → a ≤ n → b ≤ n → bit_xor a b ≡ bit_xor b a
bit_xor_comm_below n zero zero p q = refl
bit_xor_comm_below zero zero (suc b) p q = absurd (omega arith)
bit_xor_comm_below zero (suc a) b p q = absurd (omega arith)
bit_xor_comm_below (suc n) a b p q = omega (
  arith,
  bit_xor_low a b,
  bit_xor_low b a,
  bit_xor_comm_below n (a / 2) (b / 2) (omega arith) (omega arith),
)

pub bit_xor_comm : (a b : ℕ) → bit_xor a b ≡ bit_xor b a
bit_xor_comm a b = bit_xor_comm_below (a + b) a b (omega arith) (omega arith)

-- One bit alone tells the numbers below it from those that have it on top.
pub bit_and_below : (k n : ℕ) → n < 2 ^ k → bit_and n (2 ^ k) ≡ 0
bit_and_below zero zero h = refl
bit_and_below zero (suc n) h = absurd (omega arith)
bit_and_below (suc k) n h = ground (
  arith,
  pow-suc 2 k,
  bit_and_low n (2 ^ suc k),
  bit_and_below k (n / 2) (omega (arith, pow-suc 2 k)),
  ap (λ (t : ℕ). bit_and (n / 2) t) (half_power k),
)
  where
    half_power : (k : ℕ) → 2 ^ suc k / 2 ≡ 2 ^ k
    half_power k = omega (arith, pow-suc 2 k)

pub bit_and_above : (k n : ℕ) → n < 2 ^ k → bit_and (2 ^ k + n) (2 ^ k) ≡ 2 ^ k
bit_and_above zero zero h = refl
bit_and_above zero (suc n) h = absurd (omega arith)
bit_and_above (suc k) n h = ground (
  arith,
  pow-suc 2 k,
  bit_and_low (2 ^ suc k + n) (2 ^ suc k),
  bit_and_above k (n / 2) (omega (arith, pow-suc 2 k)),
  ap (λ (t : ℕ). bit_and ((2 ^ suc k + n) / 2) t) (half_power k),
  ap (λ (t : ℕ). bit_and t (2 ^ k)) (half_sum k n),
)
  where
    half_power : (k : ℕ) → 2 ^ suc k / 2 ≡ 2 ^ k
    half_power k = omega (arith, pow-suc 2 k)

    half_sum : (k n : ℕ) → (2 ^ suc k + n) / 2 ≡ 2 ^ k + n / 2
    half_sum k n = omega (arith, pow-suc 2 k)
