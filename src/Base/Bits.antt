-- ===== src/Base/Bits.antt =====
-- Masks and shifted disjunctions of words as arithmetic, at every width.
use Prim.Native.Nat.{
  ℕ, zero, suc, ◌+◌, ◌*◌, ◌/◌, ◌%◌, ◌^◌, ◌≤◌, ◌<◌, min, max, bit_and, bit_or, digits,
  bit_and-bitwise, bit_or-bitwise,
}
use mathlib.Core.Path.{◌≡◌, refl, sym, ap, ◌∙◌}
use native.Mathlib.Omega.{arith}
use native.Mathlib.Nat.{pow-suc}

-- Any count of digits that covers the first number gives the same result.
digits_enough :
    (rest : ℕ → ℕ) (join : ℕ → ℕ → ℕ) (n m x y : ℕ)
    → x ≤ n
    → x ≤ m
    → digits rest join n x y ≡ digits rest join m x y
digits_enough rest join n m zero y hn hm = no_digits n ∙ sym (no_digits m)
  where
    no_digits : (k : ℕ) → digits rest join k zero y ≡ rest y
    no_digits zero = refl
    no_digits (suc k) = refl
digits_enough rest join zero m (suc x) y hn hm = absurd (omega arith)
digits_enough rest join (suc n) zero (suc x) y hn hm = absurd (omega arith)
digits_enough rest join (suc n) (suc m) (suc x) y hn hm =
    omega (arith, digits_enough rest join n m (suc x / 2) (y / 2) (omega arith) (omega arith))

pub zero-bit_or : (y : ℕ) → bit_or 0 y ≡ y
zero-bit_or = bit_or-bitwise 0

-- The lowest digit of each operation, and the digits above it.
bit_and_step : (x y : ℕ) → bit_and x y ≡ bit_and (x / 2) (y / 2) * 2 + min (x % 2) (y % 2)
bit_and_step zero y =
    let none_set = bit_and-bitwise 0 in omega (arith, none_set y, none_set (y / 2))
bit_and_step (suc x) y =
    let enough = digits_enough (λ z. zero) min x (suc x / 2) (suc x / 2) (y / 2) in
    let whole = bit_and-bitwise (suc x) y in
    omega (arith, whole, bit_and-bitwise (suc x / 2) (y / 2), enough (omega arith) (omega arith))

bit_or_step : (x y : ℕ) → bit_or x y ≡ bit_or (x / 2) (y / 2) * 2 + max (x % 2) (y % 2)
bit_or_step zero y = omega (arith, zero-bit_or y, zero-bit_or (y / 2))
bit_or_step (suc x) y =
    let enough = digits_enough (λ z. z) max x (suc x / 2) (suc x / 2) (y / 2) in
    let whole = bit_or-bitwise (suc x) y in
    omega (arith, whole, bit_or-bitwise (suc x / 2) (y / 2), enough (omega arith) (omega arith))

bit_and-nothing : (bound x : ℕ) → x ≤ bound → bit_and x 0 ≡ 0
bit_and-nothing bound zero le = refl
bit_and-nothing zero (suc x) le = absurd (omega arith)
bit_and-nothing (suc bound) (suc x) le =
    let higher = bit_and-nothing bound (suc x / 2) (omega arith) in
    omega (arith, bit_and_step (suc x) 0, higher)

bit_and_lowest : (x : ℕ) → bit_and x 1 ≡ x % 2
bit_and_lowest x =
    let higher = bit_and-nothing x (x / 2) (omega arith) in omega (arith, bit_and_step x 1, higher)

bit_and_fifteen : (a : ℕ) → bit_and a 15 ≡ a % 16
bit_and_fifteen a = omega (
  arith,
  bit_and_step a 15,
  bit_and_step (a / 2) 7,
  bit_and_step (a / 2 / 2) 3,
  bit_and_lowest (a / 2 / 2 / 2),
)

-- `x & 0xff`.
pub bit_and-ff : (a : ℕ) → bit_and a 0xff ≡ a % 256
bit_and-ff a = omega (
  arith,
  bit_and_step a 255,
  bit_and_step (a / 2) 127,
  bit_and_step (a / 2 / 2) 63,
  bit_and_step (a / 2 / 2 / 2) 31,
  bit_and_fifteen (a / 2 / 2 / 2 / 2),
)

-- `x | (y << k)` is a sum when x has at most k digits.
pub bit_or-shift : (k x y : ℕ) → x < 2 ^ k → bit_or x (y * 2 ^ k) ≡ x + y * 2 ^ k
bit_or-shift zero x y h =
    let e : x ≡ 0 = omega arith in rw e (zero-bit_or (y * 2 ^ 0) ∙ omega arith)
bit_or-shift (suc k) x y h =
    let p : 2 ^ suc k ≡ 2 * 2 ^ k = omega (arith, pow-suc 2 k) in
    let e : y * 2 ^ suc k ≡ 2 * (y * 2 ^ k) = omega (arith, ap (λ (t : ℕ). y * t) p) in
    let q : y * 2 ^ suc k / 2 ≡ y * 2 ^ k = omega (arith, e) in
    omega (
      arith,
      e,
      bit_or_step x (y * 2 ^ suc k),
      ap (λ (t : ℕ). bit_or (x / 2) t) q,
      bit_or-shift k (x / 2) y (omega (arith, p)),
    )

bit_or-nothing : (bound x : ℕ) → x ≤ bound → bit_or x 0 ≡ x
bit_or-nothing bound zero le = refl
bit_or-nothing zero (suc x) le = absurd (omega arith)
bit_or-nothing (suc bound) (suc x) le =
    let higher = bit_or-nothing bound (suc x / 2) (omega arith) in
    omega (arith, bit_or_step (suc x) 0, higher)

-- `(y << k) | x`.
pub shift-bit_or : (k x y : ℕ) → x < 2 ^ k → bit_or (y * 2 ^ k) x ≡ y * 2 ^ k + x
shift-bit_or zero x y h =
    let e : x ≡ 0 = omega arith in
    rw e (bit_or-nothing (y * 2 ^ 0) (y * 2 ^ 0) (omega arith) ∙ omega arith)
shift-bit_or (suc k) x y h =
    let p : 2 ^ suc k ≡ 2 * 2 ^ k = omega (arith, pow-suc 2 k) in
    let e : y * 2 ^ suc k ≡ 2 * (y * 2 ^ k) = omega (arith, ap (λ (t : ℕ). y * t) p) in
    let q : y * 2 ^ suc k / 2 ≡ y * 2 ^ k = omega (arith, e) in
    omega (
      arith,
      e,
      bit_or_step (y * 2 ^ suc k) x,
      ap (λ (t : ℕ). bit_or t (x / 2)) q,
      shift-bit_or k (x / 2) y (omega (arith, p)),
    )
