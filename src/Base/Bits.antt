-- ===== src/Base/Bits.antt =====
-- Bit operations as arithmetic, at every width: `|` of disjoint fields, and single bits of `&`, `|`.
use Prim.Native.Nat.{
  ℕ, zero, suc, ◌+◌, ◌-◌, ◌*◌, ◌/◌, ◌%◌, ◌^◌, ◌≤◌, ◌<◌, min, max, bit_and, bit_or, digits,
  bit_and-bitwise, bit_or-bitwise,
}
use mathlib.Core.Path.{◌≡◌, refl, sym, ap, ap₂, ◌∙◌}
use native.Mathlib.Nat.{pow-suc, mod-eq-sub-mul-div, mul-div-le, div-div-eq-div-mul}
use native.Mathlib.Decide.{ℕ_discrete as dec_eq}
use mathlib.Core.Bool.{◌&&◌}
use esp_csi_rs.Base.{◌==◌}
use native.Mathlib.Omega.{arith}

-- Fuel beyond the first number does not change a digit recursion.
module _ (unit : ℕ → ℕ) (combine : ℕ → ℕ → ℕ) where
  enough_fuel :
      (n m a b : ℕ) → a ≤ n → a ≤ m → digits unit combine n a b ≡ digits unit combine m a b
  enough_fuel zero m (suc a) b h k = absurd (omega arith)
  enough_fuel n zero (suc a) b h k = absurd (omega arith)
  enough_fuel (suc n) (suc m) (suc a) b h k =
      ap (λ d. d * 2 + combine (suc a % 2) (b % 2))
        (enough_fuel n m (suc a / 2) (b / 2) (omega arith) (omega arith))
  enough_fuel zero zero zero b h k = refl
  enough_fuel zero (suc m) zero b h k = refl
  enough_fuel (suc n) zero zero b h k = refl
  enough_fuel (suc n) (suc m) zero b h k = refl

-- The lowest digit of `|` and of `&`.
bit_or_low : (a b : ℕ) → bit_or a b ≡ bit_or (a / 2) (b / 2) * 2 + max (a % 2) (b % 2)
bit_or_low zero b = omega (arith, bit_or-bitwise 0 b, bit_or-bitwise 0 (b / 2))
bit_or_low (suc a) b = omega (
  arith,
  bit_or-bitwise (suc a) b,
  bit_or-bitwise (suc a / 2) (b / 2),
  enough_fuel (λ y. y) max a (suc a / 2) (suc a / 2) (b / 2) (omega arith) (omega arith),
)

bit_and_low : (a b : ℕ) → bit_and a b ≡ bit_and (a / 2) (b / 2) * 2 + min (a % 2) (b % 2)
bit_and_low zero b = omega (arith, bit_and-bitwise 0 b, bit_and-bitwise 0 (b / 2))
bit_and_low (suc a) b = omega (
  arith,
  bit_and-bitwise (suc a) b,
  bit_and-bitwise (suc a / 2) (b / 2),
  enough_fuel (λ y. 0) min a (suc a / 2) (suc a / 2) (b / 2) (omega arith) (omega arith),
)

bit_or-zero : (n a : ℕ) → a ≤ n → bit_or a 0 ≡ a
bit_or-zero zero a h = let e : a ≡ 0 = omega arith in rw e
bit_or-zero (suc n) a h = omega (arith, bit_or_low a 0, bit_or-zero n (a / 2) (omega arith))

bit_and-zero : (n a : ℕ) → a ≤ n → bit_and a 0 ≡ 0
bit_and-zero zero a h = let e : a ≡ 0 = omega arith in rw e
bit_and-zero (suc n) a h = omega (arith, bit_and_low a 0, bit_and-zero n (a / 2) (omega arith))

double_shift : (q k : ℕ) → q * 2 ^ suc k ≡ 2 * (q * 2 ^ k)
double_shift q k = omega (arith, ap (λ (t : ℕ). q * t) (pow-suc 2 k))

-- `(q << k) | r` is a sum where `r` has `k` bits.
pub bit_or_shifted : (k q r : ℕ) → r < 2 ^ k → bit_or (q * 2 ^ k) r ≡ q * 2 ^ k + r
bit_or_shifted zero q r h =
    let r0 : r ≡ 0 = omega arith in
    let q1 : q * 1 ≡ q = omega arith in rw (r0, q1) (bit_or-zero q q (omega arith) ∙ omega arith)
bit_or_shifted (suc k) q r h = ground (
  arith,
  bit_or_low (q * 2 ^ suc k) r,
  double_shift q k,
  bit_or_shifted k q (r / 2) (omega (arith, pow-suc 2 k)),
)

half_shift : (k a : ℕ) → a / 2 ^ suc k ≡ a / 2 / 2 ^ k
half_shift k a = sym (div-div-eq-div-mul a 2 (2 ^ k) ∙ ap (λ t. a / t) (omega (arith, pow-suc 2 k)))

-- Bit `k` of a number.
abbrev pub bit_of : ℕ → ℕ → ℕ
bit_of k a = a / 2 ^ k % 2

pub bit_of-bit_or : (k a b : ℕ) → bit_of k (bit_or a b) ≡ max (bit_of k a) (bit_of k b)
bit_of-bit_or zero a b = omega (arith, bit_or_low a b)
bit_of-bit_or (suc k) a b =
    let low : bit_or a b / 2 ≡ bit_or (a / 2) (b / 2) = omega (arith, bit_or_low a b) in
    rw (half_shift k (bit_or a b), half_shift k a, half_shift k b, low)
      (bit_of-bit_or k (a / 2) (b / 2))

-- `a & (1 << k)`.
pub bit_and-pow : (k a : ℕ) → bit_and a (2 ^ k) ≡ bit_of k a * 2 ^ k
bit_and-pow zero a = omega (arith, bit_and_low a 1, bit_and-zero (a / 2) (a / 2) (omega arith))
bit_and-pow (suc k) a =
    let half : 2 ^ suc k / 2 ≡ 2 ^ k = omega (arith, pow-suc 2 k) in
    let even : 2 ^ suc k % 2 ≡ 0 = omega (arith, pow-suc 2 k) in
    omega (
      arith,
      bit_and_low a (2 ^ suc k),
      ap (bit_and (a / 2)) half,
      bit_and-pow k (a / 2),
      ap (λ t. t % 2 * 2 ^ suc k) (half_shift k a),
      double_shift (bit_of k (a / 2)) k,
    )

pub zero-bit_and : (m : ℕ) → bit_and 0 m ≡ 0
zero-bit_and m = bit_and-bitwise 0 m

zero-bit_or : (b : ℕ) → bit_or 0 b ≡ b
zero-bit_or b = bit_or-bitwise 0 b

and_or_fuel :
    (n a b m : ℕ) → a ≤ n → b ≤ n → bit_and (bit_or a b) m ≡ bit_or (bit_and a m) (bit_and b m)
and_or_fuel zero a b m h k =
    let a0 : a ≡ 0 = omega arith in
    let b0 : b ≡ 0 = omega arith in
    rw (a0, b0) (zero-bit_and m ∙ sym (ap₂ bit_or (zero-bit_and m) (zero-bit_and m)))
and_or_fuel (suc n) a b m h k =
    let half : bit_or a b / 2 ≡ bit_or (a / 2) (b / 2) = omega (arith, bit_or_low a b) in
    let half_a : bit_and a m / 2 ≡ bit_and (a / 2) (m / 2) = omega (arith, bit_and_low a m) in
    let half_b : bit_and b m / 2 ≡ bit_and (b / 2) (m / 2) = omega (arith, bit_and_low b m) in
    omega (
      arith,
      bit_or_low a b,
      bit_and_low a m,
      bit_and_low b m,
      bit_and_low (bit_or a b) m,
      bit_or_low (bit_and a m) (bit_and b m),
      ap (λ t. bit_and t (m / 2)) half,
      ap₂ bit_or half_a half_b,
      and_or_fuel n (a / 2) (b / 2) (m / 2) (omega arith) (omega arith),
    )

-- `&` distributes over `|`.
pub bit_and-bit_or : (a b m : ℕ) → bit_and (bit_or a b) m ≡ bit_or (bit_and a m) (bit_and b m)
bit_and-bit_or a b m = and_or_fuel (a + b) a b m (omega arith) (omega arith)

or_zero_fuel : (n a b : ℕ) → a ≤ n → bit_or a b ≡ 0 → (a ≡ 0) × (b ≡ 0)
or_zero_fuel zero a b h e =
    let a0 : a ≡ 0 = omega arith in (a0, omega (arith, ap (λ t. bit_or t b) a0, zero-bit_or b))
or_zero_fuel (suc n) a b h e =
    let low : bit_or (a / 2) (b / 2) ≡ 0 = omega (arith, bit_or_low a b) in
    omega (arith, bit_or_low a b, or_zero_fuel n (a / 2) (b / 2) (omega arith) low)

-- `|` is 0 only of zeros.
pub bit_or-eq_zero : (a b : ℕ) → (bit_or a b == 0) ≡ ((a == 0) && (b == 0))
bit_or-eq_zero a b = elim (dec_eq (bit_or a b) 0) [
  | yes e ↦ ground (arith, or_zero_fuel a a b (omega arith) e)
  | no ne ↦ ground (arith, zero-bit_or 0, both_zero)
]
  where
    both_zero : (a ≡ 0) → (b ≡ 0) → bit_or a b ≡ 0
    both_zero p q = rw (p, q)

pow_positive : (k : ℕ) → 1 ≤ 2 ^ k
pow_positive zero = omega arith
pow_positive (suc k) = omega (arith, pow-suc 2 k, pow_positive k)

mod_double : (k a : ℕ) → a % 2 ^ suc k ≡ a / 2 % 2 ^ k * 2 + a % 2
mod_double k a =
    let m : ℕ = 2 ^ k in
    let q : ℕ = a / 2 / m in
    let shift : 2 ^ suc k * q ≡ 2 * (m * q) = omega (arith, ap (λ (t : ℕ). t * q) (pow-suc 2 k)) in
    let whole : a % 2 ^ suc k ≡ a - 2 ^ suc k * q =
      mod-eq-sub-mul-div a (2 ^ suc k) ∙ ap (λ t. a - 2 ^ suc k * t) (half_shift k a) in
    let part : a / 2 % m ≡ a / 2 - m * q = mod-eq-sub-mul-div (a / 2) m in
    let le : m * q ≤ a / 2 = mul-div-le (a / 2) m in whole ∙ omega (arith, shift, part, le)

-- Masking the low `k` bits is the remainder.
pub bit_and-mask : (k a : ℕ) → bit_and a (2 ^ k - 1) ≡ a % 2 ^ k
bit_and-mask zero a = omega (arith, bit_and-zero a a (omega arith))
bit_and-mask (suc k) a =
    let positive : 1 ≤ 2 ^ k = pow_positive k in
    let half' : (2 ^ suc k - 1) / 2 ≡ 2 ^ k - 1 = omega (arith, pow-suc 2 k) in
    let odd : (2 ^ suc k - 1) % 2 ≡ 1 = omega (arith, pow-suc 2 k) in
    let low : bit_and (a / 2) ((2 ^ suc k - 1) / 2) ≡ a / 2 % 2 ^ k =
      rw half' (bit_and-mask k (a / 2)) in
    omega (arith, bit_and_low a (2 ^ suc k - 1), low, odd, mod_double k a)

or_comm_fuel : (n a b : ℕ) → a ≤ n → b ≤ n → bit_or a b ≡ bit_or b a
or_comm_fuel zero a b h k =
    let a0 : a ≡ 0 = omega arith in let b0 : b ≡ 0 = omega arith in rw (a0, b0) refl
or_comm_fuel (suc n) a b h k = omega (
  arith,
  bit_or_low a b,
  bit_or_low b a,
  or_comm_fuel n (a / 2) (b / 2) (omega arith) (omega arith),
)

-- `r | (q << k)` is a sum where `r` has `k` bits.
pub bit_or_above : (k q r : ℕ) → r < 2 ^ k → bit_or r (q * 2 ^ k) ≡ r + q * 2 ^ k
bit_or_above k q r h =
    or_comm_fuel (r + q * 2 ^ k) r (q * 2 ^ k) (omega arith) (omega arith)
    ∙ (bit_or_shifted k q r h ∙ omega arith)
