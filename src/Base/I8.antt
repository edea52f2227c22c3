-- ===== src/Base/I8.antt =====
-- Rust's `i8`: the arithmetic that its operators do, and the cast into it. `checks` is the build's
-- `overflow-checks`: with them an overflow panics (`none`), without them it wraps.
use Prim.Native.Nat.{ℕ, ◌+◌, ◌-◌, ◌*◌, ◌%◌}
use mathlib.Core.Path.{◌≡◌, refl}
use mathlib.Core.Logic.{inl, inr}
use mathlib.Core.Bool.{Bool, false}
use mathlib.Core.Option.{Option, none, some}
use esp_csi_rs.Base.Tests.{ltb, leb, Bool-cases, if◌then◌else◌}
use esp_csi_rs.Base.Int.{ℤ, pos_part, neg_part}

-- `a - b`.
unfoldable pub minus_nat : ℕ → ℕ → ℤ
minus_nat a b = if leb b a then ℤ.pos (a - b) else ℤ.negsuc (b - a - 1)

infix 65 ◌-ℤ◌
abbrev pub ◌-ℤ◌ : ℤ → ℤ → ℤ
z -ℤ w = minus_nat (pos_part z + neg_part w) (neg_part z + pos_part w)

infix 70 ◌*ℤ◌
abbrev pub ◌*ℤ◌ : ℤ → ℤ → ℤ
z *ℤ w =
    minus_nat (pos_part z * pos_part w + neg_part z * neg_part w)
      (pos_part z * neg_part w + neg_part z * pos_part w)

-- The value of eight bits.
abbrev pub of_bits : ℕ → ℤ
of_bits b = if ltb b 128 then ℤ.pos b else ℤ.negsuc (255 - b)

-- `n as i8`.
abbrev pub as_i8 : ℕ → ℤ
as_i8 n = of_bits (n % 256)

abbrev pub wrap_i8 : ℤ → ℤ
wrap_i8 (ℤ.pos n) = of_bits (n % 256)
wrap_i8 (ℤ.negsuc n) = of_bits (255 - n % 256)

abbrev pub fits_i8 : ℤ → Bool
fits_i8 (ℤ.pos n) = ltb n 128
fits_i8 (ℤ.negsuc n) = ltb n 128

-- An operator whose exact result is `z`.
unfoldable pub result_i8 : Bool → ℤ → Option ℤ
result_i8 checks z = if fits_i8 z then some z else (if checks then none else some (wrap_i8 z))

-- An operand that may have panicked.
infixl 5 ◌>>=◌
abbrev pub ◌>>=◌ : Option ℤ → (ℤ → Option ℤ) → Option ℤ
none >>= f = none
some z >>= f = f z

-- Without checks there is always a result.
pub result_i8-unchecked : (z : ℤ) → (w : ℤ) × (result_i8 false z ≡ some w)
unfolding result_i8
result_i8-unchecked z = elim (Bool-cases (fits_i8 z)) [
  | inl e ↦ (z, rw e refl)
  | inr e ↦ (wrap_i8 z, rw e refl)
]
