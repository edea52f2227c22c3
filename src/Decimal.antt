-- ===== src/Decimal.antt =====
-- The byte writers of src/lib/logging/logging.rs. A buffer of `room` bytes is the bytes written so
-- far; `none` is the panic of an index out of bounds.
pub mod Digits
mod Tests
use esp_csi_rs.Base.{
  ℕ, zero, suc, ◌+◌, ◌-◌, ◌/◌, ◌%◌, ◌≤◌, Option, none, some, List, [], ◌∷◌, ◌++◌, leb, ◌==◌,
  if◌then◌else◌, length, replicate, get_or,
}
use esp_csi_rs.Base.Text.{codes}
use esp_csi_rs.Base.Int.{ℤ}

unfoldable pub write_slice : ℕ → List ℕ → List ℕ → Option (List ℕ)
write_slice room s out = if leb (length out + length s) room then some (out ++ s) else none

-- `n` as the three branches of `write_i8_sep` write it, for at most three digits.
abbrev pub short_digits : ℕ → List ℕ
short_digits n =
    if leb 100 n
    then (b'0' + n / 100) ∷ (b'0' + n / 10 % 10) ∷ (b'0' + n % 10) ∷ []
    else if leb 10 n
    then (b'0' + n / 10) ∷ (b'0' + n % 10) ∷ []
    else (b'0' + n) ∷ []

abbrev pub i8_digits : ℤ → List ℕ
i8_digits (ℤ.pos n) = short_digits n
i8_digits (ℤ.negsuc n) = b'-' ∷ short_digits (n + 1)

unfoldable pub write_i8_sep : ℕ → ℤ → ℕ → List ℕ → Option (List ℕ)
unfolding write_slice
write_i8_sep room val sep out = write_slice room (i8_digits val ++ (sep ∷ [])) out

-- The loop of `write_u32` over the cells left in `tmp`, behind the digits already there.
unfoldable pub digit_loop : ℕ → ℕ → List ℕ → Option (List ℕ)
digit_loop zero n out = if n == 0 then some out else none
digit_loop (suc cells) n out =
    let rest = digit_loop cells (n / 10) ((b'0' + n % 10) ∷ out) in
    if n == 0 then some out else rest

unfoldable pub u32_digits : ℕ → Option (List ℕ)
unfolding digit_loop
u32_digits n = if n == 0 then some (b'0' ∷ []) else digit_loop 10 n []

-- `write_i32`: the sign goes out first.
abbrev pub signed_digits : Option (List ℕ) → Option (List ℕ)
signed_digits none = none
signed_digits (some s) = some (b'-' ∷ s)

unfoldable pub i32_digits : ℤ → Option (List ℕ)
unfolding u32_digits
i32_digits (ℤ.pos n) = u32_digits n
i32_digits (ℤ.negsuc n) = signed_digits (u32_digits (n + 1))

-- The loop of `write_u32_pad6`: it fills the lowest of six `0`s, and stops early.
unfoldable pub pad_loop : ℕ → ℕ → List ℕ → List ℕ
pad_loop zero n out = out
pad_loop (suc cells) n out =
    let rest = pad_loop cells (n / 10) ((b'0' + n % 10) ∷ out) in
    if n == 0 then replicate (suc cells) b'0' ++ out else rest

unfoldable pub pad6_digits : ℕ → List ℕ
unfolding pad_loop
pad6_digits n = pad_loop 6 n []

-- The table `HEX`.
abbrev pub hex_digit : ℕ → ℕ
hex_digit n = get_or (codes "0123456789ABCDEF") n 0

unfoldable pub hex_digits : ℕ → List ℕ
hex_digits n = hex_digit (n / 16 % 16) ∷ hex_digit (n % 16) ∷ []
