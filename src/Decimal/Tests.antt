-- ===== src/Decimal/Tests.antt =====
-- Examples on the digits.
use esp_csi_rs.Base.{ℕ, ◌≡◌, refl, some, List, [], ◌∷◌, arith}
use esp_csi_rs.Decimal.{pad6_digits, u32_digits}
use esp_csi_rs.Decimal.Digits.{IsDecimal, u32_digits_lem}

largest :
    u32_digits 4_294_967_295
    ≡ some (b'4' ∷ b'2' ∷ b'9' ∷ b'4' ∷ b'9' ∷ b'6' ∷ b'7' ∷ b'2' ∷ b'9' ∷ b'5' ∷ [])
unfolding u32_digits
largest = refl

microseconds : pad6_digits 420 ≡ b'0' ∷ b'0' ∷ b'0' ∷ b'4' ∷ b'2' ∷ b'0' ∷ []
unfolding pad6_digits
microseconds = refl

u32_digits_lem_example :
    (s : List ℕ) × (u32_digits 4_294_967_295 ≡ some s) × IsDecimal 10 4_294_967_295 s
u32_digits_lem_example = u32_digits_lem 10 4_294_967_295 (omega arith) (omega arith) (omega arith)
