-- ===== src/Line/Bracketed.antt =====
-- The last column of the ESP32-CSI-Tool line: the samples in brackets.
use esp_csi_rs.Base.{
  ℕ, ◌+◌, ◌*◌, ◌≤◌, ◌≡◌, ◌⊎◌, inr, refl, ap, List, [], ◌∷◌, ◌++◌, length, length-append, All,
  All-append, arith,
}
use esp_csi_rs.Base.Text.{read_decimal}
use esp_csi_rs.Base.Int.{IsI8, ℤ}
use esp_csi_rs.Decimal.{i8_digits, short_digits}
use esp_csi_rs.Decimal.Digits.{IsDigit, read_signed}
use esp_csi_rs.Line.Array.{i8_digits-short}
use esp_csi_rs.Line.Split.{NoComma}

-- The samples, each with a space behind it.
abbrev pub spaced : List ℤ → List ℕ
spaced [] = []
spaced (v ∷ vs) = i8_digits v ++ (b' ' ∷ spaced vs)

-- Column 26, with the end of the line.
abbrev pub sample_column : List ℤ → List ℕ
sample_column vs = b'[' ∷ (spaced vs ++ (b']' ∷ 10 ∷ []))

-- The same column from the texts of the samples.
abbrev pub spaced_texts : List (List ℕ) → List ℕ
spaced_texts [] = []
spaced_texts (s ∷ ss) = s ++ (b' ' ∷ spaced_texts ss)

abbrev pub bracketed : List (List ℕ) → List ℕ
bracketed texts = b'[' ∷ (spaced_texts texts ++ (b']' ∷ 10 ∷ []))

-- Each text is that of its sample: it has a digit or a sign and digits, and reads back.
abbrev pub ReadBack : List ℤ → List (List ℕ) → Type 0
ReadBack [] [] = Unit {0}
ReadBack (v ∷ vs) (s ∷ ss) =
    (read_signed s ≡ v) × All (λ c. IsDigit c ⊎ (c ≡ b'-')) s × (1 ≤ length s) × ReadBack vs ss
ReadBack _ _ = ⊥

short_digits_reads :
    (n : ℕ)
    → n ≤ 128
    → (read_decimal (short_digits n) ≡ n)
      × (read_signed (short_digits n) ≡ ℤ.pos n)
      × All (λ c. IsDigit c ⊎ (c ≡ b'-')) (short_digits n)
      × (1 ≤ length (short_digits n))
short_digits_reads n h = ground arith

i8_digits_reads :
    (v : ℤ)
    → IsI8 v
    → (read_signed (i8_digits v) ≡ v)
      × All (λ c. IsDigit c ⊎ (c ≡ b'-')) (i8_digits v)
      × (1 ≤ length (i8_digits v))
i8_digits_reads (ℤ.pos n) h = let r = short_digits_reads n (omega arith) in (r.1, r.2, r.3)
i8_digits_reads (ℤ.negsuc n) h =
    let r = short_digits_reads (n + 1) (omega arith) in
    (ap ℤ.negsuc (omega (arith, r.0)), (inr refl, r.2), omega arith)

spaced_texts_read :
    (vs : List ℤ)
    → All IsI8 vs
    → (texts : List (List ℕ)) × (spaced vs ≡ spaced_texts texts) × ReadBack vs texts
spaced_texts_read [] h = ([], refl, tt)
spaced_texts_read (v ∷ vs) h =
    let (texts, e, back) = spaced_texts_read vs h.1 in
    let (reads, digits, some_digit) = i8_digits_reads v h.0 in
    (i8_digits v ∷ texts, ap (λ s. i8_digits v ++ (b' ' ∷ s)) e, (reads, digits, some_digit, back))

pub sample_texts_read :
    (vs : List ℤ)
    → All IsI8 vs
    → (texts : List (List ℕ)) × (sample_column vs ≡ bracketed texts) × ReadBack vs texts
sample_texts_read vs h =
    let (texts, e, back) = spaced_texts_read vs h in
    (texts, ap (λ s. b'[' ∷ (s ++ (b']' ∷ 10 ∷ []))) e, back)

short_digits-NoComma : (n : ℕ) → NoComma (short_digits n)
short_digits-NoComma n = ground arith

i8_digits-NoComma : (z : ℤ) → NoComma (i8_digits z)
i8_digits-NoComma (ℤ.pos n) = short_digits-NoComma n
i8_digits-NoComma (ℤ.negsuc n) = (omega arith, short_digits-NoComma (n + 1))

pub spaced-NoComma : (vs : List ℤ) → NoComma (spaced vs)
spaced-NoComma [] = tt
spaced-NoComma (v ∷ vs) =
    All-append _ (i8_digits v) (b' ' ∷ spaced vs) (i8_digits-NoComma v)
      (omega arith, spaced-NoComma vs)

pub spaced-short : (vs : List ℤ) → length (spaced vs) ≤ length vs * 5
spaced-short [] = omega arith
spaced-short (v ∷ vs) =
    omega
      (arith, length-append (i8_digits v) (b' ' ∷ spaced vs), i8_digits-short v, spaced-short vs)
