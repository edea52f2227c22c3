-- ===== src/Decimal/Digits.antt =====
-- What the digits read as, how many they are, and that the cells of `tmp` are enough.
use esp_csi_rs.Base.{
  ℕ, zero, suc, ◌+◌, ◌-◌, ◌*◌, ◌/◌, ◌%◌, ◌^◌, ◌≤◌, ◌<◌, ◌≡◌, refl, ◌∙◌, sym, ap, ◌⊎◌, inl, inr,
  false, some, List, [], ◌∷◌, ◌++◌, ◌==◌, if◌then◌else◌, if-false, Bool-cases, length, replicate,
  All, arith,
}
use native.Mathlib.Nat.{pow-suc}
use native.Mathlib.Decide.{dec_lt}
use esp_csi_rs.Base.Text.{read_from, read_decimal}
use esp_csi_rs.Base.Int.{ℤ, IsI8, unsigned_abs}
use esp_csi_rs.Decimal.{
  digit_loop, u32_digits, i32_digits, signed_digits, short_digits, i8_digits, pad_loop, pad6_digits,
}

abbrev pub IsDigit : ℕ → Type 0
IsDigit c = (b'0' ≤ c) × (c ≤ b'9')

-- `s` are digits that read as `n` where `out` follows, and at most `k` more than `out`.
pub record Prints (k n : ℕ) (out s : List ℕ) : Type 0 where
  pub reads : read_from 0 s ≡ read_from n out
  pub digits : All IsDigit s
  pub some_digit : length out ≤ length s
  pub short : length s ≤ length out + k

Prints-done : (k n : ℕ) (out : List ℕ) → n ≡ 0 → All IsDigit out → Prints k n out out
Prints-done k n out n0 all = record {
  reads = rw n0 refl;
  digits = all;
  some_digit = omega arith;
  short = omega arith;
}

digit_loop-zero : (cells n : ℕ) (out : List ℕ) → n ≡ 0 → digit_loop cells n out ≡ some out
unfolding digit_loop
digit_loop-zero zero n out n0 = rw n0 refl
digit_loop-zero (suc cells) n out n0 = rw n0 refl

digit_loop-suc :
    (cells n : ℕ) (out : List ℕ)
    → (n == 0) ≡ false
    → digit_loop (suc cells) n out ≡ digit_loop cells (n / 10) ((b'0' + n % 10) ∷ out)
unfolding digit_loop
digit_loop-suc cells n out ne = if-false _ _ ne

digit_loop_lem :
    (cells k n : ℕ) (out : List ℕ)
    → k ≤ cells
    → n < 10 ^ k
    → All IsDigit out
    → (s : List ℕ) × (digit_loop cells n out ≡ some s) × Prints k n out s
digit_loop_lem cells zero n out enough fits all =
    let n0 : n ≡ 0 = omega arith in
    (out, digit_loop-zero cells n out n0, Prints-done zero n out n0 all)
digit_loop_lem zero (suc k) n out enough fits all = absurd (omega arith)
digit_loop_lem (suc cells) (suc k) n out enough fits all = elim (Bool-cases (n == 0)) [
  | inl e ↦
      let n0 : n ≡ 0 = ground arith in
      (out, digit_loop-zero (suc cells) n out n0, Prints-done (suc k) n out n0 all)
  | inr ne ↦
      let (s, made, p) =
        digit_loop_lem cells k (n / 10) ((b'0' + n % 10) ∷ out) (omega arith)
          (omega (arith, pow-suc 10 k)) ((omega arith, omega arith), all) in
      let whole : n / 10 * 10 + (b'0' + n % 10 - b'0') ≡ n = omega arith in
      (
        s,
        digit_loop-suc cells n out ne ∙ made,
        record {
          reads = p.reads ∙ rw whole refl;
          digits = p.digits;
          some_digit = omega (arith, p.some_digit);
          short = omega (arith, p.short);
        },
      )
]

-- `s` is the decimal of `n`, in at most `k` digits.
pub record IsDecimal (k n : ℕ) (s : List ℕ) : Type 0 where
  pub reads : read_decimal s ≡ n
  pub digits : All IsDigit s
  pub some_digit : 1 ≤ length s
  pub short : length s ≤ k

u32_digits-nonzero :
    (k n : ℕ)
    → suc k ≤ 10
    → n < 10 ^ suc k
    → (n == 0) ≡ false
    → (s : List ℕ) × (u32_digits n ≡ some s) × IsDecimal (suc k) n s
unfolding u32_digits
u32_digits-nonzero k n enough fits ne =
    let (s, made, p) =
      digit_loop_lem 9 k (n / 10) ((b'0' + n % 10) ∷ []) (omega arith) (omega (arith, pow-suc 10 k))
        ((omega arith, omega arith), tt) in
    let whole : n / 10 * 10 + (b'0' + n % 10 - b'0') ≡ n = omega arith in
    (
      s,
      if-false _ _ ne ∙ digit_loop-suc 9 n [] ne ∙ made,
      record {
        reads = p.reads ∙ whole;
        digits = p.digits;
        some_digit = omega (arith, p.some_digit);
        short = omega (arith, p.short);
      },
    )

-- For a number below 10^k, with k from 1 to 10, the digit loop ends within its ten cells and
-- gives at least one and at most k decimal digits, which read back as the number.
pub u32_digits_lem :
    (k n : ℕ)
    → 1 ≤ k
    → k ≤ 10
    → n < 10 ^ k
    → (s : List ℕ) × (u32_digits n ≡ some s) × IsDecimal k n s
unfolding u32_digits
u32_digits_lem zero n one enough fits = absurd (omega arith)
u32_digits_lem (suc k) n one enough fits = elim (Bool-cases (n == 0)) [
  | inl e ↦
      let n0 : n ≡ 0 = ground arith in
      (
        b'0' ∷ [],
        rw n0 refl,
        record {
          reads = sym n0;
          digits = ((omega arith, omega arith), tt);
          some_digit = omega arith;
          short = omega arith;
        },
      )
  | inr ne ↦ u32_digits-nonzero k n enough fits ne
]

-- The decimal of an `i32`: a sign and the decimal of the distance from 0.
abbrev pub read_signed : List ℕ → ℤ
read_signed [] = ℤ.pos 0
read_signed (c ∷ s) =
    if c == b'-' then ℤ.negsuc (read_decimal s - 1) else ℤ.pos (read_decimal (c ∷ s))

ne_zero : (n : ℕ) → 0 < n → (n == 0) ≡ false
ne_zero n h = ground arith

-- The loop ends with the last digit that is not 0.
digit_loop-last :
    (cells n : ℕ) (out : List ℕ)
    → 0 < n
    → n < 10
    → digit_loop (suc cells) n out ≡ some ((b'0' + n) ∷ out)
digit_loop-last cells n out pos small =
    let digit : n % 10 ≡ n = omega arith in
    digit_loop-suc cells n out (ne_zero n pos)
    ∙ (digit_loop-zero cells (n / 10) ((b'0' + n % 10) ∷ out) (omega arith) ∙ rw digit refl)

digit_loop-short : (n : ℕ) → 0 < n → n < 1000 → digit_loop 10 n [] ≡ some (short_digits n)
digit_loop-short n pos h = elim (dec_lt n 10) [
  | yes one ↦ digit_loop-last 9 n [] pos one ∙ ap some (ground arith)
  | no more ↦ digit_loop-suc 9 n [] (ne_zero n pos) ∙ elim (dec_lt n 100) [
    | yes two ↦
        digit_loop-last 8 (n / 10) ((b'0' + n % 10) ∷ []) (omega arith) (omega arith)
        ∙ ap some (ground arith)
    | no three ↦
        digit_loop-suc 8 (n / 10) _ (ne_zero (n / 10) (omega arith))
        ∙ (digit_loop-last 7 (n / 10 / 10) _ (omega arith) (omega arith) ∙ ap some (ground arith))
  ]
]

-- The three branches of `write_i8_sep` agree with the general loop.
short_digits-u32_digits : (n : ℕ) → n < 1000 → u32_digits n ≡ some (short_digits n)
unfolding u32_digits
short_digits-u32_digits n h = elim (dec_lt 0 n) [
  | yes pos ↦ if-false _ _ (ne_zero n pos) ∙ digit_loop-short n pos h
  | no zero_n ↦ let n0 : n ≡ 0 = omega arith in rw n0 refl
]

pub i8_digits-i32_digits : (z : ℤ) → IsI8 z → i32_digits z ≡ some (i8_digits z)
unfolding i32_digits
i8_digits-i32_digits (ℤ.pos n) h = short_digits-u32_digits n (omega arith)
i8_digits-i32_digits (ℤ.negsuc n) h =
    ap signed_digits (short_digits-u32_digits (n + 1) (omega arith))

read_signed-digits :
    (s : List ℕ) (n : ℕ)
    → All IsDigit s
    → 1 ≤ length s
    → read_decimal s ≡ n
    → read_signed s ≡ ℤ.pos n
read_signed-digits [] n all some_digit reads = absurd (omega arith)
read_signed-digits (c ∷ s) n all some_digit reads =
    if-false {b = c == b'-'} _ _ (ground (arith, all.0)) ∙ ap ℤ.pos reads

All-left : (s : List ℕ) → All IsDigit s → All (λ (c : ℕ). IsDigit c ⊎ (c ≡ b'-')) s
All-left [] all = tt
All-left (c ∷ s) all = (inl all.0, All-left s all.1)

zeros_reads : (k : ℕ) (out : List ℕ) → read_from 0 (replicate k b'0' ++ out) ≡ read_from 0 out
zeros_reads zero out = refl
zeros_reads (suc k) out = zeros_reads k out

zeros_digits : (k : ℕ) (out : List ℕ) → All IsDigit out → All IsDigit (replicate k b'0' ++ out)
zeros_digits zero out all = all
zeros_digits (suc k) out all = ((omega arith, omega arith), zeros_digits k out all)

zeros_length : (k : ℕ) (out : List ℕ) → length (replicate k b'0' ++ out) ≡ k + length out
zeros_length zero out = omega arith
zeros_length (suc k) out = omega (arith, zeros_length k out)

-- The sign and the digits of an `i32`.
pub i32_digits_lem :
    (k : ℕ) (z : ℤ)
    → 1 ≤ k
    → k ≤ 10
    → unsigned_abs z < 10 ^ k
    → (s : List ℕ) × (i32_digits z ≡ some s)
      × (read_signed s ≡ z)
      × All (λ c. IsDigit c ⊎ (c ≡ b'-')) s
      × (length s ≤ suc k)
unfolding i32_digits
i32_digits_lem k (ℤ.pos n) one enough fits =
    let (s, made, d) = u32_digits_lem k n one enough fits in
    (
      s,
      made,
      read_signed-digits s n d.digits d.some_digit d.reads,
      All-left s d.digits,
      omega (arith, d.short),
    )
i32_digits_lem k (ℤ.negsuc n) one enough fits =
    let (s, made, d) = u32_digits_lem k (n + 1) one enough (omega arith) in
    let less : read_decimal s - 1 ≡ n = omega (arith, d.reads) in
    (
      b'-' ∷ s,
      ap signed_digits made,
      ap ℤ.negsuc less,
      (inr refl, All-left s d.digits),
      omega (arith, d.short),
    )

-- The six digits of a number of microseconds.
pad_loop_lem :
    (cells n : ℕ) (out : List ℕ)
    → n < 10 ^ cells
    → All IsDigit out
    → (read_from 0 (pad_loop cells n out) ≡ read_from n out)
      × All IsDigit (pad_loop cells n out)
      × (length (pad_loop cells n out) ≡ cells + length out)
unfolding pad_loop
pad_loop_lem zero n out fits all = let n0 : n ≡ 0 = omega arith in (rw n0 refl, all, omega arith)
pad_loop_lem (suc cells) n out fits all = elim (Bool-cases (n == 0)) [
  | inl e ↦
      let n0 : n ≡ 0 = ground arith in
      rw n0 (
        zeros_reads (suc cells) out,
        zeros_digits (suc cells) out all,
        zeros_length (suc cells) out,
      )
  | inr ne ↦
      let rest =
        pad_loop_lem cells (n / 10) ((b'0' + n % 10) ∷ out) (omega (arith, pow-suc 10 cells))
          ((omega arith, omega arith), all) in
      let whole : n / 10 * 10 + (b'0' + n % 10 - b'0') ≡ n = omega arith in
      rw ne (rest.0 ∙ rw whole refl, rest.1, rest.2 ∙ omega arith)
]

pub pad6_digits_lem :
    (n : ℕ)
    → n < 1_000_000
    → (read_decimal (pad6_digits n) ≡ n)
      × All IsDigit (pad6_digits n)
      × (length (pad6_digits n) ≡ 6)
unfolding pad6_digits
pad6_digits_lem n fits = pad_loop_lem 6 n [] fits tt
