-- ===== src/Policy/Bounds.antt =====
-- The range of the arithmetic of `ThresholdState::score`, and of its result.
use esp_csi_rs.Base.{
  ℕ, zero, suc, ◌+◌, ◌-◌, ◌*◌, ◌/◌, ◌^◌, ◌≤◌, ◌<◌, ◌≡◌, refl, ap, ◌∙◌, min, Bool, true, false, not,
  inl, inr, List, [], ◌∷◌, ◌==◌, length, get_or, take, length-take, All, Bool-cases, arith,
}
use esp_csi_rs.Base.Int.{ℤ, pos, IsI8, unsigned_abs, unsigned_abs-le}
use native.Mathlib.Nat.{div-le_of_le-mul, le-div_iff_mul-le, div-mul-le_self}
use esp_csi_rs.Policy.{
  ThresholdState, amps, sum, abs_diff, ewma, compare_loop, sample_count, profile, scale_score,
  score, sampled,
}

-- The most an amplitude can be: (128 + 128) << 4.
abbrev pub peak : ℕ
peak = 4096

-- The invariant of the running average.
pub record IsReady (s : ThresholdState) : Type 0 where
  pub slots : length s.base ≡ sampled
  pub range : All (λ b. b ≤ peak) s.base

pub length-amps : (buf : List ℤ) (step k n : ℕ) → length (amps buf step k n) ≡ n
unfolding amps
length-amps buf step k zero = refl
length-amps buf step k (suc n) = ap suc (length-amps buf step (k + 1) n)

pub length-profile : (buf : List ℤ) → length (profile buf) ≡ sample_count (length buf / 2)
unfolding profile
length-profile buf =
    length-amps buf (length buf / 2 / sample_count (length buf / 2)) 0
      (sample_count (length buf / 2))

unsigned_abs-get_or-le :
    (buf : List ℤ) (i : ℕ) → All IsI8 buf → unsigned_abs (get_or buf i (pos 0)) ≤ 128
unsigned_abs-get_or-le [] i h = omega arith
unsigned_abs-get_or-le (x ∷ xs) zero h = unsigned_abs-le x h.0
unsigned_abs-get_or-le (x ∷ xs) (suc i) h = unsigned_abs-get_or-le xs i h.1

amps-le : (buf : List ℤ) (step k n : ℕ) → All IsI8 buf → All (λ a. a ≤ peak) (amps buf step k n)
unfolding amps
amps-le buf step k zero h = tt
amps-le buf step k (suc n) h = (
  omega (
    arith,
    unsigned_abs-get_or-le buf (2 * (k * step)) h,
    unsigned_abs-get_or-le buf (2 * (k * step) + 1) h,
  ),
  amps-le buf step (k + 1) n h,
)

profile-le : (buf : List ℤ) → All IsI8 buf → All (λ a. a ≤ peak) (profile buf)
unfolding profile
profile-le buf h = amps-le buf _ 0 _ h

sum-le : (xs : List ℕ) → All (λ a. a ≤ peak) xs → sum xs ≤ peak * length xs
unfolding sum
sum-le [] h = omega arith
sum-le (x ∷ xs) h = omega (arith, h.0, sum-le xs h.1)

All-take : (n : ℕ) (xs : List ℕ) → All (λ a. a ≤ peak) xs → All (λ a. a ≤ peak) (take n xs)
All-take zero xs h = tt
All-take (suc n) [] h = tt
All-take (suc n) (x ∷ xs) h = (h.0, All-take n xs h.1)

-- The two normalised profiles are at most 2 apart.
pub compare_loop-le :
    (restart : Bool) (a_tot b_tot dist : ℕ) (xs base : List ℕ)
    → (compare_loop restart a_tot b_tot dist xs base).0
      ≤ dist + (sum xs * b_tot + sum (take (length xs) base) * a_tot)
unfolding compare_loop sum
compare_loop-le restart a_tot b_tot dist [] base = omega arith
compare_loop-le restart a_tot b_tot dist (a ∷ xs) [] = omega arith
compare_loop-le true a_tot b_tot dist (a ∷ xs) (b ∷ base) =
    omega (arith, compare_loop-le true a_tot b_tot dist xs base)
compare_loop-le false a_tot b_tot dist (a ∷ xs) (b ∷ base) =
    ground
      (arith, compare_loop-le false a_tot b_tot (dist + abs_diff (a * b_tot) (b * a_tot)) xs base)

ewma-le : (a b m : ℕ) → a ≤ m → b ≤ m → ewma a b ≤ m
unfolding ewma
ewma-le a b m h k = ground arith

compare_loop-base :
    (restart : Bool) (a_tot b_tot dist : ℕ) (xs base : List ℕ)
    → All (λ a. a ≤ peak) xs
    → All (λ b. b ≤ peak) base
    → All (λ b. b ≤ peak) (compare_loop restart a_tot b_tot dist xs base).1
      × (length (compare_loop restart a_tot b_tot dist xs base).1 ≡ length base)
unfolding compare_loop
compare_loop-base restart a_tot b_tot dist [] base h k = (k, refl)
compare_loop-base restart a_tot b_tot dist (a ∷ xs) [] h k = (tt, refl)
compare_loop-base true a_tot b_tot dist (a ∷ xs) (b ∷ base) h k =
    let (range, size) = compare_loop-base true a_tot b_tot dist xs base h.1 k.1 in
    ((h.0, range), ap suc size)
compare_loop-base false a_tot b_tot dist (a ∷ xs) (b ∷ base) h k =
    let (range, size) =
      compare_loop-base false a_tot b_tot (dist + abs_diff (a * b_tot) (b * a_tot)) xs base h.1
        k.1 in
    ((ewma-le a b peak h.0 k.0, range), ap suc size)

-- On a buffer of `i8`s, `score` keeps the average ready: 32 slots, each a possible amplitude.
pub score-IsReady :
    (s : ThresholdState) (buf : List ℤ) → All IsI8 buf → IsReady s → IsReady (score s buf).0
unfolding score
score-IsReady s buf h r = elim (Bool-cases (length buf / 2 == 0)) [
  | inl empty ↦ rw (empty, score) r
  | inr some_pairs ↦
      let (range, size) =
        compare_loop-base (not (length buf == s.buf_len)) (sum (profile buf))
          (sum (take (length (profile buf)) s.base)) 0 (profile buf) s.base (profile-le buf h)
          r.range in
      rw (some_pairs, score) (record { slots = size ∙ r.slots; range = range })
]

strided :
    (k n q pairs : ℕ) → k < n → n ≤ pairs → 1 ≤ q → q * n ≤ pairs → 2 * (k * q) + 1 < 2 * pairs
strided k n q pairs h le one total =
    let last : (k + 1) * q ≤ n * q = grind arith in omega (arith, last)

-- The larger index that the first loop of `score` reads for a sample stays inside the buffer.
pub profile_in_bounds :
    (buf : List ℤ) (k : ℕ)
    → k < length (profile buf)
    → 2 * (k * (length buf / 2 / length (profile buf))) + 1 < length buf
profile_in_bounds buf k h =
    let pairs : ℕ = length buf / 2 in
    let n : ℕ = length (profile buf) in
    let le : n ≤ pairs = omega (arith, length-profile buf) in
    omega (
      arith,
      strided k n (pairs / n) pairs h le ((le-div_iff_mul-le (omega arith)).1 (omega arith))
          (div-mul-le_self pairs n),
    )

scale_score-le :
    (dist a_tot b_tot : ℕ) → dist ≤ 2 * (a_tot * b_tot) → scale_score dist a_tot b_tot ≤ 65534
unfolding scale_score
scale_score-le dist a_tot b_tot h = omega (
  arith,
  div-le_of_le-mul (a_tot * b_tot) {m = min (dist * 32767) (2 ^ 64 - 1)} {n = 65534} (omega arith),
)

-- Whatever the buffer and the state, a score is at most 65534.
pub score-le : (s : ThresholdState) (buf : List ℤ) → (score s buf).1 ≤ 65534
unfolding score
score-le s buf = elim (Bool-cases (length buf / 2 == 0)) [
  | inl empty ↦ rw (empty, score) (omega arith)
  | inr some_pairs ↦
      rw (some_pairs, score)
        (ground (
          arith,
          scale_score-le dist a_tot b_tot
              (omega (arith, compare_loop-le restart a_tot b_tot 0 (profile buf) s.base)),
        ))
]
  where
    restart : Bool
    restart = not (length buf == s.buf_len)

    a_tot : ℕ
    a_tot = sum (profile buf)

    b_tot : ℕ
    b_tot = sum (take (length (profile buf)) s.base)

    dist : ℕ
    dist = (compare_loop restart a_tot b_tot 0 (profile buf) s.base).0

pub product-le : (a b m : ℕ) → a ≤ m → b ≤ m → a * b ≤ m * m
product-le a b m h k = grind arith

pub sum-profile-le :
    (buf : List ℤ) → All IsI8 buf → sum (profile buf) ≤ peak * sample_count (length buf / 2)
sum-profile-le buf h = omega (arith, length-profile buf, sum-le (profile buf) (profile-le buf h))

pub totals-le :
    (s : ThresholdState) (buf : List ℤ)
    → All IsI8 buf
    → IsReady s
    → (sum (profile buf) ≤ 131072) × (sum (take (length (profile buf)) s.base) ≤ 131072)
totals-le s buf h r = (
  omega (arith, sum-profile-le buf h),
  omega (
    arith,
    length-profile buf,
    sum-le (take (length (profile buf)) s.base) (All-take (length (profile buf)) s.base r.range),
    length-take (length (profile buf)) s.base,
  ),
)

-- On a ready state and a buffer of `i8`s the totals stay below 2^18, the distance below 2^36 and
-- its product with 32767 below 2^64: no `u64` wraps and `saturating_mul` does not saturate.
pub score_fits :
    (s : ThresholdState) (buf : List ℤ)
    → All IsI8 buf
    → IsReady s
    → let a_tot = sum (profile buf) in
      let b_tot = sum (take (length (profile buf)) s.base) in
      let dist =
        (compare_loop (not (length buf == s.buf_len)) a_tot b_tot 0 (profile buf) s.base).0 in
      (a_tot < 2 ^ 18) × (b_tot < 2 ^ 18) × (dist < 2 ^ 36) × (dist * 32767 < 2 ^ 64)
score_fits s buf h r =
    let (a, b) = totals-le s buf h r in
    omega (
      arith,
      product-le _ _ 131072 a b,
      compare_loop-le (not (length buf == s.buf_len)) (sum (profile buf))
          (sum (take (length (profile buf)) s.base)) 0 (profile buf) s.base,
    )
