-- ===== src/Policy/Score.antt =====
-- What a score of `ThresholdState::score` means.
use esp_csi_rs.Base.{
  ℕ, zero, suc, ◌+◌, ◌-◌, ◌*◌, ◌/◌, ◌^◌, ◌≤◌, ◌<◌, ◌≡◌, ◌≢◌, ◌⊎◌, refl, sym, ap, ap₂, ◌∙◌, min,
  Bool, true, false, inl, inr, List, [], ◌∷◌, map, ◌==◌, if◌then◌else◌, length, replicate, take,
  All, Bool-cases, arith,
}
use esp_csi_rs.Base.Int.{ℤ, IsI8}
use native.Mathlib.Nat.{mul-div_cancel, zero-div}
use esp_csi_rs.Policy.{
  ThresholdState, sum, abs_diff, ewma, compare_loop, profile, scale_score, score, sampled,
}
use esp_csi_rs.Policy.Bounds.{IsReady, length-profile, totals-le, sum-profile-le, product-le}

-- A buffer of another length restarts the average: its profile becomes the average.
restart_profile :
    (a_tot b_tot dist : ℕ) (xs base : List ℕ)
    → length xs ≤ length base
    → take (length xs) (compare_loop true a_tot b_tot dist xs base).1 ≡ xs
unfolding compare_loop
restart_profile a_tot b_tot dist [] base h = refl
restart_profile a_tot b_tot dist (a ∷ xs) [] h = absurd (omega arith)
restart_profile a_tot b_tot dist (a ∷ xs) (b ∷ base) h =
    ap (λ l. a ∷ l) (restart_profile a_tot b_tot dist xs base (omega arith))

abs_diff_self : (a b : ℕ) → a ≡ b → abs_diff a b ≡ 0
abs_diff_self a b e = ground arith

ewma_self : (a : ℕ) → ewma a a ≡ a
unfolding ewma
ewma_self a = ground arith

-- A profile that is a multiple of the average is at no distance from it.
proportional :
    (c a_tot dist : ℕ) (xs base : List ℕ)
    → take (length xs) base ≡ xs
    → (compare_loop false (c * a_tot) a_tot dist (map (λ x. c * x) xs) base).0 ≡ dist
unfolding compare_loop
proportional c a_tot dist [] base e = refl
proportional c a_tot dist (x ∷ xs) [] e = refl
proportional c a_tot dist (x ∷ xs) (b ∷ base) e =
    let head : b ≡ x = cc in
    let rest : take (length xs) base ≡ xs = cc in
    let same : dist + abs_diff (c * x * a_tot) (b * (c * a_tot)) ≡ dist =
      rw head (omega (arith, abs_diff_self (c * x * a_tot) (x * (c * a_tot)) (grind arith))) in
    ap (λ d. (compare_loop false (c * a_tot) a_tot d (map (λ y. c * y) xs) base).0) same
    ∙ proportional c a_tot dist xs base rest

sum-map : (c : ℕ) (xs : List ℕ) → sum (map (λ x. c * x) xs) ≡ c * sum xs
unfolding sum
sum-map c [] = omega arith
sum-map c (x ∷ xs) = omega (arith, sum-map c xs)

length-map : (c : ℕ) (xs : List ℕ) → length (map (λ x. c * x) xs) ≡ length xs
length-map c [] = refl
length-map c (x ∷ xs) = ap suc (length-map c xs)

-- The average itself stays where it is.
unmoved :
    (a_tot dist : ℕ) (xs base : List ℕ)
    → take (length xs) base ≡ xs
    → compare_loop false a_tot a_tot dist xs base ≡ (dist, base)
unfolding compare_loop
unmoved a_tot dist [] base e = refl
unmoved a_tot dist (x ∷ xs) [] e = absurd (cc)
unmoved a_tot dist (x ∷ xs) (b ∷ base) e =
    let head : x ≡ b = cc in
    let rest : take (length xs) base ≡ xs = cc in
    let same : dist + abs_diff (x * a_tot) (b * a_tot) ≡ dist =
      omega (arith, abs_diff_self (x * a_tot) (b * a_tot) (ap (λ y. y * a_tot) head)) in
    let slot : ewma x b ≡ b = rw head (ewma_self b) in
    ap
      (λ d. (
        (compare_loop false a_tot a_tot d xs base).0,
        ewma x b ∷ (compare_loop false a_tot a_tot d xs base).1,
      ))
      same
    ∙ cc (slot, unmoved a_tot dist xs base rest)

-- The average that a buffer of a new length leaves behind: its own profile.
primed :
    (s : ThresholdState) (buf : List ℤ)
    → length s.base ≡ sampled
    → s.buf_len ≢ length buf
    → length buf / 2 ≢ 0
    → (take (length (profile buf)) (score s buf).0.base ≡ profile buf)
      × ((score s buf).0.buf_len ≡ length buf)
      × ((score s buf).1 ≡ 0)
unfolding score
primed s buf slots fresh pairs =
    let some_pairs : (length buf / 2 == 0) ≡ false = ground arith in
    let restart : (length buf == s.buf_len) ≡ false = ground arith in
    rw (some_pairs, restart, score)
      (
        restart_profile (sum (profile buf)) (sum (take (length (profile buf)) s.base)) 0
            (profile buf) s.base (omega (arith, length-profile buf)),
        refl,
        refl,
      )

scale_score-zero : (a_tot b_tot : ℕ) → scale_score 0 a_tot b_tot ≡ 0
unfolding scale_score
scale_score-zero a_tot b_tot = rw zero-div (omega arith)

either_zero : (t : Bool) (n : ℕ) → n ≡ 0 → (if t then 0 else n) ≡ 0
either_zero true n e = refl
either_zero false n e = e

score-empty :
    (s : ThresholdState) (buf : List ℤ) → (length buf / 2 == 0) ≡ true → score s buf ≡ (s, 0)
unfolding score
score-empty s buf empty = rw (empty, score)

gain_step :
    (t : ThresholdState) (buf : List ℤ) (c : ℕ) (xs : List ℕ)
    → take (length xs) t.base ≡ xs
    → t.buf_len ≡ length buf
    → profile buf ≡ map (λ x. c * x) xs
    → (score t buf).1 ≡ 0
unfolding score
gain_step t buf c xs base size gain = elim (Bool-cases (length buf / 2 == 0)) [
  | inl empty ↦ rw (empty, score)
  | inr some_pairs ↦
      let going : (length buf == t.buf_len) ≡ true = ground arith in
      let nothing : scale_score
            (compare_loop false (sum (profile buf)) (sum (take (length (profile buf)) t.base)) 0
              (profile buf) t.base).0
            (sum (profile buf)) (sum (take (length (profile buf)) t.base))
          ≡ 0 =
        rw (gain, length-map c xs, base, sum-map c xs, proportional c (sum xs) 0 xs t.base base)
          (scale_score-zero (c * sum xs) (sum xs)) in
      rw (some_pairs, going, nothing, score) (either_zero _ 0 refl)
]

-- On a state of 32 slots whose last buffer had another length: right after a buffer, one of the
-- same length whose amplitudes are any multiple of the first one's scores 0, so the receiver's
-- gain is not movement.
pub score_gain :
    (s : ThresholdState) (buf louder : List ℤ) (c : ℕ)
    → length s.base ≡ sampled
    → s.buf_len ≢ length buf
    → length louder ≡ length buf
    → profile louder ≡ map (λ x. c * x) (profile buf)
    → (score (score s buf).0 louder).1 ≡ 0
score_gain s buf louder c slots fresh same gain = elim (Bool-cases (length buf / 2 == 0)) [
  | inl empty ↦ ap (λ p. p.1) (score-empty (score s buf).0 louder (ground arith))
  | inr some_pairs ↦
      let (base, size, _) = primed s buf slots fresh (λ e. ground arith) in
      gain_step (score s buf).0 louder c (profile buf) base (size ∙ sym same) gain
]

-- Scores of one buffer after another.
unfoldable pub scores : ThresholdState → List (List ℤ) → List ℕ
scores s [] = []
scores s (buf ∷ bufs) = let (s', value) = score s buf in value ∷ scores s' bufs

settled :
    (s : ThresholdState) (buf : List ℤ)
    → take (length (profile buf)) s.base ≡ profile buf
    → s.buf_len ≡ length buf
    → score s buf ≡ (s, 0)
unfolding score
settled s buf base size = elim (Bool-cases (length buf / 2 == 0)) [
  | inl empty ↦ rw (empty, score)
  | inr some_pairs ↦
      let going : (length buf == s.buf_len) ≡ true = ground arith in
      rw (some_pairs, going, score)
        (rw (base, unmoved (sum (profile buf)) 0 (profile buf) s.base base, scale_score-zero)
          (ap₂ (λ n v. (record s { buf_len = n }, v)) (sym size) (either_zero _ 0 refl)))
]

scores_settled :
    (s : ThresholdState) (buf : List ℤ) (m : ℕ)
    → score s buf ≡ (s, 0)
    → scores s (replicate m buf) ≡ replicate m 0
unfolding scores
scores_settled s buf zero e = refl
scores_settled s buf (suc m) e = rw e (ap (λ l. 0 ∷ l) (scores_settled s buf m e))

-- On a state of 32 slots whose last buffer had another length, a channel that does not change
-- scores 0 for as long as the same buffer arrives.
scores_steady :
    (s : ThresholdState) (buf : List ℤ) (m : ℕ)
    → length s.base ≡ sampled
    → s.buf_len ≢ length buf
    → scores s (replicate m buf) ≡ replicate m 0
unfolding scores
scores_steady s buf zero slots fresh = refl
scores_steady s buf (suc m) slots fresh = elim (Bool-cases (length buf / 2 == 0)) [
  | inl empty ↦ scores_settled s buf (suc m) (score-empty s buf empty)
  | inr some_pairs ↦
      let (base, size, zero_score) = primed s buf slots fresh (λ e. ground arith) in
      let t : ThresholdState = (score s buf).0 in
      ap₂ ◌∷◌ zero_score (scores_settled t buf m (settled t buf base size))
]

-- Two profiles with no overlap: at each place one of them is 0.
abbrev pub IsDisjoint : List ℕ → List ℕ → Type 0
IsDisjoint [] base = Unit {0}
IsDisjoint (a ∷ xs) [] = Unit {0}
IsDisjoint (a ∷ xs) (b ∷ base) = ((a ≡ 0) ⊎ (b ≡ 0)) × IsDisjoint xs base

abs_diff_disjoint :
    (a b a_tot b_tot : ℕ)
    → (a ≡ 0) ⊎ (b ≡ 0)
    → abs_diff (a * b_tot) (b * a_tot) ≡ a * b_tot + b * a_tot
abs_diff_disjoint a b a_tot b_tot (inl e) = rw e (ground arith)
abs_diff_disjoint a b a_tot b_tot (inr e) = rw e (ground arith)

disjoint_dist :
    (a_tot b_tot dist : ℕ) (xs base : List ℕ)
    → IsDisjoint xs base
    → length xs ≤ length base
    → (compare_loop false a_tot b_tot dist xs base).0
      ≡ dist + (sum xs * b_tot + sum (take (length xs) base) * a_tot)
unfolding compare_loop sum
disjoint_dist a_tot b_tot dist [] base d h = omega arith
disjoint_dist a_tot b_tot dist (a ∷ xs) [] d h = absurd (omega arith)
disjoint_dist a_tot b_tot dist (a ∷ xs) (b ∷ base) d h = omega (
  arith,
  abs_diff_disjoint a b a_tot b_tot d.0,
  disjoint_dist a_tot b_tot (dist + abs_diff (a * b_tot) (b * a_tot)) xs base d.1 (omega arith),
)

scale_score_full : (a b : ℕ) → 0 < a * b → a * b ≤ 2 ^ 34 → scale_score (2 * (a * b)) a b ≡ 65534
unfolding scale_score
scale_score_full a b p q =
    let cancel : 65534 * (a * b) / (a * b) ≡ 65534 = mul-div_cancel 65534 p in
    let same : min (2 * (a * b) * (65535 / 2)) (2 ^ 64 - 1) ≡ 65534 * (a * b) = omega arith in
    rw same (omega (arith, cancel))

-- On a ready state, a buffer of `i8`s with the length of the last one, whose profile does not
-- overlap the average, neither of them summing to 0, scores 65534.
pub score_full_lem :
    (s : ThresholdState) (buf : List ℤ)
    → All IsI8 buf
    → IsReady s
    → s.buf_len ≡ length buf
    → IsDisjoint (profile buf) s.base
    → sum (profile buf) ≢ 0
    → sum (take (length (profile buf)) s.base) ≢ 0
    → (score s buf).1 ≡ 65534
unfolding score
score_full_lem s buf h r same d a0 b0 =
    let a : ℕ = sum (profile buf) in
    let b : ℕ = sum (take (length (profile buf)) s.base) in
    let (a_le, b_le) = totals-le s buf h r in
    let dist : (compare_loop false a b 0 (profile buf) s.base).0 ≡ 2 * (a * b) = omega (
      arith,
      disjoint_dist a b 0 (profile buf) s.base d (omega (arith, length-profile buf, r.slots)),
    ) in
    let some_pairs : (length buf / 2 == 0) ≡ false = ground (arith, sum-profile-le buf h) in
    let going : (length buf == s.buf_len) ≡ true = ground arith in
    let a_some : (sum (profile buf) == 0) ≡ false = ground arith in
    let b_some : (sum (take (length (profile buf)) s.base) == 0) ≡ false = ground arith in
    rw (some_pairs, going, a_some, b_some, dist, score)
      (scale_score_full a b (grind arith) (product-le a b 131072 a_le b_le))
