-- ===== src/Policy.antt =====
-- src/lib/csi/policy.rs: the state behind threshold-based reporting and decimation.
-- A `u16`, `u32` or `u64` is a natural number. The sums and products of `score` are written without
-- a wrap; `saturating_mul` keeps its limit.
pub mod Decimate
pub mod Hold
pub mod Bounds
pub mod Score
mod Tests
use esp_csi_rs.Base.{
  ℕ, zero, suc, ◌+◌, ◌-◌, ◌*◌, ◌/◌, ◌^◌, min, max, Bool, true, false, not, ◌||◌, List, [], ◌∷◌,
  ◌==◌, leb, ltb, if◌then◌else◌, length, get_or, replicate, take,
}
use esp_csi_rs.Base.Int.{ℤ, pos, unsigned_abs}

-- `SAMPLED`.
abbrev pub sampled : ℕ
sampled = 32

pub record ThresholdState : Type 0 where
  pub base : List ℕ
  pub buf_len : ℕ
  pub hold_until_us : ℕ

-- `ThresholdState::new`, which `reset` also writes.
abbrev pub new_threshold : ThresholdState
new_threshold = record { base = replicate sampled 0; buf_len = 0; hold_until_us = 0 }

-- The amplitude of the pair at index `i`, shifted left by `FRAC`.
abbrev pub amplitude : List ℤ → ℕ → ℕ
amplitude buf i =
    (unsigned_abs (get_or buf i (pos 0)) + unsigned_abs (get_or buf (i + 1) (pos 0))) * 16

-- The first loop of `score`: the `n` amplitudes from the `k`th on.
unfoldable pub amps : List ℤ → ℕ → ℕ → ℕ → List ℕ
amps buf step k zero = []
amps buf step k (suc n) = amplitude buf (2 * (k * step)) ∷ amps buf step (k + 1) n

unfoldable pub sum : List ℕ → ℕ
sum [] = 0
sum (x ∷ xs) = x + sum xs

-- `abs_diff`.
abbrev pub abs_diff : ℕ → ℕ → ℕ
abs_diff a b = if leb b a then a - b else b - a

-- `b += (a - b) / 16` in unsigned arithmetic.
unfoldable pub ewma : ℕ → ℕ → ℕ
ewma a b = if leb b a then b + (a - b) / 16 else b - (b - a) / 16

-- The second loop of `score` over the amplitudes and the average beside them.
unfoldable pub compare_loop : Bool → ℕ → ℕ → ℕ → List ℕ → List ℕ → ℕ × List ℕ
compare_loop restart a_tot b_tot dist [] base = (dist, base)
compare_loop restart a_tot b_tot dist (a ∷ as') [] = (dist, [])
compare_loop restart a_tot b_tot dist (a ∷ as') (b ∷ base) =
    let dist' = if restart then dist else dist + abs_diff (a * b_tot) (b * a_tot) in
    let (d, rest) = compare_loop restart a_tot b_tot dist' as' base in
    (d, (if restart then a else ewma a b) ∷ rest)

-- `n` of `score` for a number of pairs.
abbrev pub sample_count : ℕ → ℕ
sample_count pairs = min pairs sampled

-- The amplitudes that `score` reads from a buffer.
unfoldable pub profile : List ℤ → List ℕ
profile buf =
    let pairs = length buf / 2 in amps buf (pairs / sample_count pairs) 0 (sample_count pairs)

-- The last lines of `score`: half the L1 distance of the normalised profiles, 0 to 65535.
unfoldable pub scale_score : ℕ → ℕ → ℕ → ℕ
scale_score dist a_tot b_tot = min (min (dist * (65535 / 2)) (2 ^ 64 - 1) / (a_tot * b_tot)) 65535

unfoldable pub score : ThresholdState → List ℤ → ThresholdState × ℕ
score s buf =
    if length buf / 2 == 0
    then (s, 0)
    else let restart = not (length buf == s.buf_len) in
      let a_tot = sum (profile buf) in
      let b_tot = sum (take (length (profile buf)) s.base) in
      let (dist, base') = compare_loop restart a_tot b_tot 0 (profile buf) s.base in
      (
        record s { base = base'; buf_len = length buf },
        if restart || a_tot == 0 || b_tot == 0 then 0 else scale_score dist a_tot b_tot,
      )

unfoldable pub decide : ThresholdState → ℕ → ℕ → ℕ → ℕ → ThresholdState × Bool
decide s score' level hold_ms now_us =
    if leb level score'
    then (record s { hold_until_us = now_us + hold_ms * 1000 }, true)
    else (s, ltb now_us s.hold_until_us)

-- `Decimator` is its one field, `count`.
pub record Decimator : Type 0 where
  pub count : ℕ

abbrev pub new_decimator : Decimator
new_decimator = record { count = 0 }

-- `tick`: the new state, and whether the measurement is kept. The `u16` count does not wrap, since
-- it stays below `n.max(1)`.
unfoldable pub tick : Decimator → ℕ → Decimator × Bool
tick d n = (record { count = if leb (max n 1) (d.count + 1) then 0 else d.count + 1 }, d.count == 0)
