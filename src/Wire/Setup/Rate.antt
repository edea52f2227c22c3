-- ===== src/Wire/Setup/Rate.antt =====
-- The sounding rate of a periodicity.
use esp_csi_rs.Base.{ℕ, ◌*◌, ◌/◌, ◌≤◌, ◌<◌, ◌≡◌, arith}
use native.Mathlib.Nat.{le-div_iff_mul-le, div-mul-le_self}
use native.Mathlib.Decide.{dec_lt}
use esp_csi_rs.Wire.Setup.{StimulusParams, rate_hz}

div-antitone : (n p q : ℕ) → 0 < p → p ≤ q → n / q ≤ n / p
div-antitone n p q h le =
    let part : n / q * p ≤ n / q * q = grind arith in
    (le-div_iff_mul-le h).1 (omega (arith, part, div-mul-le_self n q))

-- The rate is a `u16` and at least 1, and a longer period never sounds faster.
pub rate_hz-antitone :
    (p q : StimulusParams)
    → p.periodicity_us ≤ q.periodicity_us
    → (1 ≤ rate_hz q) × (rate_hz q ≤ rate_hz p) × (rate_hz p ≤ 65535)
unfolding rate_hz
rate_hz-antitone p q le = (ground arith, slower, ground arith)
  where
    slower : rate_hz q ≤ rate_hz p
    slower = elim (dec_lt 0 p.periodicity_us) [
      | yes some_period ↦
          ground (arith, div-antitone 1_000_000 p.periodicity_us q.periodicity_us some_period le)
      | no never ↦ ground arith
    ]

-- From 16 microseconds to a second the rate is 1,000,000 divided by the period.
pub rate_hz_exact :
    (p : StimulusParams)
    → 16 ≤ p.periodicity_us
    → p.periodicity_us ≤ 1_000_000
    → rate_hz p ≡ 1_000_000 / p.periodicity_us
unfolding rate_hz
rate_hz_exact p lo hi = ground (
  arith,
  div-antitone 1_000_000 16 p.periodicity_us (omega arith) lo,
  div-antitone 1_000_000 p.periodicity_us 1_000_000 (omega arith) hi,
)
