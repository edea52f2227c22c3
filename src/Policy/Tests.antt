-- ===== src/Policy/Tests.antt =====
-- tests
use esp_csi_rs.Base.{
  ℕ, zero, suc, ◌+◌, ◌*◌, ◌/◌, ◌^◌, ◌≤◌, ◌<◌, ◌≡◌, refl, not, List, [], ◌∷◌, ◌==◌, length, take,
  replicate, All, arith,
}
use esp_csi_rs.Base.Int.{ℤ, pos, negsuc, IsI8}
use esp_csi_rs.Policy.{ThresholdState, new_threshold, profile, sum, score, compare_loop, amps}
use esp_csi_rs.Policy.Hold.{Scored, decide_all, reported, decide_all_lem}
use esp_csi_rs.Policy.Bounds.{peak, IsReady, profile_in_bounds, score-le, score_fits}
use esp_csi_rs.Policy.Score.{score_gain}

-- A crossing, a measurement inside its window, and one after it.
abbrev three_scores : List Scored
three_scores =
    record { value = 900; at = 1_000 }
    ∷ record { value = 10; at = 50_000 }
    ∷ record { value = 10; at = 101_001 }
    ∷ []

decide_all_example :
    decide_all new_threshold 500 100 three_scores ≡ reported 500 100 [] three_scores
decide_all_example =
    decide_all_lem 500 100 0 three_scores (omega arith, (omega arith, (omega arith, tt)))

abbrev quiet : List ℤ
quiet = pos 3 ∷ negsuc 3 ∷ pos 0 ∷ pos 0 ∷ []

abbrev loud : List ℤ
loud = pos 6 ∷ negsuc 7 ∷ pos 0 ∷ pos 0 ∷ []

quiet-IsI8 : All IsI8 quiet
quiet-IsI8 = (omega arith, (omega arith, (omega arith, (omega arith, tt))))

zeros_in_range : (n : ℕ) → All (λ b. b ≤ peak) (replicate n 0)
zeros_in_range zero = tt
zeros_in_range (suc n) = (omega arith, zeros_in_range n)

ready : IsReady new_threshold
ready = record { slots = refl; range = zeros_in_range 32 }

-- The state after `quiet`.
abbrev settled : ThresholdState
settled = record { base = 112 ∷ replicate 31 0; buf_len = 4; hold_until_us = 0 }

settled-IsReady : IsReady settled
settled-IsReady = record { slots = refl; range = (omega arith, zeros_in_range 31) }

-- The same amplitude on the other subcarrier.
abbrev moved : List ℤ
moved = pos 0 ∷ pos 0 ∷ pos 3 ∷ negsuc 3 ∷ []

moved-IsI8 : All IsI8 moved
moved-IsI8 = (omega arith, (omega arith, (omega arith, (omega arith, tt))))

score_fits_example :
    (sum (profile moved) < 2 ^ 18)
    × (sum (take (length (profile moved)) settled.base) < 2 ^ 18)
    × ((compare_loop
          (not (length moved == settled.buf_len))
          (sum (profile moved))
          (sum (take (length (profile moved)) settled.base))
          0
          (profile moved)
          settled.base).0
        < 2 ^ 36)
    × ((compare_loop
            (not (length moved == settled.buf_len))
            (sum (profile moved))
            (sum (take (length (profile moved)) settled.base))
            0
            (profile moved)
            settled.base).0
          * 32767
        < 2 ^ 64)
score_fits_example = score_fits settled moved moved-IsI8 settled-IsReady

score-le_example : (score new_threshold quiet).1 ≤ 65534
score-le_example = score-le new_threshold quiet

score_gain_example : (score (score new_threshold quiet).0 loud).1 ≡ 0
unfolding profile amps
score_gain_example = score_gain new_threshold quiet loud 2 refl (λ e. omega arith) refl refl

profile_in_bounds_example : 2 * (1 * (length quiet / 2 / length (profile quiet))) + 1 < length quiet
unfolding profile amps
profile_in_bounds_example = profile_in_bounds quiet 1 (omega arith)
