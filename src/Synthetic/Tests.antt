-- ===== src/Synthetic/Tests.antt =====
-- Examples on the synthetic source.
use esp_csi_rs.Base.{◌≡◌, refl, none, some, true, false, List, [], ◌∷◌, arith}
use esp_csi_rs.Base.Int.{ℤ}
use esp_csi_rs.Base.I8.{minus_nat, result_i8}
use esp_csi_rs.Mac.{Mac}
use esp_csi_rs.Wire.{Stimulus}
use esp_csi_rs.Samples.{board, peer}
use esp_csi_rs.Synthetic.{synthetic_rssi, n_sc, new_synthetic, rand, report_loop}
use esp_csi_rs.Synthetic.After.{frame_at}
use esp_csi_rs.Synthetic.Schedule.{frame_at-new_synthetic, stamp}

abbrev pair : List Mac
pair = board ∷ peer ∷ []

rand_test : rand 1 ≡ 270_369
unfolding rand
rand_test = refl

n_sc_test : n_sc (new_synthetic 7 pair 4 10_000 1) ≡ 62
unfolding n_sc
n_sc_test = refl

-- The 31st responder overflows.
rssi_checked_test : synthetic_rssi true 30 ≡ none
unfolding synthetic_rssi result_i8 minus_nat
rssi_checked_test = refl

rssi_unchecked_test : synthetic_rssi false 30 ≡ some (ℤ.pos 126)
unfolding synthetic_rssi result_i8 minus_nat
rssi_unchecked_test = refl

rssi_29_test : synthetic_rssi true 29 ≡ some (ℤ.negsuc 126)
unfolding synthetic_rssi result_i8 minus_nat
rssi_29_test = refl

short_report_test : (report_loop 3 0 1 2 1).0 ≡ 129 ∷ 136 ∷ 140 ∷ []
unfolding report_loop rand
short_report_test = refl

frame_at-new_synthetic_example :
    stamp (frame_at true 5 (new_synthetic 7 pair 4 10_000 1))
    ≡ some (Stimulus.controlled 7 2 peer, 20_050)
frame_at-new_synthetic_example =
    frame_at-new_synthetic true 7 pair 4 10_000 1 5 peer refl (omega arith)
