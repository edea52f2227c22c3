-- ===== src/Pacing/Tests.antt =====
-- tests
use esp_csi_rs.Base.{◌≤◌, ◌≡◌, refl, true, List, [], ◌∷◌, arith}
use esp_csi_rs.EspNow.{SendResult}
use esp_csi_rs.Pacing.{Pacing, hz_to_interval_us, new_pacing, pace, clamp_hz, floor_hz}
use esp_csi_rs.Pacing.Laws.{pace_all, pace_all-recovers, successes}

abbrev congested : List SendResult
congested = SendResult.sent ∷ SendResult.busy ∷ SendResult.busy ∷ SendResult.failed ∷ []

abbrev backed_off : Pacing
unfolding new_pacing
backed_off = pace_all congested (new_pacing 1000 true 5)

pace_all-recovers_example :
    ((floor_hz (clamp_hz 1000) ≤ backed_off.hz) × (backed_off.hz ≤ clamp_hz 1000))
    × (((pace_all (successes 32_000) backed_off).hz ≡ clamp_hz 1000)
        × ((pace_all (successes 32_000) backed_off).interval_us
            ≡ hz_to_interval_us (clamp_hz 1000)))
unfolding new_pacing
pace_all-recovers_example = pace_all-recovers 1000 5 32_000 congested (omega arith)

backed_off_runs : backed_off.hz ≡ 563
unfolding new_pacing pace
backed_off_runs = refl
