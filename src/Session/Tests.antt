-- ===== src/Session/Tests.antt =====
-- tests
use esp_csi_rs.Base.{◌≡◌, true, false, [], ◌∷◌, arith}
use esp_csi_rs.Session.{boot, begin_run}
use esp_csi_rs.Session.Timestamp.{widen_all, widen_all-begin_run}
use esp_csi_rs.Samples.{board}

-- The second frame comes after a wrap, the third was received before it.
widen_all-begin_run_example :
    widen_all
      (4_294_967_000 ∷ 4_294_968_000 ∷ 4_294_967_200 ∷ [])
      (begin_run board 5 false true boot)
    ≡ 4_294_967_000 ∷ 4_294_968_000 ∷ 4_294_967_200 ∷ []
widen_all-begin_run_example =
    widen_all-begin_run board 5 false true boot 4_294_967_000 (4_294_968_000 ∷ 4_294_967_200 ∷ [])
      (omega arith)
      (omega arith, omega arith, omega arith, (omega arith, omega arith, omega arith, tt))
