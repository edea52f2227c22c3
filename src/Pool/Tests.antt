-- ===== src/Pool/Tests.antt =====
-- tests
use esp_csi_rs.Base.{◌≡◌, refl, List, [], ◌∷◌, ◌++◌, take, replicate, arith}
use esp_csi_rs.Samples.{board, peer}
use esp_csi_rs.Pool.{Arrival, arrive, new_pool, receive, pool_rcv_cb}
use esp_csi_rs.Pool.Laws.{heard, receive_all, receive_all-arrive}

-- A frame from the board, one without a payload, and seventeen from the peer.
abbrev burst : List Arrival
burst = (board, 7 ∷ 8 ∷ []) ∷ (board, []) ∷ replicate 17 (peer, 1 ∷ 2 ∷ 3 ∷ [])

receive_all-arrive_example :
    receive_all 16 (arrive burst new_pool) ≡ take 16 (receive_all 16 new_pool ++ heard burst)
receive_all-arrive_example = receive_all-arrive burst new_pool refl (omega arith)

burst_runs :
    receive_all 16 (arrive burst new_pool)
    ≡ (board, 7 ∷ 8 ∷ []) ∷ replicate 15 (peer, 1 ∷ 2 ∷ 3 ∷ [])
unfolding receive_all arrive receive pool_rcv_cb
burst_runs = refl
