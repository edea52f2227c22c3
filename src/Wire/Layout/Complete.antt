-- ===== src/Wire/Layout/Complete.antt =====
-- The metadata of the buffers that have each layout of the table.
use esp_csi_rs.Base.{ℕ, ◌≡◌, Bool, true, false, Option, none, some, arith}
use esp_csi_rs.Wire.{LayoutId}
use esp_csi_rs.Wire.Layout.{byte_len}
use esp_csi_rs.Wire.Layout.Classify.{checked, classic_id, classify_classic, classify_c5, c5_ht}

-- What the radio reports beside a buffer: the arguments of the two classifiers, less the length.
pub data Received : Type 0 where
  classic : (secondary sig_mode : ℕ) (forty stbc : Bool) → Received
  c5 : (bb_format secondary : ℕ) → Received

abbrev pub classify : Received → ℕ → LayoutId
classify (Received.classic secondary sig_mode forty stbc) len =
    classify_classic secondary sig_mode forty stbc len
classify (Received.c5 bb_format secondary) len = classify_c5 bb_format secondary len

-- The row heads of ESP-IDF's table, one for each layout.
abbrev pub row : LayoutId → Option Received
row LayoutId.unknown = none
row LayoutId.classic_none_non_ht = some (Received.classic 0 0 false false)
row LayoutId.classic_none_ht20 = some (Received.classic 0 1 false false)
row LayoutId.classic_none_ht20_stbc = some (Received.classic 0 1 false true)
row LayoutId.classic_below_non_ht = some (Received.classic 2 0 false false)
row LayoutId.classic_below_ht20 = some (Received.classic 2 1 false false)
row LayoutId.classic_below_ht20_stbc = some (Received.classic 2 1 false true)
row LayoutId.classic_below_ht40 = some (Received.classic 2 1 true false)
row LayoutId.classic_below_ht40_stbc = some (Received.classic 2 1 true true)
row LayoutId.classic_above_non_ht = some (Received.classic 1 0 false false)
row LayoutId.classic_above_ht20 = some (Received.classic 1 1 false false)
row LayoutId.classic_above_ht20_stbc = some (Received.classic 1 1 false true)
row LayoutId.classic_above_ht40 = some (Received.classic 1 1 true false)
row LayoutId.classic_above_ht40_stbc = some (Received.classic 1 1 true true)
row LayoutId.c5_lltf_none = some (Received.c5 1 0)
row LayoutId.c5_lltf_below = some (Received.c5 1 2)
row LayoutId.c5_lltf_above = some (Received.c5 1 1)
row LayoutId.c5_ht20_none = some (Received.c5 2 0)
row LayoutId.c5_ht20_none_stbc = some (Received.c5 2 0)
row LayoutId.c5_ht20_below = some (Received.c5 2 2)
row LayoutId.c5_ht20_below_stbc = some (Received.c5 2 2)
row LayoutId.c5_ht20_above = some (Received.c5 2 1)
row LayoutId.c5_ht20_above_stbc = some (Received.c5 2 1)
row LayoutId.c5_ht40 = some (Received.c5 2 1)
row LayoutId.c5_ht40_stbc = some (Received.c5 2 1)
row LayoutId.c5_he20_su = some (Received.c5 4 0)

-- A buffer with the metadata of a layout's row and the layout's length gets that layout, for
-- every layout but `Unknown`.
pub classify-row :
    (id : LayoutId) (r : Received) (n : ℕ)
    → row id ≡ some r
    → byte_len id ≡ some n
    → classify r n ≡ id
unfolding classify_classic classic_id checked classify_c5 c5_ht byte_len
classify-row LayoutId.unknown r n e k = cc
classify-row _ r n e k = ground arith
