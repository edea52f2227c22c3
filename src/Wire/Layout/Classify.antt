-- ===== src/Wire/Layout/Classify.antt =====
-- `LayoutId::checked`, `classify_classic` and `classify_c5`.
use esp_csi_rs.Base.{ℕ, Bool, ◌&&◌, ◌||◌, none, some, ◌==◌, if◌then◌else◌}
use esp_csi_rs.Wire.{LayoutId}
use esp_csi_rs.Wire.Layout.{byte_len}

unfoldable pub checked : LayoutId → ℕ → LayoutId
unfolding byte_len
checked id len = elim (byte_len id) [
  | none ↦ LayoutId.unknown
  | some n ↦ if n == len then id else LayoutId.unknown
]

-- The rows of the table for one raw secondary-channel code: non-HT, HT20, HT20 with STBC, HT40 and
-- HT40 with STBC, by `(sig_mode, forty, stbc)`.
abbrev pub pick : ℕ → Bool → Bool → LayoutId → LayoutId → LayoutId → LayoutId → LayoutId → LayoutId
pick sig_mode forty stbc non_ht ht20 ht20_stbc ht40 ht40_stbc =
    if sig_mode == 0
    then non_ht
    else if sig_mode == 1
    then if forty then if stbc then ht40_stbc else ht40 else if stbc then ht20_stbc else ht20
    else LayoutId.unknown

-- The `match` of `classify_classic`.
unfoldable pub classic_id : ℕ → ℕ → Bool → Bool → LayoutId
classic_id secondary sig_mode forty stbc =
    if secondary == 0
    then pick sig_mode forty stbc LayoutId.classic_none_non_ht LayoutId.classic_none_ht20
        LayoutId.classic_none_ht20_stbc LayoutId.unknown LayoutId.unknown
    else if secondary == 2
    then pick sig_mode forty stbc LayoutId.classic_below_non_ht LayoutId.classic_below_ht20
        LayoutId.classic_below_ht20_stbc LayoutId.classic_below_ht40
        LayoutId.classic_below_ht40_stbc
    else if secondary == 1
    then pick sig_mode forty stbc LayoutId.classic_above_non_ht LayoutId.classic_above_ht20
        LayoutId.classic_above_ht20_stbc LayoutId.classic_above_ht40
        LayoutId.classic_above_ht40_stbc
    else LayoutId.unknown

unfoldable pub classify_classic : ℕ → ℕ → Bool → Bool → ℕ → LayoutId
classify_classic secondary sig_mode forty stbc len =
    checked (classic_id secondary sig_mode forty stbc) len

-- The second `match` of `classify_c5`, arm by arm.
unfoldable pub c5_ht : ℕ → ℕ → ℕ → LayoutId
c5_ht bb_format secondary len =
    let ht_or_vht = bb_format == 2 || bb_format == 3 in
    let above_or_below = secondary == 1 || secondary == 2 in
    if ht_or_vht && (secondary == 0 && len == 114)
    then LayoutId.c5_ht20_none
    else if ht_or_vht && (secondary == 0 && len == 228)
    then LayoutId.c5_ht20_none_stbc
    else if bb_format == 2 && (secondary == 2 && len == 114)
    then LayoutId.c5_ht20_below
    else if bb_format == 2 && (secondary == 2 && len == 228)
    then LayoutId.c5_ht20_below_stbc
    else if bb_format == 2 && (secondary == 1 && len == 114)
    then LayoutId.c5_ht20_above
    else if bb_format == 2 && (secondary == 1 && len == 228)
    then LayoutId.c5_ht20_above_stbc
    else if bb_format == 2 && (above_or_below && len == 234)
    then LayoutId.c5_ht40
    else if bb_format == 2 && (above_or_below && len == 468)
    then LayoutId.c5_ht40_stbc
    else if bb_format == 4 && (secondary == 0 && len == 490)
    then LayoutId.c5_he20_su
    else LayoutId.unknown

unfoldable pub classify_c5 : ℕ → ℕ → ℕ → LayoutId
classify_c5 bb_format secondary len =
    if len == 106
    then if secondary == 0
      then LayoutId.c5_lltf_none
      else if secondary == 2
      then LayoutId.c5_lltf_below
      else if secondary == 1
      then LayoutId.c5_lltf_above
      else LayoutId.unknown
    else c5_ht bb_format secondary len
