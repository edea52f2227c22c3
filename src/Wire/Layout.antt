-- ===== src/Wire/Layout.antt =====
-- src/lib/wire/layout.rs: how an Espressif CSI buffer maps onto subcarriers.
pub mod Classify
pub mod Laws
pub mod Complete
use esp_csi_rs.Base.{ℕ, zero, suc, ◌+◌, ◌-◌, ◌*◌, List, [], ◌∷◌, ◌++◌, map, Option, none, some}
use esp_csi_rs.Base.Int.{ℤ, pos, negsuc, pos_part, neg_part, succ}
use esp_csi_rs.Wire.{LayoutId}

pub data Ltf : Type 0 where
  lltf ht_ltf ht_ltf2 he_ltf : Ltf

-- An inclusive subcarrier range, `(i16, i16)`.
pub record Range : Type 0 where
  pub first : ℤ
  pub last : ℤ

pub record Segment : Type 0 where
  pub ltf : Ltf
  pub ranges : List Range

-- `(b - a + 1) as usize`, for a range that is not reversed, as all in the table are.
abbrev pub span : Range → ℕ
span r = pos_part r.last + neg_part r.first + 1 - (pos_part r.first + neg_part r.last)

-- `Segment::len`.
unfoldable pub segment_len : List Range → ℕ
segment_len [] = 0
segment_len (r ∷ rs) = span r + segment_len rs

-- `a..=b` as a list: `n` integers from `z` on.
unfoldable pub count_up : ℤ → ℕ → List ℤ
count_up z zero = []
count_up z (suc n) = z ∷ count_up (succ z) n

-- `Segment::indices`.
unfoldable pub segment_indices : List Range → List ℤ
unfolding count_up
segment_indices [] = []
segment_indices (r ∷ rs) = count_up r.first (span r) ++ segment_indices rs

-- The table's ranges: `up n` is 0..=n, `down n` is -n..=-1, `both n m` one after the other.
abbrev pub up : ℕ → List Range
up n = record { first = pos 0; last = pos n } ∷ []

abbrev pub down : ℕ → List Range
down n = record { first = negsuc (n - 1); last = negsuc 0 } ∷ []

abbrev pub both : ℕ → ℕ → List Range
both n m = up n ++ down m

abbrev pub seg : Ltf → List Range → Segment
seg l rs = record { ltf = l; ranges = rs }

-- `LayoutId::segments`.
unfoldable pub segments : LayoutId → List Segment
segments LayoutId.unknown = []
segments LayoutId.classic_none_non_ht = seg Ltf.lltf (both 31 32) ∷ []
segments LayoutId.classic_none_ht20 = seg Ltf.lltf (both 31 32) ∷ seg Ltf.ht_ltf (both 31 32) ∷ []
segments LayoutId.classic_none_ht20_stbc =
    seg Ltf.lltf (both 31 32) ∷ seg Ltf.ht_ltf (both 31 32) ∷ seg Ltf.ht_ltf2 (both 31 32) ∷ []
segments LayoutId.classic_below_non_ht = seg Ltf.lltf (up 63) ∷ []
segments LayoutId.classic_below_ht20 = seg Ltf.lltf (up 63) ∷ seg Ltf.ht_ltf (up 63) ∷ []
segments LayoutId.classic_below_ht20_stbc =
    seg Ltf.lltf (up 63) ∷ seg Ltf.ht_ltf (up 62) ∷ seg Ltf.ht_ltf2 (up 62) ∷ []
segments LayoutId.classic_below_ht40 = seg Ltf.lltf (up 63) ∷ seg Ltf.ht_ltf (both 63 64) ∷ []
segments LayoutId.classic_below_ht40_stbc =
    seg Ltf.lltf (up 63) ∷ seg Ltf.ht_ltf (both 60 60) ∷ seg Ltf.ht_ltf2 (both 60 60) ∷ []
segments LayoutId.classic_above_non_ht = seg Ltf.lltf (down 64) ∷ []
segments LayoutId.classic_above_ht20 = seg Ltf.lltf (down 64) ∷ seg Ltf.ht_ltf (down 64) ∷ []
segments LayoutId.classic_above_ht20_stbc =
    seg Ltf.lltf (down 64) ∷ seg Ltf.ht_ltf (down 62) ∷ seg Ltf.ht_ltf2 (down 62) ∷ []
segments LayoutId.classic_above_ht40 = seg Ltf.lltf (down 64) ∷ seg Ltf.ht_ltf (both 63 64) ∷ []
segments LayoutId.classic_above_ht40_stbc =
    seg Ltf.lltf (down 64) ∷ seg Ltf.ht_ltf (both 60 60) ∷ seg Ltf.ht_ltf2 (both 60 60) ∷ []
segments LayoutId.c5_lltf_none = seg Ltf.lltf (both 26 26) ∷ []
segments LayoutId.c5_lltf_below = seg Ltf.lltf (up 52) ∷ []
segments LayoutId.c5_lltf_above = seg Ltf.lltf (down 53) ∷ []
segments LayoutId.c5_ht20_none = seg Ltf.ht_ltf (both 28 28) ∷ []
segments LayoutId.c5_ht20_none_stbc =
    seg Ltf.ht_ltf (both 28 28) ∷ seg Ltf.ht_ltf2 (both 28 28) ∷ []
segments LayoutId.c5_ht20_below = seg Ltf.ht_ltf (up 56) ∷ []
segments LayoutId.c5_ht20_below_stbc = seg Ltf.ht_ltf (up 56) ∷ seg Ltf.ht_ltf2 (up 56) ∷ []
segments LayoutId.c5_ht20_above = seg Ltf.ht_ltf (down 57) ∷ []
segments LayoutId.c5_ht20_above_stbc = seg Ltf.ht_ltf (down 57) ∷ seg Ltf.ht_ltf2 (down 57) ∷ []
segments LayoutId.c5_ht40 = seg Ltf.ht_ltf (both 58 58) ∷ []
segments LayoutId.c5_ht40_stbc = seg Ltf.ht_ltf (both 58 58) ∷ seg Ltf.ht_ltf2 (both 58 58) ∷ []
segments LayoutId.c5_he20_su = seg Ltf.he_ltf (both 122 122) ∷ []

-- The sum that `byte_len` takes over the segments.
unfoldable pub total_len : List Segment → ℕ
unfolding segment_len
total_len [] = 0
total_len (s ∷ ss) = segment_len s.ranges + total_len ss

unfoldable pub segments_bytes : List Segment → Option ℕ
unfolding total_len
segments_bytes [] = none
segments_bytes (s ∷ ss) = some (total_len (s ∷ ss) * 2)

-- `LayoutId::byte_len`.
unfoldable pub byte_len : LayoutId → Option ℕ
unfolding segments segments_bytes
byte_len id = segments_bytes (segments id)

abbrev pub tag : Ltf → List ℤ → List (Ltf × ℤ)
tag l = map (λ i. (l, i))

-- `LayoutId::indices`.
unfoldable pub segments_indices : List Segment → List (Ltf × ℤ)
unfolding segment_indices
segments_indices [] = []
segments_indices (s ∷ ss) = tag s.ltf (segment_indices s.ranges) ++ segments_indices ss

unfoldable pub indices : LayoutId → List (Ltf × ℤ)
unfolding segments_indices segments
indices id = segments_indices (segments id)

-- `Ltf::spacing_hz`.
unfoldable pub spacing_hz : Ltf → ℕ
spacing_hz Ltf.he_ltf = 78_125
spacing_hz _ = 312_500
