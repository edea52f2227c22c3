-- ===== src/Wire/Layout/Laws.antt =====
-- The layout tables, their lengths and the classifiers together.
use esp_csi_rs.Base.{
  ℕ, zero, suc, ◌*◌, ◌≡◌, ◌≢◌, refl, ap, ◌∙◌, Bool, some, List, [], ◌∷◌, inl, inr, ◌==◌, Bool-cases,
  Option-cases, ==_iff, length, length-append, arith,
}
use esp_csi_rs.Base.Int.{ℤ, succ}
use esp_csi_rs.Wire.{LayoutId}
use esp_csi_rs.Wire.Layout.{
  Ltf, Range, Segment, span, segment_len, count_up, segment_indices, segments, total_len,
  segments_bytes, byte_len, segments_indices, indices, tag,
}
use esp_csi_rs.Wire.Layout.Classify.{checked, classify_classic, classify_c5, c5_ht}

length-count_up : (z : ℤ) (n : ℕ) → length (count_up z n) ≡ n
unfolding count_up
length-count_up z zero = refl
length-count_up z (suc n) = ap suc (length-count_up (succ z) n)

length-segment_indices : (rs : List Range) → length (segment_indices rs) ≡ segment_len rs
unfolding segment_indices segment_len
length-segment_indices [] = refl
length-segment_indices (r ∷ rs) = omega (
  arith,
  length-append (count_up r.first (span r)) (segment_indices rs),
  length-count_up r.first (span r),
  length-segment_indices rs,
)

length-tag : (l : Ltf) (is : List ℤ) → length (tag l is) ≡ length is
length-tag l [] = refl
length-tag l (i ∷ is) = ap suc (length-tag l is)

length-segments_indices : (ss : List Segment) → length (segments_indices ss) ≡ total_len ss
unfolding segments_indices total_len
length-segments_indices [] = refl
length-segments_indices (s ∷ ss) = omega (
  arith,
  length-append (tag s.ltf (segment_indices s.ranges)) (segments_indices ss),
  length-tag s.ltf (segment_indices s.ranges),
  length-segment_indices s.ranges,
  length-segments_indices ss,
)

segments_bytes-indices :
    (ss : List Segment) (n : ℕ) → segments_bytes ss ≡ some n → n ≡ 2 * length (segments_indices ss)
unfolding segments_bytes
segments_bytes-indices [] n e = cc
segments_bytes-indices (s ∷ ss) n e = ground (arith, length-segments_indices (s ∷ ss))

-- A layout with a length has one subcarrier index for each two bytes of it.
pub byte_len-indices : (id : LayoutId) (n : ℕ) → byte_len id ≡ some n → n ≡ 2 * length (indices id)
unfolding byte_len indices
byte_len-indices id n e = segments_bytes-indices (segments id) n e

checked_fits :
    (id : LayoutId) (len : ℕ)
    → checked id len ≢ LayoutId.unknown
    → byte_len (checked id len) ≡ some len
unfolding checked
checked_fits id len h = elim (Option-cases (byte_len id)) [
  | inl e ↦ absurd (h (rw (e, checked)))
  | inr (n, e) ↦ elim (Bool-cases (n == len)) [
    | inl same ↦ rw (e, checked) (rw same (e ∙ ap some ((==_iff n len).0 same)))
    | inr other ↦ absurd (h (rw (e, checked) (rw other)))
  ]
]

-- A classic buffer is given a layout only if the layout's table entry has the buffer's length.
pub classify_classic_fits :
    (secondary sig_mode : ℕ) (forty stbc : Bool) (len : ℕ)
    → classify_classic secondary sig_mode forty stbc len ≢ LayoutId.unknown
    → byte_len (classify_classic secondary sig_mode forty stbc len) ≡ some len
unfolding classify_classic
classify_classic_fits secondary sig_mode forty stbc len h = checked_fits _ len h

-- The same of a esp32c5 buffer, where the code makes no check of its own.
pub classify_c5_fits :
    (bb_format secondary len : ℕ)
    → classify_c5 bb_format secondary len ≢ LayoutId.unknown
    → byte_len (classify_c5 bb_format secondary len) ≡ some len
unfolding classify_c5 c5_ht byte_len
classify_c5_fits bb_format secondary len h = ground arith
