-- ===== src/Wire/Tests.antt =====
-- tests
use esp_csi_rs.Base.{
  ◌*◌, ◌≤◌, ◌≡◌, refl, true, false, some, List, [], ◌∷◌, length, drop, replicate, arith,
}
use esp_csi_rs.Wire.{Bandwidth, HeaderDigest, LayoutId, PpduFormat}
use esp_csi_rs.Wire.Header.{frame_type, is_retry, parse, build_probe_frame}
use esp_csi_rs.Wire.Header.Probe.{parse-build_probe_frame}
use esp_csi_rs.Wire.Layout.{byte_len, indices}
use esp_csi_rs.Wire.Layout.Complete.{Received, classify, classify-row}
use esp_csi_rs.Wire.Layout.Laws.{byte_len-indices}
use esp_csi_rs.Wire.Setup.{StimulusParams, new_stimulus, rate_hz}
use esp_csi_rs.Wire.Setup.Rate.{rate_hz-antitone}
use esp_csi_rs.Samples.{board, peer}

parse-build_probe_frame_example :
    let (n, written) = build_probe_frame board peer (replicate 40 7) in
    (n ≡ 32)
    × (drop 32 written ≡ drop 32 (replicate 40 7))
    × ((h : HeaderDigest) × (parse written ≡ some h)
        × (h.addr1 ≡ peer)
        × (h.addr2 ≡ board)
        × (h.addr3 ≡ board)
        × (frame_type h ≡ 2)
        × (is_retry h ≡ false))
parse-build_probe_frame_example = parse-build_probe_frame board peer (replicate 40 7) (omega arith)

ht40_length : byte_len LayoutId.classic_above_ht40 ≡ some 384
unfolding byte_len
ht40_length = refl

classify-row_example : classify (Received.classic 1 1 true false) 384 ≡ LayoutId.classic_above_ht40
classify-row_example =
    classify-row LayoutId.classic_above_ht40 (Received.classic 1 1 true false) 384 refl ht40_length

byte_len-indices_example : 384 ≡ 2 * length (indices LayoutId.classic_above_ht40)
byte_len-indices_example = byte_len-indices LayoutId.classic_above_ht40 384 ht40_length

abbrev he_formats : List PpduFormat
he_formats = PpduFormat.he_su ∷ PpduFormat.he_tb ∷ []

abbrev fast : StimulusParams
fast = new_stimulus 1000 Bandwidth.mhz20

abbrev slow : StimulusParams
slow = new_stimulus 10_000 Bandwidth.mhz20

rate_hz-antitone_example :
    (1 ≤ rate_hz slow) × (rate_hz slow ≤ rate_hz fast) × (rate_hz fast ≤ 65535)
rate_hz-antitone_example = rate_hz-antitone fast slow (omega arith)
