-- ===== src/Esp/Tests.antt =====
-- tests
use esp_csi_rs.Base.{ℕ, ◌*◌, ◌≤◌, ◌≡◌, ◌⊎◌, refl, Option, none, some, List, length, unwrap_or}
use esp_csi_rs.Wire.{CsiFrame, CsiPayload, Chip, LayoutId, max_csi_bytes}
use esp_csi_rs.Wire.Layout.{indices}
use esp_csi_rs.Protocol.{ControlPacket}
use esp_csi_rs.Session.{boot}
use esp_csi_rs.Esp.{Radio, frame_from_esp}
use esp_csi_rs.Esp.Layouts.{frame_from_esp-layout}
use esp_csi_rs.Samples.{captured, legacy, measured}

abbrev nothing_read : List ℕ → Option (ControlPacket × List ℕ)
nothing_read bytes = none

-- What the classic radio's sample becomes.
abbrev built : CsiFrame
unfolding frame_from_esp
built =
    unwrap_or (frame_from_esp nothing_read Chip.esp32_s3 captured (Radio.classic legacy) boot).1
      measured

built_frame :
    (frame_from_esp nothing_read Chip.esp32_s3 captured (Radio.classic legacy) boot).1 ≡ some built
unfolding frame_from_esp
built_frame = refl

frame_from_esp-layout_example :
    (layout : LayoutId) × (built.payload
      ≡ CsiPayload.esp_raw Chip.esp32_s3 layout captured.first_word_invalid captured.buf)
    × (length captured.buf ≤ max_csi_bytes)
    × ((layout ≡ LayoutId.unknown) ⊎ (length captured.buf ≡ 2 * length (indices layout)))
frame_from_esp-layout_example =
    frame_from_esp-layout nothing_read Chip.esp32_s3 captured (Radio.classic legacy) boot built
      built_frame
