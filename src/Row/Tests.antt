-- ===== src/Row/Tests.antt =====
-- Examples on the rows.
use esp_csi_rs.Base.{◌≡◌, refl}
use esp_csi_rs.Packet.{packet_mac}
use esp_csi_rs.Config.{Build}
use esp_csi_rs.Samples.{packet, peer}
use esp_csi_rs.Row.{text_row}

-- The transmitter's address reaches the row.
row_mac : (text_row Build.classic (packet 3)).mac ≡ peer
unfolding text_row packet_mac
row_mac = refl
